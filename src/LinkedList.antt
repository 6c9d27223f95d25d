-- ===== src/LinkedList.antt =====
-- code/threads/list.h and code/threads/list.cc: the singly linked list, on a store of its elements. An
-- address is an index of the store; `new` takes the next one, `delete` empties one. An access through
-- a null pointer or to a deleted element aborts. Keys are times and priorities, never negative.
pub mod Chain
pub mod Ends
pub mod Sorted
pub mod Insertion
mod Tests
use non_os.Base.{
  ℕ, zero, suc, ◌+◌, Bool, true, false, not, Option, none, some, List, [], ◌∷◌, ◌++◌, ltb, ◌==◌,
  if◌then◌else◌, length, get_or, set, Outcome, done, aborted, ◌>>=◌, ◌>>◌,
}

pub record ListElement {ℓ} (A : Type ℓ) : Type ℓ where
  pub item : A
  pub key : ℕ
  pub next : Option ℕ

abbrev pub Store {ℓ} : Type ℓ → Type ℓ
Store A = List (Option (ListElement A))

pub record LinkedList : Type 0 where
  pub first : Option ℕ
  pub last : Option ℕ

abbrev pub same_pointer : Option ℕ → Option ℕ → Bool
same_pointer none none = true
same_pointer (some p) (some q) = p == q
same_pointer _ _ = false

abbrev pub is_empty : LinkedList → Bool
is_empty l = same_pointer l.first none

module _ {ℓ} {A : Type ℓ} where
  abbrev pub cell : Store A → ℕ → Option (ListElement A)
  cell h p = get_or h p none

  -- `*p`
  abbrev pub deref : Store A → Option ℕ → Outcome (ListElement A)
  deref h none = aborted
  deref h (some p) = elim (cell h p) [ none ↦ aborted | some e ↦ done e ]

  -- `p->next = q`
  abbrev pub set_next : Store A → Option ℕ → Option ℕ → Outcome (Store A)
  set_next h none q = aborted
  set_next h (some p) q = elim (cell h p) [
    | none ↦ aborted
    | some e ↦ done (set h p (some (record e { next = q })))
  ]

  -- `new ListElement(item, sortKey)`, at the address `length h`.
  abbrev pub new_element : Store A → A → ℕ → Store A
  new_element h item sort_key = h ++ some (record { item = item; key = sort_key; next = none }) ∷ []

  -- `delete p`
  abbrev pub delete : Store A → Option ℕ → Store A
  delete h none = h
  delete h (some p) = set h p none

  pub append : LinkedList → Store A → A → Outcome (LinkedList × Store A)
  append l h item =
      let p = length h in
      let h₁ = new_element h item 0 in
      if is_empty l
      then done (record { first = some p; last = some p }, h₁)
      else set_next h₁ l.last (some p) >>= λ h₂. done (record l { last = some p }, h₂)

  pub prepend : LinkedList → Store A → A → Outcome (LinkedList × Store A)
  prepend l h item =
      let p = length h in
      let h₁ = new_element h item 0 in
      if is_empty l
      then done (record { first = some p; last = some p }, h₁)
      else set_next h₁ (some p) l.first >>= λ h₂. done (record l { first = some p }, h₂)

  -- The item with its key, which the caller of `Remove` drops.
  pub sorted_remove : LinkedList → Store A → Outcome (Option (ℕ × A) × LinkedList × Store A)
  sorted_remove l h =
      if is_empty l
      then done (none, l, h)
      else deref h l.first >>= λ element. done (
        some (element.key, element.item),
        if same_pointer l.first l.last
            then record { first = none; last = none }
            else record l { first = element.next },
        delete h l.first,
      )

  pub remove : LinkedList → Store A → Outcome (Option A × LinkedList × Store A)
  remove l h =
      sorted_remove l h >>= λ r. done (elim r.0 [ none ↦ none | some e ↦ some e.1 ], r.1, r.2)

  -- The loop of `SortedInsert` for the element at `p`, from `ptr` on. `left` bounds the rounds.
  pub insert_after : ℕ → ℕ → LinkedList → Store A → ℕ → ℕ → Outcome (LinkedList × Store A)
  insert_after zero ptr l h p sort_key = aborted
  insert_after (suc left) ptr l h p sort_key = deref h (some ptr) >>= λ e. elim e.next [
    | none ↦ set_next h l.last (some p) >>= λ h'. done (record l { last = some p }, h')
    | some q ↦ deref h (some q) >>= λ f.
        let later = insert_after left q l h p sort_key in
        if ltb sort_key f.key
        then (set_next h (some p) (some q) >>= λ h₁.
            set_next h₁ (some ptr) (some p) >>= λ h₂. done (l, h₂))
        else later
  ]

  pub sorted_insert : LinkedList → Store A → A → ℕ → Outcome (LinkedList × Store A)
  sorted_insert l h item sort_key =
      let p = length h in
      let h₁ = new_element h item sort_key in
      elim l.first [
        | none ↦ done (record { first = some p; last = some p }, h₁)
        | some head ↦ deref h₁ (some head) >>= λ e.
            if ltb sort_key e.key
            then (set_next h₁ (some p) (some head) >>= λ h₂. done (record l { first = some p }, h₂))
            else insert_after (length h) head l h₁ p sort_key
      ]
