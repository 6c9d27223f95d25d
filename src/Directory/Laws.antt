-- ===== src/Directory/Laws.antt =====
-- A change of one entry of a directory, and what `Add` and `Remove` can do.
use native.Mathlib.Decide.{ℕ_discrete}
use non_os.Base.{
  ℕ, ◌<◌, ◌≡◌, ◌≢◌, ap, sym, ◌∙◌, Bool, true, false, none, some, List, length-set, inl, inr, ◌⊎◌,
}
use non_os.Directory.{Directory, DirectoryEntry, entry, set_entry, is_named, find}
use non_os.Directory.Lookup.{
  key, IsValid, find_index-named, find_index-unnamed, find_index-cases, find-none, find-some,
  entry-set_self, entry-set_ne,
}

-- A change of the entry `k`, which the name has neither before nor after, leaves the lookup.
pub find-set_entry :
    (d : Directory) (k : ℕ) (e : DirectoryEntry) (name : List ℕ)
    → IsValid d
    → IsValid (set_entry d k e)
    → k < d.table_size
    → is_named (entry d k) name ≡ false
    → is_named e name ≡ false
    → find (set_entry d k e) name ≡ find d name
find-set_entry d k e name v v' h b a = elim (find_index-cases d name) [
  | inl (unnamed, q) ↦
      find-none (set_entry d k e) name
        (find_index-unnamed (set_entry d k e) name (still_unnamed unnamed))
      ∙ sym (find-none d name q)
  | inr (i, p, f, q) ↦
      find-some (set_entry d k e) name i
        (find_index-named (set_entry d k e) name i v' p (kept i f ∙ f))
      ∙ ap (λ (x : DirectoryEntry). some x.sector) (entry-set_ne d k i e (elsewhere i f))
      ∙ sym (find-some d name i q)
]
  where
    elsewhere : (i : ℕ) → is_named (entry d i) name ≡ true → k ≢ i
    elsewhere i f s = differs (sym f ∙ ap (λ (t : ℕ). is_named (entry d t) name) (sym s) ∙ b)
      where
        differs : true ≢ false
        differs x = cc

    kept :
        (i : ℕ)
        → is_named (entry d i) name ≡ true
        → is_named (entry (set_entry d k e) i) name ≡ is_named (entry d i) name
    kept i f = ap (λ x. is_named x name) (entry-set_ne d k i e (elsewhere i f))

    still_unnamed :
        ((j : ℕ) → j < d.table_size → is_named (entry d j) name ≡ false)
        → (j : ℕ) → j < d.table_size
        → is_named (entry (set_entry d k e) j) name ≡ false
    still_unnamed unnamed j p = elim (ℕ_discrete k j) [
      | yes s ↦
          ap (λ (t : ℕ). is_named (entry (set_entry d k e) t) name) (sym s)
          ∙ ap (λ x. is_named x name) (entry-set_self d k e v h)
          ∙ a
      | no n ↦ ap (λ x. is_named x name) (entry-set_ne d k j e n) ∙ unnamed j p
    ]

-- A directory stays valid when an entry gets a name that no other entry has, or none.
pub set_entry-IsValid :
    (d : Directory) (k : ℕ) (e : DirectoryEntry)
    → IsValid d
    → k < d.table_size
    → (e.in_use ≡ true
        → (j : ℕ) → j < d.table_size
        → k ≢ j
        → (entry d j).in_use ≡ true
        → key (entry d j).name ≢ key e.name)
    → IsValid (set_entry d k e)
set_entry-IsValid d k e v h fresh = record {
  size = length-set d.table k e ∙ v.size;
  distinct = λ i j p q u w s. elim (ℕ_discrete k i) [
    | yes a ↦ elim (ℕ_discrete k j) [
      | yes b ↦ sym a ∙ b
      | no n ↦
          absurd
            (fresh (used_self i a u) j q n (used_ne j n w) (name_ne j n ∙ sym s ∙ name_self i a))
    ]
    | no m ↦ elim (ℕ_discrete k j) [
      | yes b ↦
          absurd (fresh (used_self j b w) i p m (used_ne i m u) (name_ne i m ∙ s ∙ name_self j b))
      | no n ↦
          v.distinct i j p q (used_ne i m u) (used_ne j n w) (name_ne i m ∙ s ∙ sym (name_ne j n))
    ]
  ];
}
  where
    after : Directory
    after = set_entry d k e

    same : (i : ℕ) → k ≡ i → entry after i ≡ e
    same i a = ap (λ (t : ℕ). entry after t) (sym a) ∙ entry-set_self d k e v h

    used_self : (i : ℕ) → k ≡ i → (entry after i).in_use ≡ true → e.in_use ≡ true
    used_self i a u = sym (ap (λ (x : DirectoryEntry). x.in_use) (same i a)) ∙ u

    name_self : (i : ℕ) → k ≡ i → key (entry after i).name ≡ key e.name
    name_self i a = ap (λ (x : DirectoryEntry). key x.name) (same i a)

    used_ne : (i : ℕ) → k ≢ i → (entry after i).in_use ≡ true → (entry d i).in_use ≡ true
    used_ne i n u = sym (ap (λ (x : DirectoryEntry). x.in_use) (entry-set_ne d k i e n)) ∙ u

    name_ne : (i : ℕ) → k ≢ i → key (entry d i).name ≡ key (entry after i).name
    name_ne i n = sym (ap (λ (x : DirectoryEntry). key x.name) (entry-set_ne d k i e n))

-- Every other name is looked up as before.
abbrev pub OthersKept : Directory → Directory → List ℕ → Type 0
OthersKept d d' name = (other : List ℕ) → key other ≢ key name → find d' other ≡ find d other

-- What `Remove` can do.
abbrev pub Removes : Directory → List ℕ → Bool × Directory → Type 0
Removes d name r =
    ((find d name ≡ none) × (r ≡ (false, d)))
    ⊎ ((s : ℕ) × (d' : Directory) × (find d name ≡ some s)
        × (r ≡ (true, d'))
        × IsValid d'
        × (find d' name ≡ none)
        × OthersKept d d' name)

-- What `Add` can do.
abbrev pub Adds : Directory → List ℕ → ℕ → Bool × Directory → Type 0
Adds d name s r =
    ((r ≡ (false, d))
      × (((t : ℕ) × (find d name ≡ some t))
          ⊎ ((j : ℕ) → j < d.table_size → (entry d j).in_use ≡ true)))
    ⊎ ((d' : Directory) × (find d name ≡ none)
        × (r ≡ (true, d'))
        × IsValid d'
        × (find d' name ≡ some s)
        × OthersKept d d' name)
