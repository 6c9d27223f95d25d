-- ===== src/Directory/Lookup.antt =====
-- The lookup of a name, for a table whose entries in use have different names.
use native.Mathlib.Decide.{ℕ_discrete}
use non_os.Base.{
  ℕ, zero, suc, ◌+◌, ◌<◌, ◌≤◌, ◌≡◌, ◌≢◌, refl, ap, sym, ◌∙◌, true, false, Option, none, some, List,
  length, get_or-set_self, get_or-set_ne, arith, Bool-cases, inl, inr, ◌⊎◌,
}
use non_os.Directory.{
  Directory, DirectoryEntry, entry, set_entry, no_entry, is_named, file_name_max_len,
  find_index_from, find_index, find,
}
use non_os.Directory.Names.{clip, strncmp-clip, clip-strncmp}

-- What a directory compares of a name.
abbrev pub key : List ℕ → List ℕ
key name = clip file_name_max_len name

-- The table has its size, and no name twice.
pub record IsValid (d : Directory) : Type 0 where
  pub size : length d.table ≡ d.table_size
  pub distinct :
      (i j : ℕ)
      → i < d.table_size
      → j < d.table_size
      → (entry d i).in_use ≡ true
      → (entry d j).in_use ≡ true
      → key (entry d i).name ≡ key (entry d j).name
      → i ≡ j

pub is_named-key :
    (e : DirectoryEntry) (name : List ℕ)
    → is_named e name ≡ true
    → (e.in_use ≡ true) × (key e.name ≡ key name)
is_named-key e name h = (ground arith, strncmp-clip file_name_max_len e.name name (ground arith))

pub key-is_named :
    (e : DirectoryEntry) (name : List ℕ)
    → e.in_use ≡ true
    → key e.name ≡ key name
    → is_named e name ≡ true
key-is_named e name u h = rw (u, clip-strncmp file_name_max_len e.name name h) refl

pub other-is_named :
    (e : DirectoryEntry) (name : List ℕ) → key e.name ≢ key name → is_named e name ≡ false
other-is_named e name h = elim (Bool-cases (is_named e name)) [
  | inl e' ↦ absurd (h (is_named-key e name e').1)
  | inr e' ↦ e'
]

-- What the search from `i` on returns.
abbrev pub Searches : ℕ → ℕ → Directory → List ℕ → Option ℕ → Type 0
Searches left i d name r =
    (((j : ℕ) → i ≤ j → j < i + left → is_named (entry d j) name ≡ false) × (r ≡ none))
    ⊎ ((k : ℕ) × (k < i + left) × (is_named (entry d k) name ≡ true) × (r ≡ some k))

find_index_from-Searches :
    (left i : ℕ) (d : Directory) (name : List ℕ)
    → Searches left i d name (find_index_from left i d name)
unfolding find_index_from
find_index_from-Searches zero i d name = inl ((λ j p q. absurd (omega arith)), refl)
find_index_from-Searches (suc left) i d name = elim (Bool-cases (is_named (entry d i) name)) [
  | inl e ↦ rw e (inr (i, omega arith, e, refl))
  | inr e ↦ rw e (later e (find_index_from-Searches left (i + 1) d name))
]
  where
    later :
        {r : Option ℕ}
        → is_named (entry d i) name ≡ false
        → Searches left (i + 1) d name r
        → Searches (suc left) i d name r
    later e (inl (none_later, e')) = inl (
      (λ j p q. elim (ℕ_discrete i j) [
        | yes s ↦ rw (sym s) e
        | no n ↦ none_later j (omega arith) (omega arith)
      ]),
      e',
    )
    later e (inr (k, p, q, e')) = inr (k, omega arith, q, e')

find_index-Searches :
    (d : Directory) (name : List ℕ) → Searches d.table_size 0 d name (find_index d name)
unfolding find_index
find_index-Searches d name = find_index_from-Searches d.table_size 0 d name

-- An entry that has the name is the one that is found.
pub find_index-named :
    (d : Directory) (name : List ℕ) (i : ℕ)
    → IsValid d
    → i < d.table_size
    → is_named (entry d i) name ≡ true
    → find_index d name ≡ some i
find_index-named d name i v h e = go (find_index-Searches d name)
  where
    go : {r : Option ℕ} → Searches d.table_size 0 d name r → r ≡ some i
    go (inl (unnamed, q)) = absurd (differs (sym e ∙ unnamed i (omega arith) (omega arith)))
      where
        differs : true ≢ false
        differs e = cc
    go (inr (k, p, f, q)) = q ∙ ap some (v.distinct k i (omega arith) h a.0 b.0 (a.1 ∙ sym b.1))
      where
        a : ((entry d k).in_use ≡ true) × (key (entry d k).name ≡ key name)
        a = is_named-key (entry d k) name f

        b : ((entry d i).in_use ≡ true) × (key (entry d i).name ≡ key name)
        b = is_named-key (entry d i) name e

pub find_index-unnamed :
    (d : Directory) (name : List ℕ)
    → ((j : ℕ) → j < d.table_size → is_named (entry d j) name ≡ false)
    → find_index d name ≡ none
find_index-unnamed d name h = go (find_index-Searches d name)
  where
    go : {r : Option ℕ} → Searches d.table_size 0 d name r → r ≡ none
    go (inl (unnamed, q)) = q
    go (inr (k, p, f, q)) = absurd (differs (sym f ∙ h k (omega arith)))
      where
        differs : true ≢ false
        differs e = cc

-- A lookup by its outcome.
pub find_index-cases :
    (d : Directory) (name : List ℕ)
    → (((j : ℕ) → j < d.table_size → is_named (entry d j) name ≡ false)
        × (find_index d name ≡ none))
      ⊎ ((k : ℕ) × (k < d.table_size)
          × (is_named (entry d k) name ≡ true)
          × (find_index d name ≡ some k))
find_index-cases d name = go (find_index-Searches d name)
  where
    go :
        {r : Option ℕ}
        → Searches d.table_size 0 d name r
        → (((j : ℕ) → j < d.table_size → is_named (entry d j) name ≡ false) × (r ≡ none))
          ⊎ ((k : ℕ) × (k < d.table_size) × (is_named (entry d k) name ≡ true) × (r ≡ some k))
    go (inl (unnamed, q)) = inl ((λ j p. unnamed j (omega arith) (omega arith)), q)
    go (inr (k, p, f, q)) = inr (k, omega arith, f, q)

-- Entries after a change of one of them.
pub entry-set_self :
    (d : Directory) (k : ℕ) (e : DirectoryEntry)
    → IsValid d
    → k < d.table_size
    → entry (set_entry d k e) k ≡ e
entry-set_self d k e v h = get_or-set_self d.table k e no_entry (omega (arith, v.size))

pub entry-set_ne :
    (d : Directory) (k j : ℕ) (e : DirectoryEntry) → k ≢ j → entry (set_entry d k e) j ≡ entry d j
entry-set_ne d k j e n = get_or-set_ne d.table k j e no_entry n

pub find-none : (d : Directory) (name : List ℕ) → find_index d name ≡ none → find d name ≡ none
unfolding find
find-none d name q = ap (λ r. elim r [ none ↦ none | some i ↦ some (entry d i).sector ]) q

pub find-some :
    (d : Directory) (name : List ℕ) (i : ℕ)
    → find_index d name ≡ some i
    → find d name ≡ some (entry d i).sector
unfolding find
find-some d name i q = ap (λ r. elim r [ none ↦ none | some i ↦ some (entry d i).sector ]) q
