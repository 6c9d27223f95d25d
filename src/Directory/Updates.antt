-- ===== src/Directory/Updates.antt =====
-- `Directory` as a map from names to sectors: the constructor, `Add` and `Remove`.
use non_os.Base.{
  ℕ, zero, suc, ◌+◌, ◌<◌, ◌≡◌, ◌≢◌, refl, ap, sym, ◌∙◌, true, false, ◌&&◌, none, some, List, length,
  length-set, get_or-set_self, arith, Bool-cases, inl, inr,
}
use native.Mathlib.Decide.{ℕ_discrete}
use non_os.Directory.{
  Directory, DirectoryEntry, entry, set_entry, no_entry, is_named, fill_entry, file_name_max_len,
  find_index, find, add_from, add, remove, init, clear_entries,
}
use non_os.Directory.Names.{strncmp, clip-strncpy}
use non_os.Directory.Lookup.{
  key, IsValid, is_named-key, key-is_named, other-is_named, find_index-named, find_index-unnamed,
  find_index-cases, find-none, find-some, entry-set_self, entry-set_ne,
}
use non_os.Directory.Laws.{find-set_entry, set_entry-IsValid, OthersKept, Removes, Adds}

-- An entry that goes out of use.
abbrev freed : DirectoryEntry → DirectoryEntry
freed e = record e { in_use = false }

remove_found :
    (d : Directory) (name : List ℕ) (k : ℕ)
    → IsValid d
    → k < d.table_size
    → is_named (entry d k) name ≡ true
    → find_index d name ≡ some k
    → Removes d name (true, set_entry d k (freed (entry d k)))
remove_found d name k v h f q = inr (
  (entry d k).sector,
  d',
  find-some d name k q,
  refl,
  v',
  find-none d' name (find_index-unnamed d' name gone),
  others,
)
  where
    d' : Directory
    d' = set_entry d k (freed (entry d k))

    v' : IsValid d'
    v' = set_entry-IsValid d k (freed (entry d k)) v h (λ u. absurd (differs u))
      where
        differs : false ≢ true
        differs e = cc

    named : ((entry d k).in_use ≡ true) × (key (entry d k).name ≡ key name)
    named = is_named-key (entry d k) name f

    gone : (j : ℕ) → j < d.table_size → is_named (entry d' j) name ≡ false
    gone j p = elim (ℕ_discrete k j) [
      | yes e ↦
          ap (λ (t : ℕ). is_named (entry d' t) name) (sym e)
          ∙ ap (λ x. is_named x name) (entry-set_self d k (freed (entry d k)) v h)
      | no n ↦
          ap (λ x. is_named x name) (entry-set_ne d k j (freed (entry d k)) n)
          ∙ elim (Bool-cases (is_named (entry d j) name)) [
            | inl e ↦ absurd (
                n (
                  v.distinct k j h p named.0 (is_named-key (entry d j) name e).0
                    (named.1 ∙ sym (is_named-key (entry d j) name e).1)))
            | inr e ↦ e
          ]
    ]

    others : OthersKept d d' name
    others other o =
        find-set_entry d k (freed (entry d k)) other v v' h
          (other-is_named (entry d k) other (λ e. o (sym e ∙ named.1))) refl

-- Remove of a directory with no name twice: a name that Find does not find, and nothing changes; or
-- it returns TRUE, the name is no longer found, every name with other first nine characters is looked
-- up as before, and no name is there twice.
pub remove-Removes : (d : Directory) (name : List ℕ) → IsValid d → Removes d name (remove d name)
unfolding remove
remove-Removes d name v = elim (find_index-cases d name) [
  | inl (unnamed, q) ↦ rw (q, remove) (inl (find-none d name q, refl))
  | inr (k, h, f, q) ↦ rw (q, remove) (remove_found d name k v h f q)
]

add_free :
    (d : Directory) (name : List ℕ) (s k : ℕ)
    → IsValid d
    → k < d.table_size
    → (entry d k).in_use ≡ false
    → ((j : ℕ) → j < d.table_size → is_named (entry d j) name ≡ false)
    → Adds d name s (true, set_entry d k (fill_entry (entry d k) name s))
add_free d name s k v h free unnamed =
    inr (d', find-none d name (find_index-unnamed d name unnamed), refl, v', found, others)
  where
    e' : DirectoryEntry
    e' = fill_entry (entry d k) name s

    d' : Directory
    d' = set_entry d k e'

    copied : key e'.name ≡ key name
    copied = clip-strncpy file_name_max_len (entry d k).name name

    differs : false ≢ true
    differs e = cc

    v' : IsValid d'
    v' =
        set_entry-IsValid d k e' v h (λ u j p n w x.
          differs (sym (unnamed j p) ∙ key-is_named (entry d j) name w (x ∙ copied)))

    at_k : entry d' k ≡ e'
    at_k = entry-set_self d k e' v h

    found : find d' name ≡ some s
    found =
        find-some d' name k (
          find_index-named d' name k v' h
            (ap (λ x. is_named x name) at_k ∙ key-is_named e' name refl copied))
        ∙ ap (λ (x : DirectoryEntry). some x.sector) at_k

    others : OthersKept d d' name
    others other o =
        find-set_entry d k e' other v v' h
          (ap (λ t. t && strncmp file_name_max_len (entry d k).name other) free)
          (other-is_named e' other (λ x. o (sym x ∙ copied)))

add_from-Adds :
    (left i : ℕ) (d : Directory) (name : List ℕ) (s : ℕ)
    → IsValid d
    → i + left ≡ d.table_size
    → ((j : ℕ) → j < d.table_size → is_named (entry d j) name ≡ false)
    → ((j : ℕ) → j < i → (entry d j).in_use ≡ true)
    → Adds d name s (add_from left i d name s)
unfolding add_from
add_from-Adds zero i d name s v h unnamed full = inl (refl, inr (λ j p. full j (omega arith)))
add_from-Adds (suc left) i d name s v h unnamed full = elim (Bool-cases (entry d i).in_use) [
  | inl used ↦ rw used (
      add_from-Adds left (i + 1) d name s v (omega arith) unnamed (λ j p. elim (ℕ_discrete i j) [
        | yes e ↦ ap (λ (t : ℕ). (entry d t).in_use) (sym e) ∙ used
        | no n ↦ full j (omega arith)
      ]))
  | inr free ↦ rw free (add_free d name s i v (omega arith) free unnamed)
]

-- Add to a directory with no name twice: it returns FALSE with nothing changed where the name is
-- found already or every entry is in use; otherwise it returns TRUE, the name, which was not there,
-- is found with the new sector, every name with other first nine characters is looked up as before,
-- and no name is there twice.
pub add-Adds : (d : Directory) (name : List ℕ) (s : ℕ) → IsValid d → Adds d name s (add d name s)
unfolding add
add-Adds d name s v = elim (find_index-cases d name) [
  | inl (unnamed, q) ↦
      rw (q, add)
        (add_from-Adds d.table_size 0 d name s v (omega arith) unnamed
          (λ j p. absurd (omega arith)))
  | inr (k, h, f, q) ↦ rw (q, add) (inl (refl, inl ((entry d k).sector, find-some d name k q)))
]

-- Which entries the constructor's loop has put out of use.
record IsCleared (d d' : Directory) : Type 0 where
  size : length d'.table ≡ d.table_size
  same_size : d'.table_size ≡ d.table_size
  unused : (j : ℕ) → j < d.table_size → (entry d' j).in_use ≡ false

-- The table's size is all that counts of the directory at the start.
IsCleared-set :
    (d : Directory) (i : ℕ) (e : DirectoryEntry) (d' : Directory)
    → IsCleared (set_entry d i e) d'
    → IsCleared d d'
IsCleared-set d i e d' r = record { size = r.size; same_size = r.same_size; unused = r.unused }

clear_entries-IsCleared :
    (left i : ℕ) (d : Directory)
    → length d.table ≡ d.table_size
    → i + left ≡ d.table_size
    → ((j : ℕ) → j < i → (entry d j).in_use ≡ false)
    → IsCleared d (clear_entries left i d)
unfolding clear_entries
clear_entries-IsCleared zero i d l h free = record {
  size = l;
  same_size = refl;
  unused = λ j p. free j (omega arith);
}
clear_entries-IsCleared (suc left) i d l h free = IsCleared-set d i (freed (entry d i)) _ (
    clear_entries-IsCleared left (i + 1) d' (length-set d.table i (freed (entry d i)) ∙ l)
      (omega arith) free')
  where
    d' : Directory
    d' = set_entry d i (freed (entry d i))

    free' : (j : ℕ) → j < i + 1 → (entry d' j).in_use ≡ false
    free' j p = elim (ℕ_discrete i j) [
      | yes e ↦
          ap (λ (t : ℕ). (entry d' t).in_use) (sym e)
          ∙ ap (λ (x : DirectoryEntry). x.in_use)
              (get_or-set_self d.table i (freed (entry d i)) no_entry (omega (arith, l)))
      | no n ↦
          ap (λ (x : DirectoryEntry). x.in_use) (entry-set_ne d i j (freed (entry d i)) n)
          ∙ free j (omega arith)
    ]

-- The constructor, whatever the new array holds: no name is there twice, and none is found.
pub init_empty :
    (memory : List DirectoryEntry) (size : ℕ)
    → length memory ≡ size
    → IsValid (init memory size) × ((name : List ℕ) → find (init memory size) name ≡ none)
unfolding init
init_empty memory size l = (
  record {
    size = r.size ∙ sym r.same_size;
    distinct =
        λ i j p q u w s. absurd (differs (sym (r.unused i (omega (arith, r.same_size))) ∙ u));
  },
  λ name. find-none d' name (
      find_index-unnamed d' name (λ j p.
        ap (λ t. t && strncmp file_name_max_len (entry d' j).name name)
          (r.unused j (omega (arith, r.same_size))))),
)
  where
    d' : Directory
    d' = clear_entries size 0 (record { table = memory; table_size = size })

    r : IsCleared (record { table = memory; table_size = size }) d'
    r =
        clear_entries-IsCleared size 0 (record { table = memory; table_size = size }) l
          (omega arith) (λ j p. absurd (omega arith))

    differs : false ≢ true
    differs e = cc
