-- ===== src/Directory/Tests.antt =====
-- A directory of two entries, one of them with a name.
use non_os.Base.{ℕ, zero, suc, ◌<◌, ◌≡◌, refl, true, false, none, some, List, [], ◌∷◌, arith}
use non_os.Directory.{
  Directory, DirectoryEntry, entry, find, find_index, find_index_from, add, add_from, remove, init,
}
use non_os.Directory.Names.{strncmp, strncpy}
use non_os.Directory.Lookup.{IsValid}
use non_os.Directory.Laws.{Adds, Removes}
use non_os.Directory.Updates.{add-Adds, remove-Removes, init_empty}

abbrev unused : DirectoryEntry
unused = record { in_use = true; sector = 99; name = 120 ∷ [] }

abbrev empty : Directory
empty = init (unused ∷ unused ∷ []) 2

init_empty_example : IsValid empty × ((name : List ℕ) → find empty name ≡ none)
init_empty_example = init_empty (unused ∷ unused ∷ []) 2 refl

-- "ab" at sector 7.
abbrev one_file : Directory
one_file = record {
  table =
      record { in_use = true; sector = 7; name = 97 ∷ 98 ∷ 0 ∷ [] }
      ∷ record { in_use = false; sector = 0; name = [] }
      ∷ [];
  table_size = 2;
}

one_file-distinct :
    (i j : ℕ)
    → i < 2
    → j < 2
    → (entry one_file i).in_use ≡ true
    → (entry one_file j).in_use ≡ true
    → i ≡ j
one_file-distinct zero zero p q u w = refl
one_file-distinct zero (suc zero) p q u w = cc
one_file-distinct (suc zero) j p q u w = cc
one_file-distinct (suc (suc i)) j p q u w = absurd (omega arith)
one_file-distinct zero (suc (suc j)) p q u w = absurd (omega arith)

one_file-IsValid : IsValid one_file
one_file-IsValid = record { size = refl; distinct = λ i j p q u w s. one_file-distinct i j p q u w }

-- "cd"
abbrev other_name : List ℕ
other_name = 99 ∷ 100 ∷ []

add-Adds_example : Adds one_file other_name 8 (add one_file other_name 8)
add-Adds_example = add-Adds one_file other_name 8 one_file-IsValid

remove-Removes_example : Removes one_file (97 ∷ 98 ∷ []) (remove one_file (97 ∷ 98 ∷ []))
remove-Removes_example = remove-Removes one_file (97 ∷ 98 ∷ []) one_file-IsValid

-- "ab" is found, and so is "cd" in the other entry after it was added.
found_first : find one_file (97 ∷ 98 ∷ []) ≡ some 7
unfolding find find_index find_index_from strncmp strncpy
found_first = refl

found_added : find (add one_file other_name 8).1 other_name ≡ some 8
unfolding find find_index find_index_from strncmp strncpy add add_from
found_added = refl
