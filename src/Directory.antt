-- ===== src/Directory.antt =====
-- code/filesys/directory.h and code/filesys/directory.cc: the table of a directory's entries. A name is
-- a list of characters, as far as a C string is read: what lies past the list's end reads as NUL.
pub mod Names
pub mod Lookup
pub mod Laws
pub mod Updates
mod Tests
use non_os.Base.{
  ℕ, zero, suc, ◌+◌, Bool, true, false, not, ◌&&◌, ◌||◌, Option, none, some, List, [], ◌∷◌, ◌==◌,
  if◌then◌else◌, get_or, set,
}
use Names.{strncmp, strncpy}

abbrev pub file_name_max_len : ℕ
file_name_max_len = 9

-- `name` is an array of `FileNameMaxLen + 1` characters.
pub record DirectoryEntry : Type 0 where
  pub in_use : Bool
  pub sector : ℕ
  pub name : List ℕ

pub record Directory : Type 0 where
  pub table : List DirectoryEntry
  pub table_size : ℕ

-- What a read past the table's end would give. No theorem rests on it.
abbrev pub no_entry : DirectoryEntry
no_entry = record { in_use = false; sector = 0; name = [] }

abbrev pub entry : Directory → ℕ → DirectoryEntry
entry d i = get_or d.table i no_entry

abbrev pub set_entry : Directory → ℕ → DirectoryEntry → Directory
set_entry d i e = record d { table = set d.table i e }

-- `for (…; i < tableSize; i++) table[i].inUse = FALSE;` with the rounds that are left.
pub clear_entries : ℕ → ℕ → Directory → Directory
clear_entries zero i d = d
clear_entries (suc left) i d =
    clear_entries left (i + 1) (set_entry d i (record (entry d i) { in_use = false }))

-- The constructor. `memory` is what the array from `new` happens to hold.
pub init : List DirectoryEntry → ℕ → Directory
init memory size = clear_entries size 0 (record { table = memory; table_size = size })

-- `table[i].inUse && !strncmp(table[i].name, name, FileNameMaxLen)`
abbrev pub is_named : DirectoryEntry → List ℕ → Bool
is_named e name = e.in_use && strncmp file_name_max_len e.name name

-- The loop of `FindIndex`; `none` is -1.
pub find_index_from : ℕ → ℕ → Directory → List ℕ → Option ℕ
find_index_from zero i d name = none
find_index_from (suc left) i d name =
    let rest = find_index_from left (i + 1) d name in
    if is_named (entry d i) name then some i else rest

pub find_index : Directory → List ℕ → Option ℕ
find_index d name = find_index_from d.table_size 0 d name

pub find : Directory → List ℕ → Option ℕ
find d name = elim (find_index d name) [ none ↦ none | some i ↦ some (entry d i).sector ]

-- The entry that `Add` fills in.
abbrev pub fill_entry : DirectoryEntry → List ℕ → ℕ → DirectoryEntry
fill_entry e name new_sector = record {
  in_use = true;
  sector = new_sector;
  name = strncpy file_name_max_len e.name name;
}

-- The loop of `Add`.
pub add_from : ℕ → ℕ → Directory → List ℕ → ℕ → Bool × Directory
add_from zero i d name new_sector = (false, d)
add_from (suc left) i d name new_sector =
    let rest = add_from left (i + 1) d name new_sector in
    if not (entry d i).in_use
    then (true, set_entry d i (fill_entry (entry d i) name new_sector))
    else rest

pub add : Directory → List ℕ → ℕ → Bool × Directory
add d name new_sector = elim (find_index d name) [
  | some i ↦ (false, d)
  | none ↦ add_from d.table_size 0 d name new_sector
]

pub remove : Directory → List ℕ → Bool × Directory
remove d name = elim (find_index d name) [
  | none ↦ (false, d)
  | some i ↦ (true, set_entry d i (record (entry d i) { in_use = false }))
]
