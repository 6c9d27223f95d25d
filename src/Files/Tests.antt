-- ===== src/Files/Tests.antt =====
-- A file of 29 sectors on a disk, with its undirected block, and what the operations do to it.
use non_os.Base.{
  ℕ, zero, suc, ◌+◌, ◌^◌, ◌<◌, ◌≤◌, ◌≡◌, ◌≢◌, refl, ap, sym, ◌∙◌, inl, inr, Bool, true, false, ◌&&◌,
  Bool-cases, List, [], ◌∷◌, ◌++◌, replicate, length-replicate, set, length, get_or, All, Distinct,
  done, aborted, arith,
}
use non_os.BitMap.{BitMap}
use non_os.BitMap.View.{is_set}
use non_os.Base.Apart.{All-append}
use non_os.Base.Bits.{bit_at}
use non_os.Machine.Bytes.{load_bytes}
use non_os.Files.{
  Disk, FileHeader, data_sector, byte_to_sector, fetch_from, read_sector, from_bytes, to_bytes,
  write_back, read_at, write_at, slice, is_directory, is_data_file, is_root,
}
use non_os.Files.Buffers.{fetch_from-write_back, get_or-append_left}
use non_os.Files.Contents.{IsDisk}
use non_os.Files.Writes.{IsDisk-set, Writes, write_at-Writes}
use non_os.Files.ReadBack.{read_at-write_at}
use non_os.Files.Sectors.{byte_to_sector-finds}
use non_os.Files.Space.{Extended, extend, deallocate}
use non_os.Files.Space.Direct.{InUse}
use non_os.Files.Space.Fill.{IsBlock}
use non_os.Files.Space.Entries.{Lists}
use non_os.Files.Space.Indexed.{IsIndexed, IsIndexed-IsUndirected}
use non_os.Files.Space.Whole.{IsFile, IsFile-Occupies, Extends, extend-Extends}
use non_os.Files.Space.Release.{deallocate-no_block}
use non_os.Files.Space.Return.{Releases, deallocate-Releases}

-- The numbers `i`, `i + 1`, … , `n` of them.
abbrev numbers_from : ℕ → ℕ → List ℕ
numbers_from i zero = []
numbers_from i (suc n) = i ∷ numbers_from (i + 1) n

abbrev all : (ℕ → Bool) → List ℕ → Bool
all f [] = true
all f (x ∷ xs) = f x && all f xs

all-All : (f : ℕ → Bool) (xs : List ℕ) → all f xs ≡ true → All (λ x. f x ≡ true) xs
all-All f [] e = tt
all-All f (x ∷ xs) e = elim (Bool-cases (f x)) [
  | inl h ↦ (h, all-All f xs (sym (ap (λ b. b && all f xs) h) ∙ e))
  | inr h ↦ absurd (differs (sym (ap (λ b. b && all f xs) h) ∙ e))
]
  where
    differs : false ≢ true
    differs e = cc

All-numbers_from :
    (P : ℕ → Type 0) (n i : ℕ) → ((j : ℕ) → i ≤ j → j < i + n → P j) → All P (numbers_from i n)
All-numbers_from P zero i h = tt
All-numbers_from P (suc n) i h = (
  h i (omega arith) (omega arith),
  All-numbers_from P n (i + 1) (λ j p q. h j (omega arith) (omega arith)),
)

Distinct-numbers_from : (n i : ℕ) → Distinct (numbers_from i n)
Distinct-numbers_from zero i = tt
Distinct-numbers_from (suc n) i = (
  All-numbers_from (λ y. i ≢ y) n (i + 1) (λ j p q. omega arith),
  Distinct-numbers_from n (i + 1),
)

get_or-numbers_from : (n i j : ℕ) → j < n → get_or (numbers_from i n) j 0 ≡ i + j
get_or-numbers_from zero i j h = absurd (omega arith)
get_or-numbers_from (suc n) i zero h = omega arith
get_or-numbers_from (suc n) i (suc j) h =
    get_or-numbers_from n (i + 1) j (omega arith) ∙ omega arith

get_or-replicate : (n i : ℕ) (bytes : List ℕ) → i < n → get_or (replicate n bytes) i [] ≡ bytes
get_or-replicate zero i bytes h = absurd (omega arith)
get_or-replicate (suc n) zero bytes h = refl
get_or-replicate (suc n) (suc i) bytes h = get_or-replicate n i bytes (omega arith)

abbrev sectors : List ℕ
sectors = numbers_from 10 29

abbrev header : FileHeader
header = record {
  kind = 0;
  num_bytes = 3712;
  num_sectors = 29;
  data_sectors = numbers_from 10 28 ++ 5 ∷ [];
}

abbrev block_header : FileHeader
block_header = record {
  kind = 0;
  num_bytes = 4;
  num_sectors = 1;
  data_sectors = 6 ∷ replicate 28 0;
}

abbrev blank : Disk
blank = replicate 1024 (replicate 128 0)

abbrev block_bytes : List ℕ
block_bytes = to_bytes (0 ∷ 4 ∷ 1 ∷ 6 ∷ replicate 28 0)

abbrev disk : Disk
disk = set (set blank 5 block_bytes) 6 (to_bytes (38 ∷ replicate 31 0))

abbrev free_map : BitMap
free_map = record { num_bits = 1024; num_words = 32; map = 4294966368 ∷ 127 ∷ replicate 30 0 }

disk-IsDisk : IsDisk disk
unfolding to_bytes
disk-IsDisk =
    IsDisk-set (set blank 5 block_bytes) 6 (to_bytes (38 ∷ replicate 31 0))
      (IsDisk-set blank 5 block_bytes
        (record {
          size = length-replicate 1024 (replicate {A = ℕ} 128 0);
          sectors = λ s h.
              ap length (get_or-replicate 1024 s (replicate {A = ℕ} 128 0) h)
              ∙ length-replicate {A = ℕ} 128 0;
        })
        refl)
      refl

in_use : (xs : List ℕ) → all (is_set free_map) xs ≡ true → InUse free_map xs
in_use xs e = record {
  valid = record { words = refl; storage = refl };
  size = refl;
  used = all-All (is_set free_map) xs e;
}

entries_there : Lists disk (6 ∷ []) 0 (38 ∷ [])
unfolding to_bytes
entries_there zero zero p q = refl
entries_there zero (suc zero) p q = refl
entries_there zero (suc (suc zero)) p q = refl
entries_there zero (suc (suc (suc zero))) p q = refl
entries_there zero (suc (suc (suc (suc b)))) p q = absurd (omega arith)
entries_there (suc j) b p q = absurd (omega arith)

block_header-IsBlock : IsBlock disk 5 block_header (6 ∷ []) (38 ∷ [])
block_header-IsBlock = record {
  direct = record {
    few = omega arith;
    table = first;
    enough = omega arith;
    inside = (omega arith, tt);
    distinct = (tt, tt);
  };
  sized = record { count = refl; sized = refl; table_size = refl };
  bytes = refl;
  entries = entries_there;
  apart = ((λ e. absurd (omega arith)), tt);
}
  where
    first : (i : ℕ) → i < 1 → data_sector block_header i ≡ get_or (6 ∷ []) i 0
    first zero p = refl
    first (suc i) p = absurd (omega arith)

header-IsIndexed : IsIndexed free_map disk header block_header (6 ∷ []) sectors (38 ∷ [])
unfolding is_set bit_at fetch_from read_sector from_bytes to_bytes load_bytes
header-IsIndexed = record {
  keeps = record {
    sectors = in_use sectors refl;
    block = in_use (5 ∷ 6 ∷ []) refl;
    inside = All-numbers_from (λ x. x < 1024) 29 10 (λ j p q. omega arith);
    distinct = Distinct-numbers_from 29 10;
    header_inside = omega arith;
    header_apart = All-numbers_from (λ x. x ≢ 5) 29 10 (λ j p q. omega arith);
    block_apart = (All-numbers_from (λ x. x ≢ 6) 29 10 (λ j p q. omega arith), tt);
  };
  fetched = refl;
  block = block_header-IsBlock;
  table = λ i p.
      get_or-append_left (numbers_from 10 28) (5 ∷ []) i p
      ∙ get_or-numbers_from 28 10 i p
      ∙ sym (get_or-numbers_from 29 10 i (omega arith));
  tail = only;
  size = refl;
  some = omega arith;
  sized = record { count = refl; sized = refl; table_size = refl };
}
  where
    only : (j : ℕ) → j < 1 → get_or sectors (28 + j) 0 ≡ get_or (38 ∷ []) j 0
    only zero p = refl
    only (suc j) p = absurd (omega arith)

header-IsFile : IsFile free_map disk header sectors
header-IsFile = inr (block_header, 6 ∷ [], 38 ∷ [], header-IsIndexed)

-- The last byte of the file is in the sector that the undirected block names.
byte_to_sector-finds_example : byte_to_sector 2 disk header 3711 ≡ done 38
byte_to_sector-finds_example =
    byte_to_sector-finds 0 disk header block_header (6 ∷ []) sectors
      (IsIndexed-IsUndirected free_map disk header block_header (6 ∷ []) sectors (38 ∷ [])
        header-IsIndexed)
      disk disk-IsDisk (refl, (refl, tt)) 3711 (omega arith)

-- Five bytes over the end of the table, in two sectors.
write_at-Writes_example :
    (d' : Disk) × (write_at 2 (replicate 256 9) disk header (1 ∷ 2 ∷ 3 ∷ 4 ∷ 5 ∷ []) 5 3582
      ≡ done (5, d'))
    × Writes disk header sectors (1 ∷ 2 ∷ 3 ∷ 4 ∷ 5 ∷ []) 3582 5 d'
write_at-Writes_example =
    write_at-Writes 2 header sectors disk (1 ∷ 2 ∷ 3 ∷ 4 ∷ 5 ∷ []) (replicate 256 9) 5 3582
      disk-IsDisk (IsFile-Occupies 0 free_map disk header sectors header-IsFile) (omega arith)

read_at-write_at_example :
    (d' : Disk) × (write_at 2 (replicate 256 9) disk header (1 ∷ 2 ∷ 3 ∷ 4 ∷ 5 ∷ []) 5 3582
      ≡ done (5, d'))
    × (read_at 2 d' header 5 3582 ≡ done (1 ∷ 2 ∷ 3 ∷ 4 ∷ 5 ∷ []))
unfolding slice
read_at-write_at_example =
    read_at-write_at 2 header sectors disk (1 ∷ 2 ∷ 3 ∷ 4 ∷ 5 ∷ []) (replicate 256 9) 5 3582
      disk-IsDisk (IsFile-Occupies 0 free_map disk header sectors header-IsFile) (omega arith)

-- Six more sectors.
extend-Extends_example :
    (e : Extended) × (extend 2 (replicate 128 9) (replicate 29 7) header free_map disk 700 ≡ done e)
    × Extends free_map disk header sectors 700 e
extend-Extends_example =
    extend-Extends 1 (replicate 128 9) (replicate 29 7) header sectors free_map disk 700
      (omega arith) refl disk-IsDisk header-IsFile (omega arith)

deallocate-Releases_example :
    (m' : BitMap) × (deallocate 2 (replicate 4 0) header disk free_map ≡ done m')
    × Releases free_map disk header sectors m'
deallocate-Releases_example =
    deallocate-Releases 1 (replicate 4 0) header sectors disk free_map refl disk-IsDisk
      header-IsFile (omega arith)

fetch_from-write_back_example :
    (d' : Disk) × (write_back disk 7 header ≡ done d')
    × (fetch_from d' 7 ≡ done header)
    × ((t : ℕ) → 7 ≢ t → get_or d' t [] ≡ get_or disk t [])
fetch_from-write_back_example =
    fetch_from-write_back disk 7 header
      (record {
        kind = omega arith;
        bytes = omega arith;
        count = omega arith;
        table = refl;
        sectors = small;
      })
      (omega arith) disk-IsDisk.size
  where
    small : All (λ s. s < 2 ^ 32) header.data_sectors
    small =
        All-append (λ (s : ℕ). s < 2 ^ 32) (numbers_from 10 28) (5 ∷ [])
          (All-numbers_from (λ s. s < 2 ^ 32) 28 10 (λ j p q. omega arith)) (omega arith, tt)

-- Kinds of files.
root_is_directory : is_directory (record header { kind = 2 }) ≡ true
unfolding is_directory
root_is_directory = refl

data_file_is_none :
    (is_directory header ≡ false) × (is_root header ≡ false) × (is_data_file header ≡ true)
unfolding is_directory is_root is_data_file
data_file_is_none = (refl, refl, refl)

-- A file of just 28 sectors, in memory that holds 5000 where an undirected block would be named.
deallocate-no_block_example :
    deallocate 2
      (replicate 4 0)
      (record {
        kind = 0;
        num_bytes = 3584;
        num_sectors = 28;
        data_sectors = numbers_from 10 28 ++ 5000 ∷ [];
      })
      disk
      free_map
    ≡ aborted
unfolding is_set bit_at
deallocate-no_block_example =
    deallocate-no_block 2 (replicate 4 0)
      (record {
        kind = 0;
        num_bytes = 3584;
        num_sectors = 28;
        data_sectors = numbers_from 10 28 ++ 5000 ∷ [];
      })
      (numbers_from 10 28) disk free_map
      (record {
        few = omega arith;
        table = λ i p. get_or-append_left (numbers_from 10 28) (5000 ∷ []) i p;
        enough = omega arith;
        inside = All-numbers_from (λ x. x < 1024) 28 10 (λ j p q. omega arith);
        distinct = Distinct-numbers_from 28 10;
      })
      refl refl (in_use (numbers_from 10 28) refl) (omega arith)
