-- ===== src/Files/Sectors.antt =====
-- `FileHeader::ByteToSector` of files that need no undirected block and of files that have one.
use native.Mathlib.Decide.{dec_lt}
use non_os.Base.{
  ℕ, suc, ◌+◌, ◌-◌, ◌*◌, ◌/◌, ◌%◌, ◌^◌, ◌<◌, ◌==◌, ◌≤◌, ◌≡◌, ◌≢◌, refl, ap, subst, ◌∙◌, List, [],
  ◌∷◌, length, get_or, All, All-get_or, Distinct, done, arith, lt→ltb, le→ltb, min,
}
use non_os.Machine.Bytes.{load_bytes}
use non_os.Files.{
  Disk, FileHeader, disk_sectors, byte_to_sector, fetch_from, read_sector, data_sector, read_entry,
}
use non_os.Files.Contents.{IsDisk, SameBut, byte_of, Occupies, Holds, read_with-Holds}

pub byte_to_sector-direct :
    (levels : ℕ) (d : Disk) (h : FileHeader) (offset : ℕ)
    → offset / 128 < 28
    → byte_to_sector (suc levels) d h offset ≡ done (data_sector h (offset / 128))
unfolding byte_to_sector
byte_to_sector-direct levels d h offset p = rw (lt→ltb (offset / 128) 28 p, byte_to_sector) refl

-- A file all of whose sectors are in the table of its header.
pub record IsDirect (h : FileHeader) (ss : List ℕ) : Type 0 where
  pub few : length ss ≤ 28
  pub table : (i : ℕ) → i < length ss → data_sector h i ≡ get_or ss i 0
  pub enough : h.num_bytes ≤ length ss * 128
  pub inside : All (λ s. s < disk_sectors) ss
  pub distinct : Distinct ss

pub IsDirect-Occupies :
    (levels : ℕ) (d : Disk) (h : FileHeader) (ss : List ℕ)
    → IsDirect h ss
    → Occupies (suc levels) d h ss
IsDirect-Occupies levels d h ss f = record {
  enough = f.enough;
  inside = f.inside;
  distinct = f.distinct;
  at = λ d' v same i p.
      byte_to_sector-direct levels d' h (i * 128) (omega (arith, f.few))
      ∙ ap (λ (t : ℕ). done (data_sector h t)) {x = i * 128 / 128} {y = i} (omega arith)
      ∙ ap done (f.table i p);
}

-- A file with an undirected block: a file of its own, with header `u` and sectors `us`, which holds
-- the numbers of the sectors from the 29th on.
pub record IsUndirected (d : Disk) (h u : FileHeader) (us ss : List ℕ) : Type 0 where
  pub table : (i : ℕ) → i < length ss → i < 28 → data_sector h i ≡ get_or ss i 0
  pub enough : h.num_bytes ≤ length ss * 128
  pub inside : All (λ s. s < disk_sectors) ss
  pub distinct : Distinct ss
  pub header_inside : data_sector h 28 < disk_sectors
  pub header_apart : All (λ s. s ≢ data_sector h 28) ss
  pub fetched : fetch_from d (data_sector h 28) ≡ done u
  pub block : IsDirect u us
  pub block_apart : All (λ t. All (λ s. s ≢ t) ss) us
  pub room : 4 * (length ss - 28) ≤ u.num_bytes
  pub entries :
      (i b : ℕ)
      → 28 ≤ i
      → i < length ss
      → b < 4
      → byte_of d us (4 * (i - 28) + b) ≡ get_or ss i 0 / 256 ^ b % 256

-- The sectors `ts` hold the same on both disks.
abbrev pub Keeps : List ℕ → Disk → Disk → Type 0
Keeps ts d d' = All (λ t. get_or d' t [] ≡ get_or d t []) ts

module _ (levels : ℕ) (d : Disk) (h u : FileHeader) (us ss : List ℕ) (f : IsUndirected d h u us ss)
    (d' : Disk) (v : IsDisk d') (same : Keeps (data_sector h 28 ∷ us) d d') where
  still_fetched : fetch_from d' (data_sector h 28) ≡ done u
  unfolding fetch_from read_sector
  still_fetched = rw same.0 f.fetched

  still_entries : (k : ℕ) → k < length us * 128 → byte_of d' us k ≡ byte_of d us k
  still_entries k p =
      ap (λ (b : List ℕ). get_or b (k % 128) 0)
        (All-get_or (λ t. get_or d' t [] ≡ get_or d t []) us (k / 128) 0 same.1 (omega arith))

  -- The word that the undirected block holds for sector `i`.
  entry_word :
      (i : ℕ) (bytes : List ℕ)
      → 28 ≤ i
      → i < length ss
      → Holds d' us (4 * (i - 28)) 4 bytes
      → load_bytes bytes 0 4 ≡ get_or ss i 0
  unfolding load_bytes
  entry_word i bytes p q r = omega (
    arith,
    byte 0 (omega arith),
    byte 1 (omega arith),
    byte 2 (omega arith),
    byte 3 (omega arith),
    All-get_or (λ s. s < disk_sectors) ss i 0 f.inside q,
  )
    where
      byte : (b : ℕ) → b < 4 → get_or bytes b 0 ≡ get_or ss i 0 / 256 ^ b % 256
      byte b w =
          r.bytes b w
          ∙ still_entries (4 * (i - 28) + b) (omega (arith, f.room, f.block.enough))
          ∙ f.entries i b p q w

  read_entry-word :
      (offset : ℕ)
      → 28 ≤ offset / 128
      → offset / 128 < length ss
      → read_entry (byte_to_sector (suc levels) d' u) d' u offset
        ≡ done (get_or ss (offset / 128) 0)
  unfolding read_entry
  read_entry-word offset p q =
      let o : Occupies (suc levels) d' u us = IsDirect-Occupies levels d' u us f.block in
      let (bytes, e, r) =
        read_with-Holds (byte_to_sector (suc levels) d' u) d' us v o.inside
          (o.at d' v (λ t a. refl)) u 4 (4 * ((offset - 3584) / 128)) o.enough in
      let entry : 4 * ((offset - 3584) / 128) ≡ 4 * (offset / 128 - 28) = omega arith in
      let four : min 4 (u.num_bytes - 4 * ((offset - 3584) / 128)) ≡ 4 = omega (arith, f.room) in
      rw e (
        rw (ap (λ (n : ℕ). n == 4) (r.size ∙ four)) (
          ap done (
            entry_word (offset / 128) bytes p q (
              subst (λ (k : ℕ). Holds d' us k 4 bytes) entry
                (subst (λ (n : ℕ). Holds d' us (4 * ((offset - 3584) / 128)) n bytes) four r)))))

  byte_to_sector-entry :
      (offset : ℕ)
      → 28 ≤ offset / 128
      → offset / 128 < length ss
      → byte_to_sector (suc (suc levels)) d' h offset ≡ done (get_or ss (offset / 128) 0)
  unfolding byte_to_sector
  byte_to_sector-entry offset p q =
      rw (le→ltb (offset / 128) 28 p, byte_to_sector)
        (rw (still_fetched, byte_to_sector) (read_entry-word offset p q))

  -- `ByteToSector` of a file with an undirected block ends, following one header and no more, for every
  -- offset in the file's sectors, and returns the sector of the byte. That also holds once the disk
  -- has changed, for as long as the sectors of the block and the one of its header have not.
  pub byte_to_sector-finds :
      (offset : ℕ)
      → offset / 128 < length ss
      → byte_to_sector (suc (suc levels)) d' h offset ≡ done (get_or ss (offset / 128) 0)
  byte_to_sector-finds offset q = elim (dec_lt (offset / 128) 28) [
    | yes p ↦
        byte_to_sector-direct (suc levels) d' h offset p ∙ ap done (f.table (offset / 128) q p)
    | no p ↦ byte_to_sector-entry offset (omega arith) q
  ]

pub IsUndirected-Occupies :
    (levels : ℕ) (d : Disk) (h u : FileHeader) (us ss : List ℕ)
    → IsUndirected d h u us ss
    → Occupies (suc (suc levels)) d h ss
IsUndirected-Occupies levels d h u us ss f = record {
  enough = f.enough;
  inside = f.inside;
  distinct = f.distinct;
  at = λ d' v same i p.
      byte_to_sector-finds levels d h u us ss f d' v
        (same (data_sector h 28) f.header_apart, kept d' same us f.block_apart) (i * 128)
        (omega arith)
      ∙ ap (λ (t : ℕ). done (get_or ss t 0)) {x = i * 128 / 128} {y = i} (omega arith);
}
  where
    kept :
        (d' : Disk)
        → SameBut ss d d'
        → (ts : List ℕ) → All (λ t. All (λ s. s ≢ t) ss) ts
        → Keeps ts d d'
    kept d' same [] a = tt
    kept d' same (t ∷ ts) a = (same t a.0, kept d' same ts a.1)
