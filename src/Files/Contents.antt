-- ===== src/Files/Contents.antt =====
-- A file as the array of bytes that its sectors hold, and `OpenFile::ReadAt`.
use non_os.Base.{
  ℕ, zero, suc, ◌+◌, ◌-◌, ◌*◌, ◌/◌, ◌%◌, ◌<◌, ◌≤◌, ◌≡◌, ◌≢◌, refl, ap, ap₂, ◌∙◌, List, [], ◌++◌,
  length, length-append, get_or, All, All-get_or, Distinct, lt→ltb, done, arith, min,
}
use non_os.Files.{
  Disk, FileHeader, Locate, sector_size, disk_sectors, read_sector, read_sectors, read_with,
  read_at, read_clipped, byte_to_sector, clipped, span,
}
use non_os.Files.Buffers.{length-slice, get_or-slice, get_or-append_left, get_or-append_right}

-- A disk of the right size, whose sectors are too.
pub record IsDisk (d : Disk) : Type 0 where
  pub size : length d ≡ disk_sectors
  pub sectors : (s : ℕ) → s < disk_sectors → length (get_or d s []) ≡ 128

-- No sector but those of `ss` differs.
abbrev pub SameBut : List ℕ → Disk → Disk → Type 0
SameBut ss d d' = (t : ℕ) → All (λ s. s ≢ t) ss → get_or d' t [] ≡ get_or d t []

-- Byte `k` of the file whose sectors are `ss`.
abbrev pub byte_of : Disk → List ℕ → ℕ → ℕ
byte_of d ss k = get_or (get_or d (get_or ss (k / 128) 0) []) (k % 128) 0

-- The file of the header `h` has the sectors `ss`: it finds them, for as long as nothing but they
-- change, no two are the same, and they are as many as its bytes need.
pub record Occupies (levels : ℕ) (d : Disk) (h : FileHeader) (ss : List ℕ) : Type 0 where
  pub enough : h.num_bytes ≤ length ss * 128
  pub inside : All (λ s. s < disk_sectors) ss
  pub distinct : Distinct ss
  pub at :
      (d' : Disk)
      → IsDisk d'
      → SameBut ss d d'
      → (i : ℕ) → i < length ss
      → byte_to_sector levels d' h (i * 128) ≡ done (get_or ss i 0)

-- A buffer with the bytes `from`, `from + 1`, … of the file.
pub record Holds (d : Disk) (ss : List ℕ) (from n : ℕ) (buf : List ℕ) : Type 0 where
  pub size : length buf ≡ n
  pub bytes : (j : ℕ) → j < n → get_or buf j 0 ≡ byte_of d ss (from + j)

pub clipped_lem :
    (h : FileHeader) (n position : ℕ) → clipped h n position ≡ min n (h.num_bytes - position)
clipped_lem h n position = ground arith

module _ (at : Locate) (d : Disk) (ss : List ℕ) (v : IsDisk d)
    (inside : All (λ s. s < disk_sectors) ss)
    (found : (i : ℕ) → i < length ss → at (i * 128) ≡ done (get_or ss i 0)) where
  sector_inside : (i : ℕ) → i < length ss → get_or ss i 0 < disk_sectors
  sector_inside i h = All-get_or (λ s. s < disk_sectors) ss i 0 inside h

  -- One more sector before the others.
  Holds-append :
      (i left : ℕ) (rest : List ℕ)
      → i < length ss
      → Holds d ss ((i + 1) * 128) (left * 128) rest
      → Holds d ss (i * 128) (suc left * 128) (get_or d (get_or ss i 0) [] ++ rest)
  Holds-append i left rest h r = record {
    size = length-append sector rest ∙ omega (arith, whole, r.size);
    bytes = λ j p. elim (native.Mathlib.Decide.dec_lt j 128) [
      | yes q ↦
          get_or-append_left sector rest j (omega (arith, whole))
          ∙ ap₂ (λ (s : ℕ) (b : ℕ). get_or (get_or d (get_or ss s 0) []) b 0) (omega arith)
              (omega arith)
      | no q ↦
          ap (λ (t : ℕ). get_or (sector ++ rest) t 0) {x = j} {y = length sector + (j - 128)}
            (omega (arith, whole))
          ∙ get_or-append_right sector rest (j - 128)
          ∙ r.bytes (j - 128) (omega arith)
          ∙ ap (byte_of d ss) {x = (i + 1) * 128 + (j - 128)} {y = i * 128 + j} (omega arith)
    ];
  }
    where
      sector : List ℕ
      sector = get_or d (get_or ss i 0) []

      whole : length sector ≡ 128
      whole = v.sectors (get_or ss i 0) (sector_inside i h)

  read_sectors-Holds :
      (left i : ℕ)
      → i + left ≤ length ss
      → (buf : List ℕ) × (read_sectors at d left i ≡ done buf)
        × Holds d ss (i * 128) (left * 128) buf
  unfolding read_sectors read_sector
  read_sectors-Holds zero i h =
      ([], refl, record { size = refl; bytes = λ j p. absurd (omega arith) })
  read_sectors-Holds (suc left) i h =
      let (rest, e, r) = read_sectors-Holds left (i + 1) (omega arith) in
      (
        get_or d (get_or ss i 0) [] ++ rest,
        rw (found i (omega arith))
            (rw (lt→ltb (get_or ss i 0) 1024 (sector_inside i (omega arith))) (rw e refl)),
        Holds-append i left rest (omega arith) r,
      )

  read_clipped-Holds :
      (position c : ℕ)
      → c ≤ length ss * 128 - position
      → (bytes : List ℕ) × (read_clipped at d position c ≡ done bytes) × Holds d ss position c bytes
  unfolding read_clipped
  read_clipped-Holds position zero h =
      ([], refl, record { size = refl; bytes = λ j p. absurd (omega arith) })
  read_clipped-Holds position (suc m) h =
      let (buf, e, r) =
        read_sectors-Holds (span position (suc m)) (position / sector_size) (omega arith) in
      (
        _,
        rw e refl,
        record {
          size = length-slice buf _ (suc m);
          bytes = λ j p.
              get_or-slice buf (position - position / sector_size * sector_size) (suc m) j p
              ∙ r.bytes _ (omega arith)
              ∙ ap (byte_of d ss) {x = position / 128 * 128 + (position - position / 128 * 128 + j)}
                  {y = position + j} (omega arith);
        },
      )

  -- `ReadAt` of a file of `length ss` sectors gives its bytes, cut at its end.
  pub read_with-Holds :
      (h : FileHeader) (n position : ℕ)
      → h.num_bytes ≤ length ss * 128
      → (bytes : List ℕ) × (read_with at d h n position ≡ done bytes)
        × Holds d ss position (min n (h.num_bytes - position)) bytes
  unfolding read_with
  read_with-Holds h n position enough =
      rw (clipped_lem h n position)
        (read_clipped-Holds position (min n (h.num_bytes - position)) (omega arith))

-- The sectors of a file that no other change moves.
module _ (levels : ℕ) (h : FileHeader) (ss : List ℕ) where
  pub Occupies-SameBut :
      {d d' : Disk} → Occupies levels d h ss → SameBut ss d d' → Occupies levels d' h ss
  Occupies-SameBut {d} {d'} o same = record {
    enough = o.enough;
    inside = o.inside;
    distinct = o.distinct;
    at = λ d'' v'' same' i p. o.at d'' v'' (λ t a. same' t a ∙ same t a) i p;
  }

  -- `ReadAt` never aborts, and gives the bytes of the file from the position on, as many as are asked
  -- for, or those up to the end of the file.
  pub read_at-Holds :
      (d : Disk) (n position : ℕ)
      → IsDisk d
      → Occupies levels d h ss
      → (bytes : List ℕ) × (read_at levels d h n position ≡ done bytes)
        × Holds d ss position (min n (h.num_bytes - position)) bytes
  unfolding read_at
  read_at-Holds d n position v o =
      read_with-Holds (byte_to_sector levels d h) d ss v o.inside (o.at d v (λ t a. refl)) h n
        position o.enough
