-- ===== src/Files/Space.antt =====
-- code/filesys/filehdr.cc: how a file takes sectors from the map of free sectors and gives them back,
-- `Allocate`, `Extend`, `ExtendUndirectedBlock`, `Deallocate` and `DeallocateUndirectedBlock`.
pub mod Takes
pub mod Return
pub mod Whole
pub mod Reach
pub mod Grow
pub mod Indexed
pub mod Fill
pub mod Entries
pub mod Release
pub mod Direct
use non_os.Base.{
  ℕ, zero, suc, ◌+◌, ◌-◌, ◌*◌, ◌^◌, min, max, Bool, true, false, Option, none, some, List, [], ◌∷◌,
  ltb, leb, if◌then◌else◌, set, Outcome, done, aborted, assert, ◌>>=◌, ◌>>◌,
}
use non_os.BitMap.{BitMap, div_round_up, find, clear, test}
use non_os.Machine.Bytes.{load_bytes}
use non_os.Files.{
  Disk, FileHeader, OpenFile, sector_size, num_direct, fetch_from, write_back, file_length,
  data_sector, to_bytes, open_file, seek, read, write, copy_to,
}

-- -1 in an `int` that is seen as unsigned.
abbrev pub minus_one : ℕ
minus_one = 2 ^ 32 - 1

-- What a call that takes sectors leaves behind: the value it returns, the header and the free map.
pub record Taken : Type 0 where
  pub ok : Bool
  pub hdr : FileHeader
  pub free_map : BitMap

abbrev pub put_sector : FileHeader → ℕ → ℕ → FileHeader
put_sector h i s = record h { data_sectors = set h.data_sectors i s }

-- The loops `for (i = numSectors; …; i++) if ((dataSectors[i] = freeMap->Find()) == -1) return FALSE`
-- with the rounds that are left.
pub take_sectors : ℕ → ℕ → FileHeader → BitMap → Outcome Taken
take_sectors zero i h m = done (record { ok = true; hdr = h; free_map = m })
take_sectors (suc left) i h m = find m >>= λ r. elim r.0 [
  | none ↦ done (record { ok = false; hdr = put_sector h i minus_one; free_map = r.1 })
  | some s ↦ take_sectors left (i + 1) (put_sector h i s) r.1
]

pub extend_undirected_block : FileHeader → BitMap → ℕ → Outcome Taken
extend_undirected_block h m new_sectors =
    let total = div_round_up (h.num_bytes + new_sectors * 4) sector_size in
    elim (ltb num_direct total) [
      | true ↦ done (record { ok = false; hdr = h; free_map = m })
      | false ↦ take_sectors (total - h.num_sectors) h.num_sectors h m >>= λ t. done (
          if t.ok
          then record t {
            hdr = record t.hdr { num_sectors = total; num_bytes = h.num_bytes + new_sectors * 4 };
          }
          else t)
    ]

-- `Taken`, with the disk.
pub record Extended : Type 0 where
  pub ok : Bool
  pub hdr : FileHeader
  pub free_map : BitMap
  pub disk : Disk

-- The header of a new undirected block, `fileHdr->Allocate(freeMap, 0, DATA_FILE, "")`, in memory in
-- which the table of sectors happens to be `table`.
abbrev pub empty_header : List ℕ → FileHeader
empty_header table = record { kind = 0; num_bytes = 0; num_sectors = 0; data_sectors = table }

module _ (levels : ℕ) (memory table : List ℕ) where
  -- The loop that takes the sectors of the undirected block and writes their numbers in it.
  pub write_entries : ℕ → OpenFile → BitMap → Disk → Outcome (Bool × BitMap × Disk)
  write_entries zero f m d = done (true, m, d)
  write_entries (suc left) f m d = find m >>= λ r. elim r.0 [
    | none ↦ done (false, r.1, d)
    | some s ↦ write levels memory d f (to_bytes (s ∷ [])) 4 >>= λ w. write_entries left w.2 r.1 w.1
  ]

  -- `Extend` from `if (!fileHdr->ExtendUndirectedBlock(…))` to the end of the branch: `u` is the header
  -- of the undirected block, which gets `n` more entries.
  pub fill_undirected : FileHeader → FileHeader → BitMap → Disk → ℕ → Outcome Extended
  fill_undirected h u m d n = extend_undirected_block u m n >>= λ t. elim t.ok [
    | false ↦ done (record { ok = false; hdr = h; free_map = t.free_map; disk = d })
    | true ↦ write_back d (data_sector h (num_direct - 1)) t.hdr >>= λ d₁.
        open_file d₁ (data_sector h (num_direct - 1)) >>= λ f.
        write_entries n (seek f (file_length f.hdr - n * 4)) t.free_map d₁ >>= λ e.
        done (record { ok = e.0; hdr = h; free_map = e.1; disk = e.2 })
  ]

  -- The branch for a file that reaches into the undirected block, once the direct sectors are taken:
  -- `had` is the number of sectors at the start, `total` the new one.
  pub extend_undirected : FileHeader → BitMap → Disk → ℕ → ℕ → Outcome Extended
  extend_undirected h m d had total = elim (ltb (num_direct - 1) had) [
    | true ↦
        fetch_from d (data_sector h (num_direct - 1)) >>= λ u. fill_undirected h u m d (total - had)
    | false ↦ find m >>= λ r. elim r.0 [
      | none ↦ done (record {
        ok = false;
        hdr = put_sector h (num_direct - 1) minus_one;
        free_map = r.1;
        disk = d;
      })
      | some s ↦
          fill_undirected (put_sector h (num_direct - 1) s) (empty_header table) r.1 d
            (total - had - (num_direct - 1 - had))
    ]
  ]

  -- The last lines of `Extend`.
  abbrev pub grown : ℕ → ℕ → Extended → Extended
  grown bytes total e =
      if e.ok then record e { hdr = record e.hdr { num_bytes = bytes; num_sectors = total } } else e

  pub extend : FileHeader → BitMap → Disk → ℕ → Outcome Extended
  extend h m d new_size =
      let total = div_round_up (h.num_bytes + new_size) sector_size in
      take_sectors (min total (num_direct - 1) - h.num_sectors) h.num_sectors h m >>= λ t.
      elim t.ok [
        | false ↦ done (record { ok = false; hdr = t.hdr; free_map = t.free_map; disk = d })
        | true ↦ elim (ltb (max h.num_sectors (min total (num_direct - 1))) total) [
          | true ↦ extend_undirected t.hdr t.free_map d h.num_sectors total >>= λ e.
              done (grown (h.num_bytes + new_size) total e)
          | false ↦ done (
              grown (h.num_bytes + new_size) total
                (record { ok = true; hdr = t.hdr; free_map = t.free_map; disk = d }))
        ]
      ]

  pub allocate : FileHeader → BitMap → Disk → ℕ → ℕ → Outcome Extended
  allocate h m d file_size which =
      extend (record h { num_bytes = 0; kind = which; num_sectors = 0 }) m d file_size

-- `ASSERT(freeMap->Test(s)); freeMap->Clear(s)`
pub give_back : BitMap → ℕ → Outcome BitMap
give_back m s = do used ← test m s; assert used; clear m s

-- The loops over the table of sectors.
pub give_sectors : ℕ → ℕ → FileHeader → BitMap → Outcome BitMap
give_sectors zero i h m = done m
give_sectors (suc left) i h m =
    give_back m (data_sector h i) >>= λ m'. give_sectors left (i + 1) h m'

pub deallocate_undirected_block : FileHeader → BitMap → Outcome BitMap
deallocate_undirected_block h m = give_sectors h.num_sectors 0 h m

-- The loop over the entries of the undirected block. `sector` keeps its value where the read gives
-- less than the four bytes.
pub give_entries : ℕ → ℕ → Disk → OpenFile → List ℕ → BitMap → Outcome BitMap
give_entries levels zero d f sector m = done m
give_entries levels (suc left) d f sector m = read levels d f 4 >>= λ r.
    let bytes = copy_to r.0 0 sector in
    give_back m (load_bytes bytes 0 4) >>= λ m'. give_entries levels left d r.1 bytes m'

pub deallocate : ℕ → List ℕ → FileHeader → Disk → BitMap → Outcome BitMap
deallocate levels sector h d m = give_sectors (min (num_direct - 1) h.num_sectors) 0 h m >>= λ m₁.
    elim (leb (num_direct - 1) h.num_sectors) [
      | false ↦ done m₁
      | true ↦ fetch_from d (data_sector h (num_direct - 1)) >>= λ u.
          open_file d (data_sector h (num_direct - 1)) >>= λ f.
          give_entries levels (h.num_sectors - (num_direct - 1)) d f sector m₁ >>= λ m₂.
          give_back m₂ (data_sector h (num_direct - 1)) >>= λ m₃. deallocate_undirected_block u m₃
    ]
