-- ===== src/Files.antt =====
-- code/filesys/filehdr.h, filehdr.cc, openfile.h and openfile.cc: where the bytes of a file are on the
-- disk, and how they are read and written. A sector is its bytes; a call of the synchronous disk
-- (code/filesys/synchdisk.cc) reads or writes one at once, with the ASSERT of code/machine/disk.cc.
-- Sizes, offsets and positions are ℕ: a call with a negative one is outside the model.
pub mod Buffers
pub mod Writes
pub mod ReadBack
pub mod Fresh
pub mod Sectors
pub mod Contents
pub mod Space
mod Tests
use non_os.Base.{
  ℕ, zero, suc, ◌+◌, ◌-◌, ◌*◌, ◌/◌, ◌%◌, ◌^◌, min, Bool, true, false, not, ◌&&◌, ◌||◌, Option, none,
  some, List, [], ◌∷◌, ◌++◌, ltb, leb, ◌==◌, if◌then◌else◌, get_or, set, Outcome, done, aborted,
  assert, ◌>>=◌, ◌>>◌, length,
}
use non_os.BitMap.{BitMap, div_round_up, find, clear, test}
use non_os.Machine.Bytes.{load_bytes}

abbrev pub sector_size : ℕ
sector_size = 128

-- `NumSectors` of code/machine/disk.h
abbrev pub disk_sectors : ℕ
disk_sectors = 1024

-- `NumDirect`
abbrev pub num_direct : ℕ
num_direct = 29

-- The disk: its sectors, each a list of bytes.
abbrev pub Disk : Type 0
Disk = List (List ℕ)

pub read_sector : Disk → ℕ → Outcome (List ℕ)
read_sector d s = assert (ltb s disk_sectors) >> done (get_or d s [])

pub write_sector : Disk → ℕ → List ℕ → Outcome Disk
write_sector d s bytes = assert (ltb s disk_sectors) >> done (set d s bytes)

-- `kind` is the `int` that holds the `type`: 0 a file, 1 a directory, 2 the root.
pub record FileHeader : Type 0 where
  pub kind : ℕ
  pub num_bytes : ℕ
  pub num_sectors : ℕ
  pub data_sectors : List ℕ

-- The bytes of 32-bit words, lowest first.
pub to_bytes : List ℕ → List ℕ
to_bytes [] = []
to_bytes (w ∷ ws) = w % 256 ∷ w / 256 % 256 ∷ w / 65536 % 256 ∷ w / 16777216 % 256 ∷ to_bytes ws

-- The `n` words in the bytes from `i` on.
pub from_bytes : ℕ → List ℕ → ℕ → List ℕ
from_bytes zero bytes i = []
from_bytes (suc n) bytes i = load_bytes bytes i 4 ∷ from_bytes n bytes (i + 4)

pub fetch_from : Disk → ℕ → Outcome FileHeader
fetch_from d s = do
  bytes ← read_sector d s
  done (record {
    kind = load_bytes bytes 0 4;
    num_bytes = load_bytes bytes 4 4;
    num_sectors = load_bytes bytes 8 4;
    data_sectors = from_bytes num_direct bytes 12;
  })

pub write_back : Disk → ℕ → FileHeader → Outcome Disk
write_back d s h =
    write_sector d s (to_bytes (h.kind ∷ h.num_bytes ∷ h.num_sectors ∷ h.data_sectors))

abbrev pub file_length : FileHeader → ℕ
file_length h = h.num_bytes

pub is_data_file : FileHeader → Bool
is_data_file h = h.kind == 0

pub is_directory : FileHeader → Bool
is_directory h = h.kind == 1 || h.kind == 2

pub is_root : FileHeader → Bool
is_root h = h.kind == 2

abbrev pub data_sector : FileHeader → ℕ → ℕ
data_sector h i = get_or h.data_sectors i 0

-- The `n` bytes of a buffer from `i` on.
pub slice : List ℕ → ℕ → ℕ → List ℕ
slice buf i zero = []
slice buf i (suc n) = get_or buf i 0 ∷ slice buf (i + 1) n

-- `bcopy` of all of `from` into `buf` from `i` on.
pub copy_to : List ℕ → ℕ → List ℕ → List ℕ
copy_to [] i buf = buf
copy_to (b ∷ from) i buf = copy_to from (i + 1) (set buf i b)

-- What `ReadAt` and `WriteAt` make of the number of bytes asked for.
abbrev pub clipped : FileHeader → ℕ → ℕ → ℕ
clipped h n position =
    if leb n 0 || leb (file_length h) position
    then 0
    else if ltb (file_length h) (position + n)
    then file_length h - position
    else n

-- `numSectors` of `ReadAt` and `WriteAt`
abbrev pub span : ℕ → ℕ → ℕ
span position n = 1 + (position + n - 1) / sector_size - position / sector_size

-- How a file finds the sector of an offset, `hdr->ByteToSector`.
abbrev pub Locate : Type 0
Locate = ℕ → Outcome ℕ

-- The loop of `ReadAt`: `left` sectors from the `i`-th on, one behind the other.
pub read_sectors : Locate → Disk → ℕ → ℕ → Outcome (List ℕ)
read_sectors at d zero i = done []
read_sectors at d (suc left) i = do
  s ← at (i * sector_size)
  bytes ← read_sector d s
  rest ← read_sectors at d left (i + 1)
  done (bytes ++ rest)

-- `ReadAt` of a number of bytes that is clipped already.
pub read_clipped : Locate → Disk → ℕ → ℕ → Outcome (List ℕ)
read_clipped at d position zero = done []
read_clipped at d position (suc m) =
    read_sectors at d (span position (suc m)) (position / sector_size) >>= λ buf.
    done (slice buf (position - position / sector_size * sector_size) (suc m))

-- `ReadAt`: the bytes that it copies to `into`, as many as the number it returns.
pub read_with : Locate → Disk → FileHeader → ℕ → ℕ → Outcome (List ℕ)
read_with at d h n position = read_clipped at d position (clipped h n position)

-- The end of `ByteToSector`: the word of the undirected block for an offset.
pub read_entry : Locate → Disk → FileHeader → Locate
read_entry at d u offset =
    read_with at d u 4 (4 * ((offset - sector_size * (num_direct - 1)) / sector_size)) >>= λ bytes.
    assert (length bytes == 4) >> done (load_bytes bytes 0 4)

-- `ByteToSector`. The undirected block is opened as a file of its own, whose header can send the
-- search on to a further one without a bound; it is followed through `levels` headers.
pub byte_to_sector : ℕ → Disk → FileHeader → Locate
byte_to_sector zero d h offset = aborted
byte_to_sector (suc levels) d h offset = elim (ltb (offset / sector_size) (num_direct - 1)) [
  | true ↦ done (data_sector h (offset / sector_size))
  | false ↦ fetch_from d (data_sector h (num_direct - 1)) >>= λ u.
      read_entry (byte_to_sector levels d u) d u offset
]

module _ (levels : ℕ) where
  pub read_at : Disk → FileHeader → ℕ → ℕ → Outcome (List ℕ)
  read_at d h n position = read_with (byte_to_sector levels d h) d h n position

  -- The last loop of `WriteAt`.
  pub write_sectors : Disk → FileHeader → List ℕ → ℕ → ℕ → ℕ → Outcome Disk
  write_sectors d h buf first zero i = done d
  write_sectors d h buf first (suc left) i = do
    s ← byte_to_sector levels d h (i * sector_size)
    d' ← write_sector d s (slice buf ((i - first) * sector_size) sector_size)
    write_sectors d' h buf first left (i + 1)

  -- `ReadAt` into the part of the buffer that starts at `i`, if the test holds.
  pub read_if : Bool → Disk → FileHeader → ℕ → ℕ → List ℕ → Outcome (List ℕ)
  read_if false d h sector i buf = done buf
  read_if true d h sector i buf =
      read_at d h sector_size (sector * sector_size) >>= λ bytes. done (copy_to bytes i buf)

  -- `WriteAt` of a number of bytes that is clipped already.
  pub write_clipped : List ℕ → Disk → FileHeader → List ℕ → ℕ → ℕ → Outcome (ℕ × Disk)
  write_clipped memory d h from position zero = done (0, d)
  write_clipped memory d h from position (suc m) =
      let first = position / sector_size in
      let last = (position + suc m - 1) / sector_size in
      let first_aligned = position == first * sector_size in
      let last_aligned = (position + suc m) == (last + 1) * sector_size in
      read_if (not first_aligned) d h first 0 memory >>= λ buf.
      read_if (not last_aligned && (not (first == last) || first_aligned)) d h last
        ((last - first) * sector_size) buf
      >>= λ buf'.
          write_sectors d h (copy_to (slice from 0 (suc m)) (position - first * sector_size) buf')
            first (span position (suc m)) first
          >>= λ d'. done (suc m, d')

  -- `WriteAt` of the first bytes of `from`, with the number that it returns. `memory` is what the
  -- buffer from `new` happens to hold.
  pub write_at : List ℕ → Disk → FileHeader → List ℕ → ℕ → ℕ → Outcome (ℕ × Disk)
  write_at memory d h from n position =
      write_clipped memory d h from position (clipped h n position)

-- An open file.
pub record OpenFile : Type 0 where
  pub hdr : FileHeader
  pub seek_position : ℕ

pub open_file : Disk → ℕ → Outcome OpenFile
open_file d sector = fetch_from d sector >>= λ h. done (record { hdr = h; seek_position = 0 })

pub seek : OpenFile → ℕ → OpenFile
seek f position = record f { seek_position = position }

pub read : ℕ → Disk → OpenFile → ℕ → Outcome (List ℕ × OpenFile)
read levels d f n = read_at levels d f.hdr n f.seek_position >>= λ bytes.
    done (bytes, seek f (f.seek_position + length bytes))

pub write : ℕ → List ℕ → Disk → OpenFile → List ℕ → ℕ → Outcome (ℕ × Disk × OpenFile)
write levels memory d f from n = write_at levels memory d f.hdr from n f.seek_position >>= λ r.
    done (r.0, r.1, seek f (f.seek_position + r.0))
