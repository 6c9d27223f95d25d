-- ===== src/Files/Buffers.antt =====
-- Buffers of bytes: slices and copies, the bytes of 32-bit words, and the round trip of a file header
-- through its sector.
use native.Mathlib.Nat.{mod-eq_of_lt}
use non_os.Base.{
  map, ℕ, zero, suc, ◌+◌, ◌*◌, ◌/◌, ◌%◌, ◌^◌, ◌<◌, ◌≤◌, ◌≡◌, ◌≢◌, refl, ap, ap₂, ◌∙◌, inl, inr, ◌⊎◌,
  List, [], ◌∷◌, ◌++◌, length, get_or, set, length-set, get_or-set_self, get_or-set_ne, All, lt→ltb,
  done, arith,
}
use non_os.Machine.Bytes.{load_bytes}
use non_os.Files.{
  Disk, FileHeader, disk_sectors, num_direct, read_sector, write_sector, to_bytes, from_bytes,
  fetch_from, write_back, slice, copy_to,
}

pub length-slice : (buf : List ℕ) (i n : ℕ) → length (slice buf i n) ≡ n
unfolding slice
length-slice buf i zero = refl
length-slice buf i (suc n) = ap suc (length-slice buf (i + 1) n)

pub get_or-slice :
    (buf : List ℕ) (i n j : ℕ) → j < n → get_or (slice buf i n) j 0 ≡ get_or buf (i + j) 0
unfolding slice
get_or-slice buf i zero j h = absurd (omega arith)
get_or-slice buf i (suc n) zero h = ap (λ (t : ℕ). get_or buf t 0) (omega arith)
get_or-slice buf i (suc n) (suc j) h =
    get_or-slice buf (i + 1) n j (omega arith) ∙ ap (λ (t : ℕ). get_or buf t 0) (omega arith)

pub length-copy_to :
    (from : List ℕ) (i : ℕ) (buf : List ℕ) → length (copy_to from i buf) ≡ length buf
unfolding copy_to
length-copy_to [] i buf = refl
length-copy_to (b ∷ from) i buf = length-copy_to from (i + 1) (set buf i b) ∙ length-set buf i b

-- A copy changes the bytes from its start on, as many as it has, and no others.
pub get_or-copy_to_out :
    (from : List ℕ) (i : ℕ) (buf : List ℕ) (j : ℕ)
    → (j < i) ⊎ (i + length from ≤ j)
    → get_or (copy_to from i buf) j 0 ≡ get_or buf j 0
unfolding copy_to
get_or-copy_to_out [] i buf j h = refl
get_or-copy_to_out (b ∷ from) i buf j (inl h) =
    get_or-copy_to_out from (i + 1) (set buf i b) j (inl (omega arith))
    ∙ get_or-set_ne buf i j b 0 (omega arith)
get_or-copy_to_out (b ∷ from) i buf j (inr h) =
    get_or-copy_to_out from (i + 1) (set buf i b) j (inr (omega arith))
    ∙ get_or-set_ne buf i j b 0 (omega arith)

pub get_or-copy_to_in :
    (from : List ℕ) (i : ℕ) (buf : List ℕ) (j : ℕ)
    → i + length from ≤ length buf
    → j < length from
    → get_or (copy_to from i buf) (i + j) 0 ≡ get_or from j 0
unfolding copy_to
get_or-copy_to_in [] i buf j fits h = absurd (omega arith)
get_or-copy_to_in (b ∷ from) i buf zero fits h =
    ap (λ (t : ℕ). get_or (copy_to from (i + 1) (set buf i b)) t 0) (omega arith)
    ∙ get_or-copy_to_out from (i + 1) (set buf i b) i (inl (omega arith))
    ∙ get_or-set_self buf i b 0 (omega arith)
get_or-copy_to_in (b ∷ from) i buf (suc j) fits h =
    ap (λ (t : ℕ). get_or (copy_to from (i + 1) (set buf i b)) t 0) (omega arith)
    ∙ get_or-copy_to_in from (i + 1) (set buf i b) j (omega (arith, length-set buf i b))
        (omega arith)

pub get_or-append_left :
    (xs ys : List ℕ) (j : ℕ) → j < length xs → get_or (xs ++ ys) j 0 ≡ get_or xs j 0
get_or-append_left [] ys j h = absurd (omega arith)
get_or-append_left (x ∷ xs) ys zero h = refl
get_or-append_left (x ∷ xs) ys (suc j) h = get_or-append_left xs ys j (omega arith)

pub get_or-append_right :
    (xs ys : List ℕ) (j : ℕ) → get_or (xs ++ ys) (length xs + j) 0 ≡ get_or ys j 0
get_or-append_right [] ys j = ap (λ (t : ℕ). get_or ys t 0) {x = 0 + j} {y = j} (omega arith)
get_or-append_right (x ∷ xs) ys j =
    ap (λ (t : ℕ). get_or (x ∷ xs ++ ys) t 0) {x = suc (length xs) + j} {y = suc (length xs + j)}
      (omega arith)
    ∙ get_or-append_right xs ys j

-- Words that start with a given one.
load_bytes-word : (w : ℕ) (ws : List ℕ) → load_bytes (to_bytes (w ∷ ws)) 0 4 ≡ w % 2 ^ 32
unfolding load_bytes to_bytes
load_bytes-word w ws = omega arith

load_bytes-shift :
    (b : ℕ) (bytes : List ℕ) (n i : ℕ) → load_bytes (b ∷ bytes) (suc i) n ≡ load_bytes bytes i n
unfolding load_bytes
load_bytes-shift b bytes zero i = refl
load_bytes-shift b bytes (suc n) i =
    ap (λ (t : ℕ). get_or bytes i 0 + 256 * load_bytes (b ∷ bytes) t n) {x = suc i + 1}
      {y = suc (i + 1)} (omega arith)
    ∙ ap (λ (t : ℕ). get_or bytes i 0 + 256 * t) (load_bytes-shift b bytes n (i + 1))

from_bytes-shift :
    (b : ℕ) (bytes : List ℕ) (n i : ℕ) → from_bytes n (b ∷ bytes) (suc i) ≡ from_bytes n bytes i
unfolding from_bytes
from_bytes-shift b bytes zero i = refl
from_bytes-shift b bytes (suc n) i =
    ap (λ (t : ℕ). load_bytes (b ∷ bytes) (suc i) 4 ∷ from_bytes n (b ∷ bytes) t) {x = suc i + 4}
      {y = suc (i + 4)} (omega arith)
    ∙ ap₂ (λ x xs. x ∷ xs) (load_bytes-shift b bytes 4 i) (from_bytes-shift b bytes n (i + 4))

-- Words as 32 bits hold them.
abbrev pub cut : List ℕ → List ℕ
cut ws = map (λ w. w % 2 ^ 32) ws

from_bytes-to_bytes : (ws : List ℕ) → from_bytes (length ws) (to_bytes ws) 0 ≡ cut ws
unfolding from_bytes to_bytes
from_bytes-to_bytes [] = refl
from_bytes-to_bytes (w ∷ ws) =
    ap₂ (λ x xs. x ∷ xs) (load_bytes-word w ws)
      (from_bytes-shift (w % 256) _ (length ws) 3
        ∙ from_bytes-shift (w / 256 % 256) _ (length ws) 2
        ∙ from_bytes-shift (w / 65536 % 256) _ (length ws) 1
        ∙ from_bytes-shift (w / 16777216 % 256) _ (length ws) 0
        ∙ from_bytes-to_bytes ws)

cut-small : (ws : List ℕ) → All (λ w. w < 2 ^ 32) ws → cut ws ≡ ws
cut-small [] h = refl
cut-small (w ∷ ws) h = ap₂ (λ x xs. x ∷ xs) (mod-eq_of_lt h.0) (cut-small ws h.1)

pub length-cut : (ws : List ℕ) → length (cut ws) ≡ length ws
length-cut [] = refl
length-cut (w ∷ ws) = ap suc (length-cut ws)

pub get_or-cut : (ws : List ℕ) (i : ℕ) → get_or (cut ws) i 0 ≡ get_or ws i 0 % 2 ^ 32
get_or-cut [] i = refl
get_or-cut (w ∷ ws) zero = refl
get_or-cut (w ∷ ws) (suc i) = get_or-cut ws i

pub length-to_bytes : (ws : List ℕ) → length (to_bytes ws) ≡ 4 * length ws
unfolding to_bytes
length-to_bytes [] = refl
length-to_bytes (w ∷ ws) = omega (arith, length-to_bytes ws)

-- What a header in memory must be for its sector to hold it.
pub record IsHeader (h : FileHeader) : Type 0 where
  pub kind : h.kind < 2 ^ 32
  pub bytes : h.num_bytes < 2 ^ 32
  pub count : h.num_sectors < 2 ^ 32
  pub table : length h.data_sectors ≡ num_direct
  pub sectors : All (λ s. s < 2 ^ 32) h.data_sectors

-- The words of a header, and the header of some words.
abbrev header_words : FileHeader → List ℕ
header_words h = h.kind ∷ h.num_bytes ∷ h.num_sectors ∷ h.data_sectors

abbrev of_words : List ℕ → FileHeader
of_words (k ∷ b ∷ n ∷ ss) = record { kind = k; num_bytes = b; num_sectors = n; data_sectors = ss }
of_words _ = record { kind = 0; num_bytes = 0; num_sectors = 0; data_sectors = [] }

-- A header as its sector holds it.
abbrev pub stored_header : FileHeader → FileHeader
stored_header h = of_words (cut (header_words h))

stored_header-IsHeader : (h : FileHeader) → IsHeader h → stored_header h ≡ h
stored_header-IsHeader h i =
    ap of_words (cut-small (header_words h) (i.kind, (i.bytes, (i.count, i.sectors))))

-- What `WriteBack` of a header to a sector does: the header is fetched from it as 32-bit words hold
-- it, the sector has 128 bytes as before, and no other sector changes.
pub record WritesBack (d : Disk) (s : ℕ) (h : FileHeader) (d' : Disk) : Type 0 where
  pub fetched : fetch_from d' s ≡ done (stored_header h)
  pub size : length d' ≡ disk_sectors
  pub whole : length (get_or d' s []) ≡ 128
  pub same : (t : ℕ) → s ≢ t → get_or d' t [] ≡ get_or d t []

pub write_back-WritesBack :
    (d : Disk) (s : ℕ) (h : FileHeader)
    → length h.data_sectors ≡ num_direct
    → s < disk_sectors
    → length d ≡ disk_sectors
    → (d' : Disk) × (write_back d s h ≡ done d') × WritesBack d s h d'
unfolding write_back fetch_from read_sector write_sector from_bytes
write_back-WritesBack d s h table inside size = (
  set d s bytes,
  rw (lt→ltb s 1024 inside) refl,
  record {
    fetched = rw (lt→ltb s 1024 inside) (
        ap (λ (b : List ℕ). done (of_words (from_bytes 32 b 0))) stored
        ∙ ap (λ (n : ℕ). done (of_words (from_bytes n bytes 0))) {x = 32}
            {y = suc (suc (suc (length h.data_sectors)))} (omega (arith, table))
        ∙ ap (λ ws. done (of_words ws)) (from_bytes-to_bytes (header_words h)));
    size = length-set d s bytes ∙ size;
    whole = ap length stored ∙ length-to_bytes (header_words h) ∙ omega (arith, table);
    same = λ t n. get_or-set_ne d s t bytes [] n;
  },
)
  where
    bytes : List ℕ
    bytes = to_bytes (header_words h)

    stored : get_or (set d s bytes) s [] ≡ bytes
    stored = get_or-set_self d s bytes [] (omega (arith, size))

-- The header that is written back to a sector is the one that is fetched from it, where its fields fit
-- 32 bits; no other sector changes.
pub fetch_from-write_back :
    (d : Disk) (s : ℕ) (h : FileHeader)
    → IsHeader h
    → s < disk_sectors
    → length d ≡ disk_sectors
    → (d' : Disk) × (write_back d s h ≡ done d')
      × (fetch_from d' s ≡ done h)
      × ((t : ℕ) → s ≢ t → get_or d' t [] ≡ get_or d t [])
fetch_from-write_back d s h i inside size =
    let (d', e, w) = write_back-WritesBack d s h i.table inside size in
    (d', e, w.fetched ∙ ap done (stored_header-IsHeader h i), w.same)

pub fetch_from-same :
    (d d' : Disk) (s : ℕ) → get_or d' s [] ≡ get_or d s [] → fetch_from d' s ≡ fetch_from d s
unfolding fetch_from read_sector
fetch_from-same d d' s e = rw e refl
