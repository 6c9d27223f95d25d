-- ===== src/Files/Space/Whole.antt =====
-- `Extend` of any file, and that it leaves a file behind.
use non_os.Base.{
  ℕ, suc, ◌+◌, ◌-◌, ◌*◌, ◌/◌, ◌%◌, ◌<◌, ◌≤◌, ◌≡◌, ◌≢◌, refl, ap, subst, sym, ◌∙◌, inl, inr, ◌⊎◌,
  true, false, List, [], ◌∷◌, ◌++◌, append-nil, length, length-append, get_or, All, All-get_or, min,
  max, arith, done,
}
use native.Mathlib.Decide.{dec_lt, dec_le}
use non_os.BitMap.{BitMap, div_round_up}
use non_os.BitMap.Count.{free_count}
use non_os.Files.{Disk, FileHeader, data_sector, sector_size}
use non_os.Files.Buffers.{get_or-append_left}
use non_os.Files.Contents.{IsDisk, byte_of, Occupies}
use non_os.Files.Sectors.{IsDirect, IsDirect-Occupies, IsUndirected-Occupies}
use non_os.Files.Space.{Extended, take_sectors, extend, allocate}
use non_os.Files.Space.Direct.{IsSized, InUse, Grows, extend-Grows, Fresh-InUse}
use non_os.Files.Space.Indexed.{IsIndexed, IsIndexed-IsUndirected}
use non_os.Files.Space.Grow.{Reaches, extend-within}
use non_os.Files.Space.Reach.{extend-new, extend-old}

-- The header `h` is that of a file of sectors `ss`, which the map has in use.
abbrev pub IsFile : BitMap → Disk → FileHeader → List ℕ → Type 0
IsFile m d h ss =
    (IsDirect h ss × IsSized h ss × InUse m ss)
    ⊎ ((u : FileHeader) × (us : List ℕ) × (es : List ℕ) × IsIndexed m d h u us ss es)

-- A file finds its sectors, whichever kind it is of.
pub IsFile-Occupies :
    (levels : ℕ) (m : BitMap) (d : Disk) (h : FileHeader) (ss : List ℕ)
    → IsFile m d h ss
    → Occupies (suc (suc levels)) d h ss
IsFile-Occupies levels m d h ss (inl (f, z, u)) = IsDirect-Occupies (suc levels) d h ss f
IsFile-Occupies levels m d h ss (inr (u, us, es, x)) =
    IsUndirected-Occupies levels d h u us ss (IsIndexed-IsUndirected m d h u us ss es x)

-- How many free sectors are always enough to make a file of `have` sectors one of `total`.
abbrev pub sectors_needed : ℕ → ℕ → ℕ
sectors_needed have total = total - have + 1 + div_round_up (4 * (total - 28)) 128

-- What `Extend` by `n` bytes does: it returns TRUE with a file that has new sectors behind those it
-- had, in which its bytes stand as before, or FALSE, and there are too few free sectors.
abbrev pub Extends : BitMap → Disk → FileHeader → List ℕ → ℕ → Extended → Type 0
Extends m d h ss n e =
    ((e.ok ≡ true)
      × ((xs : List ℕ) × IsFile e.free_map e.disk e.hdr (ss ++ xs)
          × (e.hdr.num_bytes ≡ h.num_bytes + n)
          × IsDisk e.disk
          × ((k : ℕ) → k < length ss * 128 → byte_of e.disk (ss ++ xs) k ≡ byte_of d ss k)))
    ⊎ ((e.ok ≡ false)
        × (free_count m < sectors_needed (length ss) (div_round_up (h.num_bytes + n) sector_size)))

bytes_kept :
    (d d' : Disk) (ss xs : List ℕ)
    → ((t : ℕ) → t < length ss → get_or d' (get_or ss t 0) [] ≡ get_or d (get_or ss t 0) [])
    → (k : ℕ) → k < length ss * 128
    → byte_of d' (ss ++ xs) k ≡ byte_of d ss k
bytes_kept d d' ss xs same k p =
    ap (λ (s : ℕ). get_or (get_or d' s []) (k % 128) 0)
      (get_or-append_left ss xs (k / 128) (omega arith))
    ∙ ap (λ (b : List ℕ). get_or b (k % 128) 0) (same (k / 128) (omega arith))

-- The block's sectors are not the file's.
block_elsewhere :
    (us ss : List ℕ) (t : ℕ)
    → All (λ u. All (λ x. x ≢ u) ss) us
    → t < length ss
    → All (λ u. u ≢ get_or ss t 0) us
block_elsewhere [] ss t a p = tt
block_elsewhere (u ∷ us) ss t a p =
    ((λ e. All-get_or (λ x. x ≢ u) ss t 0 a.0 p (sym e)), block_elsewhere us ss t a.1 p)

Reaches-Extends :
    (m : BitMap) (d : Disk) (h : FileHeader) (ss : List ℕ) (n lack : ℕ) (e : Extended)
    → lack ≤ sectors_needed (length ss) (div_round_up (h.num_bytes + n) 128)
    → Reaches m d h ss n lack e
    → Extends m d h ss n e
Reaches-Extends m d h ss n lack e p (inl (ok, (u, us, es, xs, taken, x, b, f, v, same))) = inl (
  ok,
  (
    xs,
    inr (u, us, es, x),
    b,
    v,
    bytes_kept d e.disk ss xs (λ t q. same (get_or ss t 0) (
        subst (λ (s : ℕ). All (λ y. y ≢ s) (data_sector e.hdr 28 ∷ us))
          (get_or-append_left ss xs t q)
          (
            (λ w.
                All-get_or (λ y. y ≢ data_sector e.hdr 28) (ss ++ xs) t 0 x.keeps.header_apart
                  (omega (arith, q, length-append ss xs)) (sym w)),
            block_elsewhere us (ss ++ xs) t x.keeps.block_apart
                (omega (arith, q, length-append ss xs)),
          ))),
  ),
)
Reaches-Extends m d h ss n lack e p (inr (no', few)) = inr (no', omega arith)

Grows-Extends :
    (m : BitMap) (d : Disk) (h : FileHeader) (ss : List ℕ) (n : ℕ) (e : Extended)
    → IsDisk d
    → InUse m ss
    → Grows m d h ss n e
    → Extends m d h ss n e
Grows-Extends m d h ss n e v u (inl (ok, (xs, f, z, b, fresh, same))) = inl (
  ok,
  (
    xs,
    inl (f, z, Fresh-InUse m ss xs e.free_map u fresh),
    b,
    subst IsDisk (sym same) v,
    bytes_kept d e.disk ss xs (λ t q. ap (λ (x : Disk). get_or x (get_or ss t 0) []) same),
  ),
)
Grows-Extends m d h ss n e v u (inr (no', few, _, _, _, _)) = inr (no', omega (arith, few))

-- A file with an undirected block whose last sector has room for the new bytes.
module _ (levels : ℕ) (memory table : List ℕ) (h u : FileHeader) (us ss es : List ℕ) (m : BitMap)
    (d : Disk) (n : ℕ) (v : IsDisk d) (x : IsIndexed m d h u us ss es)
    (same : div_round_up (h.num_bytes + n) 128 ≡ length ss) where
  abbrev total : ℕ
  total = div_round_up (h.num_bytes + n) 128

  abbrev longer : FileHeader
  longer = record h { num_bytes = h.num_bytes + n; num_sectors = total }

  longer-IsIndexed : IsIndexed m d longer u us ss es
  longer-IsIndexed = record {
    keeps = x.keeps;
    fetched = x.fetched;
    block = x.block;
    table = x.table;
    tail = x.tail;
    size = x.size;
    some = x.some;
    sized = record { count = same; sized = sym same; table_size = x.sized.table_size };
  }

  extend_inside :
      extend levels memory table h m d n
      ≡ done (record { ok = true; hdr = longer; free_map = m; disk = d })
  unfolding take_sectors
  extend_inside =
      extend-within levels memory table h m d n (record { ok = true; hdr = h; free_map = m })
        none_taken refl below
    where
      no_rounds : (k : ℕ) → min k 28 - h.num_sectors ≡ 0
      no_rounds k = omega (arith, x.sized.count, x.size)

      none_taken :
          take_sectors (min total 28 - h.num_sectors) h.num_sectors h m
          ≡ done (record { ok = true; hdr = h; free_map = m })
      none_taken =
          ap (λ (k : ℕ). take_sectors k h.num_sectors h m) {x = min total 28 - h.num_sectors}
            {y = 0} (no_rounds total)

      below : total ≤ max h.num_sectors (min total 28)
      below = omega (arith, same, x.sized.count)

  extend_inside-Extends :
      Extends m d h ss n (record { ok = true; hdr = longer; free_map = m; disk = d })
  extend_inside-Extends = inl (
    refl,
    (
      [],
      inr (
        u,
        us,
        es,
        subst (λ ys. IsIndexed m d longer u us ys es) (sym (append-nil ss)) longer-IsIndexed,
      ),
      refl,
      v,
      bytes_kept d d ss [] (λ t q. refl),
    ),
  )

rounds_up : (a n : ℕ) → div_round_up a 128 ≤ div_round_up (a + n) 128
rounds_up a n = ground arith

-- `Extend` of a file by any number of bytes, up to 924 sectors in all: it ends and never aborts; it
-- returns TRUE, and the header is again that of a file, longer by these bytes, which has its old
-- sectors with their bytes as they were and new ones behind, all different and in use; or it returns
-- FALSE, and there are fewer free sectors than the file and its undirected block can need.
pub extend-Extends :
    (levels : ℕ) (memory table : List ℕ) (h : FileHeader) (ss : List ℕ) (m : BitMap) (d : Disk)
    (n : ℕ)
    → 128 ≤ length memory
    → length table ≡ 29
    → IsDisk d
    → IsFile m d h ss
    → div_round_up (h.num_bytes + n) sector_size ≤ 924
    → (e : Extended) × (extend (suc levels) memory table h m d n ≡ done e) × Extends m d h ss n e
extend-Extends levels memory table h ss m d n room l v (inl (f, z, u)) fits =
    elim (dec_le (div_round_up (h.num_bytes + n) 128) 28) [
      | yes short ↦
          let (e, q, r) = extend-Grows (suc levels) memory table h ss m d n f z u short in
          (e, q, Grows-Extends m d h ss n e v u r)
      | no long ↦
          let (e, q, r) =
            extend-new levels memory table room l h ss m d n v f z u (omega arith) fits in
          (e, q, Reaches-Extends m d h ss n _ e (omega arith) r)
    ]
extend-Extends levels memory table h ss m d n room l v (inr (u, us, es, x)) fits =
    elim (dec_lt (length ss) (div_round_up (h.num_bytes + n) 128)) [
      | yes more ↦
          let (e, q, r) = extend-old levels memory table room h u us ss es m d n v x more fits in
          (e, q, Reaches-Extends m d h ss n _ e (omega arith) r)
      | no p ↦
          let same : div_round_up (h.num_bytes + n) 128 ≡ length ss =
            omega (arith, x.sized.sized, rounds_up h.num_bytes n) in
          (
            _,
            extend_inside (suc levels) memory table h u us ss es m d n v x same,
            extend_inside-Extends (suc levels) memory table h u us ss es m d n v x same,
          )
    ]

-- `Allocate`: as `Extend` of a file with nothing in it, whatever the header held.
pub allocate-Extends :
    (levels : ℕ) (memory table : List ℕ) (h : FileHeader) (m : BitMap) (d : Disk) (size which : ℕ)
    → 128 ≤ length memory
    → length table ≡ 29
    → length h.data_sectors ≡ 29
    → IsDisk d
    → InUse m []
    → div_round_up size sector_size ≤ 924
    → (e : Extended) × (allocate (suc levels) memory table h m d size which ≡ done e)
      × Extends m d (record h { num_bytes = 0; kind = which; num_sectors = 0 }) [] size e
unfolding allocate
allocate-Extends levels memory table h m d size which room l l' v u fits =
    extend-Extends levels memory table (record h { num_bytes = 0; kind = which; num_sectors = 0 })
      [] m d size room l v
      (inl (
        record {
          few = omega arith;
          table = λ i p. absurd (omega arith);
          enough = omega arith;
          inside = tt;
          distinct = tt;
        },
        record { count = refl; sized = refl; table_size = l' },
        u,
      ))
      (omega (arith, ap (λ (k : ℕ). div_round_up k 128) {x = 0 + size} {y = size} (omega arith)))
