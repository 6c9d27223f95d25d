-- ===== src/Files/Space/Direct.antt =====
-- `Extend` and `Deallocate` of files whose sectors are all in the table of their header.
use non_os.Base.{
  ℕ, zero, suc, ◌+◌, ◌-◌, ◌*◌, ◌/◌, ◌%◌, ◌<◌, ◌≤◌, ◌≡◌, ◌≢◌, refl, ap, subst, sym, ◌∙◌, inl, inr,
  ◌⊎◌, Bool, true, false, List, [], ◌∷◌, ◌++◌, length, length-append, get_or, All, All-map,
  All-get_or, Distinct, min, max, ltb, leb, le→ltb, lt→ltb, Outcome, done, arith, ◌==◌,
  if◌then◌else◌, assert, ◌>>=◌, ==_self, ==_ne,
}
use native.Mathlib.Decide.{dec_lt}
use non_os.Base.Apart.{All-append, Distinct-append}
use non_os.BitMap.{BitMap, div_round_up}
use non_os.BitMap.View.{is_set, IsValid}
use non_os.BitMap.Count.{free_count}
use non_os.Files.{Disk, FileHeader, data_sector, disk_sectors, num_direct, sector_size}
use non_os.Files.Buffers.{get_or-append_left, get_or-append_right}
use non_os.Files.Sectors.{IsDirect}
use non_os.Files.Fresh.{Fresh, Fresh-Apart}
use non_os.Files.Space.{Taken, Extended, take_sectors, extend}
use non_os.Files.Space.Takes.{Takes, Fills, take_sectors-Takes}

-- The fields of a header that count its sectors, and its table.
pub record IsSized (h : FileHeader) (ss : List ℕ) : Type 0 where
  pub count : h.num_sectors ≡ length ss
  pub sized : length ss ≡ div_round_up h.num_bytes sector_size
  pub table_size : length h.data_sectors ≡ num_direct

-- A map of the disk's sectors in which those of `ss` are in use.
pub record InUse (m : BitMap) (ss : List ℕ) : Type 0 where
  pub valid : IsValid m
  pub size : m.num_bits ≡ disk_sectors
  pub used : All (λ s. is_set m s ≡ true) ss

pub get_or-append :
    (xs ys : List ℕ) (i : ℕ)
    → get_or (xs ++ ys) i 0
      ≡ (if ltb i (length xs) then get_or xs i 0 else get_or ys (i - length xs) 0)
get_or-append xs ys i = elim (dec_lt i (length xs)) [
  | yes p ↦ rw (lt→ltb i (length xs) p) (get_or-append_left xs ys i p)
  | no p ↦ rw (le→ltb i (length xs) (omega arith)) (
      ap (λ (t : ℕ). get_or (xs ++ ys) t 0) {x = i} {y = length xs + (i - length xs)} (omega arith)
      ∙ get_or-append_right xs ys (i - length xs))
]

-- A table with `ss` in it that is filled with `xs` behind them.
pub Fills-table :
    (h : FileHeader) (ss xs : List ℕ) (h' : FileHeader) (k : ℕ)
    → Fills h (length ss) xs h'
    → ((i : ℕ) → i < length ss → i < k → data_sector h i ≡ get_or ss i 0)
    → (i : ℕ) → i < length (ss ++ xs)
    → i < k
    → data_sector h' i ≡ get_or (ss ++ xs) i 0
Fills-table h ss xs h' k f table i p q = elim (dec_lt i (length ss)) [
  | yes r ↦ f.old i (inl r) ∙ table i r q ∙ sym (get_or-append_left ss xs i r)
  | no r ↦
      ap (data_sector h') {x = i} {y = length ss + (i - length ss)} (omega arith)
      ∙ f.new (i - length ss) (omega (arith, length-append ss xs))
      ∙ sym (get_or-append_right ss xs (i - length ss))
      ∙ ap (λ (t : ℕ). get_or (ss ++ xs) t 0) {x = length ss + (i - length ss)} {y = i}
          (omega arith)
]

-- Sectors of a file with fresh ones behind them.
pub Fresh-Distinct :
    (m : BitMap) (ss xs : List ℕ) (m' : BitMap)
    → InUse m ss
    → Fresh m xs m'
    → Distinct ss
    → Distinct (ss ++ xs)
Fresh-Distinct m ss xs m' u f d =
    Distinct-append ss xs d f.distinct (Fresh-Apart m xs m' f ss u.used)

pub Fresh-inside :
    (m : BitMap) (ss xs : List ℕ) (m' : BitMap)
    → InUse m ss
    → Fresh m xs m'
    → All (λ s. s < disk_sectors) ss
    → All (λ s. s < disk_sectors) (ss ++ xs)
Fresh-inside m ss xs m' u f a =
    All-append _ ss xs a (All-map (λ x p. omega (arith, u.size)) xs f.inside)

pub Fresh-InUse :
    (m : BitMap) (ss xs : List ℕ) (m' : BitMap) → InUse m ss → Fresh m xs m' → InUse m' (ss ++ xs)
Fresh-InUse m ss xs m' u f = record {
  valid = f.valid;
  size = f.size ∙ u.size;
  used = All-append _ ss xs (All-map (non_os.Files.Fresh.Fresh-stays m xs m' f) ss u.used) f.taken;
}

-- What `Extend` by `n` bytes gives for a file that stays without an undirected block: TRUE, and the
-- file has fresh sectors behind its own; or FALSE, since there are not enough free sectors, and the
-- file has the sectors and the length it had.
abbrev pub Grows : BitMap → Disk → FileHeader → List ℕ → ℕ → Extended → Type 0
Grows m d h ss n e =
    ((e.ok ≡ true)
      × ((xs : List ℕ) × IsDirect e.hdr (ss ++ xs)
          × IsSized e.hdr (ss ++ xs)
          × (e.hdr.num_bytes ≡ h.num_bytes + n)
          × Fresh m xs e.free_map
          × (e.disk ≡ d)))
    ⊎ ((e.ok ≡ false)
        × (free_count m < div_round_up (h.num_bytes + n) sector_size - length ss)
        × IsDirect e.hdr ss
        × (e.hdr.num_bytes ≡ h.num_bytes)
        × (e.hdr.num_sectors ≡ h.num_sectors)
        × (e.disk ≡ d))

module _ (levels : ℕ) (memory table : List ℕ) (h : FileHeader) (ss : List ℕ) (m : BitMap) (d : Disk)
    (n : ℕ) (f : IsDirect h ss) (z : IsSized h ss) (u : InUse m ss)
    (short : div_round_up (h.num_bytes + n) 128 ≤ 28) where
  abbrev total : ℕ
  total = div_round_up (h.num_bytes + n) 128

  total-length : length ss ≤ total
  total-length = ground (arith, z.sized)

  total-enough : h.num_bytes + n ≤ total * 128
  total-enough = ground arith

  extend_lem :
      (t : Taken)
      → take_sectors (min total 28 - h.num_sectors) h.num_sectors h m ≡ done t
      → extend levels memory table h m d n
        ≡ done (
            if t.ok
            then record {
              ok = true;
              hdr = record t.hdr { num_bytes = h.num_bytes + n; num_sectors = total };
              free_map = t.free_map;
              disk = d;
            }
            else record { ok = false; hdr = t.hdr; free_map = t.free_map; disk = d })
  unfolding extend
  extend_lem t e =
      rw (e, extend)
        (elim (non_os.Base.Bool-cases t.ok) [
          | inl ok ↦
              rw (ok, extend)
                (rw (le→ltb (max h.num_sectors (min total 28)) total (small total short), extend)
                  refl)
          | inr ok ↦ rw (ok, extend) refl
        ])
    where
      small : (t : ℕ) → t ≤ 28 → t ≤ max h.num_sectors (min t 28)
      small t q = omega arith

  abbrev result : Taken → Extended
  result t =
      if t.ok
      then record {
        ok = true;
        hdr = record t.hdr { num_bytes = h.num_bytes + n; num_sectors = total };
        free_map = t.free_map;
        disk = d;
      }
      else record { ok = false; hdr = t.hdr; free_map = t.free_map; disk = d }

  -- `Extended` of the two branches.
  result-Grows :
      (t : Taken)
      → Takes h h.num_sectors (min total 28 - h.num_sectors) m t
      → Grows m d h ss n (result t)
  result-Grows t (inl (ok, (xs, l, g, fresh))) = rw ok (
      inl (
        refl,
        (
          xs,
          record {
            few = omega (arith, sizes);
            table = λ i p.
                Fills-table h ss xs t.hdr 28 (subst (λ (k : ℕ). Fills h k xs t.hdr) z.count g)
                  (λ j q r. f.table j q) i p (omega (arith, sizes));
            enough = omega (arith, sizes, total-enough);
            inside = Fresh-inside m ss xs t.free_map u fresh f.inside;
            distinct = Fresh-Distinct m ss xs t.free_map u fresh f.distinct;
          },
          record { count = sym sizes; sized = sizes; table_size = g.table_size ∙ z.table_size },
          refl,
          fresh,
          refl,
        ),
      ))
    where
      sizes : length (ss ++ xs) ≡ total
      sizes = length-append ss xs ∙ omega (arith, l, z.count, short, total-length)
  result-Grows t (inr (ok, few, full, b, c, old)) = rw ok (
      inr (
        refl,
        omega (arith, short, z.count),
        record {
          few = f.few;
          table = λ i p. old i (omega (arith, z.count)) ∙ f.table i p;
          enough = omega (arith, f.enough, b);
          inside = f.inside;
          distinct = f.distinct;
        },
        b,
        c,
        refl,
      ))

  -- `Extend` of such a file ends, and never aborts.
  pub extend-Grows :
      (e : Extended) × (extend levels memory table h m d n ≡ done e) × Grows m d h ss n e
  extend-Grows =
      let (t, e, r) =
        take_sectors-Takes (min total 28 - h.num_sectors) h.num_sectors h m u.valid
          (rounds total short total-length) in
      (result t, extend_lem t e, result-Grows t r)
    where
      rounds :
          (t : ℕ)
          → t ≤ 28
          → length ss ≤ t
          → h.num_sectors + (min t 28 - h.num_sectors) ≤ length h.data_sectors
      rounds t p q = omega (arith, z.count, z.table_size)
