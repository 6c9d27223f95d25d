-- ===== src/Files/Space/Indexed.antt =====
-- Files with an undirected block: what is in use of the map, and how a file grows into one.
use non_os.Base.{
  ℕ, ◌+◌, ◌-◌, ◌*◌, ◌/◌, ◌%◌, ◌^◌, ◌<◌, ◌≤◌, ◌≡◌, ◌≢◌, ap, sym, ◌∙◌, true, List, [], ◌∷◌, ◌++◌,
  length, get_or, All, All-map, Distinct, arith, done,
}
use non_os.Base.Apart.{Apart, All-append, All-split, Distinct-append, Distinct-split}
use non_os.BitMap.{BitMap, div_round_up}
use non_os.BitMap.View.{is_set}
use non_os.Files.{Disk, FileHeader, data_sector, disk_sectors, sector_size, fetch_from}
use non_os.Files.Contents.{IsDisk, SameBut}
use non_os.Files.Sectors.{IsUndirected}
use non_os.Files.Fresh.{Fresh, Fresh-avoids, Fresh-stays, All-flip}
use non_os.Files.Space.Direct.{IsSized, InUse}
use non_os.Files.Space.Fill.{IsBlock}

-- The sectors `ss` of a file, its undirected block in sector `s` and the block's sectors `us` are in
-- use and all different.
pub record Keeps (m : BitMap) (s : ℕ) (us ss : List ℕ) : Type 0 where
  pub sectors : InUse m ss
  pub block : InUse m (s ∷ us)
  pub inside : All (λ x. x < disk_sectors) ss
  pub distinct : Distinct ss
  pub header_inside : s < disk_sectors
  pub header_apart : All (λ x. x ≢ s) ss
  pub block_apart : All (λ t. All (λ x. x ≢ t) ss) us

All-swap : (xs ys : List ℕ) → Apart xs ys → All (λ t. All (λ x. x ≢ t) ys) xs
All-swap [] ys a = tt
All-swap (x ∷ xs) ys a = (flip ys a.0, All-swap xs ys a.1)
  where
    flip : (ys : List ℕ) → All (λ y. x ≢ y) ys → All (λ y. y ≢ x) ys
    flip [] b = tt
    flip (y ∷ ys) b = ((λ e. b.0 (sym e)), flip ys b.1)

All-both :
    (us ss xs : List ℕ)
    → All (λ t. All (λ x. x ≢ t) ss) us
    → All (λ t. All (λ x. x ≢ t) xs) us
    → All (λ t. All (λ x. x ≢ t) (ss ++ xs)) us
All-both [] ss xs a b = tt
All-both (u ∷ us) ss xs a b = (All-append (λ x. x ≢ u) ss xs a.0 b.0, All-both us ss xs a.1 b.1)

-- Fresh sectors, some for the block and some for the file.
pub Keeps-Fresh :
    (m : BitMap) (s : ℕ) (us ss gs xs : List ℕ) (m' : BitMap)
    → Keeps m s us ss
    → Fresh m (gs ++ xs) m'
    → Keeps m' s (us ++ gs) (ss ++ xs)
Keeps-Fresh m s us ss gs xs m' k f =
    let (dg, dx, ax) = Distinct-split gs xs f.distinct in
    let stays : (t : ℕ) → is_set m t ≡ true → is_set m' t ≡ true = Fresh-stays m (gs ++ xs) m' f in
    let (tg, tx) = All-split (λ x. is_set m' x ≡ true) gs xs f.taken in
    let avoids : (t : ℕ) → is_set m t ≡ true → All (λ x. x ≢ t) gs × All (λ x. x ≢ t) xs =
      λ t used. All-split (λ x. x ≢ t) gs xs (Fresh-avoids m (gs ++ xs) m' f t used) in
    record {
      sectors = record {
        valid = f.valid;
        size = f.size ∙ k.sectors.size;
        used = All-append _ ss xs (All-map stays ss k.sectors.used) tx;
      };
      block = record {
        valid = f.valid;
        size = f.size ∙ k.sectors.size;
        used = (stays s k.block.used.0, All-append _ us gs (All-map stays us k.block.used.1) tg);
      };
      inside = All-append _ ss xs k.inside (
          All-map (λ x p. omega (arith, k.sectors.size)) xs
            (All-split (λ x. x < m.num_bits) gs xs f.inside).1);
      distinct =
          Distinct-append ss xs k.distinct dx
            (All-map (λ t used. All-flip t xs (avoids t used).1) ss k.sectors.used);
      header_inside = k.header_inside;
      header_apart = All-append _ ss xs k.header_apart (avoids s k.block.used.0).1;
      block_apart =
          All-append _ us gs
            (All-both us ss xs k.block_apart
              (All-map (λ t used. (avoids t used).1) us k.block.used.1))
            (All-both gs ss xs
              (All-swap gs ss (apart_back gs ss (λ t used. (avoids t used).0) k.sectors.used))
              (All-swap gs xs ax));
    }
  where
    apart_back :
        (gs ss : List ℕ)
        → ((t : ℕ) → is_set m t ≡ true → All (λ x. x ≢ t) gs)
        → All (λ t. is_set m t ≡ true) ss
        → Apart gs ss
    apart_back [] ss a b = tt
    apart_back (g ∷ gs) ss a b =
        (All-map (λ t used. (a t used).0) ss b, apart_back gs ss (λ t used. (a t used).1) b)

-- A file of sectors `ss`, the last of which, `es`, are the entries of an undirected block with header
-- `u` and sectors `us`.
pub record IsIndexed (m : BitMap) (d : Disk) (h u : FileHeader) (us ss es : List ℕ) : Type 0 where
  pub keeps : Keeps m (data_sector h 28) us ss
  pub fetched : fetch_from d (data_sector h 28) ≡ done u
  pub block : IsBlock d (data_sector h 28) u us es
  pub table : (i : ℕ) → i < 28 → data_sector h i ≡ get_or ss i 0
  pub tail : (j : ℕ) → j < length es → get_or ss (28 + j) 0 ≡ get_or es j 0
  pub size : length ss ≡ 28 + length es
  pub some : 0 < length es
  pub sized : IsSized h ss

div_round_up-enough : (n : ℕ) → n ≤ div_round_up n 128 * 128
div_round_up-enough n = ground arith

pub IsIndexed-IsUndirected :
    (m : BitMap) (d : Disk) (h u : FileHeader) (us ss es : List ℕ)
    → IsIndexed m d h u us ss es
    → IsUndirected d h u us ss
IsIndexed-IsUndirected m d h u us ss es x = record {
  table = λ i p q. x.table i q;
  enough = omega (arith, x.sized.sized, div_round_up-enough h.num_bytes);
  inside = x.keeps.inside;
  distinct = x.keeps.distinct;
  header_inside = x.keeps.header_inside;
  header_apart = x.keeps.header_apart;
  fetched = x.fetched;
  block = x.block.direct;
  block_apart = x.keeps.block_apart;
  room = omega (arith, x.block.bytes, x.size);
  entries = λ i b p q r.
      ap (non_os.Files.Contents.byte_of d us) {x = 4 * (i - 28) + b} {y = 4 * (0 + (i - 28)) + b}
        (omega arith)
      ∙ x.block.entries (i - 28) b (omega (arith, x.size)) r
      ∙ ap (λ (t : ℕ). t / 256 ^ b % 256)
          (sym (x.tail (i - 28) (omega (arith, x.size)))
            ∙ ap (λ (t : ℕ). get_or ss t 0) {x = 28 + (i - 28)} {y = i} (omega arith));
}
