-- ===== src/Files/Space/Release.antt =====
-- `Deallocate` of the sectors that are in the table of a header.
use non_os.Base.{
  ℕ, suc, ◌+◌, ◌-◌, ◌<◌, ◌≤◌, ◌≡◌, ◌≢◌, refl, ap, subst, sym, ◌∙◌, inl, inr, ◌⊎◌, true, false, List,
  [], ◌∷◌, ◌++◌, length, get_or, All, All-map, All-get_or, Distinct, min, leb, le→ltb, done,
  aborted, arith, if◌then◌else◌, ==_self, ==_ne,
}
use native.Mathlib.Decide.{ℕ_discrete}
use non_os.Base.Apart.{All-append, All-split}
use non_os.BitMap.{BitMap}
use non_os.BitMap.View.{is_set, IsValid, IsUpdate, test_lem, clear-IsUpdate}
use non_os.Files.{Disk, FileHeader, data_sector, disk_sectors, num_direct, fetch_from, read_sector}
use non_os.Files.Sectors.{IsDirect}
use non_os.Files.Fresh.{Fresh}
use non_os.Files.Space.{give_back, give_sectors, deallocate}
use non_os.Files.Space.Direct.{InUse}

-- `m'` is `m` with the indices `xs` free.
pub record Frees (m : BitMap) (xs : List ℕ) (m' : BitMap) : Type 0 where
  pub valid : IsValid m'
  pub size : m'.num_bits ≡ m.num_bits
  pub freed : All (λ x. is_set m' x ≡ false) xs
  pub kept : (t : ℕ) → All (λ x. x ≢ t) xs → is_set m' t ≡ is_set m t

pub give_back-IsUpdate :
    (m : BitMap) (s : ℕ)
    → IsValid m
    → s < m.num_bits
    → is_set m s ≡ true
    → (m' : BitMap) × (give_back m s ≡ done m') × IsUpdate m s false m'
unfolding give_back
give_back-IsUpdate m s v h used =
    let (m', e, u) = clear-IsUpdate m s v h in (m', rw (test_lem m s h) (rw used e), u)

-- An index is one of the list's, or none of them.
among_cases :
    (t : ℕ) (xs : List ℕ) → All (λ x. x ≢ t) xs ⊎ ((i : ℕ) × (i < length xs) × (get_or xs i 0 ≡ t))
among_cases t [] = inl tt
among_cases t (x ∷ xs) = elim (ℕ_discrete x t) [
  | yes e ↦ inr (0, omega arith, e)
  | no n ↦ elim (among_cases t xs) [
    | inl a ↦ inl (n, a)
    | inr (i, p, e) ↦ inr (suc i, omega arith, e)
  ]
]

pub Frees-one : (m : BitMap) (x : ℕ) (m' : BitMap) → IsUpdate m x false m' → Frees m (x ∷ []) m'
Frees-one m x m' u = record {
  valid = u.valid;
  size = u.same_size;
  freed = (u.view x ∙ ap (λ b. if b then false else is_set m x) (==_self x), tt);
  kept = λ t a. u.view t ∙ ap (λ b. if b then false else is_set m t) (==_ne x t a.0);
}

-- What is free stays free.
Frees-stays :
    (m : BitMap) (xs : List ℕ) (m' : BitMap)
    → Frees m xs m'
    → (t : ℕ) → is_set m t ≡ false
    → is_set m' t ≡ false
Frees-stays m xs m' f t free = elim (among_cases t xs) [
  | inl a ↦ f.kept t a ∙ free
  | inr (i, p, e) ↦
      subst (λ (s : ℕ). is_set m' s ≡ false) e
        (All-get_or (λ x. is_set m' x ≡ false) xs i 0 f.freed p)
]

pub Frees-append :
    (m : BitMap) (xs ys : List ℕ) (m₁ m' : BitMap)
    → Frees m xs m₁
    → Frees m₁ ys m'
    → Frees m (xs ++ ys) m'
Frees-append m xs ys m₁ m' f g = record {
  valid = g.valid;
  size = g.size ∙ f.size;
  freed = All-append _ xs ys (All-map (Frees-stays m₁ ys m' g) xs f.freed) g.freed;
  kept = λ t a.
      g.kept t (All-split (λ x. x ≢ t) xs ys a).1 ∙ f.kept t (All-split (λ x. x ≢ t) xs ys a).0;
}

pub All-apart :
    (t : ℕ) (ys : List ℕ) → All (λ y. t ≢ y) ys → All (λ y. All (λ x. x ≢ y) (t ∷ [])) ys
All-apart t [] a = tt
All-apart t (y ∷ ys) a = ((a.0, tt), All-apart t ys a.1)

-- What is in use and not among those that are freed stays in use.
pub Frees-used :
    (m : BitMap) (xs : List ℕ) (m' : BitMap)
    → Frees m xs m'
    → (ys : List ℕ) → All (λ y. All (λ x. x ≢ y) xs) ys
    → All (λ y. is_set m y ≡ true) ys
    → All (λ y. is_set m' y ≡ true) ys
Frees-used m xs m' f [] a b = tt
Frees-used m xs m' f (y ∷ ys) a b = (f.kept y a.0 ∙ b.0, Frees-used m xs m' f ys a.1 b.1)

-- The loop over the table, for the sectors `xs` that stand there from `i` on.
pub give_sectors-Frees :
    (xs : List ℕ) (i : ℕ) (h : FileHeader) (m : BitMap)
    → IsValid m
    → All (λ x. x < m.num_bits) xs
    → All (λ x. is_set m x ≡ true) xs
    → Distinct xs
    → ((j : ℕ) → j < length xs → data_sector h (i + j) ≡ get_or xs j 0)
    → (m' : BitMap) × (give_sectors (length xs) i h m ≡ done m') × Frees m xs m'
unfolding give_sectors
give_sectors-Frees [] i h m v below used dist table =
    (m, refl, record { valid = v; size = refl; freed = tt; kept = λ t a. refl })
give_sectors-Frees (x ∷ xs) i h m v below used dist table =
    let (m₁, e, u) = give_back-IsUpdate m x v below.0 used.0 in
    let one : Frees m (x ∷ []) m₁ = Frees-one m x m₁ u in
    let (m', e', f) =
      give_sectors-Frees xs (i + 1) h m₁ u.valid
        (All-map (λ t p. omega (arith, u.same_size)) xs below.1)
        (Frees-used m (x ∷ []) m₁ one xs (All-apart x xs dist.0) used.1) dist.1
        (λ j p.
          ap (data_sector h) {x = i + 1 + j} {y = i + suc j} (omega arith)
          ∙ table (suc j) (omega arith)) in
    (m', rw (first, give_sectors) (rw (e, give_sectors) e'), Frees-append m (x ∷ []) xs m₁ m' one f)
  where
    first : data_sector h i ≡ x
    first = ap (data_sector h) {x = i} {y = i + 0} (omega arith) ∙ table 0 (omega arith)

-- What is taken and given back is as it was.
Frees-Fresh :
    (m : BitMap) (xs : List ℕ) (m₁ m' : BitMap)
    → Fresh m xs m₁
    → Frees m₁ xs m'
    → (t : ℕ) → is_set m' t ≡ is_set m t
Frees-Fresh m xs m₁ m' f g t = elim (among_cases t xs) [
  | inl a ↦ g.kept t a ∙ f.kept t a
  | inr (i, p, e) ↦
      subst (λ (s : ℕ). is_set m' s ≡ is_set m s) e
        (All-get_or (λ x. is_set m' x ≡ false) xs i 0 g.freed p
          ∙ sym (All-get_or (λ x. is_set m x ≡ false) xs i 0 f.free p))
]

-- `Deallocate` of a file with fewer than 28 sectors, all in use: it frees them and no others, and
-- never aborts.
pub deallocate-Frees :
    (levels : ℕ) (sector : List ℕ) (h : FileHeader) (ss : List ℕ) (d : Disk) (m : BitMap)
    → IsDirect h ss
    → h.num_sectors ≡ length ss
    → length ss < 28
    → InUse m ss
    → (m' : BitMap) × (deallocate levels sector h d m ≡ done m') × Frees m ss m'
unfolding deallocate
deallocate-Frees levels sector h ss d m f n few u =
    let (m', e, r) =
      give_sectors-Frees ss 0 h m u.valid (All-map (λ s p. omega (arith, u.size)) ss f.inside)
        u.used f.distinct
        (λ j p. ap (data_sector h) {x = 0 + j} {y = j} (omega arith) ∙ f.table j p) in
    (m', rw (rounds, deallocate) (rw (e, deallocate) (rw (below, deallocate) refl)), r)
  where
    rounds : min (num_direct - 1) h.num_sectors ≡ length ss
    rounds = omega (arith, n, few)

    below : leb (num_direct - 1) h.num_sectors ≡ false
    below = ground (arith, n, few)

-- `Deallocate` of a file with just 28 sectors takes the last entry of the table for the sector of an
-- undirected block, which `Extend` never sets for such a file: where the memory of the header happens
-- to hold a number there that is not one of a sector, the call aborts.
pub deallocate-no_block :
    (levels : ℕ) (sector : List ℕ) (h : FileHeader) (ss : List ℕ) (d : Disk) (m : BitMap)
    → IsDirect h ss
    → h.num_sectors ≡ length ss
    → length ss ≡ 28
    → InUse m ss
    → disk_sectors ≤ data_sector h 28
    → deallocate levels sector h d m ≡ aborted
unfolding deallocate fetch_from read_sector
deallocate-no_block levels sector h ss d m f n l u bad =
    let (m', e, r) =
      give_sectors-Frees ss 0 h m u.valid (All-map (λ s p. omega (arith, u.size)) ss f.inside)
        u.used f.distinct
        (λ j p. ap (data_sector h) {x = 0 + j} {y = j} (omega arith) ∙ f.table j p) in
    rw (rounds, deallocate)
      (rw (e, deallocate)
        (rw (many, deallocate) (rw (le→ltb (data_sector h 28) 1024 bad, deallocate) refl)))
  where
    rounds : min 28 h.num_sectors ≡ length ss
    rounds = omega (arith, n, l)

    many : leb 28 h.num_sectors ≡ true
    many = ground (arith, n, l)
