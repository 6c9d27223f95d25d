-- ===== src/Files/Fresh.antt =====
-- What `BitMap::Find` does for the files: it takes free sectors, and no other sector is changed.
use non_os.Base.{
  ℕ, zero, suc, ◌+◌, ◌<◌, ◌≤◌, ◌≡◌, ◌≢◌, refl, ap, sym, ◌∙◌, subst, inl, inr, ◌⊎◌, Bool, true,
  false, Option, none, some, List, [], ◌∷◌, ◌++◌, length, length-append, All, All-map, Distinct,
  ◌==◌, if◌then◌else◌, ==_self, ==_ne, Outcome, done, arith,
}
use non_os.Base.Apart.{Apart, All-append, All-split, Distinct-append}
use non_os.BitMap.{BitMap, find}
use non_os.BitMap.View.{is_set, IsValid, IsUpdate}
use non_os.BitMap.Find.{find-Finds}
use non_os.BitMap.Count.{free_count, free_count-update, free_count-zero}

true_ne_false : true ≢ false
true_ne_false e = cc

pub All-flip : (t : ℕ) (xs : List ℕ) → All (λ x. x ≢ t) xs → All (λ x. t ≢ x) xs
All-flip t [] a = tt
All-flip t (x ∷ xs) a = ((λ e. a.0 (sym e)), All-flip t xs a.1)

-- `m'` is `m` with the indices `xs` taken, which are free in `m` and all different.
pub record Fresh (m : BitMap) (xs : List ℕ) (m' : BitMap) : Type 0 where
  pub valid : IsValid m'
  pub size : m'.num_bits ≡ m.num_bits
  pub inside : All (λ x. x < m.num_bits) xs
  pub free : All (λ x. is_set m x ≡ false) xs
  pub distinct : Distinct xs
  pub taken : All (λ x. is_set m' x ≡ true) xs
  pub kept : (t : ℕ) → All (λ x. x ≢ t) xs → is_set m' t ≡ is_set m t
  pub count : free_count m' + length xs ≡ free_count m

pub Fresh-nil : (m : BitMap) → IsValid m → Fresh m [] m
Fresh-nil m v = record {
  valid = v;
  size = refl;
  inside = tt;
  free = tt;
  distinct = tt;
  taken = tt;
  kept = λ t a. refl;
  count = omega arith;
}

pub Fresh-one :
    (m : BitMap) (k : ℕ) (m' : BitMap)
    → k < m.num_bits
    → is_set m k ≡ false
    → IsUpdate m k true m'
    → Fresh m (k ∷ []) m'
Fresh-one m k m' h free u = record {
  valid = u.valid;
  size = u.same_size;
  inside = (h, tt);
  free = (free, tt);
  distinct = (tt, tt);
  taken = (u.view k ∙ ap (λ b. if b then true else is_set m k) (==_self k), tt);
  kept = λ t a. u.view t ∙ ap (λ b. if b then true else is_set m t) (==_ne k t a.0);
  count = ground (arith, free_count-update m m' k true u h);
}

-- Indices that `m` has in use are not among the fresh ones, and stay in use.
module _ (m : BitMap) (xs : List ℕ) (m' : BitMap) (f : Fresh m xs m') where
  pub Fresh-avoids : (t : ℕ) → is_set m t ≡ true → All (λ x. x ≢ t) xs
  Fresh-avoids t used =
      All-map (λ x free e. true_ne_false (sym used ∙ ap (is_set m) (sym e) ∙ free)) xs f.free

  pub Fresh-stays : (t : ℕ) → is_set m t ≡ true → is_set m' t ≡ true
  Fresh-stays t used = f.kept t (Fresh-avoids t used) ∙ used

  pub Fresh-back : (t : ℕ) → is_set m' t ≡ false → is_set m t ≡ false
  Fresh-back t free = elim (non_os.Base.Bool-cases (is_set m t)) [
    | inl used ↦ absurd (true_ne_false (sym (Fresh-stays t used) ∙ free))
    | inr e ↦ e
  ]

  -- No index in use in `m` is equal to a fresh one.
  pub Fresh-Apart : (ts : List ℕ) → All (λ t. is_set m t ≡ true) ts → Apart ts xs
  Fresh-Apart ts used = All-map (λ t u. All-flip t xs (Fresh-avoids t u)) ts used

pub Fresh-append :
    (m : BitMap) (xs ys : List ℕ) (m₁ m' : BitMap)
    → Fresh m xs m₁
    → Fresh m₁ ys m'
    → Fresh m (xs ++ ys) m'
Fresh-append m xs ys m₁ m' f g = record {
  valid = g.valid;
  size = g.size ∙ f.size;
  inside = All-append _ xs ys f.inside (All-map (λ y p. omega (arith, f.size)) ys g.inside);
  free = All-append _ xs ys f.free (All-map (Fresh-back m xs m₁ f) ys g.free);
  distinct = Distinct-append xs ys f.distinct g.distinct (Fresh-Apart m₁ ys m' g xs f.taken);
  taken = All-append _ xs ys (All-map (Fresh-stays m₁ ys m' g) xs f.taken) g.taken;
  kept = λ t a.
      g.kept t (All-split (λ x. x ≢ t) xs ys a).1 ∙ f.kept t (All-split (λ x. x ≢ t) xs ys a).0;
  count = omega (arith, f.count, g.count, length-append xs ys);
}

-- What a call of `Find` gives: -1 and the map as it was where no index is free, or a fresh one.
abbrev pub Gives : BitMap → Option ℕ → BitMap → Type 0
Gives m o m' =
    ((o ≡ none) × (free_count m ≡ 0) × (m' ≡ m)) ⊎ ((s : ℕ) × (o ≡ some s) × Fresh m (s ∷ []) m')

pub find-Gives :
    (m : BitMap)
    → IsValid m
    → (o : Option ℕ) × (m' : BitMap) × (find m ≡ done (o, m')) × Gives m o m'
find-Gives m v = elim (find-Finds m v) [
  | inl (all, e) ↦
      (none, m, e, inl (refl, free_count-zero m (λ j p. all j (omega arith) (omega arith)), refl))
  | inr (k, m', low, high, free, before, u, e) ↦
      (some k, m', e, inr (k, refl, Fresh-one m k m' (omega arith) free u))
]
