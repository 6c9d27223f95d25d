-- ===== src/Base/Apart.antt =====
-- Lists of numbers with no element in common, and `All` and `Distinct` over a concatenation.
use Prim.Native.Nat.{ℕ, ◌<◌}
use mathlib.Core.Path.{subst}
use mathlib.Core.Logic.{◌≢◌}
use mathlib.Core.List.{List, [], ◌∷◌, ◌++◌, map}
use non_os.Base.Lists.{All, Distinct, length, get_or, All-get_or}

abbrev pub Apart : List ℕ → List ℕ → Type 0
Apart xs ys = All (λ x. All (λ y. x ≢ y) ys) xs

pub All-append {ℓ κ} :
    {A : Type ℓ} (P : A → Type κ) (xs ys : List A) → All P xs → All P ys → All P (xs ++ ys)
All-append P [] ys h k = k
All-append P (x ∷ xs) ys h k = (h.0, All-append P xs ys h.1 k)

pub Distinct-append :
    (xs ys : List ℕ) → Distinct xs → Distinct ys → Apart xs ys → Distinct (xs ++ ys)
Distinct-append [] ys h k a = k
Distinct-append (x ∷ xs) ys h k a =
    (All-append (λ y. x ≢ y) xs ys h.0 a.0, Distinct-append xs ys h.1 k a.1)

-- Where `P` holds of one list and fails on the other they are apart.
pub Apart-of {ℓ} :
    {A : Type ℓ} (P : ℕ → Type 0) (key : A → ℕ) (xs ys : List A)
    → All (λ a. P (key a)) xs
    → All (λ b. ¬ P (key b)) ys
    → Apart (map key xs) (map key ys)
Apart-of P key [] ys h k = tt
Apart-of {A} P key (x ∷ xs) ys h k = (others ys k, Apart-of P key xs ys h.1 k)
  where
    others : (ys : List A) → All (λ b. ¬ P (key b)) ys → All (λ y. key x ≢ y) (map key ys)
    others [] k = tt
    others (y ∷ ys) k = ((λ e. k.0 (subst P e h.0)), others ys k.1)

pub Apart-get_or :
    (xs ys : List ℕ) (i j d : ℕ)
    → Apart xs ys
    → i < length xs
    → j < length ys
    → get_or xs i d ≢ get_or ys j d
Apart-get_or xs ys i j d a p q =
    All-get_or (λ y. get_or xs i d ≢ y) ys j d (All-get_or (λ x. All (λ y. x ≢ y) ys) xs i d a p) q

-- The parts of a concatenation.
pub All-split {ℓ κ} :
    {A : Type ℓ} (P : A → Type κ) (xs ys : List A) → All P (xs ++ ys) → All P xs × All P ys
All-split P [] ys h = (tt, h)
All-split P (x ∷ xs) ys h = ((h.0, (All-split P xs ys h.1).0), (All-split P xs ys h.1).1)

pub Distinct-split :
    (xs ys : List ℕ) → Distinct (xs ++ ys) → Distinct xs × Distinct ys × Apart xs ys
Distinct-split [] ys h = (tt, h, tt)
Distinct-split (x ∷ xs) ys h =
    let (d, e, a) = Distinct-split xs ys h.1 in
    let (p, q) = All-split (λ y. x ≢ y) xs ys h.0 in ((p, d), e, (q, a))

-- Seen from the other list.
pub Apart-transpose : (xs ys : List ℕ) → Apart xs ys → All (λ y. All (λ x. x ≢ y) xs) ys
Apart-transpose xs [] a = tt
Apart-transpose xs (y ∷ ys) a = (first xs a, Apart-transpose xs ys (rest xs a))
  where
    first : (xs : List ℕ) → Apart xs (y ∷ ys) → All (λ x. x ≢ y) xs
    first [] b = tt
    first (x ∷ xs) b = (b.0.0, first xs b.1)

    rest : (xs : List ℕ) → Apart xs (y ∷ ys) → Apart xs ys
    rest [] b = tt
    rest (x ∷ xs) b = (b.0.1, rest xs b.1)
