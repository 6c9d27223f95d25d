-- ===== src/Base/Pigeonhole.antt =====
-- Different numbers below a bound are at most as many as the bound.
use Prim.Native.Nat.{ℕ, zero, suc, ◌<◌, ◌≤◌}
use mathlib.Core.Path.{◌≡◌, sym, ◌∙◌}
use mathlib.Core.Logic.{◌≢◌}
use mathlib.Core.List.{List, [], ◌∷◌}
use native.Mathlib.Omega.{arith}
use native.Mathlib.Decide.{ℕ_discrete}
use non_os.Base.Lists.{length, All, Distinct}

-- A list of different numbers without `n`.
record Without (n : ℕ) (ps qs : List ℕ) : Type 1 where
  size : length ps ≤ suc (length qs)
  distinct : Distinct qs
  absent : All (λ q. q ≢ n) qs
  among : (P : ℕ → Type 0) → All P ps → All P qs

without : (n : ℕ) (ps : List ℕ) → Distinct ps → (qs : List ℕ) × Without n ps qs
without n [] d = ([], record { size = omega arith; distinct = tt; absent = tt; among = λ P a. tt })
without n (p ∷ ps) d = elim (ℕ_discrete p n) [
  | yes e ↦ (
    ps,
    record { size = omega arith; distinct = d.1; absent = absent ps d.0 e; among = λ P a. a.1 },
  )
  | no m ↦
      let (qs, w) = without n ps d.1 in
      (
        p ∷ qs,
        record {
          size = omega (arith, w.size);
          distinct = (w.among (λ q. p ≢ q) d.0, w.distinct);
          absent = (m, w.absent);
          among = λ P a. (a.0, w.among P a.1);
        },
      )
]
  where
    absent : (ps : List ℕ) → All (λ q. p ≢ q) ps → p ≡ n → All (λ q. q ≢ n) ps
    absent [] a e = tt
    absent (q ∷ ps) a e = ((λ s. a.0 (e ∙ sym s)), absent ps a.1 e)

below : (n : ℕ) (ps : List ℕ) → All (λ p. p < suc n) ps → All (λ p. p ≢ n) ps → All (λ p. p < n) ps
below n [] a b = tt
below n (p ∷ ps) a b = (omega (arith, a.0, b.0), below n ps a.1 b.1)

pub length-Distinct : (n : ℕ) (ps : List ℕ) → Distinct ps → All (λ p. p < n) ps → length ps ≤ n
length-Distinct zero [] d a = omega arith
length-Distinct zero (p ∷ ps) d a = absurd (omega (arith, a.0))
length-Distinct (suc n) ps d a =
    let (qs, w) = without n ps d in
    omega (
      arith,
      w.size,
      length-Distinct n qs w.distinct (below n qs (w.among (λ p. p < suc n) a) w.absent),
    )
