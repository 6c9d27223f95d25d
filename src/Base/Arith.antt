-- ===== src/Base/Arith.antt =====
-- Remainders and quotients by a product.
use Prim.Native.Nat.{ℕ, ◌+◌, ◌*◌, ◌/◌, ◌%◌, ◌<◌}
use mathlib.Core.Path.{◌≡◌, ap, ◌∙◌}
use native.Mathlib.Nat.{mul-add-mod_self_left, mod-eq_of_lt, mod-lt, div-add-mod}
use native.Mathlib.Omega.{arith}

-- A digit in base `b` with `r` above it, below `p * b`.
pub digit_below : (r p s b : ℕ) → r < p → s < b → r * b + s < p * b
digit_below r p s b h k = grind arith

-- A remainder by `p * b`: the digit in base `b`, and the remainder of the rest by `p`.
pub mod_mul : (x p b : ℕ) → 0 < p → 0 < b → x % (p * b) ≡ x / b % p * b + x % b
mod_mul x p b h k =
    ap (λ (t : ℕ). t % (p * b)) split
    ∙ mul-add-mod_self_left (p * b) (x / b / p) (x / b % p * b + x % b)
    ∙ mod-eq_of_lt (digit_below (x / b % p) p (x % b) b (mod-lt (x / b) h) (mod-lt x k))
  where
    split : x ≡ p * b * (x / b / p) + (x / b % p * b + x % b)
    split = omega (arith, div-add-mod x b, ap (λ (t : ℕ). t * b) (div-add-mod (x / b) p))
