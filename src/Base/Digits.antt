-- ===== src/Base/Digits.antt =====
-- Single digits of unsigned words: the sign bit, the lowest bit, and all but the lowest.
use Prim.Native.Nat.{
  ℕ, zero, suc, ◌+◌, ◌/◌, ◌%◌, ◌^◌, ◌<◌, ◌≤◌, bit_and, bit_or, bit_xor, differ, bit_xor-bitwise,
}
use mathlib.Core.Path.{◌≡◌, refl, ap, ◌∙◌}
use mathlib.Core.Logic.{◌≢◌}
use native.Mathlib.Nat.{pow-suc, div-div-eq-div-mul, div-eq_of_lt, pow-le-pow_right}
use native.Mathlib.Omega.{arith}
use native.Mathlib.Decide.{dec_lt}
use non_os.Base.Bits.{
  bit_at, bit_at-lt, bit_at-zero, bit_at-and, bit_at-or, bit_and-pow_zero, bit_and-pow_ne,
  same_bits, zero_of_bits, clear_mask, bit_at-digits, bit_at-clear_mask_ne,
}

-- A bit by division.
pub bit_at-div : (x k : ℕ) → bit_at x k ≡ x / 2 ^ k % 2
unfolding bit_at
bit_at-div x zero = omega arith
bit_at-div x (suc k) =
    bit_at-div (x / 2) k
    ∙ ap (λ (t : ℕ). t % 2)
        (div-div-eq-div-mul x 2 (2 ^ k) ∙ ap (λ (t : ℕ). x / t) (omega (arith, pow-suc 2 k)))

-- `x | 1` of an even number.
pub bit_or-one : (x : ℕ) → x % 2 ≡ 0 → bit_or x 1 ≡ x + 1
unfolding bit_at
bit_or-one x h = same_bits (bit_or x 1 + x + 1) _ _ (omega arith) (omega arith) bits
  where
    half : (x + 1) / 2 ≡ x / 2
    half = omega arith

    bits : (k : ℕ) → bit_at (bit_or x 1) k ≡ bit_at (x + 1) k
    bits zero = bit_at-or x 1 0 ∙ omega arith
    bits (suc k) =
        bit_at-or x 1 (suc k) ∙ omega (arith, bit_at-zero k, ap (λ (t : ℕ). bit_at t k) half)

bit_at-above : (w x k : ℕ) → x < 2 ^ w → w ≤ k → bit_at x k ≡ 0
bit_at-above w x k h p =
    bit_at-div x k
    ∙ ap (λ (t : ℕ). t % 2)
        (div-eq_of_lt (omega (arith, h, pow-le-pow_right {n = 2} (omega arith) p)))

-- A 32-bit word with nothing but the lowest bit.
pub bit_and-upper : (x : ℕ) → x < 2 ^ 32 → bit_and x (clear_mask 32 0) ≡ 0 → x < 2
unfolding bit_at
bit_and-upper x h e = omega (arith, zero_of_bits (x / 2) (x / 2) (omega arith) bits)
  where
    bits : (k : ℕ) → bit_at (x / 2) k ≡ 0
    bits k = elim (dec_lt k 31) [
      | yes p ↦ omega (
        arith,
        bit_at-lt (x / 2) k,
        bit_at-and x (clear_mask 32 0) (suc k),
        bit_at-clear_mask_ne 32 0 (suc k) (omega arith) (omega arith) (omega arith),
        ap (λ (t : ℕ). bit_at t (suc k)) e,
        bit_at-zero (suc k),
      )
      | no p ↦ bit_at-above 31 (x / 2) k (omega arith) (omega arith)
    ]

differ-lt : (x y : ℕ) → x < 2 → y < 2 → differ x y < 2
differ-lt zero y h k = k
differ-lt (suc x) zero h k = h
differ-lt (suc zero) (suc zero) h k = omega arith
differ-lt (suc zero) (suc (suc y)) h k = absurd (omega arith)
differ-lt (suc (suc x)) (suc y) h k = absurd (omega arith)

differ_lem : (x y : ℕ) → x < 2 → y < 2 → differ x y ≡ (x + y) % 2
differ_lem zero y h k = omega arith
differ_lem (suc x) zero h k = omega arith
differ_lem (suc zero) (suc zero) h k = omega arith
differ_lem (suc zero) (suc (suc y)) h k = absurd (omega arith)
differ_lem (suc (suc x)) (suc y) h k = absurd (omega arith)

pub bit_at-xor : (x y k : ℕ) → bit_at (bit_xor x y) k ≡ (bit_at x k + bit_at y k) % 2
bit_at-xor x y k =
    ap (λ (t : ℕ). bit_at t k) (bit_xor-bitwise x y)
    ∙ bit_at-digits (λ b. b) differ (λ b j. refl) differ-lt x x y k (omega arith)
    ∙ differ_lem (bit_at x k) (bit_at y k) (bit_at-lt x k) (bit_at-lt y k)

-- `x & 0x80000000` of a 32-bit word.
pub sign_zero : (x : ℕ) → x < 2 ^ 31 → bit_and x (2 ^ 31) ≡ 0
sign_zero x h = bit_and-pow_zero 31 x (omega (arith, bit_at-div x 31))

pub sign_one : (x : ℕ) → 2 ^ 31 ≤ x → x < 2 ^ 32 → bit_and x (2 ^ 31) ≢ 0
sign_one x h k = bit_and-pow_ne 31 x (omega (arith, bit_at-div x 31))
