-- ===== src/Base/Bits.antt =====
-- The bits of an unsigned word, and what `|`, `&` and a single-bit mask do to them.
use Prim.Native.Nat.{
  ℕ, zero, suc, ◌+◌, ◌-◌, ◌*◌, ◌/◌, ◌%◌, ◌^◌, ◌<◌, ◌≤◌, min, max, bit_and, bit_or, digits,
  bit_and-bitwise, bit_or-bitwise,
}
use mathlib.Core.Path.{◌≡◌, refl, ap, ◌∙◌, sym}
use mathlib.Core.Logic.{◌≢◌}
use native.Mathlib.Nat.{pow-suc, one-le-pow, pow-le-pow_right, mod-one}
use native.Mathlib.Omega.{arith}
use non_os.Base.Arith.{mod_mul}
use native.Mathlib.Decide.{ℕ_discrete, dec_lt}

-- Bit `k` of a number, 0 or 1.
unfoldable pub bit_at : ℕ → ℕ → ℕ
bit_at x zero = x % 2
bit_at x (suc k) = bit_at (x / 2) k

pub bit_at-lt : (x k : ℕ) → bit_at x k < 2
unfolding bit_at
bit_at-lt x zero = omega arith
bit_at-lt x (suc k) = bit_at-lt (x / 2) k

pub bit_at-zero : (k : ℕ) → bit_at 0 k ≡ 0
unfolding bit_at
bit_at-zero zero = refl
bit_at-zero (suc k) = bit_at-zero k

-- A native bit operation works bit by bit: `f` on two digits, `z` once the first number is used up.
module _ (z : ℕ → ℕ) (f : ℕ → ℕ → ℕ) (rest : (b k : ℕ) → bit_at (z b) k ≡ f 0 (bit_at b k))
    (digit : (x y : ℕ) → x < 2 → y < 2 → f x y < 2) where
  pub bit_at-digits :
      (n a b k : ℕ) → a ≤ n → bit_at (digits z f n a b) k ≡ f (bit_at a k) (bit_at b k)
  unfolding bit_at
  bit_at-digits zero zero b k h = rest b k ∙ ap (λ t. f t (bit_at b k)) (sym (bit_at-zero k))
  bit_at-digits zero (suc a) b k h = absurd (omega arith)
  bit_at-digits (suc n) zero b k h = rest b k ∙ ap (λ t. f t (bit_at b k)) (sym (bit_at-zero k))
  bit_at-digits (suc n) (suc a) b zero h =
      omega (arith, digit (suc a % 2) (b % 2) (omega arith) (omega arith))
  bit_at-digits (suc n) (suc a) b (suc k) h =
      ap (λ (t : ℕ). bit_at t k)
        (omega (arith, digit (suc a % 2) (b % 2) (omega arith) (omega arith)))
      ∙ bit_at-digits n (suc a / 2) (b / 2) k (omega arith)

pub bit_at-or : (x y k : ℕ) → bit_at (bit_or x y) k ≡ max (bit_at x k) (bit_at y k)
bit_at-or x y k =
    ap (λ (t : ℕ). bit_at t k) (bit_or-bitwise x y)
    ∙ bit_at-digits (λ b. b) max (λ b j. omega arith) (λ a b p q. omega arith) x x y k (omega arith)

pub bit_at-and : (x y k : ℕ) → bit_at (bit_and x y) k ≡ min (bit_at x k) (bit_at y k)
bit_at-and x y k =
    ap (λ (t : ℕ). bit_at t k) (bit_and-bitwise x y)
    ∙ bit_at-digits (λ b. 0) min (λ b j. omega (arith, bit_at-zero j)) (λ a b p q. omega arith) x x
        y k (omega arith)

pub zero_of_bits : (n x : ℕ) → x ≤ n → ((k : ℕ) → bit_at x k ≡ 0) → x ≡ 0
unfolding bit_at
zero_of_bits n zero h bits = refl
zero_of_bits zero (suc x) h bits = absurd (omega arith)
zero_of_bits (suc n) (suc x) h bits =
    omega (arith, bits 0, zero_of_bits n (suc x / 2) (omega arith) (λ k. bits (suc k)))

half_pow : (b : ℕ) → 2 ^ suc b / 2 ≡ 2 ^ b
half_pow b = omega (arith, pow-suc 2 b)

pub bit_at-pow_self : (b : ℕ) → bit_at (2 ^ b) b ≡ 1
unfolding bit_at
bit_at-pow_self zero = refl
bit_at-pow_self (suc b) = ap (λ (t : ℕ). bit_at t b) (half_pow b) ∙ bit_at-pow_self b

pub bit_at-pow_ne : (b k : ℕ) → b ≢ k → bit_at (2 ^ b) k ≡ 0
unfolding bit_at
bit_at-pow_ne zero zero h = absurd (h refl)
bit_at-pow_ne zero (suc k) h = bit_at-zero k
bit_at-pow_ne (suc b) zero h = omega (arith, pow-suc 2 b)
bit_at-pow_ne (suc b) (suc k) h =
    ap (λ (t : ℕ). bit_at t k) (half_pow b) ∙ bit_at-pow_ne b k (omega arith)

-- `x & (1 << b)` is zero just where bit `b` is.
pub bit_and-pow_zero : (b x : ℕ) → bit_at x b ≡ 0 → bit_and x (2 ^ b) ≡ 0
bit_and-pow_zero b x h = zero_of_bits (bit_and x (2 ^ b)) _ (omega arith) bits
  where
    bits : (k : ℕ) → bit_at (bit_and x (2 ^ b)) k ≡ 0
    bits k = elim (ℕ_discrete b k) [
      | yes e ↦ omega (arith, bit_at-and x (2 ^ b) k, ap (bit_at x) e)
      | no ne ↦ omega (arith, bit_at-and x (2 ^ b) k, bit_at-pow_ne b k ne)
    ]

pub bit_and-pow_ne : (b x : ℕ) → bit_at x b ≡ 1 → bit_and x (2 ^ b) ≢ 0
bit_and-pow_ne b x h e =
    omega (
      arith,
      bit_at-and x (2 ^ b) b,
      bit_at-pow_self b,
      bit_at-zero b,
      ap (λ (t : ℕ). bit_at t b) e,
    )

bit_at-ones : (w k : ℕ) → k < w → bit_at (2 ^ w - 1) k ≡ 1
unfolding bit_at
bit_at-ones zero k h = absurd (omega arith)
bit_at-ones (suc w) zero h = omega (arith, pow-suc 2 w, one-le-pow w 2)
bit_at-ones (suc w) (suc k) h =
    ap (λ (t : ℕ). bit_at t k) (omega (arith, pow-suc 2 w, one-le-pow w 2))
    ∙ bit_at-ones w k (omega arith)

-- `~(1 << b)` in a word of `w` bits.
abbrev pub clear_mask : ℕ → ℕ → ℕ
clear_mask w b = 2 ^ w - 1 - 2 ^ b

pow_lt : {b w : ℕ} → b < w → 2 ^ b < 2 ^ w
pow_lt {b} {w} h =
    omega (arith, pow-suc 2 b, pow-le-pow_right {n = 2} (omega arith) h, one-le-pow b 2)

half-clear_mask : (w b : ℕ) → b < w → clear_mask (suc w) (suc b) / 2 ≡ clear_mask w b
half-clear_mask w b h = omega (arith, pow-suc 2 b, pow-suc 2 w, pow_lt h)

pub bit_at-clear_mask_self : (w b : ℕ) → b < w → bit_at (clear_mask w b) b ≡ 0
unfolding bit_at
bit_at-clear_mask_self zero b h = absurd (omega arith)
bit_at-clear_mask_self (suc w) zero h = omega (arith, pow-suc 2 w, one-le-pow w 2)
bit_at-clear_mask_self (suc w) (suc b) h =
    ap (λ (t : ℕ). bit_at t b) (half-clear_mask w b (omega arith))
    ∙ bit_at-clear_mask_self w b (omega arith)

pub bit_at-clear_mask_ne : (w b k : ℕ) → b < w → k < w → b ≢ k → bit_at (clear_mask w b) k ≡ 1
unfolding bit_at
bit_at-clear_mask_ne zero b k h p n = absurd (omega arith)
bit_at-clear_mask_ne (suc w) zero zero h p n = absurd (n refl)
bit_at-clear_mask_ne (suc w) zero (suc k) h p n =
    ap (λ (t : ℕ). bit_at t k) (omega (arith, pow-suc 2 w)) ∙ bit_at-ones w k (omega arith)
bit_at-clear_mask_ne (suc w) (suc b) zero h p n =
    omega (arith, pow-suc 2 b, pow-suc 2 w, pow_lt {b = b} {w = w} (omega arith))
bit_at-clear_mask_ne (suc w) (suc b) (suc k) h p n =
    ap (λ (t : ℕ). bit_at t k) (half-clear_mask w b (omega arith))
    ∙ bit_at-clear_mask_ne w b k (omega arith) (omega arith) (omega arith)

-- Numbers with the same bits are equal.
pub same_bits : (n x y : ℕ) → x ≤ n → y ≤ n → ((k : ℕ) → bit_at x k ≡ bit_at y k) → x ≡ y
unfolding bit_at
same_bits zero x y p q h = omega arith
same_bits (suc n) x y p q h =
    omega (arith, h 0, same_bits n (x / 2) (y / 2) (omega arith) (omega arith) (λ k. h (suc k)))

bit_at-ones_out : (w k : ℕ) → w ≤ k → bit_at (2 ^ w - 1) k ≡ 0
unfolding bit_at
bit_at-ones_out zero k h = bit_at-zero k
bit_at-ones_out (suc w) zero h = absurd (omega arith)
bit_at-ones_out (suc w) (suc k) h =
    ap (λ (t : ℕ). bit_at t k) (omega (arith, pow-suc 2 w, one-le-pow w 2))
    ∙ bit_at-ones_out w k (omega arith)

-- One digit of a remainder by a power of two.
pub mod_pow_suc : (x w : ℕ) → x % 2 ^ suc w ≡ x / 2 % 2 ^ w * 2 + x % 2
mod_pow_suc x w =
    ap (λ (t : ℕ). x % t) (pow-suc 2 w)
    ∙ mod_mul x (2 ^ w) 2 (omega (arith, one-le-pow w 2)) (omega arith)

bit_at-mod_in : (w x k : ℕ) → k < w → bit_at (x % 2 ^ w) k ≡ bit_at x k
unfolding bit_at
bit_at-mod_in zero x k h = absurd (omega arith)
bit_at-mod_in (suc w) x zero h = omega (arith, mod_pow_suc x w)
bit_at-mod_in (suc w) x (suc k) h =
    ap (λ (t : ℕ). bit_at t k) (omega (arith, mod_pow_suc x w))
    ∙ bit_at-mod_in w (x / 2) k (omega arith)

bit_at-mod_out : (w x k : ℕ) → w ≤ k → bit_at (x % 2 ^ w) k ≡ 0
unfolding bit_at
bit_at-mod_out zero x k h = ap (λ (t : ℕ). bit_at t k) (mod-one x) ∙ bit_at-zero k
bit_at-mod_out (suc w) x zero h = absurd (omega arith)
bit_at-mod_out (suc w) x (suc k) h =
    ap (λ (t : ℕ). bit_at t k) (omega (arith, mod_pow_suc x w))
    ∙ bit_at-mod_out w (x / 2) k (omega arith)

-- `x & (2 ^ w - 1)` is the remainder.
pub bit_and-low : (w x : ℕ) → bit_and x (2 ^ w - 1) ≡ x % 2 ^ w
bit_and-low w x = same_bits (bit_and x (2 ^ w - 1) + x % 2 ^ w) _ _ (omega arith) (omega arith) bits
  where
    bits : (k : ℕ) → bit_at (bit_and x (2 ^ w - 1)) k ≡ bit_at (x % 2 ^ w) k
    bits k = elim (dec_lt k w) [
      | yes h ↦ omega (
        arith,
        bit_at-and x (2 ^ w - 1) k,
        bit_at-ones w k h,
        bit_at-lt x k,
        bit_at-mod_in w x k h,
      )
      | no h ↦ omega (
        arith,
        bit_at-and x (2 ^ w - 1) k,
        bit_at-ones_out w k (omega arith),
        bit_at-mod_out w x k (omega arith),
      )
    ]
