-- ===== src/Mips/Product.antt =====
-- The result of `Mult`: the double-length product, unsigned and signed.
use Prim.Native.Nat.{bit_and}
use native.Mathlib.Nat.{mul_comm, mod-eq_of_lt}
use non_os.Base.{
  ℕ, zero, suc, ◌+◌, ◌-◌, ◌*◌, ◌%◌, ◌<◌, ◌≡◌, ap, sym, ◌∙◌, Bool, true, false, ◌==◌, if◌then◌else◌,
  arith, Bool-cases, inl, inr,
}
use non_os.Mips.Words.{word, neg32, sra32, is_negative}
use non_os.Mips.Mult.{Double, add_double, shift_double, mult_loop, differ, mult_signed, mult}
use non_os.Mips.Multiply.{
  double_word, value, IsDouble, negate_double_lem, add_double-IsDouble, shift_double-IsDouble,
  mult_loop_lem,
}

-- The sign extension of a word to a double word.
abbrev pub extend : ℕ → ℕ
extend a = if is_negative a then a + (double_word - word) else a

-- The factors that `Mult` has made positive.
abbrev pub positive : ℕ → ℕ
positive a = if is_negative a then neg32 a else a

mult_loop-IsDouble :
    (left a : ℕ) (b acc : Double) → IsDouble b → IsDouble acc → IsDouble (mult_loop left a b acc)
unfolding mult_loop
mult_loop-IsDouble zero a b acc p q = q
mult_loop-IsDouble (suc left) a b acc p q = elim (Bool-cases (bit_and a 1 == 0)) [
  | inl even ↦
      rw even
        (mult_loop-IsDouble left (sra32 a 1) (shift_double b) acc (shift_double-IsDouble b p) q)
  | inr odd ↦ elim (Bool-cases (bit_and a 0xfffffffe == 0)) [
    | inl last ↦ rw (odd, last) (add_double-IsDouble acc b)
    | inr more ↦
        rw (odd, more)
          (mult_loop-IsDouble left (sra32 a 1) (shift_double b) (add_double acc b)
            (shift_double-IsDouble b p) (add_double-IsDouble acc b))
  ]
]

product_lt : (a b : ℕ) → a < word → b < word → a * b < double_word
product_lt a b h k = grind arith

abbrev product_of : ℕ → ℕ → Double
product_of a b = mult_loop 32 a (record { hi = 0; lo = b }) (record { hi = 0; lo = 0 })

product_of_lem : (a b : ℕ) → a < word → b < word → value (product_of a b) ≡ a * b
product_of_lem a b h k =
    mult_loop_lem 32 a (record { hi = 0; lo = b }) (record { hi = 0; lo = 0 }) (omega arith) h
      (record { hi = omega arith; lo = k }) (record { hi = omega arith; lo = omega arith })
    ∙ ap (λ (t : ℕ). (0 * word + 0 + t * (0 * word + b)) % double_word) (mod-eq_of_lt h)
    ∙ omega (arith, product_lt a b h k)

-- A product of words is a double word.
mult_signed_lem :
    (negative : Bool) (a b : ℕ)
    → a < word
    → b < word
    → value (mult_signed negative a b)
      ≡ (if negative then double_word - a * b else a * b) % double_word
unfolding mult_signed
mult_signed_lem true a b h k =
    negate_double_lem (product_of a b) (
      mult_loop-IsDouble 32 a _ _ (record { hi = omega arith; lo = k })
        (record { hi = omega arith; lo = omega arith }))
    ∙ ap (λ (t : ℕ). (double_word - t) % double_word) (product_of_lem a b h k)
mult_signed_lem false a b h k = product_of_lem a b h k ∙ sym (mod-eq_of_lt (product_lt a b h k))

-- Factors that are 0.
zero_of : (x : ℕ) → (x == 0) ≡ true → x ≡ 0
zero_of x e = ground arith

extend-zero : (x : ℕ) → (x == 0) ≡ true → extend x ≡ 0
extend-zero x e = ground arith

-- OP_MULTU: for two 32-bit words, the two result words are the 64-bit product.
pub mult_unsigned : (a b : ℕ) → a < word → b < word → value (mult a b false) ≡ a * b
unfolding mult
mult_unsigned a b h k = elim (Bool-cases (a == 0)) [
  | inl e ↦ rw e (omega (arith, ap (λ (t : ℕ). t * b) (zero_of a e)))
  | inr e ↦ elim (Bool-cases (b == 0)) [
    | inl f ↦ rw (e, f) (omega (arith, ap (λ (t : ℕ). a * t) (zero_of b f)))
    | inr f ↦ rw (e, f) (mult_signed_lem false a b h k ∙ mod-eq_of_lt (product_lt a b h k))
  ]
]

-- Products of complements: `u` is `-x` and `v` is `-y`.
minus_times :
    (u x y : ℕ)
    → u + x ≡ double_word
    → x * y < double_word
    → u * y % double_word ≡ (double_word - x * y) % double_word
minus_times u x y h k = omega (arith, k, ap (λ (t : ℕ). t * y) h)

minus_minus :
    (u x v y : ℕ)
    → u + x ≡ double_word
    → v + y ≡ double_word
    → u * v % double_word ≡ x * y % double_word
minus_minus u x v y h k = omega (arith, ap (λ (t : ℕ). t * v) h, ap (λ (t : ℕ). x * t) k)

minus_word :
    (a : ℕ) → is_negative a ≡ true → a < word → a + (double_word - word) + neg32 a ≡ double_word
minus_word a e h = ground arith

signed_product :
    (a b : ℕ)
    → a < word
    → b < word
    → value (mult_signed (differ (is_negative a) (is_negative b)) (positive a) (positive b))
      ≡ extend a * extend b % double_word
signed_product a b h k = elim (Bool-cases (is_negative a)) [
  | inl p ↦ elim (Bool-cases (is_negative b)) [
    | inl q ↦
        rw (p, q)
          (mult_signed_lem false (neg32 a) (neg32 b) (omega arith) (omega arith)
            ∙ sym (minus_minus _ (neg32 a) _ (neg32 b) (minus_word a p h) (minus_word b q k)))
    | inr q ↦
        rw (p, q)
          (mult_signed_lem true (neg32 a) b (omega arith) k
            ∙ sym (
                minus_times _ (neg32 a) b (minus_word a p h)
                  (product_lt (neg32 a) b (omega arith) k)))
  ]
  | inr p ↦ elim (Bool-cases (is_negative b)) [
    | inl q ↦
        rw (p, q)
          (mult_signed_lem true a (neg32 b) h (omega arith)
            ∙ ap (λ (t : ℕ). (double_word - t) % double_word) (mul_comm a (neg32 b))
            ∙ sym (
                minus_times _ (neg32 b) a (minus_word b q k)
                  (product_lt (neg32 b) a (omega arith) h))
            ∙ ap (λ (t : ℕ). t % double_word) (mul_comm (b + (double_word - word)) a))
    | inr q ↦ rw (p, q) (mult_signed_lem false a b h k)
  ]
]

-- OP_MULT: for two 32-bit words, the two result words are the low 64 bits of the product of their
-- sign extensions, which is the product in two's complement.
pub mult_two_complement :
    (a b : ℕ) → a < word → b < word → value (mult a b true) ≡ extend a * extend b % double_word
unfolding mult
mult_two_complement a b h k = elim (Bool-cases (a == 0)) [
  | inl e ↦
      rw e
        (zero_left (extend b) ∙ ap (λ (t : ℕ). t * extend b % double_word) (sym (extend-zero a e)))
  | inr e ↦ elim (Bool-cases (b == 0)) [
    | inl f ↦
        rw (e, f)
          (zero_right (extend a)
            ∙ ap (λ (t : ℕ). extend a * t % double_word) (sym (extend-zero b f)))
    | inr f ↦ rw (e, f) (signed_product a b h k)
  ]
]
  where
    zero_left : (x : ℕ) → 0 ≡ 0 * x % double_word
    zero_left x = omega arith

    zero_right : (x : ℕ) → 0 ≡ x * 0 % double_word
    zero_right x = omega arith
