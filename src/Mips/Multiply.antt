-- ===== src/Mips/Multiply.antt =====
-- The loop of `Mult`: shifting and adding is multiplication modulo 2 ^ 64.
use Prim.Native.Nat.{bit_and}
use native.Mathlib.Nat.{pow-suc, mod-one, one-le-pow, mod-eq_of_lt, add-mul-mod_self_right}
use non_os.Base.{
  ℕ, zero, suc, ◌+◌, ◌-◌, ◌*◌, ◌/◌, ◌%◌, ◌^◌, ◌<◌, ◌≤◌, ◌≡◌, refl, ap, sym, ◌∙◌, true, false, ◌==◌,
  arith, Bool-cases, inl, inr,
}
use non_os.Base.Bits.{bit_and-low, mod_pow_suc}
use non_os.Base.Digits.{bit_or-one, bit_and-upper, sign_zero, sign_one}
use native.Mathlib.Decide.{dec_lt}
use non_os.Mips.Words.{word, sign_bit, not32, shl32, sra32, is_negative}
use non_os.Mips.Mult.{Double, add_double, shift_double, mult_loop, negate_double}

-- 2 ^ 64
abbrev pub double_word : ℕ
double_word = word * word

-- The number that a double word stands for.
abbrev pub value : Double → ℕ
value d = d.hi * word + d.lo

pub record IsDouble (d : Double) : Type 0 where
  pub hi : d.hi < word
  pub lo : d.lo < word

add_double_lem :
    (a b : Double)
    → IsDouble a
    → IsDouble b
    → value (add_double a b) ≡ (value a + value b) % double_word
unfolding add_double
add_double_lem a b h k = ground (arith, h.hi, h.lo, k.hi, k.lo)

pub add_double-IsDouble : (a b : Double) → IsDouble (add_double a b)
unfolding add_double
add_double-IsDouble a b = record { hi = omega arith; lo = omega arith }

shift_double_lem : (b : Double) → IsDouble b → value (shift_double b) ≡ (value b * 2) % double_word
unfolding shift_double
shift_double_lem b h = elim (dec_lt b.lo sign_bit) [
  | yes p ↦ rw (sign_zero b.lo p) (omega (arith, h.hi, h.lo, p))
  | no p ↦ elim (Bool-cases (bit_and b.lo 0x80000000 == 0)) [
    | inl e ↦ absurd (sign_one b.lo (omega arith) h.lo (ground arith))
    | inr e ↦ rw (e, bit_or-one (shl32 b.hi 1) (omega arith)) (omega (arith, h.hi, h.lo, p))
  ]
]

pub shift_double-IsDouble : (b : Double) → IsDouble b → IsDouble (shift_double b)
unfolding shift_double
shift_double-IsDouble b h = record {
  hi = elim (Bool-cases (bit_and b.lo 0x80000000 == 0)) [
    | inl e ↦ rw e (omega arith)
    | inr e ↦ rw (e, bit_or-one (shl32 b.hi 1) (omega arith)) (omega arith)
  ];
  lo = omega arith;
}

pub negate_double_lem :
    (r : Double) → IsDouble r → value (negate_double r) ≡ (double_word - value r) % double_word
unfolding negate_double
negate_double_lem r h = ground (arith, h.hi, h.lo)

-- One round in the product: the digit `d` of the factor, and the digits `q` above it.
mult_round :
    (acc q d b : ℕ)
    → ((acc + d * b) % double_word + q * (b * 2 % double_word)) % double_word
      ≡ (acc + (q * 2 + d) * b) % double_word
mult_round acc q d b = omega (arith, spread)
  where
    distribute : (q c s : ℕ) → q * (c * double_word + s) ≡ q * c * double_word + q * s
    distribute q c s = omega arith

    spread : q * (b * 2) ≡ q * (b * 2 / double_word) * double_word + q * (b * 2 % double_word)
    spread =
        ap (λ (t : ℕ). q * t) (omega arith)
        ∙ distribute q (b * 2 / double_word) (b * 2 % double_word)

pow_split : (n m : ℕ) → n ≤ m → 2 ^ m ≡ 2 ^ (m - n) * 2 ^ n
pow_split zero m h = omega (arith, ap (λ (t : ℕ). 2 ^ t) minus)
  where
    minus : m - 0 ≡ m
    minus = omega arith
pow_split (suc n) zero h = absurd (omega arith)
pow_split (suc n) (suc m) h = omega (
  arith,
  pow-suc 2 m,
  pow_split n m (omega arith),
  ap (λ (t : ℕ). 2 ^ (m - n) * t) (pow-suc 2 n),
  ap (λ (t : ℕ). 2 ^ t * 2 ^ suc n) less,
)
  where
    less : suc m - suc n ≡ m - n
    less = omega arith

-- The digits that are left after a round, whether or not the shift filled in the sign.
shifted : (a : ℕ) → is_negative a ≡ true → a < word → not32 (not32 a / 2 ^ 1) ≡ a / 2 + 2 ^ 31
shifted a e h = ground arith

sra32-mod : (n a : ℕ) → n ≤ 31 → a < word → sra32 a 1 % 2 ^ n ≡ a / 2 % 2 ^ n
sra32-mod n a h k = elim (Bool-cases (is_negative a)) [
  | inl e ↦ rw e (filled e n h)
  | inr e ↦ rw e refl
]
  where
    filled :
        is_negative a ≡ true → (n : ℕ) → n ≤ 31 → not32 (not32 a / 2 ^ 1) % 2 ^ n ≡ a / 2 % 2 ^ n
    filled e n h =
        ap (λ (t : ℕ). t % 2 ^ n) (shifted a e k)
        ∙ ap (λ (t : ℕ). (a / 2 + t) % 2 ^ n) (pow_split n 31 h)
        ∙ add-mul-mod_self_right (a / 2) (2 ^ (31 - n)) (2 ^ n)

digit_zero : (a : ℕ) → (bit_and a 1 == 0) ≡ true → a % 2 ≡ 0
digit_zero a e = ground (arith, bit_and-low 1 a)

digit_one : (a : ℕ) → (bit_and a 1 == 0) ≡ false → a % 2 ≡ 1
digit_one a e = ground (arith, bit_and-low 1 a)

sra32-lt : (a : ℕ) → a < word → sra32 a 1 < word
sra32-lt a h = elim (Bool-cases (is_negative a)) [
  | inl e ↦ rw e (omega (arith, h))
  | inr e ↦ rw e (omega (arith, h))
]

last_digit : (a left : ℕ) → a < word → a % 2 ≡ 1 → bit_and a 0xfffffffe ≡ 0 → a % 2 ^ suc left ≡ 1
last_digit a left h d e =
    ap (λ (t : ℕ). t % 2 ^ suc left) (omega (arith, d, bit_and-upper a h e))
    ∙ mod-eq_of_lt (omega (arith, pow-suc 2 left, one-le-pow left 2 (omega arith)))

-- The rest of the loop after one round.
mult_tail :
    (left a d : ℕ) (b acc acc' : Double)
    → suc left ≤ 32
    → a < word
    → IsDouble b
    → a % 2 ≡ d
    → value acc' % double_word ≡ (value acc + d * value b) % double_word
    → (value acc' + sra32 a 1 % 2 ^ left * value (shift_double b)) % double_word
      ≡ (value acc + a % 2 ^ suc left * value b) % double_word
mult_tail left a d b acc acc' h k p f e =
    ap (λ (t : ℕ). (value acc' + t) % double_word)
      (ap (λ (t : ℕ). t * value (shift_double b)) (sra32-mod left a (omega arith) k)
        ∙ ap (λ (t : ℕ). a / 2 % 2 ^ left * t) (shift_double_lem b p))
    ∙ omega (arith, e)
    ∙ mult_round (value acc) (a / 2 % 2 ^ left) d (value b)
    ∙ ap (λ (t : ℕ). (value acc + t * value b) % double_word)
        (ap (λ (t : ℕ). a / 2 % 2 ^ left * 2 + t) (sym f) ∙ sym (mod_pow_suc a left))

pub mult_loop_lem :
    (left a : ℕ) (b acc : Double)
    → left ≤ 32
    → a < word
    → IsDouble b
    → IsDouble acc
    → value (mult_loop left a b acc) ≡ (value acc + a % 2 ^ left * value b) % double_word
unfolding mult_loop
mult_loop_lem zero a b acc h k p q =
    omega (arith, q.hi, q.lo, ap (λ (t : ℕ). t * value b) (mod-one a))
mult_loop_lem (suc left) a b acc h k p q = elim (Bool-cases (bit_and a 1 == 0)) [
  | inl even ↦ rw even (
      mult_loop_lem left (sra32 a 1) (shift_double b) acc (omega arith) (sra32-lt a k)
        (shift_double-IsDouble b p) q
      ∙ mult_tail left a 0 b acc acc h k p (digit_zero a even) (omega arith))
  | inr odd ↦ elim (Bool-cases (bit_and a 0xfffffffe == 0)) [
    | inl last ↦
        rw (odd, last)
          (add_double_lem acc b q p
            ∙ omega (
              arith,
              ap (λ (t : ℕ). t * value b) (last_digit a left k (digit_one a odd) (ground arith)),
            ))
    | inr more ↦
        rw (odd, more)
          (mult_loop_lem left (sra32 a 1) (shift_double b) (add_double acc b) (omega arith)
              (sra32-lt a k) (shift_double-IsDouble b p) (add_double-IsDouble acc b)
            ∙ mult_tail left a 1 b acc (add_double acc b) h k p (digit_one a odd)
                (omega (arith, add_double_lem acc b q p)))
  ]
]
