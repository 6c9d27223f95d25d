-- ===== src/Mips/Overflow.antt =====
-- `OP_ADD`, `OP_ADDI` and `OP_SUB` trap exactly when the signed result is no 32-bit number.
use Prim.Native.Nat.{bit_and, bit_xor}
use non_os.Base.{
  ℕ, ◌+◌, ◌-◌, ◌/◌, ◌%◌, ◌^◌, ◌<◌, ◌≡◌, ◌≢◌, refl, ap, ◌∙◌, Bool, true, false, not, ◌&&◌, ◌==◌,
  if◌then◌else◌, ◌⊎◌, inl, inr, Outcome, done, arith, Bool-cases,
}
use non_os.Base.Bits.{bit_at, bit_and-pow_zero, bit_and-pow_ne}
use non_os.Base.Digits.{bit_at-div, bit_at-xor}
use non_os.Machine.{Machine, overflow_exception}
use non_os.Mips.Words.{word, sign_bit, add32, sub32, is_negative, has_sign}
use non_os.Mips.Mult.{differ}
use non_os.Mips.Steps.{Step, trapped, assign}
use non_os.Mips.Exec.{exec_add, exec_sub}

-- A signed word, with 2 ^ 31 added.
abbrev pub biased : ℕ → ℕ
biased a = if is_negative a then a - sign_bit else a + sign_bit

has_sign-xor :
    (a b : ℕ)
    → a < word
    → b < word
    → has_sign (bit_xor a b) ≡ differ (is_negative a) (is_negative b)
has_sign-xor a b h k = elim (Bool-cases (differ (is_negative a) (is_negative b))) [
  | inl e ↦ rw e (
      nonzero (bit_and (bit_xor a b) sign_bit)
        (bit_and-pow_ne 31 (bit_xor a b) (top ∙ ground arith)))
  | inr e ↦
      rw e (ap (λ (t : ℕ). not (t == 0)) (bit_and-pow_zero 31 (bit_xor a b) (top ∙ ground arith)))
]
  where
    nonzero : (x : ℕ) → x ≢ 0 → not (x == 0) ≡ true
    nonzero x h = ground arith

    top : bit_at (bit_xor a b) 31 ≡ (a / 2 ^ 31 % 2 + b / 2 ^ 31 % 2) % 2
    top = bit_at-xor a b 31 ∙ omega (arith, bit_at-div a 31, bit_at-div b 31)

-- An addition: the sum is a signed word and is written to the target, or it is not, and nothing is
-- written.
abbrev pub Adds : Machine → ℕ → ℕ → ℕ → ℕ → Outcome Step → Type 0
Adds m pc target a b r =
    ((s : ℕ) × (s < word)
      × (biased s + sign_bit ≡ biased a + biased b)
      × (r ≡ assign m pc target s))
    ⊎ (((s : ℕ) → s < word → biased s + sign_bit ≢ biased a + biased b)
        × (r ≡ done (trapped overflow_exception 0 m)))

abbrev pub Subtracts : Machine → ℕ → ℕ → ℕ → ℕ → Outcome Step → Type 0
Subtracts m pc target a b r =
    ((s : ℕ) × (s < word)
      × (biased s + biased b ≡ biased a + sign_bit)
      × (r ≡ assign m pc target s))
    ⊎ (((s : ℕ) → s < word → biased s + biased b ≢ biased a + sign_bit)
        × (r ≡ done (trapped overflow_exception 0 m)))

-- The test of `OP_ADD` on the signs, and that of `OP_SUB`.
abbrev add_overflows : ℕ → ℕ → ℕ → Bool
add_overflows a b of =
    not (differ (is_negative a) (is_negative b))
    && differ (is_negative of) (is_negative (add32 a b))

abbrev sub_overflows : ℕ → ℕ → Bool
sub_overflows a b =
    differ (is_negative a) (is_negative b) && differ (is_negative a) (is_negative (sub32 a b))

sum_too_large :
    (a b s : ℕ)
    → a < word
    → b < word
    → s < word
    → add_overflows a b a ≡ true
    → biased s + sign_bit ≢ biased a + biased b
sum_too_large a b s h k l e = ground arith

sum_fits :
    (a b : ℕ)
    → a < word
    → b < word
    → add_overflows a b a ≡ false
    → biased (add32 a b) + sign_bit ≡ biased a + biased b
sum_fits a b h k e = ground arith

difference_too_large :
    (a b s : ℕ)
    → a < word
    → b < word
    → s < word
    → sub_overflows a b ≡ true
    → biased s + biased b ≢ biased a + sign_bit
difference_too_large a b s h k l e = ground arith

difference_fits :
    (a b : ℕ)
    → a < word
    → b < word
    → sub_overflows a b ≡ false
    → biased (sub32 a b) + biased b ≡ biased a + sign_bit
difference_fits a b h k e = ground arith

-- Where the operands have the same sign, the test may look at either.
either_operand : (a b of : ℕ) → (of ≡ a) ⊎ (of ≡ b) → add_overflows a b of ≡ add_overflows a b a
either_operand a b of (inl e) = ap (λ t. add_overflows a b t) e
either_operand a b of (inr e) = ap (λ t. add_overflows a b t) e ∙ ground arith

add_test :
    (a b of : ℕ)
    → a < word
    → b < word
    → (of ≡ a) ⊎ (of ≡ b)
    → (not (has_sign (bit_xor a b)) && has_sign (bit_xor of (add32 a b))) ≡ add_overflows a b a
add_test a b of h k c =
    rw (has_sign-xor a b h k, has_sign-xor of (add32 a b) (omega (arith, c)) (omega arith))
      (either_operand a b of c)

sub_test :
    (a b : ℕ)
    → a < word
    → b < word
    → (has_sign (bit_xor a b) && has_sign (bit_xor a (sub32 a b))) ≡ sub_overflows a b
sub_test a b h k = rw (has_sign-xor a b h k, has_sign-xor a (sub32 a b) h (omega arith)) refl

-- OP_ADD, and OP_ADDI, whose test looks at the immediate: on 32-bit operands, either some 32-bit
-- number is the signed sum and the target register gets it, or none is, the overflow exception is
-- raised and the machine is as before.
pub exec_add-Adds :
    (m : Machine) (pc target a b of : ℕ)
    → a < word
    → b < word
    → (of ≡ a) ⊎ (of ≡ b)
    → Adds m pc target a b (exec_add m pc target a b of)
unfolding exec_add
exec_add-Adds m pc target a b of h k c = elim (Bool-cases (add_overflows a b a)) [
  | inl e ↦ rw (add_test a b of h k c, e) (inr ((λ s l. sum_too_large a b s h k l e), refl))
  | inr e ↦ rw (add_test a b of h k c, e) (inl (add32 a b, omega arith, sum_fits a b h k e, refl))
]

-- OP_SUB: on 32-bit operands, either some 32-bit number is the signed difference and the target
-- register gets it, or none is, the overflow exception is raised and the machine is as before.
pub exec_sub-Subtracts :
    (m : Machine) (pc target a b : ℕ)
    → a < word
    → b < word
    → Subtracts m pc target a b (exec_sub m pc target a b)
unfolding exec_sub
exec_sub-Subtracts m pc target a b h k = elim (Bool-cases (sub_overflows a b)) [
  | inl e ↦ rw (sub_test a b h k, e) (inr ((λ s l. difference_too_large a b s h k l e), refl))
  | inr e ↦ rw (sub_test a b h k, e) (inl (sub32 a b, omega arith, difference_fits a b h k e, refl))
]
