-- ===== src/Mips/Words.antt =====
-- 32-bit arithmetic on patterns, as the host's `int` and `unsigned int` do it.
use Prim.Native.Nat.{bit_and}
use non_os.Base.{ℕ, ◌+◌, ◌-◌, ◌*◌, ◌/◌, ◌%◌, ◌^◌, Bool, not, ltb, leb, ◌==◌, if◌then◌else◌}

abbrev pub word : ℕ
word = 2 ^ 32

abbrev pub sign_bit : ℕ
sign_bit = 0x80000000

abbrev pub add32 : ℕ → ℕ → ℕ
add32 a b = (a + b) % word

abbrev pub sub32 : ℕ → ℕ → ℕ
sub32 a b = (a + word - b) % word

-- `-a`
abbrev pub neg32 : ℕ → ℕ
neg32 a = (word - a) % word

-- `~a`
abbrev pub not32 : ℕ → ℕ
not32 a = word - 1 - a

-- `a << k` and the shifts of `unsigned` and `int`.
abbrev pub shl32 : ℕ → ℕ → ℕ
shl32 a k = a * 2 ^ k % word

abbrev pub shr32 : ℕ → ℕ → ℕ
shr32 a k = a / 2 ^ k

-- `a < 0`
abbrev pub is_negative : ℕ → Bool
is_negative a = leb sign_bit a

-- Ones are shifted in behind a negative number.
abbrev pub sra32 : ℕ → ℕ → ℕ
sra32 a k = if is_negative a then not32 (not32 a / 2 ^ k) else a / 2 ^ k

-- `a < b` of `int`s
abbrev pub slt32 : ℕ → ℕ → Bool
slt32 a b = ltb ((a + sign_bit) % word) ((b + sign_bit) % word)

abbrev pub magnitude : ℕ → ℕ
magnitude a = if is_negative a then word - a else a

-- `a / b` and `a % b` of `int`s, `b` not 0: rounded to 0, and with the sign of `a`.
abbrev pub div32 : ℕ → ℕ → ℕ
div32 a b =
    if is_negative a
    then (if is_negative b then magnitude a / magnitude b else neg32 (magnitude a / magnitude b))
    else if is_negative b
    then neg32 (magnitude a / magnitude b)
    else magnitude a / magnitude b

abbrev pub mod32 : ℕ → ℕ → ℕ
mod32 a b = if is_negative a then neg32 (magnitude a % magnitude b) else magnitude a % magnitude b

-- `x & SIGN_BIT`, as a condition.
abbrev pub has_sign : ℕ → Bool
has_sign x = not (bit_and x sign_bit == 0)
