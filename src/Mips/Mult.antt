-- ===== src/Mips/Mult.antt =====
-- `Mult` of code/machine/mipssim.cc: the shift-and-add multiplier.
use Prim.Native.Nat.{bit_and, bit_or}
use non_os.Base.{ℕ, zero, suc, Bool, true, false, not, ◌&&◌, ltb, ◌==◌, if◌then◌else◌}
use non_os.Mips.Words.{add32, neg32, not32, shl32, sra32, is_negative}

-- A double word, `hi` above `lo`.
pub record Double : Type 0 where
  pub hi : ℕ
  pub lo : ℕ

-- `lo += bLo; if (lo < bLo) hi += 1; hi += bHi;`
unfoldable pub add_double : Double → Double → Double
add_double acc b =
    let lo = add32 acc.lo b.lo in
    record { hi = add32 (if ltb lo b.lo then add32 acc.hi 1 else acc.hi) b.hi; lo = lo }

-- `bHi <<= 1; if (bLo & 0x80000000) bHi |= 1; bLo <<= 1;`
unfoldable pub shift_double : Double → Double
shift_double b = record {
  hi = if not (bit_and b.lo 0x80000000 == 0) then bit_or (shl32 b.hi 1) 1 else shl32 b.hi 1;
  lo = shl32 b.lo 1;
}

-- The loop, with the rounds that are left. `a` is an `int`, so `a >>= 1` keeps its sign.
unfoldable pub mult_loop : ℕ → ℕ → Double → Double → Double
mult_loop zero a b acc = acc
mult_loop (suc left) a b acc =
    let rest =
      mult_loop left (sra32 a 1) (shift_double b)
        (if not (bit_and a 1 == 0) then add_double acc b else acc) in
    if not (bit_and a 1 == 0) && bit_and a 0xfffffffe == 0 then add_double acc b else rest

-- `hi = ~hi; lo = ~lo; lo++; if (lo == 0) hi++;`
unfoldable pub negate_double : Double → Double
negate_double r =
    let lo = add32 (not32 r.lo) 1 in
    record { hi = if lo == 0 then add32 (not32 r.hi) 1 else not32 r.hi; lo = lo }

abbrev pub differ : Bool → Bool → Bool
differ true b = not b
differ false b = b

-- The loop and the sign of the result, for factors that have been made positive.
unfoldable pub mult_signed : Bool → ℕ → ℕ → Double
mult_signed negative a b =
    let r = mult_loop 32 a (record { hi = 0; lo = b }) (record { hi = 0; lo = 0 }) in
    if negative then negate_double r else r

unfoldable pub mult : ℕ → ℕ → Bool → Double
mult a b signed_arith =
    if a == 0
    then record { hi = 0; lo = 0 }
    else if b == 0
    then record { hi = 0; lo = 0 }
    else if signed_arith
    then mult_signed (differ (is_negative a) (is_negative b)) (if is_negative a then neg32 a else a)
        (if is_negative b then neg32 b else b)
    else mult_signed false a b
