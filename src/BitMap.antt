-- ===== src/BitMap.antt =====
-- code/userprog/bitmap.h and code/userprog/bitmap.cc: a bitmap as an array of 32-bit words.
-- A method that changes the map returns the new one. Indices are ℕ: a negative `which` fails the
-- ASSERT of `Mark`, `Clear` and `Test` as one from `numBits` on does.
pub mod View
pub mod Find
pub mod Count
mod Tests
use Prim.Native.Nat.{bit_and, bit_or}
use non_os.Base.{
  ℕ, zero, suc, ◌+◌, ◌/◌, ◌%◌, ◌^◌, Bool, true, false, not, Option, none, some, List, ltb, ◌==◌,
  if◌then◌else◌, get_or, set, Outcome, done, aborted, assert, ◌>>=◌, ◌>>◌,
}
use non_os.Base.Bits.{clear_mask}

-- `divRoundUp` of code/threads/utility.h
abbrev pub div_round_up : ℕ → ℕ → ℕ
div_round_up n s = n / s + (if ltb 0 (n % s) then 1 else 0)

abbrev pub bits_in_word : ℕ
bits_in_word = 32

pub record BitMap : Type 0 where
  pub num_bits : ℕ
  pub num_words : ℕ
  pub map : List ℕ

-- `map[which / BitsInWord]`
abbrev pub word_of : BitMap → ℕ → ℕ
word_of m which = get_or m.map (which / bits_in_word) 0

pub mark : BitMap → ℕ → Outcome BitMap
mark m which = do
  assert (ltb which m.num_bits)
  done (record m {
    map = set m.map (which / bits_in_word) (bit_or (word_of m which) (2 ^ (which % bits_in_word)));
  })

pub clear : BitMap → ℕ → Outcome BitMap
clear m which = do
  assert (ltb which m.num_bits)
  done (record m {
    map =
        set m.map (which / bits_in_word)
          (bit_and (word_of m which) (clear_mask 32 (which % bits_in_word)));
  })

pub test : BitMap → ℕ → Outcome Bool
test m which = do
  assert (ltb which m.num_bits)
  done (not (bit_and (word_of m which) (2 ^ (which % bits_in_word)) == 0))

-- `for(; i < numBits; i++) Clear(i)` with the rounds that are left.
pub clear_from : ℕ → ℕ → BitMap → Outcome BitMap
clear_from zero i m = done m
clear_from (suc left) i m = do m' ← clear m i; clear_from left (i + 1) m'

-- The constructor. `memory` is what the array from `new` happens to hold.
pub init : List ℕ → ℕ → Outcome BitMap
init memory nitems =
    clear_from nitems 0
      (record { num_bits = nitems; num_words = div_round_up nitems bits_in_word; map = memory })

-- The loops of `Find` and `FindStart`; `none` is the -1 that they return.
pub find_from : ℕ → ℕ → BitMap → Outcome (Option ℕ × BitMap)
find_from zero i m = done (none, m)
find_from (suc left) i m = do
  used ← test m i
  elim used [ true ↦ find_from left (i + 1) m | false ↦ mark m i >>= λ m'. done (some i, m') ]

pub find : BitMap → Outcome (Option ℕ × BitMap)
find m = find_from m.num_bits 0 m

pub find_start_from : ℕ → ℕ → ℕ → BitMap → Outcome (Option ℕ × BitMap)
find_start_from zero start i m = done (none, m)
find_start_from (suc left) start i m = do
  used ← test m ((start + i) % m.num_bits)
  elim used [
    | true ↦ find_start_from left start (i + 1) m
    | false ↦ mark m ((start + i) % m.num_bits) >>= λ m'. done (some ((start + i) % m.num_bits), m')
  ]

-- The start point is not negative: the callers pass 0, or one more than the last call returned.
pub find_start : BitMap → ℕ → Outcome (Option ℕ × BitMap)
find_start m start = find_start_from m.num_bits start 0 m

pub num_clear_from : ℕ → ℕ → ℕ → BitMap → Outcome ℕ
num_clear_from zero i count m = done count
num_clear_from (suc left) i count m = do
  used ← test m i
  num_clear_from left (i + 1) (if used then count else count + 1) m

pub num_clear : BitMap → Outcome ℕ
num_clear m = num_clear_from m.num_bits 0 0 m
