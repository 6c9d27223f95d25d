-- ===== src/BitMap/View.antt =====
-- A bitmap seen as a set of indices, and what each operation does to it.
use non_os.Base.{
  zero, suc, false, List, [], ◌∷◌, get_or, All, ℕ, ◌/◌, ◌%◌, ◌^◌, ◌<◌, ◌≡◌, refl, ◌∙◌, Bool, true,
  false, ◌==◌, if◌then◌else◌, set, length, length-set, get_or-set_self, get_or-set_ne, done, arith,
}
use Prim.Native.Nat.{bit_and, bit_or}
use non_os.Base.Bits.{
  bit_at, bit_at-lt, bit_at-zero, bit_at-or, bit_at-and, bit_at-pow_self, bit_at-pow_ne,
  bit_and-pow_zero, bit_and-pow_ne, clear_mask, bit_at-clear_mask_self, bit_at-clear_mask_ne,
}
use non_os.BitMap.{BitMap, bits_in_word, div_round_up, word_of, mark, clear, test}

-- Index `i` is in use.
unfoldable pub is_set : BitMap → ℕ → Bool
is_set m i = bit_at (word_of m i) (i % bits_in_word) == 1

pub record IsValid (m : BitMap) : Type 0 where
  pub words : m.num_words ≡ div_round_up m.num_bits bits_in_word
  pub storage : length m.map ≡ m.num_words

-- `m'` is `m` with index `i` put to `b`, and no other changed.
pub record IsUpdate (m : BitMap) (i : ℕ) (b : Bool) (m' : BitMap) : Type 0 where
  pub valid : IsValid m'
  pub same_size : m'.num_bits ≡ m.num_bits
  pub view : (j : ℕ) → is_set m' j ≡ (if i == j then b else is_set m j)

-- An index in range has a word of the array.
index_in_storage : (m : BitMap) (i : ℕ) → IsValid m → i < m.num_bits → i / 32 < length m.map
index_in_storage m i v h = ground arith

pub test_lem : (m : BitMap) (i : ℕ) → i < m.num_bits → test m i ≡ done (is_set m i)
unfolding test is_set
test_lem m i h = ground (
  arith,
  bit_and-pow_zero (i % 32) (word_of m i),
  bit_and-pow_ne (i % 32) (word_of m i),
  bit_at-lt (word_of m i) (i % 32),
)

-- A word stored at the word of `i`.
module _ (m : BitMap) (i x : ℕ) (v : IsValid m) (h : i < m.num_bits) where
  abbrev stored : BitMap
  stored = record m { map = set m.map (i / 32) x }

  stored-IsValid : IsValid stored
  stored-IsValid = record { words = v.words; storage = length-set m.map (i / 32) x ∙ v.storage }

  word_of-stored : (j : ℕ) → word_of stored j ≡ (if i / 32 == j / 32 then x else word_of m j)
  word_of-stored j = ground (
    arith,
    index_in_storage m i v h,
    get_or-set_self m.map (i / 32) x 0,
    get_or-set_ne m.map (i / 32) (j / 32) x 0,
  )

-- `Mark` puts its index in use, and `Clear` frees it; neither aborts in range.
pub mark-IsUpdate :
    (m : BitMap) (i : ℕ)
    → IsValid m
    → i < m.num_bits
    → (m' : BitMap) × (mark m i ≡ done m') × IsUpdate m i true m'
unfolding mark is_set
mark-IsUpdate m i v h = (
  stored m i (bit_or (word_of m i) (2 ^ (i % 32))) v h,
  ground arith,
  record {
    valid = stored-IsValid m i _ v h;
    same_size = refl;
    view = λ j. ground (
      arith,
      word_of-stored m i (bit_or (word_of m i) (2 ^ (i % 32))) v h j,
      bit_at-or (word_of m i) (2 ^ (i % 32)) (j % 32),
      bit_at-pow_self (i % 32),
      bit_at-pow_ne (i % 32) (j % 32),
      bit_at-lt (word_of m i) (j % 32),
    );
  },
)

pub clear-IsUpdate :
    (m : BitMap) (i : ℕ)
    → IsValid m
    → i < m.num_bits
    → (m' : BitMap) × (clear m i ≡ done m') × IsUpdate m i false m'
unfolding clear is_set
clear-IsUpdate m i v h = (
  stored m i (bit_and (word_of m i) (clear_mask 32 (i % 32))) v h,
  ground arith,
  record {
    valid = stored-IsValid m i _ v h;
    same_size = refl;
    view = λ j. ground (
      arith,
      word_of-stored m i (bit_and (word_of m i) (clear_mask 32 (i % 32))) v h j,
      bit_at-and (word_of m i) (clear_mask 32 (i % 32)) (j % 32),
      bit_at-clear_mask_self 32 (i % 32),
      bit_at-clear_mask_ne 32 (i % 32) (j % 32),
      bit_at-lt (word_of m i) (j % 32),
    );
  },
)

get_or-zeros : (xs : List ℕ) (i : ℕ) → All (λ w. w ≡ 0) xs → get_or xs i 0 ≡ 0
get_or-zeros [] i h = refl
get_or-zeros (x ∷ xs) zero h = h.0
get_or-zeros (x ∷ xs) (suc i) h = get_or-zeros xs i h.1

-- A map whose words are all 0 has no index in use.
pub is_set-zeros : (m : BitMap) (i : ℕ) → All (λ w. w ≡ 0) m.map → is_set m i ≡ false
unfolding is_set
is_set-zeros m i h = rw (get_or-zeros m.map (i / 32) h) (rw (bit_at-zero (i % 32)) refl)
