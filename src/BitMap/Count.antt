-- ===== src/BitMap/Count.antt =====
-- The constructor of `BitMap`, and `BitMap::NumClear`, with how the other operations change it.
use non_os.Base.{
  ℕ, zero, suc, ◌+◌, ◌<◌, ◌≤◌, ◌≡◌, refl, Bool, true, false, List, length, if◌then◌else◌, ◌==◌,
  done, arith, Bool-cases, inl, inr, ◌∙◌, ap, sym, subst,
}
use non_os.BitMap.{BitMap, bits_in_word, div_round_up, clear_from, init, num_clear, num_clear_from}
use non_os.BitMap.View.{is_set, IsValid, IsUpdate, test_lem, clear-IsUpdate}

-- Indices below `i` are free, and the map has `n` of them.
record IsClearTo (n i : ℕ) (m : BitMap) : Type 0 where
  valid : IsValid m
  size : m.num_bits ≡ n
  free : (j : ℕ) → j < i → is_set m j ≡ false

clear_from-IsClearTo :
    (left i n : ℕ) (m : BitMap)
    → IsClearTo n i m
    → i + left ≡ n
    → (m' : BitMap) × (clear_from left i m ≡ done m') × IsClearTo n n m'
unfolding clear_from
clear_from-IsClearTo zero i n m c e =
    (m, refl, record { valid = c.valid; size = c.size; free = λ j h. c.free j (omega arith) })
clear_from-IsClearTo (suc left) i n m c e =
    let (m₁, cleared, u) = clear-IsUpdate m i c.valid (omega (arith, c.size)) in
    let next : IsClearTo n (i + 1) m₁ = record {
      valid = u.valid;
      size = u.same_size ∙ c.size;
      free = λ j h. ground (arith, u.view j, c.free j);
    } in
    let (m', rest, c') = clear_from-IsClearTo left (i + 1) n m₁ next (omega arith) in
    (m', rw cleared rest, c')

-- The constructor clears every bit, whatever the memory that it is given holds.
pub init_lem :
    (memory : List ℕ) (n : ℕ)
    → length memory ≡ div_round_up n bits_in_word
    → (m : BitMap) × (init memory n ≡ done m)
      × IsValid m
      × (m.num_bits ≡ n)
      × ((i : ℕ) → i < n → is_set m i ≡ false)
unfolding init
init_lem memory n h =
    let fresh : BitMap = record {
      num_bits = n;
      num_words = div_round_up n bits_in_word;
      map = memory;
    } in
    let start : IsClearTo n 0 fresh = record {
      valid = record { words = refl; storage = h };
      size = refl;
      free = λ j p. absurd (omega arith);
    } in
    let (m, e, c) = clear_from-IsClearTo n 0 n fresh start (omega arith) in
    (m, e, c.valid, c.size, c.free)

-- How many of the `n` indices from `i` on are free.
unfoldable pub count_free : (ℕ → Bool) → ℕ → ℕ → ℕ
count_free used zero i = 0
count_free used (suc n) i = (if used i then 0 else 1) + count_free used n (i + 1)

-- The free indices of a map.
unfoldable pub free_count : BitMap → ℕ
free_count m = count_free (is_set m) m.num_bits 0

num_clear_from_lem :
    (left i count : ℕ) (m : BitMap)
    → i + left ≤ m.num_bits
    → num_clear_from left i count m ≡ done (count + count_free (is_set m) left i)
unfolding num_clear_from count_free
num_clear_from_lem zero i count m h = ap done (omega arith)
num_clear_from_lem (suc left) i count m h = rw (test_lem m i (omega arith)) (
    num_clear_from_lem left (i + 1) (if is_set m i then count else count + 1) m (omega arith)
    ∙ ap done (ground arith))

-- `NumClear` counts the free indices.
pub num_clear_lem : (m : BitMap) → num_clear m ≡ done (free_count m)
unfolding num_clear free_count
num_clear_lem m = num_clear_from_lem m.num_bits 0 0 m (omega arith) ∙ ap done (omega arith)

count_free-same :
    (f g : ℕ → Bool) (n i : ℕ) → ((j : ℕ) → i ≤ j → f j ≡ g j) → count_free f n i ≡ count_free g n i
unfolding count_free
count_free-same f g zero i h = refl
count_free-same f g (suc n) i h =
    ground (arith, h i, count_free-same f g n (i + 1) (λ j p. h j (omega arith)))

module _ (f g : ℕ → Bool) (k : ℕ) (b : Bool)
    (view : (j : ℕ) → g j ≡ (if k == j then b else f j)) where
  count_free-update :
      (n i : ℕ)
      → i ≤ k
      → k < i + n
      → count_free g n i + (if f k then 0 else 1) ≡ count_free f n i + (if b then 0 else 1)
  unfolding count_free
  count_free-update zero i p q = absurd (omega arith)
  count_free-update (suc n) i p q = elim (Bool-cases (k == i)) [
    | inl e ↦ ground (arith, view i, count_free-same g f n (i + 1) (λ j h. ground (arith, view j)))
    | inr ne ↦ ground (arith, view i, count_free-update n (i + 1))
  ]

-- Marking a free index takes one from the count of free indices, and clearing one in use adds one;
-- where the index has the value already the count stays.
pub free_count-update :
    (m m' : BitMap) (i : ℕ) (b : Bool)
    → IsUpdate m i b m'
    → i < m.num_bits
    → free_count m' + (if is_set m i then 0 else 1) ≡ free_count m + (if b then 0 else 1)
unfolding free_count
free_count-update m m' i b u h =
    subst
      (λ (n : ℕ).
        count_free (is_set m') n 0 + (if is_set m i then 0 else 1)
        ≡ free_count m + (if b then 0 else 1))
      (sym u.same_size)
      (count_free-update (is_set m) (is_set m') i b u.view m.num_bits 0 (omega arith) (omega arith))

count_free-pos : (f : ℕ → Bool) (n i k : ℕ) → i ≤ k → k < i + n → f k ≡ false → 0 < count_free f n i
unfolding count_free
count_free-pos f zero i k p q e = absurd (omega arith)
count_free-pos f (suc n) i k p q e = elim (Bool-cases (k == i)) [
  | inl here ↦ ground arith
  | inr later ↦ ground (arith, count_free-pos f n (i + 1) k)
]

-- An index that is free makes the count positive.
pub free_count-pos : (m : BitMap) (i : ℕ) → i < m.num_bits → is_set m i ≡ false → 0 < free_count m
unfolding free_count
free_count-pos m i h e = count_free-pos (is_set m) m.num_bits 0 i (omega arith) (omega arith) e

count_free-zero :
    (f : ℕ → Bool) (n i : ℕ) → ((j : ℕ) → i ≤ j → j < i + n → f j ≡ true) → count_free f n i ≡ 0
unfolding count_free
count_free-zero f zero i h = refl
count_free-zero f (suc n) i h =
    ground (arith, h i, count_free-zero f n (i + 1) (λ j p q. h j (omega arith) (omega arith)))

pub free_count-zero :
    (m : BitMap) → ((j : ℕ) → j < m.num_bits → is_set m j ≡ true) → free_count m ≡ 0
unfolding free_count
free_count-zero m h = count_free-zero (is_set m) m.num_bits 0 (λ j p q. h j (omega arith))

count_free-all :
    (f : ℕ → Bool) (n i : ℕ) → ((j : ℕ) → i ≤ j → j < i + n → f j ≡ false) → count_free f n i ≡ n
unfolding count_free
count_free-all f zero i h = refl
count_free-all f (suc n) i h =
    ground (arith, h i, count_free-all f n (i + 1) (λ j p q. h j (omega arith) (omega arith)))

pub free_count-all :
    (m : BitMap) → ((j : ℕ) → j < m.num_bits → is_set m j ≡ false) → free_count m ≡ m.num_bits
unfolding free_count
free_count-all m h = count_free-all (is_set m) m.num_bits 0 (λ j p q. h j (omega arith))
