-- ===== src/BitMap/Find.antt =====
-- `BitMap::Find` and `BitMap::FindStart`: they never abort, take the first index that is free (from
-- the start point on, round the end), and give -1 only when every index is in use.
use native.Mathlib.Nat.{mod-lt, mod-add-mod, mod-eq_of_lt, mod-eq-sub-mod}
use native.Mathlib.Decide.{dec_le}
use non_os.Base.{
  ℕ, zero, suc, ◌+◌, ◌-◌, ◌%◌, ◌<◌, ◌≤◌, ◌≡◌, refl, ap, ◌∙◌, sym, true, false, Option, none, some,
  Outcome, done, ◌>>=◌, arith, Bool-cases, inl, inr, ◌⊎◌,
}
use non_os.BitMap.{BitMap, mark, find, find_from, find_start, find_start_from}
use non_os.BitMap.View.{is_set, IsValid, IsUpdate, test_lem, mark-IsUpdate}

-- What a search that tries the indices `at i`, `at (i + 1)`, ... `at (i + n - 1)` in turn can return.
abbrev pub Finds : (ℕ → ℕ) → ℕ → ℕ → BitMap → Outcome (Option ℕ × BitMap) → Type 0
Finds at i n m r =
    (((j : ℕ) → i ≤ j → j < i + n → is_set m (at j) ≡ true) × (r ≡ done (none, m)))
    ⊎ ((k : ℕ) × (m' : BitMap) × (i ≤ k)
        × (k < i + n)
        × (is_set m (at k) ≡ false)
        × ((j : ℕ) → i ≤ j → j < k → is_set m (at j) ≡ true)
        × IsUpdate m (at k) true m'
        × (r ≡ done (some (at k), m')))

module _ (at : ℕ → ℕ) (m : BitMap) where
  -- One more index in use before a search.
  Finds-used :
      (i n : ℕ) (r : Outcome (Option ℕ × BitMap))
      → is_set m (at i) ≡ true
      → Finds at (i + 1) n m r
      → Finds at i (suc n) m r
  Finds-used i n r first (inl (all, e)) = inl ((λ j p q. ground (arith, all j)), e)
  Finds-used i n r first (inr (k, m', p, h, free, all, u, e)) =
      inr (k, m', omega arith, omega arith, free, (λ j p q. ground (arith, all j)), u, e)

  -- The first index is free.
  Finds-free :
      (i n : ℕ)
      → IsValid m
      → at i < m.num_bits
      → is_set m (at i) ≡ false
      → Finds at i (suc n) m (mark m (at i) >>= λ m'. done (some (at i), m'))
  Finds-free i n v h free =
      let (m', e, u) = mark-IsUpdate m (at i) v h in
      inr (i, m', omega arith, omega arith, free, (λ j p q. absurd (omega arith)), u, rw e refl)

find_from-Finds :
    (left i : ℕ) (m : BitMap)
    → IsValid m
    → i + left ≤ m.num_bits
    → Finds (λ j. j) i left m (find_from left i m)
unfolding find_from
find_from-Finds zero i m v h = inl (λ j p q. absurd (omega arith), refl)
find_from-Finds (suc left) i m v h =
    rw (test_lem m i (omega arith)) (elim (Bool-cases (is_set m i)) [
      | inl used ↦
          rw used
            (Finds-used (λ j. j) m i left _ used (find_from-Finds left (i + 1) m v (omega arith)))
      | inr free ↦ rw free (Finds-free (λ j. j) m i left v (omega arith) free)
    ])

-- `Find` returns the least free index, marked, and -1 with the map as it was if there is none.
pub find-Finds : (m : BitMap) → IsValid m → Finds (λ j. j) 0 m.num_bits m (find m)
unfolding find
find-Finds m v = find_from-Finds m.num_bits 0 m v (omega arith)

module _ (start : ℕ) (m : BitMap) (v : IsValid m) (pos : 0 < m.num_bits) where
  abbrev wrapped : ℕ → ℕ
  wrapped j = (start + j) % m.num_bits

  find_start_from-Finds : (left i : ℕ) → Finds wrapped i left m (find_start_from left start i m)
  unfolding find_start_from
  find_start_from-Finds zero i = inl (λ j p q. absurd (omega arith), refl)
  find_start_from-Finds (suc left) i =
      rw (test_lem m (wrapped i) (mod-lt (start + i) pos))
        (elim (Bool-cases (is_set m (wrapped i))) [
          | inl used ↦
              rw used (Finds-used wrapped m i left _ used (find_start_from-Finds left (i + 1)))
          | inr free ↦ rw free (Finds-free wrapped m i left v (mod-lt (start + i) pos) free)
        ])

-- Every index below `n` is on the round from `start`.
round_reaches : (start n i : ℕ) → i < n → (j : ℕ) × (j < n) × ((start + j) % n ≡ i)
round_reaches start n i h = elim (dec_le (start % n) i) [
  | yes p ↦ (i - start % n, omega arith, before p)
  | no p ↦ (i + n - start % n, omega (arith, mod-lt start pos), after p)
]
  where
    pos : 0 < n
    pos = omega arith

    before : start % n ≤ i → (start + (i - start % n)) % n ≡ i
    before p =
        sym (mod-add-mod start n (i - start % n))
        ∙ ap (λ (t : ℕ). t % n) (omega arith)
        ∙ mod-eq_of_lt h

    after : ¬ (start % n ≤ i) → (start + (i + n - start % n)) % n ≡ i
    after p =
        sym (mod-add-mod start n (i + n - start % n))
        ∙ ap (λ (t : ℕ). t % n) (omega (arith, mod-lt start pos))
        ∙ mod-eq-sub-mod {n = i + n} {m = n} (omega arith)
        ∙ ap (λ (t : ℕ). t % n) (omega arith)
        ∙ mod-eq_of_lt h

-- `FindStart` returns the first free index on the round from its start point, marked; it returns -1
-- only when every index of the map is in use.
pub find_start-Finds :
    (start : ℕ) (m : BitMap)
    → IsValid m
    → 0 < m.num_bits
    → Finds (λ j. (start + j) % m.num_bits) 0 m.num_bits m (find_start m start)
      × (find_start m start ≡ done (none, m) → (i : ℕ) → i < m.num_bits → is_set m i ≡ true)
unfolding find_start
find_start-Finds start m v pos =
    (found, λ e i h. full found e i h (round_reaches start m.num_bits i h))
  where
    found : Finds (λ j. (start + j) % m.num_bits) 0 m.num_bits m (find_start m start)
    found = find_start_from-Finds start m v pos m.num_bits 0

    full :
        Finds (λ j. (start + j) % m.num_bits) 0 m.num_bits m (find_start m start)
        → find_start m start ≡ done (none, m)
        → (i : ℕ) → i < m.num_bits
        → (j : ℕ) × (j < m.num_bits) × ((start + j) % m.num_bits ≡ i)
        → is_set m i ≡ true
    full (inl (all, _)) e i h (j, p, q) = rw (← q) (all j (omega arith) (omega arith))
    full (inr (k, m', _, _, _, _, _, r)) e i h _ = ground arith
