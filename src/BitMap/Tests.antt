-- ===== src/BitMap/Tests.antt =====
-- A bitmap of 40 bits in two words, with the witnesses of the theorems and runs of the methods.
use non_os.Base.{
  ℕ, ◌≡◌, refl, true, false, none, some, [], ◌∷◌, done, aborted, arith, ◌<◌, ◌+◌, ◌%◌,
}
use non_os.BitMap.{
  BitMap, find_from, find_start_from, num_clear_from, mark, test, find, find_start, num_clear, init,
}
use non_os.BitMap.View.{is_set, IsValid}
use non_os.BitMap.Find.{Finds, find-Finds, find_start-Finds}
use non_os.BitMap.Count.{init_lem, num_clear_lem, free_count}

-- Indices 0, 1 and 33 are in use.
abbrev sample : BitMap
sample = record { num_bits = 40; num_words = 2; map = 3 ∷ 2 ∷ [] }

sample-IsValid : IsValid sample
sample-IsValid = record { words = refl; storage = refl }

test_33 : test sample 33 ≡ done true
unfolding test
test_33 = refl

test_40 : test sample 40 ≡ aborted
unfolding test
test_40 = refl

find_2 : find sample ≡ done (some 2, record sample { map = 7 ∷ 2 ∷ [] })
unfolding find find_from test mark
find_2 = refl

find_start_33 : find_start sample 33 ≡ done (some 34, record sample { map = 3 ∷ 6 ∷ [] })
unfolding find_start find_start_from test mark
find_start_33 = refl

num_clear_37 : num_clear sample ≡ done 37
unfolding num_clear num_clear_from test
num_clear_37 = refl

find-Finds_example : Finds (λ j. j) 0 40 sample (find sample)
find-Finds_example = find-Finds sample sample-IsValid

find_start-Finds_example :
    Finds (λ j. (33 + j) % 40) 0 40 sample (find_start sample 33)
    × (find_start sample 33 ≡ done (none, sample) → (i : ℕ) → i < 40 → is_set sample i ≡ true)
find_start-Finds_example = find_start-Finds 33 sample sample-IsValid (omega arith)

init_lem_example :
    (m : BitMap) × (init (0xffff ∷ 7 ∷ []) 40 ≡ done m)
    × IsValid m
    × (m.num_bits ≡ 40)
    × ((i : ℕ) → i < 40 → is_set m i ≡ false)
init_lem_example = init_lem (0xffff ∷ 7 ∷ []) 40 refl

num_clear_lem_example : num_clear sample ≡ done (free_count sample)
num_clear_lem_example = num_clear_lem sample
