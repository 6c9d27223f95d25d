-- ===== src/FrameProvider/Tests.antt =====
-- A provider with no frame in use, and one with a frame taken.
use non_os.Base.{ℕ, ◌+◌, ◌<◌, ◌≡◌, refl, sym, false, [], ◌∷◌, replicate, done, arith}
use non_os.BitMap.View.{is_set, is_set-zeros}
use non_os.BitMap.Count.{count_free, free_count, free_count-all}
use non_os.Base.Bits.{bit_at}
use non_os.FrameProvider.{FrameProvider, num_phys_pages, init, release_frame}
use non_os.FrameProvider.Laws.{
  IsValid, in_use, GetsFrame, Releases, init-IsValid, get_empty_frame_lem, release_frame_lem,
  release_frame_twice,
}

abbrev pub blank : FrameProvider
blank = record {
  frame_map = record { num_bits = 2096; num_words = 66; map = replicate 66 0 };
  n_avail_frame = 2096;
}

pub blank_free : (f : ℕ) → in_use blank f ≡ false
blank_free f = is_set-zeros blank.frame_map f (omega arith)

pub blank-IsValid : IsValid blank
blank-IsValid = record {
  map = record { words = refl; storage = refl };
  size = refl;
  count = sym (free_count-all blank.frame_map (λ j h. blank_free j));
}

-- Frames 0 and 1 are in use.
abbrev pub two_taken : FrameProvider
two_taken = record {
  frame_map = record { num_bits = 2096; num_words = 66; map = 3 ∷ replicate 65 0 };
  n_avail_frame = 2094;
}

pub two_taken-IsValid : IsValid two_taken
unfolding free_count count_free is_set bit_at
two_taken-IsValid = record {
  map = record { words = refl; storage = refl };
  size = refl;
  count = refl;
}

init-IsValid_example :
    (fp : FrameProvider) × (init (replicate 66 7) ≡ done fp)
    × IsValid fp
    × ((f : ℕ) → f < num_phys_pages → in_use fp f ≡ false)
init-IsValid_example = init-IsValid (replicate 66 7) refl

get_empty_frame_lem_example : GetsFrame two_taken (5 ∷ 6 ∷ [])
get_empty_frame_lem_example = get_empty_frame_lem two_taken (5 ∷ 6 ∷ []) two_taken-IsValid

release_frame_lem_example : Releases two_taken 1
unfolding is_set bit_at
release_frame_lem_example = release_frame_lem two_taken 1 two_taken-IsValid (omega arith) refl

release_frame_twice_example :
    (fp' : FrameProvider) × (release_frame two_taken 7 ≡ done fp')
    × (fp'.n_avail_frame ≡ free_count fp'.frame_map + 1)
    × ¬ IsValid fp'
unfolding is_set bit_at
release_frame_twice_example = release_frame_twice two_taken 7 two_taken-IsValid (omega arith) refl
