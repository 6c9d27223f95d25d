-- ===== src/AddrSpace/Tests.antt =====
-- Two address spaces, with frames 0 and 1.
use non_os.Base.{ℕ, refl, inr, false, none, some, List, [], ◌∷◌, replicate, length-replicate, arith}
use non_os.Base.Bits.{bit_at}
use non_os.BitMap.View.{is_set}
use non_os.FrameProvider.Tests.{two_taken, two_taken-IsValid}
use non_os.Machine.{Machine, TranslationEntry, memory_size}
use non_os.Machine.Tests.{entry_for}
use non_os.AddrSpace.{AddrSpace, Kernel}
use non_os.AddrSpace.Pages.{InitsPages, init_pages_lem}
use non_os.AddrSpace.Sbrk.{IsOwned, Sbrks, do_sbrk_lem, ReleasesFrames, release_frames_lem}
use non_os.AddrSpace.Isolation.{Isolates, write_mem_isolated}
use non_os.Machine.Refused.{HasTable}

abbrev first_table : List TranslationEntry
first_table = entry_for 0 0 false ∷ []

abbrev second_table : List TranslationEntry
second_table = entry_for 0 1 false ∷ []

abbrev first_space : AddrSpace
first_space = record { num_pages = 1; page_table = first_table; brk = 128 }

abbrev running : List ℕ → Kernel
running memory = record {
  space = first_space;
  provider = two_taken;
  machine = record {
    main_memory = memory;
    registers = [];
    tlb = none;
    page_table = some first_table;
    page_table_size = 1;
  };
}

both-IsOwned : IsOwned two_taken first_table second_table
unfolding is_set bit_at
both-IsOwned = record {
  mine = ((omega arith, refl), tt);
  theirs = ((omega arith, refl), tt);
  distinct = (tt, tt);
  distinct_others = (tt, tt);
  apart = ((omega arith, tt), tt);
}

init_pages_lem_example : InitsPages 3 two_taken (8 ∷ 9 ∷ [])
init_pages_lem_example = init_pages_lem 3 two_taken (8 ∷ 9 ∷ []) two_taken-IsValid

do_sbrk_lem_example : Sbrks (running (8 ∷ [])) 3 second_table
do_sbrk_lem_example = do_sbrk_lem (running (8 ∷ [])) 3 second_table two_taken-IsValid both-IsOwned

release_frames_lem_example : ReleasesFrames first_space second_table two_taken
release_frames_lem_example =
    release_frames_lem first_space second_table two_taken two_taken-IsValid both-IsOwned

whole : Machine
whole = (running (replicate memory_size 0)).machine

whole-HasTable : HasTable whole first_table
unfolding whole
whole-HasTable = record {
  no_tlb = refl;
  page_table = refl;
  table_size = omega arith;
  memory = length-replicate {A = ℕ} memory_size 0;
}

write_mem_isolated_example : Isolates whole first_table second_table 12 4 77
write_mem_isolated_example =
    write_mem_isolated two_taken whole first_table second_table 12 4 77 both-IsOwned
      (inr (inr refl)) whole-HasTable
