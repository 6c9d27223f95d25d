-- ===== src/Machine/Tests.antt =====
-- A machine with a page table of two pages, one of them read-only, and one with a TLB.
use non_os.Base.{
  ℕ, ◌+◌, ◌*◌, ◌/◌, ◌≡◌, refl, inr, Bool, true, false, none, some, List, [], ◌∷◌, replicate, length,
  length-replicate, done, arith, get_or, ◌≢◌,
}
use non_os.Machine.{
  Machine, TranslationEntry, address_error_exception, page_fault_exception, read_only_exception,
  translated, failed, misaligned, use_entry, translate_by_table, translate_by_tlb, search_tlb,
  translate, memory_size, success, write_mem, read_mem,
}
use non_os.Machine.Translate.{Translates, translate-Translates}
use non_os.Machine.Safe.{IsSafe, translate-IsSafe}
use non_os.Machine.Memory.{IsMapped, write-read_mem, write_mem_other_frames}
use non_os.FrameProvider.{page_size}

abbrev pub entry_for : ℕ → ℕ → Bool → TranslationEntry
entry_for page frame protected = record {
  virtual_page = page;
  physical_page = frame;
  valid = true;
  read_only = protected;
  used = false;
  dirty = false;
}

abbrev pub two_pages : List TranslationEntry
two_pages = entry_for 0 5 false ∷ entry_for 1 9 true ∷ []

abbrev paged : Machine
paged = record {
  main_memory = [];
  registers = [];
  tlb = none;
  page_table = some two_pages;
  page_table_size = 2;
}

abbrev cached : Machine
cached = record paged { tlb = some (entry_for 7 3 false ∷ []); page_table = none }

read_of_page_1 :
    translate paged 132 4 false
    ≡ done (
      translated (9 * 128 + 4),
      record paged {
        page_table = some (entry_for 0 5 false ∷ record (entry_for 1 9 true) { used = true } ∷ []);
      },
    )
unfolding translate misaligned translate_by_table use_entry
read_of_page_1 = refl

write_of_page_1 : translate paged 132 4 true ≡ done (failed read_only_exception, paged)
unfolding translate misaligned translate_by_table use_entry
write_of_page_1 = refl

unaligned_word : translate paged 130 4 false ≡ done (failed address_error_exception, paged)
unfolding translate misaligned
unaligned_word = refl

missing_page : translate cached 130 1 false ≡ done (failed page_fault_exception, cached)
unfolding translate misaligned translate_by_tlb search_tlb
missing_page = refl

translate-Translates_example : Translates paged 132 4 true (translate paged 132 4 true)
translate-Translates_example = translate-Translates paged 132 4 true (inr (inr refl))

translate-IsSafe_example : IsSafe paged 132 4 (9 * 128 + 4) (record paged {
  page_table = some (entry_for 0 5 false ∷ record (entry_for 1 9 true) { used = true } ∷ []);
})
unfolding translate misaligned translate_by_table use_entry
translate-IsSafe_example = translate-IsSafe paged 132 4 false (9 * 128 + 4) _ (inr (inr refl)) refl

-- The same page table over a whole memory, which a theorem about writes needs.
pub loaded : List ℕ → Machine
loaded memory = record paged { main_memory = memory }

pub loaded-IsMapped :
    (memory : List ℕ) → length memory ≡ memory_size → IsMapped (loaded memory) two_pages 4 4 true
unfolding loaded
loaded-IsMapped memory h = record {
  no_tlb = refl;
  page_table = refl;
  table_size = omega arith;
  memory = h;
  aligned = refl;
  in_table = omega arith;
  valid = refl;
  allowed = refl;
  frame = omega arith;
}

pub whole : Machine
unfolding loaded
whole = loaded (replicate memory_size 0)

pub whole-IsMapped : IsMapped whole two_pages 4 4 true
unfolding whole
whole-IsMapped = loaded-IsMapped (replicate memory_size 0) (length-replicate {A = ℕ} memory_size 0)

write-read_mem_example :
    (m' : Machine) × (write_mem whole 4 4 0xdeadbeef ≡ done (success tt, m'))
    × (m'' : Machine) × (read_mem m' 4 4 ≡ done (success 0xdeadbeef, m''))
    × (m''.main_memory ≡ m'.main_memory)
write-read_mem_example =
    write-read_mem whole two_pages 4 4 0xdeadbeef (inr (inr refl)) whole-IsMapped

write_mem_other_frames_example :
    (m' : Machine) × (write_mem whole 4 4 0xdeadbeef ≡ done (success tt, m'))
    × ((j : ℕ) → j / page_size ≢ 5 → get_or m'.main_memory j 0 ≡ get_or whole.main_memory j 0)
write_mem_other_frames_example =
    write_mem_other_frames whole two_pages 4 4 0xdeadbeef (inr (inr refl)) whole-IsMapped
