-- ===== src/Machine/Safe.antt =====
-- A translated address lies in the main memory, whatever the machine translates by.
use non_os.Base.{ℕ, ◌+◌, ◌%◌, ◌≤◌, ◌≡◌, refl, subst, Bool, done, arith}
use non_os.FrameProvider.{page_size}
use non_os.Machine.{Machine, TranslationEntry, translated, memory_size, translate}
use non_os.Machine.Translate.{
  IsSize, frame_fits, mark_entry, Uses, Translates, unaligned, no_table, two_tables, past_table,
  not_valid, by_table, tlb_miss, by_tlb, translate-Translates,
}

-- What a translated address promises: the access lies in the main memory, at the same offset of a
-- page frame, and only the table or the TLB of the machine may change.
pub record IsSafe (m : Machine) (addr size physical : ℕ) (m' : Machine) : Type 0 where
  pub inside : physical + size ≤ memory_size
  pub offset : physical % page_size ≡ addr % page_size
  pub memory : m'.main_memory ≡ m.main_memory
  pub registers : m'.registers ≡ m.registers

Uses-IsSafe :
    (m : Machine) (put : TranslationEntry → Machine) (entry : TranslationEntry) (addr size : ℕ)
    (writing : Bool) (physical : ℕ) (m' : Machine)
    → ((e : TranslationEntry)
        → ((put e).main_memory ≡ m.main_memory) × ((put e).registers ≡ m.registers))
    → IsSize size
    → addr % size ≡ 0
    → Uses m put entry addr writing (done (translated physical, m'))
    → IsSafe m addr size physical m'
Uses-IsSafe m put entry addr size writing physical m' same s a (Uses.protected _ _ e) = cc
Uses-IsSafe m put entry addr size writing physical m' same s a (Uses.no_frame _ _ e) = cc
Uses-IsSafe m put entry addr size writing physical m' same s a (Uses.hit _ h e) =
    ground (arith, frame_fits entry.physical_page addr size s a h, same (mark_entry entry writing))

-- A translated access is safe, through a page table and through a TLB.
pub translate-IsSafe :
    (m : Machine) (addr size : ℕ) (writing : Bool) (physical : ℕ) (m' : Machine)
    → IsSize size
    → translate m addr size writing ≡ done (translated physical, m')
    → IsSafe m addr size physical m'
translate-IsSafe m addr size writing physical m' s e =
    go (subst (Translates m addr size writing) e (translate-Translates m addr size writing s))
  where
    go :
        Translates m addr size writing (done (translated physical, m'))
        → IsSafe m addr size physical m'
    go (unaligned _ r) = cc
    go (no_table _ _ _ r) = cc
    go (two_tables _ _ _ _ _ r) = cc
    go (past_table _ _ _ _ _ r) = cc
    go (not_valid _ _ _ _ _ _ r) = cc
    go (tlb_miss _ _ _ _ _ r) = cc
    go (by_table table a _ _ _ _ u) =
        Uses-IsSafe m _ _ addr size writing physical m' (λ e. (refl, refl)) s a u
    go (by_tlb tlb i a _ _ _ _ _ u) =
        Uses-IsSafe m _ _ addr size writing physical m' (λ e. (refl, refl)) s a u
