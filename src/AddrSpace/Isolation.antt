-- ===== src/AddrSpace/Isolation.antt =====
-- Two address spaces that share no frame cannot write each other's memory.
use non_os.Base.{
  ℕ, zero, suc, ◌/◌, ◌<◌, ◌≡◌, ◌≢◌, refl, ap, inl, inr, ◌⊎◌, List, [], ◌∷◌, length, get_or, done,
  arith, true,
}
use non_os.Base.Apart.{Apart-get_or}
use non_os.FrameProvider.{FrameProvider, page_size}
use non_os.Machine.{Machine, TranslationEntry, no_entry, write_mem, success}
use non_os.Machine.Translate.{IsSize}
use non_os.Machine.Memory.{IsMapped, physical_of, write_mem_other_frames}
use non_os.Machine.Refused.{HasTable, Refuses, write_mem-cases}
use non_os.AddrSpace.Pages.{frames}
use non_os.AddrSpace.Sbrk.{IsOwned}

length-frames : (es : List TranslationEntry) → length (frames es) ≡ length es
length-frames [] = refl
length-frames (e ∷ es) = ap suc (length-frames es)

get_or-frames :
    (es : List TranslationEntry) (i : ℕ)
    → i < length es
    → get_or (frames es) i 0 ≡ (get_or es i no_entry).physical_page
get_or-frames [] i h = absurd (omega arith)
get_or-frames (e ∷ es) zero h = refl
get_or-frames (e ∷ es) (suc i) h = get_or-frames es i (omega arith)

-- What becomes of a write next to the pages of another address space.
abbrev pub Isolates : Machine → List TranslationEntry → List TranslationEntry → ℕ → ℕ → ℕ → Type 0
Isolates m table other addr size v =
    (IsMapped m table addr size true
      × ((m' : Machine) × (write_mem m addr size v ≡ done (success tt, m'))
          × ((their_addr : ℕ)
              → their_addr / page_size < length other
              → get_or m'.main_memory (physical_of other their_addr) 0
                ≡ get_or m.main_memory (physical_of other their_addr) 0)))
    ⊎ (¬ IsMapped m table addr size true × Refuses m addr size v)

-- A write of 1, 2 or 4 bytes to any address, by a process that runs on its own page table, with no TLB
-- and a main memory of its size, where another address space shares no frame with it. If the address
-- is aligned and its page is in the table, valid, not read-only and in a frame of the memory, the
-- write succeeds and leaves every byte of the other address space, at any address that it has a page
-- for, as it was. If not, the write raises an exception and changes nothing. It never aborts.
pub write_mem_isolated :
    (fp : FrameProvider) (m : Machine) (table other : List TranslationEntry) (addr size v : ℕ)
    → IsOwned fp table other
    → IsSize size
    → HasTable m table
    → Isolates m table other addr size v
write_mem_isolated fp m table other addr size v o s t =
    elim (write_mem-cases m table addr size v t s) [
      | inr refused ↦ inr refused
      | inl h ↦
          let (m', e, same) = write_mem_other_frames m table addr size v s h in
          inl (h, (m', e, λ a p. same (physical_of other a) (other_frame h a p)))
    ]
  where
    other_frame :
        IsMapped m table addr size true
        → (a : ℕ) → a / page_size < length other
        → physical_of other a / page_size ≢ (get_or table (addr / page_size) no_entry).physical_page
    other_frame h a p e =
        Apart-get_or (frames table) (frames other) (addr / page_size) (a / page_size) 0 o.apart
          (omega (arith, length-frames table, h.in_table, h.table_size))
          (omega (arith, length-frames other))
          (omega (
            arith,
            get_or-frames table (addr / page_size) (omega (arith, h.in_table, h.table_size)),
            get_or-frames other (a / page_size) p,
          ))
