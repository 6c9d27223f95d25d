-- ===== src/Machine/Translate.antt =====
-- `Machine::Translate`: every outcome with its condition, and what a translated address promises.
use non_os.Base.{
  ℕ, zero, suc, ◌+◌, ◌*◌, ◌/◌, ◌%◌, ◌<◌, ◌≤◌, ◌≡◌, ◌≢◌, refl, Bool, true, false, not, ◌&&◌, ◌||◌,
  none, some, List, leb, ◌==◌, get_or, set, Outcome, done, aborted, inl, inr, ◌⊎◌, arith,
  Bool-cases, Option-cases,
}
use native.Mathlib.Decide.{ℕ_discrete}
use non_os.Base.Bits.{bit_and-low}
use non_os.FrameProvider.{page_size, num_phys_pages}
use non_os.Machine.{
  Machine, TranslationEntry, Translation, translated, failed, address_error_exception,
  page_fault_exception, read_only_exception, bus_error_exception, memory_size, no_entry, misaligned,
  use_entry, translate_by_table, translate_by_tlb, search_tlb, tlb_size, translate,
}

-- The sizes of an access.
abbrev pub IsSize : ℕ → Type 0
IsSize n = (n ≡ 1) ⊎ ((n ≡ 2) ⊎ (n ≡ 4))

pub misaligned_lem : (addr size : ℕ) → IsSize size → misaligned addr size ≡ not (addr % size == 0)
unfolding misaligned
misaligned_lem addr size (inl e) = rw e (ground arith)
misaligned_lem addr size (inr (inl e)) = rw e (ground (arith, bit_and-low 1 addr))
misaligned_lem addr size (inr (inr e)) = rw e (ground (arith, bit_and-low 2 addr))

-- An aligned access that starts in a page ends in it.
pub page_fits :
    (addr size : ℕ) → IsSize size → addr % size ≡ 0 → addr % page_size + size ≤ page_size
page_fits addr size (inl e) a = rw e (omega arith)
page_fits addr size (inr (inl e)) a = let a' : addr % 2 ≡ 0 = rw e at a in rw e (omega arith)
page_fits addr size (inr (inr e)) a = let a' : addr % 4 ≡ 0 = rw e at a in rw e (omega arith)

pub frame_fits :
    (frame addr size : ℕ)
    → IsSize size
    → addr % size ≡ 0
    → frame < num_phys_pages
    → frame * page_size + addr % page_size + size ≤ memory_size
frame_fits frame addr size s a h = omega (arith, page_fits addr size s a)

-- The machine after an access through a table: the entry of the page is marked.
abbrev pub mark_entry : TranslationEntry → Bool → TranslationEntry
mark_entry entry writing = record entry { used = true; dirty = entry.dirty || writing }

-- What `Translate` answers for an entry that the page has, which `put` stores back.
pub data Uses (m : Machine) (put : TranslationEntry → Machine) (entry : TranslationEntry) (addr : ℕ)
    (writing : Bool) (r : Outcome (Translation × Machine)) : Type 0 where
  protected :
      entry.read_only ≡ true
      → writing ≡ true
      → r ≡ done (failed read_only_exception, m)
      → Uses m put entry addr writing r
  no_frame :
      (entry.read_only && writing) ≡ false
      → num_phys_pages ≤ entry.physical_page
      → r ≡ done (failed bus_error_exception, m)
      → Uses m put entry addr writing r
  hit :
      (entry.read_only && writing) ≡ false
      → entry.physical_page < num_phys_pages
      → r
        ≡ done (
          translated (entry.physical_page * page_size + addr % page_size),
          put (mark_entry entry writing),
        )
      → Uses m put entry addr writing r

use_entry-Uses :
    (m : Machine) (put : TranslationEntry → Machine) (entry : TranslationEntry) (addr size : ℕ)
    (writing : Bool)
    → IsSize size
    → addr % size ≡ 0
    → Uses m put entry addr writing (use_entry m put entry (addr % page_size) size writing)
unfolding use_entry
use_entry-Uses m put entry addr size writing s a = elim (Bool-cases (entry.read_only && writing)) [
  | inl e ↦ protected (ground arith) (ground arith) (rw e refl)
  | inr e ↦ elim (Bool-cases (leb num_phys_pages entry.physical_page)) [
    | inl big ↦ no_frame e (ground arith) (rw (e, big) refl)
    | inr small ↦
        hit e (ground arith)
          (rw (e, small) (ground (arith, frame_fits entry.physical_page addr size s a)))
  ]
]

-- The TLB entry at `i` is valid and is for the page.
abbrev pub is_match : List TranslationEntry → ℕ → ℕ → Bool
is_match tlb vpn i = (get_or tlb i no_entry).valid && (get_or tlb i no_entry).virtual_page == vpn

search_tlb_lem :
    (tlb : List TranslationEntry) (vpn left i : ℕ)
    → ((search_tlb tlb vpn left i ≡ none)
        × ((j : ℕ) → i ≤ j → j < i + left → is_match tlb vpn j ≡ false))
      ⊎ ((k : ℕ) × (search_tlb tlb vpn left i ≡ some k)
          × (i ≤ k)
          × (k < i + left)
          × (is_match tlb vpn k ≡ true)
          × ((j : ℕ) → i ≤ j → j < k → is_match tlb vpn j ≡ false))
unfolding search_tlb
search_tlb_lem tlb vpn zero i = inl (refl, λ j p q. absurd (omega arith))
search_tlb_lem tlb vpn (suc left) i = elim (Bool-cases (is_match tlb vpn i)) [
  | inl e ↦ inr (i, rw e refl, omega arith, omega arith, e, λ j p q. absurd (omega arith))
  | inr ne ↦ elim (search_tlb_lem tlb vpn left (i + 1)) [
    | inl (none_left, all) ↦ inl (rw (ne, none_left) refl, λ j p q. ground (arith, all j))
    | inr (k, found, p, q, e, all) ↦
        inr (k, rw (ne, found) refl, omega arith, omega arith, e, λ j p q. ground (arith, all j))
  ]
]

-- Every outcome of `Translate`, with its condition.
pub data Translates (m : Machine) (addr size : ℕ) (writing : Bool)
    (r : Outcome (Translation × Machine)) : Type 0 where
  unaligned :
      addr % size ≢ 0
      → r ≡ done (failed address_error_exception, m)
      → Translates m addr size writing r
  no_table :
      addr % size ≡ 0
      → m.tlb ≡ none
      → m.page_table ≡ none
      → r ≡ aborted
      → Translates m addr size writing r
  two_tables :
      (tlb table : List TranslationEntry)
      → addr % size ≡ 0
      → m.tlb ≡ some tlb
      → m.page_table ≡ some table
      → r ≡ aborted
      → Translates m addr size writing r
  past_table :
      (table : List TranslationEntry)
      → addr % size ≡ 0
      → m.tlb ≡ none
      → m.page_table ≡ some table
      → m.page_table_size ≤ addr / page_size
      → r ≡ done (failed address_error_exception, m)
      → Translates m addr size writing r
  not_valid :
      (table : List TranslationEntry)
      → addr % size ≡ 0
      → m.tlb ≡ none
      → m.page_table ≡ some table
      → addr / page_size < m.page_table_size
      → (get_or table (addr / page_size) no_entry).valid ≡ false
      → r ≡ done (failed page_fault_exception, m)
      → Translates m addr size writing r
  by_table :
      (table : List TranslationEntry)
      → addr % size ≡ 0
      → m.tlb ≡ none
      → m.page_table ≡ some table
      → addr / page_size < m.page_table_size
      → (get_or table (addr / page_size) no_entry).valid ≡ true
      → Uses m
          (λ e. record m { page_table = some (set table (addr / page_size) e) })
          (get_or table (addr / page_size) no_entry)
          addr
          writing
          r
      → Translates m addr size writing r
  tlb_miss :
      (tlb : List TranslationEntry)
      → addr % size ≡ 0
      → m.tlb ≡ some tlb
      → m.page_table ≡ none
      → ((j : ℕ) → j < tlb_size → is_match tlb (addr / page_size) j ≡ false)
      → r ≡ done (failed page_fault_exception, m)
      → Translates m addr size writing r
  by_tlb :
      (tlb : List TranslationEntry) (i : ℕ)
      → addr % size ≡ 0
      → m.tlb ≡ some tlb
      → m.page_table ≡ none
      → i < tlb_size
      → is_match tlb (addr / page_size) i ≡ true
      → ((j : ℕ) → j < i → is_match tlb (addr / page_size) j ≡ false)
      → Uses m (λ e. record m { tlb = some (set tlb i e) }) (get_or tlb i no_entry) addr writing r
      → Translates m addr size writing r

module _ (m : Machine) (addr size : ℕ) (writing : Bool) (s : IsSize size) where
  aligned_eq : addr % size ≡ 0 → misaligned addr size ≡ false
  aligned_eq a = ground (arith, misaligned_lem addr size s)

  table-Translates :
      (table : List TranslationEntry)
      → addr % size ≡ 0
      → m.tlb ≡ none
      → m.page_table ≡ some table
      → Translates m addr size writing
          (translate_by_table m table (addr / page_size) (addr % page_size) size writing)
  unfolding translate_by_table
  table-Translates table a t p = elim (Bool-cases (leb m.page_table_size (addr / page_size))) [
    | inl big ↦ past_table table a t p (ground arith) (rw big refl)
    | inr fits ↦ elim (Bool-cases (get_or table (addr / page_size) no_entry).valid) [
      | inr bad ↦ not_valid table a t p (ground arith) bad (rw (fits, bad) refl)
      | inl good ↦
          rw (fits, good)
            (by_table table a t p (ground arith) good (use_entry-Uses m _ _ addr size writing s a))
    ]
  ]

  tlb-Translates :
      (tlb : List TranslationEntry)
      → addr % size ≡ 0
      → m.tlb ≡ some tlb
      → m.page_table ≡ none
      → Translates m addr size writing
          (translate_by_tlb m tlb (addr / page_size) (addr % page_size) size writing)
  unfolding translate_by_tlb
  tlb-Translates tlb a t p = elim (search_tlb_lem tlb (addr / page_size) tlb_size 0) [
    | inl (e, all) ↦
        tlb_miss tlb a t p (λ j h. all j (omega arith) (omega arith))
          (rw (e, translate_by_tlb) refl)
    | inr (k, e, _, q, hit_k, all) ↦
        rw (e, translate_by_tlb)
          (by_tlb tlb k a t p (omega arith) hit_k (λ j h. all j (omega arith) h)
            (use_entry-Uses m _ _ addr size writing s a))
  ]

  pub table_eq :
      (table : List TranslationEntry)
      → addr % size ≡ 0
      → m.tlb ≡ none
      → m.page_table ≡ some table
      → translate m addr size writing
        ≡ translate_by_table m table (addr / page_size) (addr % page_size) size writing
  unfolding translate
  table_eq table a t p = ground (arith, aligned_eq a)

  tlb_eq :
      (tlb : List TranslationEntry)
      → addr % size ≡ 0
      → m.tlb ≡ some tlb
      → m.page_table ≡ none
      → translate m addr size writing
        ≡ translate_by_tlb m tlb (addr / page_size) (addr % page_size) size writing
  unfolding translate
  tlb_eq tlb a t p = ground (arith, aligned_eq a)

  -- For an access of 1, 2 or 4 bytes, `Translate` answers as follows: an unaligned access gives
  -- AddressErrorException, before anything else is looked at. An aligned one aborts where there is
  -- no table or there are two. With a page table it gives AddressErrorException past its end and
  -- PageFaultException for an invalid entry; with a TLB, PageFaultException where no entry is valid
  -- and for the page, and else the first one that is counts. With an entry it gives ReadOnlyException
  -- for a write to a read-only page, then BusErrorException for a frame past the memory, and
  -- otherwise the physical address, and marks the entry. An exception changes nothing.
  pub translate-Translates : Translates m addr size writing (translate m addr size writing)
  unfolding translate
  translate-Translates = elim (ℕ_discrete (addr % size) 0) [
    | no ne ↦ unaligned ne (ground (arith, misaligned_lem addr size s))
    | yes a ↦ elim (Option-cases m.tlb) [
      | inl t ↦ elim (Option-cases m.page_table) [
        | inl p ↦ no_table a t p (ground (arith, aligned_eq a))
        | inr (table, p) ↦ rw (table_eq table a t p) (table-Translates table a t p)
      ]
      | inr (tlb, t) ↦ elim (Option-cases m.page_table) [
        | inl p ↦ rw (tlb_eq tlb a t p) (tlb-Translates tlb a t p)
        | inr (table, p) ↦ two_tables tlb table a t p (ground (arith, aligned_eq a))
      ]
    ]
  ]
