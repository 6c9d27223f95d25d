-- ===== src/Machine/Unchanged.antt =====
-- `Translate`, `ReadMem` and `WriteMem` leave the registers as they were, whatever their outcome.
use non_os.Base.{
  ℕ, ◌+◌, ◌*◌, ◌/◌, ◌%◌, ◌≡◌, refl, Bool, true, false, not, ◌&&◌, ◌||◌, leb, Option, none, some,
  List, get_or, set, done, aborted, assert, ◌>>=◌, ◌>>◌, Ends, Ends->>=, Ends-any, Bool-cases, inl,
  inr,
}
use non_os.FrameProvider.{page_size, num_phys_pages}
use non_os.Machine.{
  Machine, TranslationEntry, Access, success, raised, Translation, translated, failed,
  page_fault_exception, memory_size, is_null, use_entry, translate_by_table, translate_by_tlb,
  search_tlb, tlb_size, translate, misaligned, read_mem, write_mem, load_sized, store_sized,
  no_entry,
}

-- The registers after an access are those before it.
abbrev pub SameRegisters {ℓ} : {A : Type ℓ} → Machine → A × Machine → Type 0
SameRegisters m p = p.1.registers ≡ m.registers

use_entry-SameRegisters :
    (m : Machine) (put : TranslationEntry → Machine) (entry : TranslationEntry) (offset size : ℕ)
    (writing : Bool)
    → ((e : TranslationEntry) → (put e).registers ≡ m.registers)
    → Ends (SameRegisters m) (use_entry m put entry offset size writing)
unfolding use_entry
use_entry-SameRegisters m put entry offset size writing h =
    elim (Bool-cases (entry.read_only && writing)) [
      | inl e ↦ rw e refl
      | inr e ↦ elim (Bool-cases (leb num_phys_pages entry.physical_page)) [
        | inl big ↦ rw (e, big) refl
        | inr small ↦
            elim (Bool-cases (leb (entry.physical_page * page_size + offset + size) memory_size)) [
              | inl fits ↦ rw (e, small, fits) (h _)
              | inr out ↦ rw (e, small, out) tt
            ]
      ]
    ]

translate_by_table-SameRegisters :
    (m : Machine) (table : List TranslationEntry) (vpn offset size : ℕ) (writing : Bool)
    → Ends (SameRegisters m) (translate_by_table m table vpn offset size writing)
unfolding translate_by_table
translate_by_table-SameRegisters m table vpn offset size writing =
    elim (Bool-cases (leb m.page_table_size vpn)) [
      | inl e ↦ rw e refl
      | inr e ↦ elim (Bool-cases (get_or table vpn no_entry).valid) [
        | inl v ↦ rw (e, v) (use_entry-SameRegisters m _ _ offset size writing (λ _. refl))
        | inr v ↦ rw (e, v) refl
      ]
    ]

translate_by_tlb-SameRegisters :
    (m : Machine) (tlb : List TranslationEntry) (vpn offset size : ℕ) (writing : Bool)
    → Ends (SameRegisters m) (translate_by_tlb m tlb vpn offset size writing)
unfolding translate_by_tlb
translate_by_tlb-SameRegisters m tlb vpn offset size writing = found (search_tlb tlb vpn tlb_size 0)
  where
    found :
        (at : Option ℕ)
        → Ends (SameRegisters m) (elim at [
          | none ↦ done (failed page_fault_exception, m)
          | some i ↦
              use_entry m
                (λ entry. record m { tlb = some (set tlb i entry) })
                (get_or tlb i no_entry)
                offset
                size
                writing
        ])
    found none = refl
    found (some i) = use_entry-SameRegisters m _ _ offset size writing (λ _. refl)

-- The four modes of the machine.
translate_mode-SameRegisters :
    (m : Machine) (vpn offset size : ℕ) (writing : Bool)
    (tlb table : Option (List TranslationEntry))
    → Ends (SameRegisters m) (
        assert (is_null tlb || is_null table)
        >> (assert (not (is_null tlb) || not (is_null table)) >> elim tlb [
          | none ↦ elim table [
            | none ↦ aborted
            | some pages ↦ translate_by_table m pages vpn offset size writing
          ]
          | some entries ↦ translate_by_tlb m entries vpn offset size writing
        ]))
translate_mode-SameRegisters m vpn offset size writing none none = tt
translate_mode-SameRegisters m vpn offset size writing none (some pages) =
    translate_by_table-SameRegisters m pages vpn offset size writing
translate_mode-SameRegisters m vpn offset size writing (some entries) none =
    translate_by_tlb-SameRegisters m entries vpn offset size writing
translate_mode-SameRegisters m vpn offset size writing (some entries) (some pages) = tt

translate-SameRegisters :
    (m : Machine) (addr size : ℕ) (writing : Bool)
    → Ends (SameRegisters m) (translate m addr size writing)
unfolding translate
translate-SameRegisters m addr size writing = elim (Bool-cases (misaligned addr size)) [
  | inl e ↦ rw e refl
  | inr e ↦ rw e (
      translate_mode-SameRegisters m (addr / page_size) (addr % page_size) size writing m.tlb
        m.page_table)
]

read_value-SameRegisters :
    (m : Machine) (addr : ℕ) (t : Translation × Machine) (size : ℕ)
    → SameRegisters m t
    → Ends (SameRegisters m) (elim t.0 [
      | failed e ↦ done (raised e addr, t.1)
      | translated physical ↦
          load_sized t.1.main_memory physical size >>= λ value. done (success value, t.1)
    ])
read_value-SameRegisters m addr (failed e, m') size h = h
read_value-SameRegisters m addr (translated physical, m') size h =
    Ends-any (load_sized m'.main_memory physical size) _ _ (λ value. h)

pub read_mem-SameRegisters :
    (m : Machine) (addr size : ℕ) → Ends (SameRegisters m) (read_mem m addr size)
unfolding read_mem
read_mem-SameRegisters m addr size =
    Ends->>= (translate m addr size false) _ _ (translate-SameRegisters m addr size false)
      (λ t h. read_value-SameRegisters m addr t size h)

write_value-SameRegisters :
    (m : Machine) (addr : ℕ) (t : Translation × Machine) (size value : ℕ)
    → SameRegisters m t
    → Ends (SameRegisters {A = Access (Unit {0})} m) (elim t.0 [
      | failed e ↦ done (raised e addr, t.1)
      | translated physical ↦ store_sized t.1.main_memory physical size value >>= λ memory.
          done (success tt, record t.1 { main_memory = memory })
    ])
write_value-SameRegisters m addr (failed e, m') size value h = h
write_value-SameRegisters m addr (translated physical, m') size value h =
    Ends-any (store_sized m'.main_memory physical size value) _ _ (λ memory. h)

pub write_mem-SameRegisters :
    (m : Machine) (addr size value : ℕ) → Ends (SameRegisters m) (write_mem m addr size value)
unfolding write_mem
write_mem-SameRegisters m addr size value =
    Ends->>= (translate m addr size true) _ _ (translate-SameRegisters m addr size true)
      (λ t h. write_value-SameRegisters m addr t size value h)
