-- ===== src/Machine/Memory.antt =====
-- `Machine::ReadMem` and `Machine::WriteMem` on a page table: what is written is read back, and
-- nothing else is touched.
use Prim.Native.Nat.{bit_and}
use non_os.Base.{
  ℕ, ◌+◌, ◌*◌, ◌/◌, ◌%◌, ◌^◌, ◌<◌, ◌≤◌, ◌≡◌, ◌≢◌, refl, ap, ◌∙◌, Bool, true, false, ◌&&◌, none,
  some, List, ◌==◌, if◌then◌else◌, get_or, set, get_or-set_self, length-set, done, inl, inr, ◌⊎◌,
  arith, length,
}
use native.Mathlib.Decide.{dec_lt}
use non_os.Base.Bits.{bit_and-low}
use non_os.FrameProvider.{page_size, num_phys_pages}
use non_os.Machine.{
  Machine, TranslationEntry, translated, memory_size, no_entry, use_entry, translate_by_table,
  translate, success, read_mem, write_mem, load_sized, store_sized,
}
use non_os.Machine.Bytes.{
  store_bytes, sign_extend_byte, load-store_bytes, length-store_bytes, get_or-store_bytes_out,
}
use non_os.Machine.Translate.{IsSize, frame_fits, page_fits, mark_entry, table_eq}

-- A machine that runs on a page table, with the page of `addr` mapped to a frame of memory.
pub record IsMapped (m : Machine) (table : List TranslationEntry) (addr size : ℕ) (writing : Bool)
    : Type 0 where
  pub no_tlb : m.tlb ≡ none
  pub page_table : m.page_table ≡ some table
  pub table_size : m.page_table_size ≤ length table
  pub memory : length m.main_memory ≡ memory_size
  pub aligned : addr % size ≡ 0
  pub in_table : addr / page_size < m.page_table_size
  pub valid : (get_or table (addr / page_size) no_entry).valid ≡ true
  pub allowed : ((get_or table (addr / page_size) no_entry).read_only && writing) ≡ false
  pub frame : (get_or table (addr / page_size) no_entry).physical_page < num_phys_pages

-- The physical address of a mapped address, and the table after the access.
abbrev pub physical_of : List TranslationEntry → ℕ → ℕ
physical_of table addr =
    (get_or table (addr / page_size) no_entry).physical_page * page_size + addr % page_size

abbrev pub table_after : List TranslationEntry → ℕ → Bool → List TranslationEntry
table_after table addr writing =
    set table (addr / page_size) (mark_entry (get_or table (addr / page_size) no_entry) writing)

translate-IsMapped :
    (m : Machine) (table : List TranslationEntry) (addr size : ℕ) (writing : Bool)
    → IsSize size
    → IsMapped m table addr size writing
    → translate m addr size writing
      ≡ done (
        translated (physical_of table addr),
        record m { page_table = some (table_after table addr writing) },
      )
unfolding translate_by_table use_entry
translate-IsMapped m table addr size writing s h =
    table_eq m addr size writing s table h.aligned h.no_tlb h.page_table
    ∙ ground (
      arith,
      frame_fits (get_or table (addr / page_size) no_entry).physical_page addr size s h.aligned
          h.frame,
    )

-- What an access of each size gives back of a word that has been written.
abbrev pub read_back : ℕ → ℕ → ℕ
read_back size v = if size == 1 then sign_extend_byte (v % 2 ^ 8) else v % 2 ^ (8 * size)

-- What the store of a sized word has done.
record IsStored (memory : List ℕ) (i size v : ℕ) (memory' : List ℕ) : Type 0 where
  stored : store_sized memory i size v ≡ done memory'
  loaded : load_sized memory' i size ≡ done (read_back size v)
  same_length : length memory' ≡ length memory
  others : (j : ℕ) → (j < i) ⊎ (i + size ≤ j) → get_or memory' j 0 ≡ get_or memory j 0

store_sized-IsStored :
    (memory : List ℕ) (i size v : ℕ)
    → IsSize size
    → i + size ≤ length memory
    → (memory' : List ℕ) × IsStored memory i size v memory'
unfolding load_sized store_sized
store_sized-IsStored memory i size v (inl e) h =
    let w = bit_and v 0xff in
    (
      store_bytes memory i 1 w,
      record {
        stored = rw e refl;
        loaded = rw e (
            ap (λ t. done (sign_extend_byte t))
              (omega (arith, load-store_bytes memory i 1 w (omega arith), bit_and-low 8 v)));
        same_length = length-store_bytes memory i 1 w;
        others = λ j o. get_or-store_bytes_out memory i 1 w j (rw e at o);
      },
    )
store_sized-IsStored memory i size v (inr (inl e)) h =
    let w = bit_and v 0xffff in
    (
      store_bytes memory i 2 w,
      record {
        stored = rw e refl;
        loaded = rw e (
            ap done (omega (arith, load-store_bytes memory i 2 w (omega arith), bit_and-low 16 v)));
        same_length = length-store_bytes memory i 2 w;
        others = λ j o. get_or-store_bytes_out memory i 2 w j (rw e at o);
      },
    )
store_sized-IsStored memory i size v (inr (inr e)) h = (
  store_bytes memory i 4 v,
  record {
    stored = rw e refl;
    loaded = rw e (ap done (load-store_bytes memory i 4 v (omega arith)));
    same_length = length-store_bytes memory i 4 v;
    others = λ j o. get_or-store_bytes_out memory i 4 v j (rw e at o);
  },
)

-- The machine after a write through its table.
abbrev pub written : Machine → List TranslationEntry → List ℕ → Machine
written m table memory = record m { page_table = some table; main_memory = memory }

get_or-table_after :
    (table : List TranslationEntry) (addr : ℕ) (writing : Bool)
    → addr / page_size < length table
    → get_or (table_after table addr writing) (addr / page_size) no_entry
      ≡ mark_entry (get_or table (addr / page_size) no_entry) writing
get_or-table_after table addr writing h = get_or-set_self table (addr / page_size) _ no_entry h

-- The page stays mapped, to the same frame.
written-IsMapped :
    (m : Machine) (table : List TranslationEntry) (addr size : ℕ) (memory : List ℕ)
    → IsMapped m table addr size true
    → length memory ≡ memory_size
    → IsMapped
        (written m (table_after table addr true) memory)
        (table_after table addr true)
        addr
        size
        false
written-IsMapped m table addr size memory h l = record {
  no_tlb = h.no_tlb;
  page_table = refl;
  table_size = omega (
    arith,
    h.table_size,
    length-set table (addr / page_size)
        (mark_entry (get_or table (addr / page_size) no_entry) true),
  );
  memory = l;
  aligned = h.aligned;
  in_table = h.in_table;
  valid = ground (arith, h.valid, get_or-table_after table addr true);
  allowed = ground arith;
  frame = ground (arith, get_or-table_after table addr true);
}

-- A write to a mapped page stores the word at its physical address and marks the entry.
write_mem-IsStored :
    (m : Machine) (table : List TranslationEntry) (addr size v : ℕ)
    → IsSize size
    → IsMapped m table addr size true
    → (memory : List ℕ) × IsStored m.main_memory (physical_of table addr) size v memory
      × (write_mem m addr size v
          ≡ done (success tt, written m (table_after table addr true) memory))
unfolding write_mem
write_mem-IsStored m table addr size v s h =
    let (memory, st) = store_sized-IsStored m.main_memory (physical_of table addr) size v s (
      omega (
        arith,
        frame_fits (get_or table (addr / page_size) no_entry).physical_page addr size s h.aligned
            h.frame,
        h.memory,
      )) in
    (memory, st, rw (translate-IsMapped m table addr size true s h, st.stored) refl)

same_frame :
    (table : List TranslationEntry) (addr : ℕ)
    → addr / page_size < length table
    → physical_of (table_after table addr true) addr ≡ physical_of table addr
same_frame table addr p = rw (get_or-table_after table addr true p) refl

-- A write through a page table to a mapped page succeeds, and a read of the same address and size
-- then gives the value back, cut to the size (and sign-extended, for a byte).
pub write-read_mem :
    (m : Machine) (table : List TranslationEntry) (addr size v : ℕ)
    → IsSize size
    → IsMapped m table addr size true
    → (m' : Machine) × (write_mem m addr size v ≡ done (success tt, m'))
      × (m'' : Machine) × (read_mem m' addr size ≡ done (success (read_back size v), m''))
      × (m''.main_memory ≡ m'.main_memory)
unfolding read_mem
write-read_mem m table addr size v s h =
    let (memory, st, e) = write_mem-IsStored m table addr size v s h in
    let table' = table_after table addr true in
    let m' = written m table' memory in
    (
      m',
      e,
      record m' { page_table = some (table_after table' addr false) },
      rw
          (translate-IsMapped m' table' addr size false s
            (written-IsMapped m table addr size memory h (st.same_length ∙ h.memory)))
          (rw (same_frame table addr (omega (arith, h.in_table, h.table_size)), st.loaded) refl),
      refl,
    )

-- A byte of another frame stands before the access or behind it.
out_of_frame :
    (frame addr size j : ℕ)
    → IsSize size
    → addr % size ≡ 0
    → j / page_size ≢ frame
    → (j < frame * page_size + addr % page_size) ⊎ (frame * page_size + addr % page_size + size ≤ j)
out_of_frame frame addr size j s a far = elim (dec_lt (j / page_size) frame) [
  | yes p ↦ inl (omega arith)
  | no p ↦ inr (omega (arith, page_fits addr size s a))
]

-- A write to a mapped address changes bytes of its own frame only.
pub write_mem_other_frames :
    (m : Machine) (table : List TranslationEntry) (addr size v : ℕ)
    → IsSize size
    → IsMapped m table addr size true
    → (m' : Machine) × (write_mem m addr size v ≡ done (success tt, m'))
      × ((j : ℕ)
          → j / page_size ≢ (get_or table (addr / page_size) no_entry).physical_page
          → get_or m'.main_memory j 0 ≡ get_or m.main_memory j 0)
write_mem_other_frames m table addr size v s h =
    let (memory, st, e) = write_mem-IsStored m table addr size v s h in
    (
      written m (table_after table addr true) memory,
      e,
      λ j far. st.others j (out_of_frame _ addr size j s h.aligned far),
    )
