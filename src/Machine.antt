-- ===== src/Machine.antt =====
-- code/machine/machine.h, code/machine/machine.cc and code/machine/translate.cc: the simulated
-- machine. Its registers and addresses are `int`s, kept as their 32-bit patterns; main memory is a
-- list of bytes. The host is little-endian, so the conversions to and from the machine's words are
-- the identity. `pageTable` and the address space's table are one array in the program: here the
-- machine holds it.
pub mod Bytes
pub mod Translate
pub mod Safe
pub mod Memory
pub mod Refused
pub mod Unchanged
pub mod Tests
use Prim.Native.Nat.{bit_and}
use non_os.Base.{
  ℕ, zero, suc, ◌+◌, ◌*◌, ◌/◌, ◌%◌, Bool, true, false, not, ◌&&◌, ◌||◌, Option, none, some, List,
  ltb, leb, ◌==◌, if◌then◌else◌, get_or, set, Outcome, done, aborted, assert, ◌>>=◌, ◌>>◌,
}
use non_os.FrameProvider.{page_size, num_phys_pages}
use Bytes.{load_bytes, store_bytes, sign_extend_byte}

pub data ExceptionType : Type 0 where
  no_exception syscall_exception page_fault_exception read_only_exception : ExceptionType
  bus_error_exception address_error_exception overflow_exception : ExceptionType
  illegal_instr_exception : ExceptionType

abbrev pub memory_size : ℕ
memory_size = num_phys_pages * page_size

abbrev pub tlb_size : ℕ
tlb_size = 4

-- `use` is `used` here.
pub record TranslationEntry : Type 0 where
  pub virtual_page : ℕ
  pub physical_page : ℕ
  pub valid : Bool
  pub read_only : Bool
  pub used : Bool
  pub dirty : Bool

-- `none` for a null pointer. `runUntilTime` and `singleStep` belong to the debugger.
pub record Machine : Type 0 where
  pub main_memory : List ℕ
  pub registers : List ℕ
  pub tlb : Option (List TranslationEntry)
  pub page_table : Option (List TranslationEntry)
  pub page_table_size : ℕ

-- What `Translate` gives: NoException with `*physAddr`, or the exception.
pub data Translation : Type 0 where
  translated : ℕ → Translation
  failed : ExceptionType → Translation

-- What a read past an array's end would give. No theorem rests on it.
abbrev pub no_entry : TranslationEntry
no_entry = record {
  virtual_page = 0;
  physical_page = 0;
  valid = false;
  read_only = false;
  used = false;
  dirty = false;
}

abbrev pub is_null {ℓ} : {A : Type ℓ} → Option A → Bool
is_null none = true
is_null (some a) = false

-- `((size == 4) && (virtAddr & 0x3)) || ((size == 2) && (virtAddr & 0x1))`
pub misaligned : ℕ → ℕ → Bool
misaligned addr size =
    (size == 4 && not (bit_and addr 3 == 0)) || (size == 2 && not (bit_and addr 1 == 0))

-- The end of `Translate`, from the test of `readOnly` on, with `put`, which stores the entry back.
pub use_entry :
    Machine
    → (TranslationEntry → Machine)
    → TranslationEntry
    → ℕ
    → ℕ
    → Bool
    → Outcome (Translation × Machine)
use_entry m put entry offset size writing =
    if entry.read_only && writing
    then done (failed read_only_exception, m)
    else if leb num_phys_pages entry.physical_page
    then done (failed bus_error_exception, m)
    else do
      assert (leb (entry.physical_page * page_size + offset + size) memory_size)
      done (
        translated (entry.physical_page * page_size + offset),
        put (record entry { used = true; dirty = entry.dirty || writing }),
      )

pub translate_by_table :
    Machine → List TranslationEntry → ℕ → ℕ → ℕ → Bool → Outcome (Translation × Machine)
translate_by_table m table vpn offset size writing =
    if leb m.page_table_size vpn
    then done (failed address_error_exception, m)
    else if not (get_or table vpn no_entry).valid
    then done (failed page_fault_exception, m)
    else use_entry m (λ entry. record m { page_table = some (set table vpn entry) })
        (get_or table vpn no_entry) offset size writing

-- The index of the first valid entry for the page among the `left` entries from `i` on.
pub search_tlb : List TranslationEntry → ℕ → ℕ → ℕ → Option ℕ
search_tlb tlb vpn zero i = none
search_tlb tlb vpn (suc left) i =
    let rest = search_tlb tlb vpn left (i + 1) in
    if (get_or tlb i no_entry).valid && (get_or tlb i no_entry).virtual_page == vpn
    then some i
    else rest

pub translate_by_tlb :
    Machine → List TranslationEntry → ℕ → ℕ → ℕ → Bool → Outcome (Translation × Machine)
translate_by_tlb m tlb vpn offset size writing = elim (search_tlb tlb vpn tlb_size 0) [
  | none ↦ done (failed page_fault_exception, m)
  | some i ↦
      use_entry m (λ entry. record m { tlb = some (set tlb i entry) }) (get_or tlb i no_entry)
        offset size writing
]

pub translate : Machine → ℕ → ℕ → Bool → Outcome (Translation × Machine)
translate m virt_addr size writing =
    if misaligned virt_addr size then done (failed address_error_exception, m) else do
      assert (is_null m.tlb || is_null m.page_table)
      assert (not (is_null m.tlb) || not (is_null m.page_table))
      elim m.tlb [
        | none ↦ elim m.page_table [
          | none ↦ aborted
          | some table ↦
              translate_by_table m table (virt_addr / page_size) (virt_addr % page_size) size
                writing
        ]
        | some tlb ↦
            translate_by_tlb m tlb (virt_addr / page_size) (virt_addr % page_size) size writing
      ]

-- What `ReadMem` and `WriteMem` do: return TRUE, or call `RaiseException` with the exception and the
-- address and return FALSE. The caller makes the call of `RaiseException`.
pub data Access {ℓ} (A : Type ℓ) : Type ℓ where
  success : A → Access A
  raised : ExceptionType → ℕ → Access A

-- The `switch` of `ReadMem`.
pub load_sized : List ℕ → ℕ → ℕ → Outcome ℕ
load_sized memory addr size =
    if size == 1
    then done (sign_extend_byte (load_bytes memory addr 1))
    else if size == 2
    then done (load_bytes memory addr 2)
    else if size == 4
    then done (load_bytes memory addr 4)
    else aborted

pub read_mem : Machine → ℕ → ℕ → Outcome (Access ℕ × Machine)
read_mem m addr size = translate m addr size false >>= λ t. elim t.0 [
  | failed e ↦ done (raised e addr, t.1)
  | translated physical ↦
      load_sized t.1.main_memory physical size >>= λ value. done (success value, t.1)
]

-- The `switch` of `WriteMem`.
pub store_sized : List ℕ → ℕ → ℕ → ℕ → Outcome (List ℕ)
store_sized memory addr size value =
    if size == 1
    then done (store_bytes memory addr 1 (bit_and value 0xff))
    else if size == 2
    then done (store_bytes memory addr 2 (bit_and value 0xffff))
    else if size == 4
    then done (store_bytes memory addr 4 value)
    else aborted

pub write_mem : Machine → ℕ → ℕ → ℕ → Outcome (Access (Unit {0}) × Machine)
write_mem m addr size value = translate m addr size true >>= λ t. elim t.0 [
  | failed e ↦ done (raised e addr, t.1)
  | translated physical ↦ store_sized t.1.main_memory physical size value >>= λ memory.
      done (success tt, record t.1 { main_memory = memory })
]
