-- ===== src/Mips/Loads.antt =====
-- The loads: `OP_LB`, `OP_LBU`, `OP_LH`, `OP_LHU`, `OP_LW`, `OP_LWL` and `OP_LWR`. The loaded value goes
-- to its register one instruction later.
use Prim.Native.Nat.{bit_and, bit_or}
use non_os.Base.{ℕ, Bool, not, ◌&&◌, ◌==◌, if◌then◌else◌, Outcome, done, assert, ◌>>◌}
use non_os.Machine.{Machine, address_error_exception, read_mem}
use non_os.Mips.Words.{add32, shl32, sra32}
use non_os.Mips.Registers.{reg, load_reg, load_value_reg}
use non_os.Mips.Decode.{Instruction}
use non_os.Mips.Steps.{Step, completed, trapped, then_continue}

-- `OP_LB` with `is_signed`, and `OP_LBU`.
unfoldable pub load_byte : Instruction → Machine → ℕ → Bool → Outcome Step
load_byte i m pc is_signed = then_continue (read_mem m (add32 (reg m i.rs) i.extra) 1) λ value m'.
    done (
      completed m' pc i.rt (
        if not (bit_and value 0x80 == 0) && is_signed
        then bit_or value 0xffffff00
        else bit_and value 0xff))

-- `OP_LH` with `is_signed`, and `OP_LHU`.
unfoldable pub load_half : Instruction → Machine → ℕ → Bool → Outcome Step
load_half i m pc is_signed =
    let tmp = add32 (reg m i.rs) i.extra in
    if not (bit_and tmp 1 == 0)
    then done (trapped address_error_exception tmp m)
    else then_continue (read_mem m tmp 2) λ value m'. done (
        completed m' pc i.rt (
          if not (bit_and value 0x8000 == 0) && is_signed
          then bit_or value 0xffff0000
          else bit_and value 0xffff))

-- `OP_LW`
unfoldable pub load_word : Instruction → Machine → ℕ → Outcome Step
load_word i m pc =
    let tmp = add32 (reg m i.rs) i.extra in
    if not (bit_and tmp 3 == 0)
    then done (trapped address_error_exception tmp m)
    else then_continue (read_mem m tmp 4) λ value m'. done (completed m' pc i.rt value)

-- The value that `OP_LWL` and `OP_LWR` start from: the delayed one, if it goes to the same register.
pub pending_value : Instruction → Machine → ℕ
pending_value i m = if reg m load_reg == i.rt then reg m load_value_reg else reg m i.rt

-- The inner `switch` of `OP_LWL`.
pub merge_left : ℕ → ℕ → ℕ → ℕ
merge_left position old value =
    if position == 0
    then value
    else if position == 1
    then bit_or (bit_and old 0xff) (shl32 value 8)
    else if position == 2
    then bit_or (bit_and old 0xffff) (shl32 value 16)
    else bit_or (bit_and old 0xffffff) (shl32 value 24)

-- The inner `switch` of `OP_LWR`.
pub merge_right : ℕ → ℕ → ℕ → ℕ
merge_right position old value =
    if position == 0
    then bit_or (bit_and old 0xffffff00) (bit_and (sra32 value 24) 0xff)
    else if position == 1
    then bit_or (bit_and old 0xffff0000) (bit_and (sra32 value 16) 0xffff)
    else if position == 2
    then bit_or (bit_and old 0xff000000) (bit_and (sra32 value 8) 0xffffff)
    else value

-- `OP_LWL` and `OP_LWR`, which differ in the inner `switch`.
unfoldable pub load_part : Instruction → Machine → ℕ → (ℕ → ℕ → ℕ → ℕ) → Outcome Step
load_part i m pc merge =
    let tmp = add32 (reg m i.rs) i.extra in
    assert (bit_and tmp 3 == 0)
    >> then_continue (read_mem m tmp 4)
        λ value m'. done (completed m' pc i.rt (merge (bit_and tmp 3) (pending_value i m') value))
