-- ===== src/Mips/Stores.antt =====
-- The stores: `OP_SB`, `OP_SH`, `OP_SW`, `OP_SWL` and `OP_SWR`.
use Prim.Native.Nat.{bit_and, bit_or}
use non_os.Base.{ℕ, ◌==◌, if◌then◌else◌, Outcome, done, assert, ◌>>◌}
use non_os.Machine.{Machine, read_mem, write_mem}
use non_os.Mips.Words.{add32, not32, shl32, sra32}
use non_os.Mips.Registers.{reg}
use non_os.Mips.Decode.{Instruction}
use non_os.Mips.Steps.{Step, completed, then_continue}

-- `OP_SB`, `OP_SH` and `OP_SW`: `size` bytes of `registers[rt]`.
unfoldable pub store : Instruction → Machine → ℕ → ℕ → Outcome Step
store i m pc size =
    then_continue (write_mem m (add32 (reg m i.rs) i.extra) size (reg m i.rt))
      λ _ m'. done (completed m' pc 0 0)

-- The inner `switch` of `OP_SWL`.
pub split_left : ℕ → ℕ → ℕ → ℕ
split_left position value register =
    if position == 0
    then register
    else if position == 1
    then bit_or (bit_and value 0xff000000) (bit_and (sra32 register 8) 0xffffff)
    else if position == 2
    then bit_or (bit_and value 0xffff0000) (bit_and (sra32 register 16) 0xffff)
    else bit_or (bit_and value 0xffffff00) (bit_and (sra32 register 24) 0xff)

-- The inner `switch` of `OP_SWR`.
pub split_right : ℕ → ℕ → ℕ → ℕ
split_right position value register =
    if position == 0
    then bit_or (bit_and value 0xffffff) (shl32 register 24)
    else if position == 1
    then bit_or (bit_and value 0xffff) (shl32 register 16)
    else if position == 2
    then bit_or (bit_and value 0xff) (shl32 register 8)
    else register

-- `OP_SWL` and `OP_SWR`, which differ in the inner `switch`.
unfoldable pub store_part : Instruction → Machine → ℕ → (ℕ → ℕ → ℕ → ℕ) → Outcome Step
store_part i m pc split =
    let tmp = add32 (reg m i.rs) i.extra in
    assert (bit_and tmp 3 == 0)
    >> then_continue (read_mem m (bit_and tmp (not32 3)) 4) λ value m'.
      then_continue
        (write_mem m' (bit_and tmp (not32 3)) 4 (split (bit_and tmp 3) value (reg m' i.rt)))
        λ _ m''. done (completed m'' pc 0 0)
