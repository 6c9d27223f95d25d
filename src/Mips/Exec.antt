-- ===== src/Mips/Exec.antt =====
-- The `switch` of `Machine::OneInstruction`, a function for each group of its cases. `pc` is the
-- local `pcAfter`, which the branches change.
use Prim.Native.Nat.{bit_and, bit_or, bit_xor}
use non_os.Base.{
  ℕ, ◌-◌, ◌/◌, ◌%◌, ◌^◌, Bool, true, false, not, ◌&&◌, ltb, ◌==◌, if◌then◌else◌, Outcome, done,
  aborted,
}
use non_os.Machine.{Machine, overflow_exception, syscall_exception, illegal_instr_exception}
use non_os.Mips.Words.{
  word, sign_bit, add32, sub32, not32, shl32, sra32, slt32, div32, mod32, has_sign,
}
use non_os.Mips.Registers.{reg, set_reg, hi_reg, lo_reg, next_pc_reg, r31}
use non_os.Mips.Decode.{
  Instruction, OpCode, op_add, op_addi, op_addiu, op_addu, op_and, op_andi, op_beq, op_bgez,
  op_bgezal, op_bgtz, op_blez, op_bltz, op_bltzal, op_bne, op_div, op_divu, op_j, op_jal, op_jalr,
  op_jr, op_lb, op_lbu, op_lh, op_lhu, op_lui, op_lw, op_lwl, op_lwr, op_mfhi, op_mflo, op_mthi,
  op_mtlo, op_mult, op_multu, op_nor, op_or, op_ori, op_sb, op_sh, op_sll, op_sllv, op_slt, op_slti,
  op_sltiu, op_sltu, op_sra, op_srav, op_srl, op_srlv, op_sub, op_subu, op_sw, op_swl, op_swr,
  op_xor, op_xori, op_syscall, op_unimp, op_res,
}
use non_os.Mips.Mult.{mult}
use non_os.Mips.Steps.{Step, completed, trapped, assign}
use non_os.Mips.Loads.{load_byte, load_half, load_word, load_part, merge_left, merge_right}
use non_os.Mips.Stores.{store, store_part, split_left, split_right}

-- `OP_ADD` of the register `rd`, and `OP_ADDI` of `rt`. The sign that the sum is compared with is the
-- first operand's in one and the immediate's in the other, `of`.
unfoldable pub exec_add : Machine → ℕ → ℕ → ℕ → ℕ → ℕ → Outcome Step
exec_add m pc target a b of =
    let sum = add32 a b in
    if not (has_sign (bit_xor a b)) && has_sign (bit_xor of sum)
    then done (trapped overflow_exception 0 m)
    else assign m pc target sum

-- `OP_SUB`
unfoldable pub exec_sub : Machine → ℕ → ℕ → ℕ → ℕ → Outcome Step
exec_sub m pc target a b =
    let diff = sub32 a b in
    if has_sign (bit_xor a b) && has_sign (bit_xor a diff)
    then done (trapped overflow_exception 0 m)
    else assign m pc target diff

-- `pcAfter = registers[NextPCReg] + IndexToAddr(instr->extra)` under a condition.
unfoldable pub exec_branch : Instruction → Machine → ℕ → Bool → Outcome Step
exec_branch i m pc taken =
    done (completed m (if taken then add32 (reg m next_pc_reg) (shl32 i.extra 2) else pc) 0 0)

-- `registers[target] = registers[NextPCReg] + 4`
abbrev pub link : Machine → ℕ → Machine
link m target = set_reg m target (add32 (reg m next_pc_reg) 4)

-- `OP_DIV`. The host's division traps on the one quotient that does not fit an `int`.
unfoldable pub exec_div : Machine → ℕ → ℕ → ℕ → Outcome Step
exec_div m pc a b =
    if b == 0
    then done (completed (set_reg (set_reg m lo_reg 0) hi_reg 0) pc 0 0)
    else if a == sign_bit && b == word - 1
    then aborted
    else done (completed (set_reg (set_reg m lo_reg (div32 a b)) hi_reg (mod32 a b)) pc 0 0)

-- `OP_DIVU`
unfoldable pub exec_divu : Machine → ℕ → ℕ → ℕ → Outcome Step
exec_divu m pc rs rt =
    if rt == 0
    then done (completed (set_reg (set_reg m lo_reg 0) hi_reg 0) pc 0 0)
    else done (completed (set_reg (set_reg m lo_reg (rs / rt)) hi_reg (rs % rt)) pc 0 0)

-- `OP_J`
unfoldable pub exec_jump : Instruction → Machine → ℕ → Outcome Step
exec_jump i m pc = done (completed m (bit_or (bit_and pc 0xf0000000) (shl32 i.extra 2)) 0 0)

-- `OP_JR`
unfoldable pub exec_jump_register : Instruction → Machine → Outcome Step
exec_jump_register i m = done (completed m (reg m i.rs) 0 0)

-- `OP_MULT` and `OP_MULTU`
unfoldable pub exec_mult : Instruction → Machine → ℕ → Bool → Outcome Step
exec_mult i m pc signed_arith =
    let r = mult (reg m i.rs) (reg m i.rt) signed_arith in
    done (completed (set_reg (set_reg m hi_reg r.hi) lo_reg r.lo) pc 0 0)

-- 1 or 0 in a register.
unfoldable pub exec_set : Machine → ℕ → ℕ → Bool → Outcome Step
exec_set m pc target test = assign m pc target (if test then 1 else 0)

unfoldable pub execute_op : OpCode → Instruction → Machine → ℕ → Outcome Step
execute_op op_add i m pc = exec_add m pc i.rd (reg m i.rs) (reg m i.rt) (reg m i.rs)
execute_op op_addi i m pc = exec_add m pc i.rt (reg m i.rs) i.extra i.extra
execute_op op_addiu i m pc = assign m pc i.rt (add32 (reg m i.rs) i.extra)
execute_op op_addu i m pc = assign m pc i.rd (add32 (reg m i.rs) (reg m i.rt))
execute_op op_and i m pc = assign m pc i.rd (bit_and (reg m i.rs) (reg m i.rt))
execute_op op_andi i m pc = assign m pc i.rt (bit_and (reg m i.rs) (bit_and i.extra 0xffff))
execute_op op_beq i m pc = exec_branch i m pc (reg m i.rs == reg m i.rt)
execute_op op_bgezal i m pc = exec_branch i (link m r31) pc (not (has_sign (reg (link m r31) i.rs)))
execute_op op_bgez i m pc = exec_branch i m pc (not (has_sign (reg m i.rs)))
execute_op op_bgtz i m pc = exec_branch i m pc (slt32 0 (reg m i.rs))
execute_op op_blez i m pc = exec_branch i m pc (not (slt32 0 (reg m i.rs)))
execute_op op_bltzal i m pc = exec_branch i (link m r31) pc (has_sign (reg (link m r31) i.rs))
execute_op op_bltz i m pc = exec_branch i m pc (has_sign (reg m i.rs))
execute_op op_bne i m pc = exec_branch i m pc (not (reg m i.rs == reg m i.rt))
execute_op op_div i m pc = exec_div m pc (reg m i.rs) (reg m i.rt)
execute_op op_divu i m pc = exec_divu m pc (reg m i.rs) (reg m i.rt)
execute_op op_jal i m pc = exec_jump i (link m r31) pc
execute_op op_j i m pc = exec_jump i m pc
execute_op op_jalr i m pc = exec_jump_register i (link m i.rd)
execute_op op_jr i m pc = exec_jump_register i m
execute_op op_lb i m pc = load_byte i m pc true
execute_op op_lbu i m pc = load_byte i m pc false
execute_op op_lh i m pc = load_half i m pc true
execute_op op_lhu i m pc = load_half i m pc false
execute_op op_lui i m pc = assign m pc i.rt (shl32 i.extra 16)
execute_op op_lw i m pc = load_word i m pc
execute_op op_lwl i m pc = load_part i m pc merge_left
execute_op op_lwr i m pc = load_part i m pc merge_right
execute_op op_mfhi i m pc = assign m pc i.rd (reg m hi_reg)
execute_op op_mflo i m pc = assign m pc i.rd (reg m lo_reg)
execute_op op_mthi i m pc = assign m pc hi_reg (reg m i.rs)
execute_op op_mtlo i m pc = assign m pc lo_reg (reg m i.rs)
execute_op op_mult i m pc = exec_mult i m pc true
execute_op op_multu i m pc = exec_mult i m pc false
execute_op op_nor i m pc = assign m pc i.rd (not32 (bit_or (reg m i.rs) (reg m i.rt)))
execute_op op_or i m pc = assign m pc i.rd (bit_or (reg m i.rs) (reg m i.rt))
execute_op op_ori i m pc = assign m pc i.rt (bit_or (reg m i.rs) (bit_and i.extra 0xffff))
execute_op op_sb i m pc = store i m pc 1
execute_op op_sh i m pc = store i m pc 2
execute_op op_sll i m pc = assign m pc i.rd (shl32 (reg m i.rt) i.extra)
execute_op op_sllv i m pc = assign m pc i.rd (shl32 (reg m i.rt) (bit_and (reg m i.rs) 0x1f))
execute_op op_slt i m pc = exec_set m pc i.rd (slt32 (reg m i.rs) (reg m i.rt))
execute_op op_slti i m pc = exec_set m pc i.rt (slt32 (reg m i.rs) i.extra)
execute_op op_sltiu i m pc = exec_set m pc i.rt (ltb (reg m i.rs) i.extra)
execute_op op_sltu i m pc = exec_set m pc i.rd (ltb (reg m i.rs) (reg m i.rt))
execute_op op_sra i m pc = assign m pc i.rd (sra32 (reg m i.rt) i.extra)
execute_op op_srav i m pc = assign m pc i.rd (sra32 (reg m i.rt) (bit_and (reg m i.rs) 0x1f))
execute_op op_srl i m pc = assign m pc i.rd (reg m i.rt / 2 ^ i.extra)
execute_op op_srlv i m pc = assign m pc i.rd (reg m i.rt / 2 ^ bit_and (reg m i.rs) 0x1f)
execute_op op_sub i m pc = exec_sub m pc i.rd (reg m i.rs) (reg m i.rt)
execute_op op_subu i m pc = assign m pc i.rd (sub32 (reg m i.rs) (reg m i.rt))
execute_op op_sw i m pc = store i m pc 4
execute_op op_swl i m pc = store_part i m pc split_left
execute_op op_swr i m pc = store_part i m pc split_right
execute_op op_syscall i m pc = done (trapped syscall_exception 0 m)
execute_op op_xor i m pc = assign m pc i.rd (bit_xor (reg m i.rs) (reg m i.rt))
execute_op op_xori i m pc = assign m pc i.rt (bit_xor (reg m i.rs) (bit_and i.extra 0xffff))
execute_op op_res i m pc = done (trapped illegal_instr_exception 0 m)
execute_op op_unimp i m pc = done (trapped illegal_instr_exception 0 m)
execute_op _ i m pc = aborted

unfoldable pub execute : Instruction → Machine → ℕ → Outcome Step
execute i m pc = execute_op i.op_code i m pc
