-- ===== src/Mips/Cases.antt =====
-- Every case of the `switch` keeps the special registers.
use non_os.Base.{ℕ, ◌<◌, refl, arith, true, false, Ends}
use non_os.Machine.{Machine}
use non_os.Mips.Registers.{r31, hi_reg, lo_reg}
use non_os.Mips.Decode.{
  Instruction, OpCode, op_add, op_addi, op_addiu, op_addu, op_and, op_andi, op_beq, op_bgez,
  op_bgezal, op_bgtz, op_blez, op_bltz, op_bltzal, op_bne, op_div, op_divu, op_j, op_jal, op_jalr,
  op_jr, op_lb, op_lbu, op_lh, op_lhu, op_lui, op_lw, op_lwl, op_lwr, op_mfhi, op_mflo, op_mthi,
  op_mtlo, op_mult, op_multu, op_nor, op_or, op_ori, op_rfe, op_sb, op_sh, op_sll, op_sllv, op_slt,
  op_slti, op_sltiu, op_sltu, op_sra, op_srav, op_srl, op_srlv, op_sub, op_subu, op_sw, op_swl,
  op_swr, op_xor, op_xori, op_syscall, op_unimp, op_res, special, bcond,
}
use non_os.Mips.Loads.{merge_left, merge_right}
use non_os.Mips.Stores.{split_left, split_right}
use non_os.Mips.Exec.{execute_op, execute, link}
use non_os.Mips.Kept.{
  Kept, kept_trapped, SameAbove-self, assign-Kept, exec_add-Kept, exec_sub-Kept, exec_set-Kept,
  exec_branch-Kept, exec_jump-Kept, exec_jump_register-Kept, exec_div-Kept, exec_divu-Kept,
  exec_mult-Kept, load_byte-Kept, load_half-Kept, load_word-Kept, load_part-Kept, store-Kept,
  store_part-Kept, link-SameAbove,
}

-- The register numbers of an instruction are those of general registers.
pub record HasGeneral (i : Instruction) : Type 0 where
  pub rt : i.rt < 32
  pub rd : i.rd < 32

execute_op-Kept :
    (op : OpCode) (i : Instruction) (m : Machine) (pc : ℕ)
    → HasGeneral i
    → Ends (Kept m) (execute_op op i m pc)
unfolding execute_op
execute_op-Kept op_add i m pc f = exec_add-Kept m pc i.rd _ _ _ (omega (arith, f.rd))
execute_op-Kept op_addi i m pc f = exec_add-Kept m pc i.rt _ _ _ (omega (arith, f.rt))
execute_op-Kept op_addiu i m pc f = assign-Kept m pc i.rt _ (omega (arith, f.rt))
execute_op-Kept op_addu i m pc f = assign-Kept m pc i.rd _ (omega (arith, f.rd))
execute_op-Kept op_and i m pc f = assign-Kept m pc i.rd _ (omega (arith, f.rd))
execute_op-Kept op_andi i m pc f = assign-Kept m pc i.rt _ (omega (arith, f.rt))
execute_op-Kept op_beq i m pc f = exec_branch-Kept i m m pc _ (SameAbove-self m)
execute_op-Kept op_bgezal i m pc f =
    exec_branch-Kept i m (link m r31) pc _ (link-SameAbove m r31 (omega arith))
execute_op-Kept op_bgez i m pc f = exec_branch-Kept i m m pc _ (SameAbove-self m)
execute_op-Kept op_bgtz i m pc f = exec_branch-Kept i m m pc _ (SameAbove-self m)
execute_op-Kept op_blez i m pc f = exec_branch-Kept i m m pc _ (SameAbove-self m)
execute_op-Kept op_bltzal i m pc f =
    exec_branch-Kept i m (link m r31) pc _ (link-SameAbove m r31 (omega arith))
execute_op-Kept op_bltz i m pc f = exec_branch-Kept i m m pc _ (SameAbove-self m)
execute_op-Kept op_bne i m pc f = exec_branch-Kept i m m pc _ (SameAbove-self m)
execute_op-Kept op_div i m pc f = exec_div-Kept m pc _ _
execute_op-Kept op_divu i m pc f = exec_divu-Kept m pc _ _
execute_op-Kept op_jal i m pc f =
    exec_jump-Kept i m (link m r31) pc (link-SameAbove m r31 (omega arith))
execute_op-Kept op_j i m pc f = exec_jump-Kept i m m pc (SameAbove-self m)
execute_op-Kept op_jalr i m pc f =
    exec_jump_register-Kept i m (link m i.rd) (link-SameAbove m i.rd (omega (arith, f.rd)))
execute_op-Kept op_jr i m pc f = exec_jump_register-Kept i m m (SameAbove-self m)
execute_op-Kept op_lb i m pc f = load_byte-Kept i m pc f.rt true
execute_op-Kept op_lbu i m pc f = load_byte-Kept i m pc f.rt false
execute_op-Kept op_lh i m pc f = load_half-Kept i m pc f.rt true
execute_op-Kept op_lhu i m pc f = load_half-Kept i m pc f.rt false
execute_op-Kept op_lui i m pc f = assign-Kept m pc i.rt _ (omega (arith, f.rt))
execute_op-Kept op_lw i m pc f = load_word-Kept i m pc f.rt
execute_op-Kept op_lwl i m pc f = load_part-Kept i m pc f.rt merge_left
execute_op-Kept op_lwr i m pc f = load_part-Kept i m pc f.rt merge_right
execute_op-Kept op_mfhi i m pc f = assign-Kept m pc i.rd _ (omega (arith, f.rd))
execute_op-Kept op_mflo i m pc f = assign-Kept m pc i.rd _ (omega (arith, f.rd))
execute_op-Kept op_mthi i m pc f = assign-Kept m pc hi_reg _ (omega arith)
execute_op-Kept op_mtlo i m pc f = assign-Kept m pc lo_reg _ (omega arith)
execute_op-Kept op_mult i m pc f = exec_mult-Kept i m pc true
execute_op-Kept op_multu i m pc f = exec_mult-Kept i m pc false
execute_op-Kept op_nor i m pc f = assign-Kept m pc i.rd _ (omega (arith, f.rd))
execute_op-Kept op_or i m pc f = assign-Kept m pc i.rd _ (omega (arith, f.rd))
execute_op-Kept op_ori i m pc f = assign-Kept m pc i.rt _ (omega (arith, f.rt))
execute_op-Kept op_sb i m pc f = store-Kept i m pc 1
execute_op-Kept op_sh i m pc f = store-Kept i m pc 2
execute_op-Kept op_sll i m pc f = assign-Kept m pc i.rd _ (omega (arith, f.rd))
execute_op-Kept op_sllv i m pc f = assign-Kept m pc i.rd _ (omega (arith, f.rd))
execute_op-Kept op_slt i m pc f = exec_set-Kept m pc i.rd _ (omega (arith, f.rd))
execute_op-Kept op_slti i m pc f = exec_set-Kept m pc i.rt _ (omega (arith, f.rt))
execute_op-Kept op_sltiu i m pc f = exec_set-Kept m pc i.rt _ (omega (arith, f.rt))
execute_op-Kept op_sltu i m pc f = exec_set-Kept m pc i.rd _ (omega (arith, f.rd))
execute_op-Kept op_sra i m pc f = assign-Kept m pc i.rd _ (omega (arith, f.rd))
execute_op-Kept op_srav i m pc f = assign-Kept m pc i.rd _ (omega (arith, f.rd))
execute_op-Kept op_srl i m pc f = assign-Kept m pc i.rd _ (omega (arith, f.rd))
execute_op-Kept op_srlv i m pc f = assign-Kept m pc i.rd _ (omega (arith, f.rd))
execute_op-Kept op_sub i m pc f = exec_sub-Kept m pc i.rd _ _ (omega (arith, f.rd))
execute_op-Kept op_subu i m pc f = assign-Kept m pc i.rd _ (omega (arith, f.rd))
execute_op-Kept op_sw i m pc f = store-Kept i m pc 4
execute_op-Kept op_swl i m pc f = store_part-Kept i m pc split_left
execute_op-Kept op_swr i m pc f = store_part-Kept i m pc split_right
execute_op-Kept op_syscall i m pc f = kept_trapped refl
execute_op-Kept op_xor i m pc f = assign-Kept m pc i.rd _ (omega (arith, f.rd))
execute_op-Kept op_xori i m pc f = assign-Kept m pc i.rt _ (omega (arith, f.rt))
execute_op-Kept op_res i m pc f = kept_trapped refl
execute_op-Kept op_unimp i m pc f = kept_trapped refl
execute_op-Kept op_rfe i m pc f = tt
execute_op-Kept special i m pc f = tt
execute_op-Kept bcond i m pc f = tt

pub execute-Kept :
    (i : Instruction) (m : Machine) (pc : ℕ) → HasGeneral i → Ends (Kept m) (execute i m pc)
unfolding execute
execute-Kept i m pc f = execute_op-Kept i.op_code i m pc f
