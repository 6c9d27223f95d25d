-- ===== src/Mips/Decode.antt =====
-- `Instruction::Decode` of code/machine/mipssim.cc, with the tables of code/machine/mipssim.h.
use Prim.Native.Nat.{bit_and, bit_or}
use non_os.Base.{ℕ, ◌/◌, ◌^◌, not, List, [], ◌∷◌, ◌==◌, if◌then◌else◌, get_or}

-- The codes of the `switch`; `special` and `bcond` ask for further decoding.
pub data OpCode : Type 0 where
  op_add op_addi op_addiu op_addu op_and op_andi op_beq op_bgez op_bgezal : OpCode
  op_bgtz op_blez op_bltz op_bltzal op_bne op_div op_divu op_j op_jal op_jalr : OpCode
  op_jr op_lb op_lbu op_lh op_lhu op_lui op_lw op_lwl op_lwr op_mfhi op_mflo : OpCode
  op_mthi op_mtlo op_mult op_multu op_nor op_or op_ori op_rfe op_sb op_sh : OpCode
  op_sll op_sllv op_slt op_slti op_sltiu op_sltu op_sra op_srav op_srl op_srlv : OpCode
  op_sub op_subu op_sw op_swl op_swr op_xor op_xori op_syscall op_unimp op_res : OpCode
  special bcond : OpCode

pub data Format : Type 0 where
  i_format j_format r_format : Format

-- `opTable`
unfoldable pub op_table : List (OpCode × Format)
op_table =
    (special, r_format)
    ∷ (bcond, i_format)
    ∷ (op_j, j_format)
    ∷ (op_jal, j_format)
    ∷ (op_beq, i_format)
    ∷ (op_bne, i_format)
    ∷ (op_blez, i_format)
    ∷ (op_bgtz, i_format)
    ∷ (op_addi, i_format)
    ∷ (op_addiu, i_format)
    ∷ (op_slti, i_format)
    ∷ (op_sltiu, i_format)
    ∷ (op_andi, i_format)
    ∷ (op_ori, i_format)
    ∷ (op_xori, i_format)
    ∷ (op_lui, i_format)
    ∷ (op_unimp, i_format)
    ∷ (op_unimp, i_format)
    ∷ (op_unimp, i_format)
    ∷ (op_unimp, i_format)
    ∷ (op_res, i_format)
    ∷ (op_res, i_format)
    ∷ (op_res, i_format)
    ∷ (op_res, i_format)
    ∷ (op_res, i_format)
    ∷ (op_res, i_format)
    ∷ (op_res, i_format)
    ∷ (op_res, i_format)
    ∷ (op_res, i_format)
    ∷ (op_res, i_format)
    ∷ (op_res, i_format)
    ∷ (op_res, i_format)
    ∷ (op_lb, i_format)
    ∷ (op_lh, i_format)
    ∷ (op_lwl, i_format)
    ∷ (op_lw, i_format)
    ∷ (op_lbu, i_format)
    ∷ (op_lhu, i_format)
    ∷ (op_lwr, i_format)
    ∷ (op_res, i_format)
    ∷ (op_sb, i_format)
    ∷ (op_sh, i_format)
    ∷ (op_swl, i_format)
    ∷ (op_sw, i_format)
    ∷ (op_res, i_format)
    ∷ (op_res, i_format)
    ∷ (op_swr, i_format)
    ∷ (op_res, i_format)
    ∷ (op_unimp, i_format)
    ∷ (op_unimp, i_format)
    ∷ (op_unimp, i_format)
    ∷ (op_unimp, i_format)
    ∷ (op_res, i_format)
    ∷ (op_res, i_format)
    ∷ (op_res, i_format)
    ∷ (op_res, i_format)
    ∷ (op_unimp, i_format)
    ∷ (op_unimp, i_format)
    ∷ (op_unimp, i_format)
    ∷ (op_unimp, i_format)
    ∷ (op_res, i_format)
    ∷ (op_res, i_format)
    ∷ (op_res, i_format)
    ∷ (op_res, i_format)
    ∷ []

-- `specialTable`
unfoldable pub special_table : List OpCode
special_table =
    op_sll ∷ op_res ∷ op_srl ∷ op_sra ∷ op_sllv ∷ op_res ∷ op_srlv ∷ op_srav ∷ op_jr ∷ op_jalr
    ∷ op_res ∷ op_res ∷ op_syscall ∷ op_unimp ∷ op_res ∷ op_res ∷ op_mfhi ∷ op_mthi ∷ op_mflo
    ∷ op_mtlo ∷ op_res ∷ op_res ∷ op_res ∷ op_res ∷ op_mult ∷ op_multu ∷ op_div ∷ op_divu ∷ op_res
    ∷ op_res ∷ op_res ∷ op_res ∷ op_add ∷ op_addu ∷ op_sub ∷ op_subu ∷ op_and ∷ op_or ∷ op_xor
    ∷ op_nor ∷ op_res ∷ op_res ∷ op_slt ∷ op_sltu ∷ op_res ∷ op_res ∷ op_res ∷ op_res ∷ op_res
    ∷ op_res ∷ op_res ∷ op_res ∷ op_res ∷ op_res ∷ op_res ∷ op_res ∷ op_res ∷ op_res ∷ op_res
    ∷ op_res ∷ op_res ∷ op_res ∷ op_res ∷ op_res ∷ []

pub record Instruction : Type 0 where
  pub op_code : OpCode
  pub rs : ℕ
  pub rt : ℕ
  pub rd : ℕ
  pub extra : ℕ

-- The immediate, shift amount or target of each format.
unfoldable pub decode_extra : Format → ℕ → ℕ
decode_extra i_format value =
    if not (bit_and (bit_and value 0xffff) 0x8000 == 0)
    then bit_or (bit_and value 0xffff) 0xffff0000
    else bit_and value 0xffff
decode_extra r_format value = bit_and (value / 2 ^ 6) 0x1f
decode_extra j_format value = bit_and value 0x3ffffff

unfoldable pub decode_bcond : ℕ → OpCode
decode_bcond i =
    if i == 0
    then op_bltz
    else if i == 0x10000
    then op_bgez
    else if i == 0x100000
    then op_bltzal
    else if i == 0x110000
    then op_bgezal
    else op_unimp

unfoldable pub decode_op : OpCode → ℕ → OpCode
decode_op special value = get_or special_table (bit_and value 0x3f) op_res
decode_op bcond value = decode_bcond (bit_and value 0x1f0000)
decode_op op value = op

unfoldable pub decode : ℕ → Instruction
decode value = record {
  op_code = decode_op (get_or op_table (bit_and (value / 2 ^ 26) 0x3f) (op_res, i_format)).0 value;
  rs = bit_and (value / 2 ^ 21) 0x1f;
  rt = bit_and (value / 2 ^ 16) 0x1f;
  rd = bit_and (value / 2 ^ 11) 0x1f;
  extra = decode_extra (get_or op_table (bit_and (value / 2 ^ 26) 0x3f) (op_res, i_format)).1 value;
}
