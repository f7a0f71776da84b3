-- ===== src/Fast/Isa.antt =====
-- The instructions of uspike/RV.fast as the RISC-V manual describes them: a reference for the cases.
use cavatools.Prelude.{
  ℕ, ◌+◌, ◌-◌, ◌*◌, ◌/◌, ◌%◌, ◌^◌, bit_and, bit_or, bit_xor, ltb, if◌then◌else◌,
}
use cavatools.Fast.{
  Alu, c_addi4spn, c_addi, c_addiw, c_li, c_addi16sp, c_lui, c_srli, c_srai, c_andi, c_subw, c_addw,
  c_slli, c_mv, c_add, op_lui, op_auipc, op_addi, op_addiw, op_slti, op_sltiu, op_xori, op_ori,
  op_andi, op_slli, op_srli, op_srai, op_slliw, op_srliw, op_sraiw, op_add, op_sub, op_sll, op_slt,
  op_sltu, op_xor, op_srl, op_sra, op_or, op_and, op_addw, op_subw, op_sllw, op_srlw, op_sraw,
}

-- The digit of the sign of a word, and the 32 low digits of a word with that digit repeated above them.
abbrev pub sign : ℕ → ℕ → ℕ
sign width w = w / 2 ^ (width - 1) % 2

unfoldable pub sext : ℕ → ℕ
sext w = w % 2 ^ 32 + (2 ^ 64 - 2 ^ 32) * sign 32 w

-- Signed numbers are in the order of their patterns with the sign digit inverted.
abbrev pub slt : ℕ → ℕ → ℕ
slt a b = if ltb ((a + 2 ^ 63) % 2 ^ 64) ((b + 2 ^ 63) % 2 ^ 64) then 1 else 0

abbrev pub sltu : ℕ → ℕ → ℕ
sltu a b = if ltb a b then 1 else 0

-- A right shift that fills with the digit of the sign.
unfoldable pub sra : ℕ → ℕ → ℕ → ℕ
sra width w k = w / 2 ^ k + (2 ^ width - 2 ^ (width - k)) * sign width w

abbrev pub sll : ℕ → ℕ → ℕ → ℕ
sll width w k = w * 2 ^ k % 2 ^ width

abbrev pub add : ℕ → ℕ → ℕ
add a b = (a + b) % 2 ^ 64

abbrev pub addw : ℕ → ℕ → ℕ
addw a b = sext (a + b)

abbrev pub subw : ℕ → ℕ → ℕ
subw a b = sext (a + (2 ^ 32 - b % 2 ^ 32))

-- The result in `rd`; a shift takes its count from the low digits of its operand.
unfoldable pub result : Alu → ℕ → ℕ → ℕ → ℕ → ℕ
unfolding sext sra
result c_addi4spn r1 r2 imm pc = add r1 imm
result c_addi r1 r2 imm pc = add r1 imm
result c_addiw r1 r2 imm pc = addw r1 imm
result c_li r1 r2 imm pc = imm
result c_addi16sp r1 r2 imm pc = add r1 imm
result c_lui r1 r2 imm pc = imm
result c_srli r1 r2 imm pc = r1 / 2 ^ (imm % 64)
result c_srai r1 r2 imm pc = sra 64 r1 (imm % 64)
result c_andi r1 r2 imm pc = bit_and r1 imm
result c_subw r1 r2 imm pc = subw r1 r2
result c_addw r1 r2 imm pc = addw r1 r2
result c_slli r1 r2 imm pc = sll 64 r1 (imm % 64)
result c_mv r1 r2 imm pc = r2
result c_add r1 r2 imm pc = add r1 r2
result op_lui r1 r2 imm pc = imm
result op_auipc r1 r2 imm pc = add pc imm
result op_addi r1 r2 imm pc = add r1 imm
result op_addiw r1 r2 imm pc = addw r1 imm
result op_slti r1 r2 imm pc = slt r1 imm
result op_sltiu r1 r2 imm pc = sltu r1 imm
result op_xori r1 r2 imm pc = bit_xor r1 imm
result op_ori r1 r2 imm pc = bit_or r1 imm
result op_andi r1 r2 imm pc = bit_and r1 imm
result op_slli r1 r2 imm pc = sll 64 r1 (imm % 64)
result op_srli r1 r2 imm pc = r1 / 2 ^ (imm % 64)
result op_srai r1 r2 imm pc = sra 64 r1 (imm % 64)
result op_slliw r1 r2 imm pc = sext (r1 * 2 ^ (imm % 32))
result op_srliw r1 r2 imm pc = sext (r1 % 2 ^ 32 / 2 ^ (imm % 32))
result op_sraiw r1 r2 imm pc = sext (sra 32 (r1 % 2 ^ 32) (imm % 32))
result op_add r1 r2 imm pc = add r1 r2
result op_sub r1 r2 imm pc = add r1 (2 ^ 64 - r2)
result op_sll r1 r2 imm pc = sll 64 r1 (r2 % 64)
result op_slt r1 r2 imm pc = slt r1 r2
result op_sltu r1 r2 imm pc = sltu r1 r2
result op_xor r1 r2 imm pc = bit_xor r1 r2
result op_srl r1 r2 imm pc = r1 / 2 ^ (r2 % 64)
result op_sra r1 r2 imm pc = sra 64 r1 (r2 % 64)
result op_or r1 r2 imm pc = bit_or r1 r2
result op_and r1 r2 imm pc = bit_and r1 r2
result op_addw r1 r2 imm pc = addw r1 r2
result op_subw r1 r2 imm pc = subw r1 r2
result op_sllw r1 r2 imm pc = sext (r1 * 2 ^ (r2 % 32))
result op_srlw r1 r2 imm pc = sext (r1 % 2 ^ 32 / 2 ^ (r2 % 32))
result op_sraw r1 r2 imm pc = sext (sra 32 (r1 % 2 ^ 32) (r2 % 32))
