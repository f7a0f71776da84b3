-- ===== src/Insn.antt =====
-- uspike/instructions.h and instructions.cc: instruction descriptors, and the predecoded text segment.
-- Integers are bit patterns of their width. The opcode numbers, `Last_Compressed_Opcode` and the body
-- of `decoder` are generated files: parameters here. `none` is a failed `checkif`, or an exit.
pub mod Space
pub mod Immediates
pub mod Predecoded
use cavatools.Prelude.{
  ℕ, ◌+◌, ◌-◌, ◌*◌, ◌/◌, ◌%◌, ◌^◌, Bool, true, false, ltb, leb, ◌==◌, if◌then◌else◌,
}
use cavatools.Prelude.Words.{long_mod, shr_long}

-- The eight bytes of a descriptor: of the union, the members of `op`.
pub record Insn : Type 0 where
  pub op_code : ℕ
  pub op_rd : ℕ
  pub op_rs1 : ℕ
  pub imm : ℕ
  pub rs2 : ℕ
  pub rs3 : ℕ

-- `NOREG` in a byte.
abbrev pub noreg : ℕ
noreg = 255

-- `Insn_t(code)`: every other bit is one.
unfoldable pub of_code : ℕ → Insn
of_code code = record {
  op_code = code;
  op_rd = noreg;
  op_rs1 = noreg;
  imm = 65535;
  rs2 = noreg;
  rs3 = noreg;
}

-- `Insn_t(code, rd, imm)`, with `imm<<3|0x1` in 16 bits.
unfoldable pub of_imm : ℕ → ℕ → ℕ → Insn
unfolding of_code
of_imm code rd imm = record (of_code code) { op_rd = rd; imm = imm * 8 % 2 ^ 16 + 1 }

-- The other member of the union, 32 bits.
unfoldable pub op_longimm : Insn → ℕ
op_longimm i = i.imm + 2 ^ 16 * i.rs2 + 2 ^ 24 * i.rs3

unfoldable pub set_longimm : Insn → ℕ → Insn
set_longimm i v = record i { imm = v % 2 ^ 16; rs2 = v / 2 ^ 16 % 256; rs3 = v / 2 ^ 24 % 256 }

-- A pattern of `w` bits as a long.
unfoldable pub extend : ℕ → ℕ → ℕ
extend w v = if ltb v (2 ^ (w - 1)) then v else v + (long_mod - 2 ^ w)

unfoldable pub immed : Insn → ℕ
unfolding extend op_longimm
immed i = if i.imm % 2 == 1 then shr_long (extend 16 i.imm) 3 else extend 32 (op_longimm i)

unfoldable pub longimmed : Insn → Bool
longimmed i = i.imm % 2 == 0

unfoldable pub reg1insn : ℕ → ℕ → ℕ → Insn
unfolding of_code
reg1insn code rd rs1 = record (of_code code) { op_rd = rd; op_rs1 = rs1 }

unfoldable pub reg2insn : ℕ → ℕ → ℕ → ℕ → Insn
unfolding of_code
reg2insn code rd rs1 rs2 = record (of_code code) { op_rd = rd; op_rs1 = rs1; rs2 = rs2 }

unfoldable pub reg3insn : ℕ → ℕ → ℕ → ℕ → ℕ → Insn
unfolding of_code
reg3insn code rd rs1 rs2 rs3 = record (of_code code) {
  op_rd = rd;
  op_rs1 = rs1;
  rs2 = rs2;
  rs3 = rs3;
}

unfoldable pub reg0imm : ℕ → ℕ → ℕ → Insn
unfolding of_code set_longimm
reg0imm code rd v = set_longimm (record (of_code code) { op_rd = rd }) v

unfoldable pub reg1imm : ℕ → ℕ → ℕ → ℕ → Insn
unfolding of_imm
reg1imm code rd rs1 imm = record (of_imm code rd imm) { op_rs1 = rs1 }

unfoldable pub reg2imm : ℕ → ℕ → ℕ → ℕ → ℕ → Insn
unfolding of_imm
reg2imm code rd rs1 rs2 imm = record (of_imm code rd imm) { op_rs1 = rs1; rs2 = rs2 }
