-- ===== src/Tests/Descriptors.antt =====
-- Descriptors and a predecoded text at concrete values.
use cavatools.Prelude.{if◌then◌else◌, ◌==◌, ℕ, ◌%◌, ◌<◌, ◌≡◌, false, some, inr, arith}
use cavatools.Insn.{Insn, extend, immed, longimmed, reg1imm, reg2imm}
use cavatools.Insn.Immediates.{reg2imm-immed}
use cavatools.Insn.Space.{InsnSpace, Opcodes, at, predecode}
use cavatools.Insn.Predecoded.{Walk, decoded, predecode-walked}

-- The immediate -2.
reg2imm-immed_example :
    (immed (reg2imm 70 5 6 7 65534) ≡ extend 16 65534)
    × (longimmed (reg2imm 70 5 6 7 65534) ≡ false)
    × (immed (reg1imm 70 5 6 65534) ≡ extend 16 65534)
    × (longimmed (reg1imm 70 5 6 65534) ≡ false)
reg2imm-immed_example = reg2imm-immed 70 5 6 7 65534 (inr (omega arith, omega arith))

abbrev pub ops : Opcodes
ops = record {
  last_compressed = 40;
  lr_w = 50;
  lr_d = 51;
  bne = 52;
  c_bnez = 20;
  sc_w = 53;
  sc_d = 54;
  cas12_w = 55;
  cas12_d = 56;
  cas10_w = 57;
  cas10_d = 58;
}

-- A decoder for the test: the low byte is the opcode number.
abbrev pub decoder : ℕ → ℕ → Insn
decoder b pc = record {
  op_code = b % 256;
  op_rd = 255;
  op_rs1 = 255;
  imm = 65535;
  rs2 = 255;
  rs3 = 255;
}

-- A compressed instruction at 4096, and long ones behind it.
abbrev pub image : ℕ → ℕ
image a = if a == 4096 then 20 else 52

abbrev empty : InsnSpace
empty = record { base = 4096; limit = 4106; entry = 4096; predecoded = λ j. decoder 0 0 }

predecode-walked_example :
    (s' : InsnSpace) × (predecode ops decoder image 5 4096 empty ≡ some s')
    × ((q : ℕ)
        → Walk ops decoder image 4106 4096 q
        → q < 4106
        → at s' q ≡ some (decoded ops decoder image q))
predecode-walked_example = predecode-walked ops decoder image 5 empty (omega arith)
