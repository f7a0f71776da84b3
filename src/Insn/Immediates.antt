-- ===== src/Insn/Immediates.antt =====
-- The two kinds of immediates of a descriptor.
use cavatools.Prelude.{
  ℕ, ◌+◌, ◌*◌, ◌/◌, ◌%◌, ◌^◌, ◌<◌, ◌≤◌, ◌≡◌, refl, true, false, arith, ◌⊎◌, inl, inr,
}
use cavatools.Prelude.Words.{shr_long}
use cavatools.Insn.{
  Insn, of_code, of_imm, op_longimm, set_longimm, extend, immed, longimmed, reg0imm, reg1imm,
  reg2imm,
}

-- The 16-bit patterns of the numbers from -4096 to 4095.
abbrev pub IsShort : ℕ → Type 0
IsShort v = (v < 4096) ⊎ ((61440 ≤ v) × (v < 65536))

immed_short :
    (i : Insn) (v : ℕ)
    → IsShort v
    → i.imm ≡ v * 8 % 2 ^ 16 + 1
    → (immed i ≡ extend 16 v) × (longimmed i ≡ false)
unfolding immed longimmed extend shr_long
immed_short i v (inl small) e = (ground (arith, e), ground (arith, e))
immed_short i v (inr (big, lt)) e = (ground (arith, e), ground (arith, e))

-- A short immediate is read back from the descriptor as it was put there, sign-extended, beside the
-- registers, which do not disturb it: for 13-bit numbers.
pub reg2imm-immed :
    (code rd rs1 rs2 v : ℕ)
    → IsShort v
    → (immed (reg2imm code rd rs1 rs2 v) ≡ extend 16 v)
      × (longimmed (reg2imm code rd rs1 rs2 v) ≡ false)
      × (immed (reg1imm code rd rs1 v) ≡ extend 16 v)
      × (longimmed (reg1imm code rd rs1 v) ≡ false)
unfolding reg2imm reg1imm of_imm
reg2imm-immed code rd rs1 rs2 v short =
    let (value2, kind2) = immed_short (reg2imm code rd rs1 rs2 v) v short refl in
    let (value1, kind1) = immed_short (reg1imm code rd rs1 v) v short refl in
    (value2, kind2, value1, kind1)

-- A long immediate of 32 bits whose lowest bit is zero is read back sign-extended.
pub reg0imm-immed :
    (code rd v : ℕ)
    → v < 2 ^ 32
    → v % 2 ≡ 0
    → (immed (reg0imm code rd v) ≡ extend 32 v) × (longimmed (reg0imm code rd v) ≡ true)
unfolding immed reg0imm longimmed set_longimm of_code op_longimm
reg0imm-immed code rd v lt even =
    let joined : v % 2 ^ 16 + 2 ^ 16 * (v / 2 ^ 16 % 256) + 2 ^ 24 * (v / 2 ^ 24 % 256) ≡ v =
      omega arith in
    let low : v % 2 ^ 16 % 2 ≡ 0 = omega arith in (rw (low, joined) refl, rw low refl)
