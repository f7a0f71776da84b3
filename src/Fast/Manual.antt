-- ===== src/Fast/Manual.antt =====
-- An instruction of the RISC-V manual on registers and memory: a reference for the cases of uspike/RV.fast.
use cavatools.Prelude.{ℕ, ◌+◌, ◌-◌, ◌*◌, ◌/◌, ◌%◌, ◌^◌, Bool, true, false, not, ◌==◌, if◌then◌else◌}
use cavatools.Prelude.Sums.{update}
use cavatools.Insn.{Insn, immed}
use cavatools.Mmu.{word, put_word}
use cavatools.Fast.Isa.{slt, sltu, result}
use cavatools.Fast.Step.{
  Load, c_lw, c_ld, c_lwsp, c_ldsp, op_lb, op_lh, op_lw, op_ld, op_lbu, op_lhu, op_lwu, Store, c_sw,
  c_sd, c_swsp, c_sdsp, op_sb, op_sh, op_sw, op_sd, Branch, c_beqz, c_bnez, op_beq, op_bne, op_blt,
  op_bge, op_bltu, op_bgeu, Jump, c_j, c_jr, c_jalr, op_jal, op_jalr, Fast, alus, loads, stores,
  branches, jumps, swaps, alu_length, load_length, store_length, branch_length,
}

pub record State : Type 0 where
  pub pc : ℕ
  pub xpr : ℕ → ℕ
  pub memory : ℕ → ℕ

abbrev pub add : ℕ → ℕ → ℕ
add a b = (a + b) % 2 ^ 64

-- The memory operand: its bytes, and whether it is signed.
abbrev pub load_operand : Load → ℕ × Bool
load_operand c_lw = (4, true)
load_operand c_ld = (8, true)
load_operand c_lwsp = (4, true)
load_operand c_ldsp = (8, true)
load_operand op_lb = (1, true)
load_operand op_lh = (2, true)
load_operand op_lw = (4, true)
load_operand op_ld = (8, true)
load_operand op_lbu = (1, false)
load_operand op_lhu = (2, false)
load_operand op_lwu = (4, false)

-- The low digits of a word, with the digit of its sign above them if it is signed.
abbrev pub operand_value : ℕ × Bool → ℕ → ℕ
operand_value (n, true) w = w + (2 ^ 64 - 2 ^ (8 * n)) * (2 * w / 2 ^ (8 * n))
operand_value (n, false) w = w

abbrev pub store_operand : Store → ℕ
store_operand op_sb = 1
store_operand op_sh = 2
store_operand op_sw = 4
store_operand c_sw = 4
store_operand c_swsp = 4
store_operand op_sd = 8
store_operand c_sd = 8
store_operand c_sdsp = 8

abbrev pub branches_if : Branch → ℕ → ℕ → Bool
branches_if c_beqz a b = a == 0
branches_if c_bnez a b = not (a == 0)
branches_if op_beq a b = a == b
branches_if op_bne a b = not (a == b)
branches_if op_blt a b = slt a b == 1
branches_if op_bge a b = slt a b == 0
branches_if op_bltu a b = sltu a b == 1
branches_if op_bgeu a b = sltu a b == 0

-- The register 0 stays 0.
abbrev pub set_reg : (ℕ → ℕ) → ℕ → ℕ → ℕ → ℕ
set_reg xpr rd v = if rd == 0 then xpr else update xpr rd v

abbrev pub even : ℕ → ℕ
even a = a - a % 2

unfoldable pub jump_step : Jump → Insn → State → State
unfolding immed
jump_step c_j i s = record s { pc = add s.pc (immed i) }
jump_step c_jr i s = record s { pc = even (s.xpr i.op_rs1) }
jump_step c_jalr i s = record s {
  pc = even (s.xpr i.op_rs1);
  xpr = set_reg s.xpr i.op_rd (add s.pc 2);
}
jump_step op_jal i s = record s {
  pc = add s.pc (immed i);
  xpr = set_reg s.xpr i.op_rd (add s.pc 4);
}
jump_step op_jalr i s = record s {
  pc = even (add (s.xpr i.op_rs1) (immed i));
  xpr = set_reg s.xpr i.op_rd (add s.pc 4);
}

unfoldable pub step : Fast → Insn → State → State
unfolding result jump_step word put_word immed
step (alus op) i s =
    let v = result op (s.xpr i.op_rs1) (s.xpr i.rs2) (immed i) s.pc in
    record s { pc = add s.pc (alu_length op); xpr = set_reg s.xpr i.op_rd v }
step (loads op) i s =
    let operand = load_operand op in
    let w = word operand.0 s.memory (add (s.xpr i.op_rs1) (immed i)) in
    record s {
      pc = add s.pc (load_length op);
      xpr = set_reg s.xpr i.op_rd (operand_value operand w);
    }
step (stores op) i s = record s {
  pc = add s.pc (store_length op);
  memory = put_word (store_operand op) s.memory (add (s.xpr i.op_rs1) (immed i)) (s.xpr i.rs2);
}
step (branches op) i s =
    if branches_if op (s.xpr i.op_rs1) (s.xpr i.rs2)
    then record s { pc = add s.pc (immed i) }
    else record s { pc = add s.pc (branch_length op) }
step (jumps op) i s = jump_step op i s
step (swaps op) i s = s
