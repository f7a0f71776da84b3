-- ===== src/Fast/States.antt =====
-- The states of the reference in Fast/Manual: patterns of 64 digits, bytes, and 0 in register 0.
use cavatools.Prelude.{
  ℕ, zero, suc, ◌+◌, ◌/◌, ◌%◌, ◌^◌, ◌<◌, ◌≡◌, Bool, true, false, if◌then◌else◌, arith,
}
use cavatools.Prelude.Sums.{update}
use cavatools.Insn.{Insn, immed}
use cavatools.Mmu.{word, put_word}
use cavatools.Fast.Patterns.{result-lt}
use cavatools.Fast.Manual
use cavatools.Fast.Operands.{IsBytes, word-lt}
use cavatools.Fast.Step.{
  Load, c_lw, c_ld, c_lwsp, c_ldsp, op_lb, op_lh, op_lw, op_ld, op_lbu, op_lhu, op_lwu, Jump, c_j,
  c_jr, c_jalr, op_jal, op_jalr, Fast, alus, loads, stores, branches, jumps, swaps, branch_length,
}

pub record IsState (s : Manual.State) : Type 0 where
  pub pc_small : s.pc < 2 ^ 64
  pub zero_reg : s.xpr 0 ≡ 0
  pub longs : (n : ℕ) → s.xpr n < 2 ^ 64
  pub bytes : IsBytes s.memory

put_word-IsBytes :
    (n : ℕ) (memory : ℕ → ℕ) (a v : ℕ) → IsBytes memory → IsBytes (put_word n memory a v)
unfolding put_word
put_word-IsBytes zero memory a v bytes = bytes
put_word-IsBytes (suc n) memory a v bytes =
    put_word-IsBytes n (update memory a (v % 256)) (a + 1) (v / 256) (λ b. ground (arith, bytes b))

-- A word of a load with its sign.
load_operand-lt :
    (op : Load) (memory : ℕ → ℕ) (a : ℕ)
    → IsBytes memory
    → let operand = Manual.load_operand op in
      Manual.operand_value operand (word operand.0 memory a) < 2 ^ 64
load_operand-lt c_lw memory a bytes = omega (arith, word-lt 4 memory a bytes)
load_operand-lt c_ld memory a bytes = omega (arith, word-lt 8 memory a bytes)
load_operand-lt c_lwsp memory a bytes = omega (arith, word-lt 4 memory a bytes)
load_operand-lt c_ldsp memory a bytes = omega (arith, word-lt 8 memory a bytes)
load_operand-lt op_lb memory a bytes = omega (arith, word-lt 1 memory a bytes)
load_operand-lt op_lh memory a bytes = omega (arith, word-lt 2 memory a bytes)
load_operand-lt op_lw memory a bytes = omega (arith, word-lt 4 memory a bytes)
load_operand-lt op_ld memory a bytes = omega (arith, word-lt 8 memory a bytes)
load_operand-lt op_lbu memory a bytes = omega (arith, word-lt 1 memory a bytes)
load_operand-lt op_lhu memory a bytes = omega (arith, word-lt 2 memory a bytes)
load_operand-lt op_lwu memory a bytes = omega (arith, word-lt 4 memory a bytes)

-- A state that goes on, with a register written or not.
moved-IsState :
    (s : Manual.State) (pc : ℕ) → IsState s → pc < 2 ^ 64 → IsState (record s { pc = pc })
moved-IsState s pc h small = record {
  pc_small = small;
  zero_reg = h.zero_reg;
  longs = h.longs;
  bytes = h.bytes;
}

written-IsState :
    (s : Manual.State) (pc rd v : ℕ)
    → IsState s
    → pc < 2 ^ 64
    → v < 2 ^ 64
    → IsState (record s { pc = pc; xpr = Manual.set_reg s.xpr rd v })
written-IsState s pc rd v h small lt = record {
  pc_small = small;
  zero_reg = ground (arith, h.zero_reg);
  longs = λ n. ground (arith, h.longs n);
  bytes = h.bytes;
}

either-IsState :
    (test : Bool) (s : Manual.State) (there behind : ℕ)
    → IsState s
    → there < 2 ^ 64
    → behind < 2 ^ 64
    → IsState (if test then record s { pc = there } else record s { pc = behind })
either-IsState true s there behind h lt lb = moved-IsState s there h lt
either-IsState false s there behind h lt lb = moved-IsState s behind h lb

add-lt : (a b : ℕ) → Manual.add a b < 2 ^ 64
add-lt a b = omega arith

even-lt : (a : ℕ) → a < 2 ^ 64 → Manual.even a < 2 ^ 64
even-lt a h = omega (arith, h)

jump-IsState :
    (op : Jump) (i : Insn) (s : Manual.State) → IsState s → IsState (Manual.jump_step op i s)
unfolding Manual.jump_step
jump-IsState c_j i s h = moved-IsState s _ h (add-lt s.pc (immed i))
jump-IsState c_jr i s h = moved-IsState s _ h (even-lt (s.xpr i.op_rs1) (h.longs i.op_rs1))
jump-IsState c_jalr i s h =
    written-IsState s _ i.op_rd _ h (even-lt (s.xpr i.op_rs1) (h.longs i.op_rs1)) (add-lt s.pc 2)
jump-IsState op_jal i s h = written-IsState s _ i.op_rd _ h (add-lt s.pc (immed i)) (add-lt s.pc 4)
jump-IsState op_jalr i s h =
    written-IsState s _ i.op_rd _ h
      (even-lt (Manual.add (s.xpr i.op_rs1) (immed i)) (add-lt (s.xpr i.op_rs1) (immed i)))
      (add-lt s.pc 4)

pub step-IsState :
    (op : Fast) (i : Insn) (s : Manual.State)
    → immed i < 2 ^ 64
    → IsState s
    → IsState (Manual.step op i s)
unfolding Manual.step
step-IsState (alus op) i s small h = written-IsState s _ i.op_rd _ h (omega arith) (
    result-lt op (s.xpr i.op_rs1) (s.xpr i.rs2) (immed i) s.pc (h.longs i.op_rs1) (h.longs i.rs2)
      small)
step-IsState (loads op) i s small h =
    written-IsState s _ i.op_rd _ h (omega arith) (load_operand-lt op s.memory _ h.bytes)
step-IsState (stores op) i s small h = record {
  pc_small = omega arith;
  zero_reg = h.zero_reg;
  longs = h.longs;
  bytes = put_word-IsBytes (Manual.store_operand op) s.memory _ (s.xpr i.rs2) h.bytes;
}
step-IsState (branches op) i s small h =
    either-IsState (Manual.branches_if op (s.xpr i.op_rs1) (s.xpr i.rs2)) s _ _ h
      (add-lt s.pc (immed i)) (add-lt s.pc (branch_length op))
step-IsState (jumps op) i s small h = jump-IsState op i s h
step-IsState (swaps op) i s small h = h
