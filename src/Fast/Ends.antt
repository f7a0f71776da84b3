-- ===== src/Fast/Ends.antt =====
-- What a case of uspike/RV.fast ends in, and the cases that go to the next instruction.
use cavatools.Prelude.{
  ℕ, ◌%◌, ◌^◌, ◌<◌, ◌≡◌, refl, ap, ◌∙◌, true, false, Option, some, if◌then◌else◌, arith,
}
use cavatools.Prelude.Words.{long_mod}
use cavatools.Prelude.Sums.{update}
use cavatools.Syscall.{Cpu}
use cavatools.Insn.{Insn, immed}
use cavatools.Insn.Space.{InsnSpace}
use cavatools.Interpreter.{Executed, goes}
use cavatools.Mmu.{AccessModel, Mmu, word, load_int, load_uint}
use cavatools.Mmu.Words.{IsAccessModel}
use cavatools.Fast.{Alu, alu}
use cavatools.Fast.Agree.{CountFits, zero_extends, alu-result}
use cavatools.Fast.Isa.{result}
use cavatools.Fast.Manual
use cavatools.Fast.Step.{
  Load, c_lw, c_ld, c_lwsp, c_ldsp, op_lb, op_lh, op_lw, op_ld, op_lbu, op_lhu, op_lwu, c_jr,
  c_jalr, Fast, alus, jumps, swaps, wrd, load, fast_case,
}
use cavatools.Fast.Operands.{IsBytes, word-lt, sign_extend-operand}

-- The cases that do what the manual says, where a count of a shift is below its width and a target in
-- a register is even.
abbrev pub Exact : Fast → Insn → (ℕ → ℕ) → Type 0
Exact (alus op) i xpr = (zero_extends op ≡ false) × CountFits op (immed i) (xpr i.rs2)
Exact (jumps c_jr) i xpr = xpr i.op_rs1 % 2 ≡ 0
Exact (jumps c_jalr) i xpr = xpr i.op_rs1 % 2 ≡ 0
Exact (swaps op) i xpr = ⊥
Exact op i xpr = Unit

pub set_reg_lem :
    (xpr : ℕ → ℕ) (rd v w n : ℕ)
    → xpr 0 ≡ 0
    → v ≡ w
    → update (update xpr rd v) 0 0 n ≡ Manual.set_reg xpr rd w n
set_reg_lem xpr rd v w n zero_reg e = ground arith

pub kept_reg : (xpr : ℕ → ℕ) (n : ℕ) → xpr 0 ≡ 0 → update xpr 0 0 n ≡ xpr n
kept_reg xpr n zero_reg = ground arith

module _ {Model : Type 0} where
  -- A hart whose registers are 64-bit patterns, with 0 in register 0.
  pub record IsHart (c : Cpu (Mmu Model)) : Type 0 where
    pub zero_reg : c.xpr 0 ≡ 0
    pub longs : (n : ℕ) → c.xpr n < 2 ^ 64
    pub bytes : IsBytes c.memory.memory

  abbrev pub state_at : ℕ → Cpu (Mmu Model) → Manual.State
  state_at pc c = record { pc = pc; xpr = c.xpr; memory = c.memory.memory }

  -- A model that accepts all that another accepts.
  abbrev pub Keeps : (Model → ℕ → Type 0) → Model → Model → Type 0
  Keeps Valid m m' = (q : ℕ) → Valid m q → Valid m' q

  -- The case ends in the state of the manual, behind `xpr[0] = 0`, and its model accepts what it accepted.
  abbrev pub EndsIn :
      (Model → ℕ → Type 0) → Model → Option (Executed (Mmu Model)) → Manual.State → Type 0
  EndsIn Valid m r s =
      (c : Cpu (Mmu Model)) × (r ≡ some (goes s.pc c))
      × ((n : ℕ) → update c.xpr 0 0 n ≡ s.xpr n)
      × ((a : ℕ) → c.memory.memory a ≡ s.memory a)
      × Keeps Valid m c.memory.model

module _ {Model : Type 0} (models : AccessModel Model) (jump : Model → ℕ → ℕ → Option (Model × ℕ))
    (code : InsnSpace) where
  -- The timing model accepts a jump to an address that it accepts, and gives that address.
  abbrev pub JumpsTo : (Model → ℕ → Type 0) → Type 0
  JumpsTo Valid =
      (m : Model) (npc pc : ℕ)
      → Valid m npc
      → (m' : Model) × (jump m npc pc ≡ some (m', npc)) × Keeps Valid m m'

  module _ (Valid : Model → ℕ → Type 0) (law : IsAccessModel models Valid)
      (turns : JumpsTo Valid) where
    pub alu-EndsIn :
        (op : Alu) (i : Insn) (pc : ℕ) (c : Cpu (Mmu Model))
        → IsHart c
        → immed i < 2 ^ 64
        → Exact (alus op) i c.xpr
        → EndsIn Valid c.memory.model
            (fast_case models jump code (alus op) i pc c)
            (Manual.step (alus op) i (state_at pc c))
    unfolding fast_case Manual.step
    alu-EndsIn op i pc c h small (sign, fits) =
        let value = result op (c.xpr i.op_rs1) (c.xpr i.rs2) (immed i) pc in
        let writes : alu op (c.xpr i.op_rs1) (c.xpr i.rs2) (immed i) pc ≡ some value =
          alu-result (c.xpr i.op_rs1) (c.xpr i.rs2) (immed i) pc (h.longs i.op_rs1) (h.longs i.rs2)
            small op fits
          ∙ ap (λ b. some (if b then value % 2 ^ 32 else value)) sign in
        (
          wrd models jump code i value c,
          rw writes refl,
          (λ n. set_reg_lem c.xpr i.op_rd value value n h.zero_reg refl),
          (λ a. refl),
          λ q v. v,
        )

    -- What the two kinds of loads give.
    signed_load :
        (n : ℕ) (m : Mmu Model) (a pc : ℕ)
        → a < long_mod
        → Valid m.model pc
        → IsBytes m.memory
        → (t : Model) × (load_int models n m a pc
            ≡ some (record m { model = t }, Manual.operand_value (n, true) (word n m.memory a)))
          × Keeps Valid m.model t
    unfolding load_int load_uint
    signed_load n m a pc small valid bytes =
        let (t, gives, kept) = law.loads m.model a pc small valid in
        (
          t,
          rw gives (
              ap (λ v. some (record m { model = t }, v))
                (sign_extend-operand n (word n m.memory a) (word-lt n m.memory a bytes))),
          kept,
        )

    unsigned_load :
        (n : ℕ) (m : Mmu Model) (a pc : ℕ)
        → a < long_mod
        → Valid m.model pc
        → (t : Model) × (load_uint models n m a pc
            ≡ some (record m { model = t }, word n m.memory a))
          × Keeps Valid m.model t
    unfolding load_uint
    unsigned_load n m a pc small valid =
        let (t, gives, kept) = law.loads m.model a pc small valid in (t, rw gives refl, kept)

    pub load_value :
        (op : Load) (m : Mmu Model) (a pc : ℕ)
        → a < long_mod
        → Valid m.model pc
        → IsBytes m.memory
        → let operand = Manual.load_operand op in
          (t : Model) × (load models jump code op m a pc
            ≡ some
                (record m { model = t }, Manual.operand_value operand (word operand.0 m.memory a)))
          × Keeps Valid m.model t
    unfolding load
    load_value c_lw m a pc small valid bytes = signed_load 4 m a pc small valid bytes
    load_value c_ld m a pc small valid bytes = signed_load 8 m a pc small valid bytes
    load_value c_lwsp m a pc small valid bytes = signed_load 4 m a pc small valid bytes
    load_value c_ldsp m a pc small valid bytes = signed_load 8 m a pc small valid bytes
    load_value op_lb m a pc small valid bytes = signed_load 1 m a pc small valid bytes
    load_value op_lh m a pc small valid bytes = signed_load 2 m a pc small valid bytes
    load_value op_lw m a pc small valid bytes = signed_load 4 m a pc small valid bytes
    load_value op_ld m a pc small valid bytes = signed_load 8 m a pc small valid bytes
    load_value op_lbu m a pc small valid bytes = unsigned_load 1 m a pc small valid
    load_value op_lhu m a pc small valid bytes = unsigned_load 2 m a pc small valid
    load_value op_lwu m a pc small valid bytes = unsigned_load 4 m a pc small valid
