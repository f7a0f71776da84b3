-- ===== src/Tests/Runs.antt =====
-- A loop of two instructions of uspike/RV.fast.
use cavatools.Prelude.{
  ℕ, ◌-◌, ◌/◌, ◌^◌, ◌<◌, ◌≡◌, refl, sym, subst, inl, inr, Bool-cases, ltb, leb, false, Option, none,
  some, ◌==◌, if◌then◌else◌, arith,
}
use cavatools.Prelude.Words.{shr_long, long_mod}
use cavatools.Perf.{create, index}
use cavatools.Simulator.{Mem, jump_model}
use cavatools.Simulator.Accounts.{IsParcel}
use cavatools.Syscall.{Cpu}
use cavatools.Insn.{Insn, immed}
use cavatools.Insn.Space.{InsnSpace, at}
use cavatools.Interpreter.{Executed, interpreter}
use cavatools.Mmu.{Mmu, plain, timed}
use cavatools.Fast.{op_addi}
use cavatools.Fast.Isa.{result}
use cavatools.Fast.Manual
use cavatools.Fast.States.{IsState}
use cavatools.Fast.Step.{Fast, alus, branches, op_bne, switch}
use cavatools.Fast.Ends.{state_at}
use cavatools.Fast.Runs.{Follows, finished, follows, IsInsnModel, interpreter-Follows}
use cavatools.Tests.Instructions.{Untimed, jump, jump-JumpsTo, hart}
use cavatools.Fast.Timed.{timed_insn, timed-Follows}
use cavatools.Tests.Timed.{one_core, new_core}
use cavatools.Tests.Words.{plain-IsAccessModel}

-- addi x3, x1, 8
abbrev add_eight : Insn
add_eight = record { op_code = 1; op_rd = 3; op_rs1 = 1; imm = 65; rs2 = 255; rs3 = 255 }

-- bne x3, x0, -4
abbrev back : Insn
back = record { op_code = 2; op_rd = 255; op_rs1 = 3; imm = 65505; rs2 = 0; rs3 = 255 }

abbrev code : InsnSpace
code = record {
  base = 4096;
  limit = 4104;
  entry = 4096;
  predecoded = λ j. if j == 2 then back else add_eight;
}

abbrev cases : ℕ → Option Fast
cases op = if op == 1 then some (alus op_addi) else if op == 2 then some (branches op_bne) else none

abbrev others : Insn → ℕ → ℕ → Cpu (Mmu Untimed) → Option (Executed (Mmu Untimed))
others i pc insns c = none

abbrev insn_model : ℕ → Mmu Untimed → Option (Mmu Untimed)
insn_model pc m = some m

insn_model-IsInsnModel : IsInsnModel plain jump code cases others insn_model (λ m pc. Unit)
insn_model-IsInsnModel m pc valid = (m.model, refl, λ q v. v)

add_eight_small : immed add_eight < 2 ^ 64
unfolding immed shr_long
add_eight_small = omega arith

back_small : immed back < 2 ^ 64
unfolding immed shr_long
back_small = omega arith

hart-IsState : IsState (state_at hart.pc hart)
hart-IsState = record {
  pc_small = omega arith;
  zero_reg = refl;
  longs = λ n. ground arith;
  bytes = λ a. omega arith;
}

abbrev once : Manual.State
once = Manual.step (alus op_addi) add_eight (state_at hart.pc hart)

abbrev twice : Manual.State
twice = Manual.step (branches op_bne) back once

-- It adds 8, and goes back.
twice_test : (twice.pc ≡ 4096) × (twice.xpr 3 ≡ 72)
unfolding Manual.step result immed shr_long
twice_test = (refl, refl)

hart-Follows : Follows code cases 2 (state_at hart.pc hart) twice
unfolding Manual.step result immed shr_long at
hart-Follows =
    follows {i = add_eight} {op = alus op_addi} refl refl (refl, tt) add_eight_small
      (follows {i = back} {op = branches op_bne} refl refl tt back_small
        (finished {i = add_eight} refl))

interpreter-Follows_example :
    (c' : Cpu (Mmu Untimed)) × (interpreter code insn_model
        (λ i. switch plain jump code others (cases i.op_code) i)
        2
        hart
      ≡ some (false, c'))
    × (state_at c'.pc c' ≡ twice)
interpreter-Follows_example =
    interpreter-Follows plain jump code cases others insn_model (λ m pc. Unit) plain-IsAccessModel
      jump-JumpsTo insn_model-IsInsnModel 1 hart twice hart-Follows hart-IsState (λ q i e. tt)

-- The same hart on a new core of caveat.
abbrev core : Cpu (Mmu Mem)
core = record {
  xpr = hart.xpr;
  pc = 4096;
  executed = 0;
  total_insns = 0;
  memory = record { memory = λ a. 200; model = new_core.0 };
}

abbrev no_others : Insn → ℕ → ℕ → Cpu (Mmu Mem) → Option (Executed (Mmu Mem))
no_others i pc insns c = none

parcels : (q : ℕ) (i : Insn) → at code q ≡ some i → (q < long_mod) × IsParcel (create 4096 4104 2) q
unfolding at index create
parcels q i e = elim (Bool-cases (leb 4096 q)) [
  | inl low ↦ elim (Bool-cases (ltb q 4104)) [
    | inl high ↦ (ground arith, ((q - 4096) / 2, ground arith))
    | inr out ↦ ground (arith, e)
  ]
  | inr out ↦ ground (arith, e)
]

timed-Follows_example :
    (c' : Cpu (Mmu Mem)) × (interpreter code timed_insn
        (λ i. switch timed (jump_model one_core.conf_jump) code no_others (cases i.op_code) i)
        2
        core
      ≡ some (false, c'))
    × (state_at c'.pc c' ≡ twice)
timed-Follows_example =
    timed-Follows one_core code cases no_others 1 0 0 core twice hart-Follows hart-IsState
      new_core.2
      (λ q i e. subst (λ h. (q < long_mod) × IsParcel h q) (sym new_core.1) (parcels q i e))
