-- ===== src/Tests/Programs.antt =====
-- A short program in the interpreter: an addition, an ecall, a breakpoint.
use cavatools.Prelude.{
  ℕ, suc, ◌+◌, ◌≡◌, refl, Bool, true, false, Option, none, some, ◌==◌, if◌then◌else◌, arith, ◌>>=◌,
  WhenSome, subst,
}
use cavatools.Syscall.{Cpu, write_reg}
use cavatools.Insn.{Insn}
use cavatools.Insn.Space.{InsnSpace, at}
use cavatools.Interpreter.{Executed, goes, breaks, fetch, leave, zero_x0, interpreter, resume}
use cavatools.Interpreter.Count.{Ended, interpreter-Ended}
use cavatools.Interpreter.Raises.{AreLongs, Leaves, LeaveCounts, CountsAdd, interpreter-CountsAdd}
use cavatools.Interpreter.Ecall.{ecall_insn, ecall_insn-Leaves}
use cavatools.Interpreter.Resume.{StayAtBreakpoint, resume-single}
use cavatools.Tests.Descriptors.{decoder}
use cavatools.Tests.Syscalls.{caller, host, table}

-- At 4096 an instruction with the code 1, behind it one with 2, then 3.
abbrev program : InsnSpace
program = record { base = 4096; limit = 4108; entry = 4096; predecoded = λ j. decoder (1 + j) 0 }

abbrev no_model : ℕ → ℕ → Option ℕ
no_model pc w = some w

abbrev ecall : ℕ → ℕ → Cpu ℕ → Option (Executed ℕ)
ecall = ecall_insn host table 500 93 94 56 (λ flags c. 77)

-- Code 1 adds one to register 5, code 3 calls the host, and code 5 is the breakpoint.
abbrev execute : Insn → ℕ → ℕ → Cpu ℕ → Option (Executed ℕ)
execute i pc n c =
    if i.op_code == 3
    then ecall pc n c
    else if i.op_code == 5
    then some (breaks c)
    else some (goes (pc + 4) (write_reg c 5 (c.xpr 5 + 1)))

interpreter-Ended_example :
    Ended program no_model execute 2 0 4096 caller (interpreter program no_model execute 2 caller)
interpreter-Ended_example = interpreter-Ended program no_model execute 2 caller

WhenSome-if :
    (P : Executed ℕ → Type 0) (b : Bool) (x y : Option (Executed ℕ))
    → WhenSome P x
    → WhenSome P y
    → WhenSome P (if b then x else y)
WhenSome-if P true x y h k = h
WhenSome-if P false x y h k = k

WhenSome-of :
    {P : Executed ℕ → Type 0} (x : Option (Executed ℕ))
    → ((r : Executed ℕ) → x ≡ some r → P r)
    → WhenSome P x
WhenSome-of none h = tt
WhenSome-of (some r) h = h r refl

execute-Leaves :
    (i : Insn) (pc n : ℕ) (c : Cpu ℕ) → AreLongs n c → WhenSome (Leaves c) (execute i pc n c)
unfolding write_reg
execute-Leaves i pc n c longs =
    WhenSome-if (Leaves c) (i.op_code == 3) _ _
      (WhenSome-of (ecall pc n c)
        (λ r. ecall_insn-Leaves host table 500 93 94 56 (λ flags c. 77) pc n c r longs))
      (WhenSome-if (Leaves c) (i.op_code == 5) _ _ (refl, refl) (refl, refl))

program-LeaveCounts : LeaveCounts program no_model execute
unfolding fetch
program-LeaveCounts pc n c r longs e = fetched (at program pc) r e
  where
    fetched :
        (i : Option Insn) (r : Executed ℕ) → (do j ← i; execute j pc n c) ≡ some r → Leaves c r
    fetched none r e = cc
    fetched (some i) r e = subst (WhenSome (Leaves c)) e (execute-Leaves i pc n c longs)

interpreter-CountsAdd_example :
    CountsAdd program no_model execute 2 caller (interpreter program no_model execute 2 caller)
interpreter-CountsAdd_example =
    interpreter-CountsAdd program no_model execute program-LeaveCounts 2 caller
      (omega arith, omega arith, omega arith)

abbrev behind_ecall : Executed ℕ
behind_ecall = goes 4100 (record (write_reg caller 10 21) { memory = 6 })

resume-single_example :
    ((fuel npc : ℕ) (c c' : Cpu ℕ)
      → fetch program no_model execute c.pc 0 c ≡ some (goes npc c')
      → resume program no_model execute (suc fuel) c
        ≡ some (leave program no_model execute npc 1 (zero_x0 program no_model execute c')))
    × ((P : Cpu ℕ → Type 0)
        → StayAtBreakpoint program no_model execute P
        → (fuel : ℕ) (c : Cpu ℕ) → P c
        → resume program no_model execute fuel c ≡ none)
resume-single_example = resume-single program no_model execute

one_insn : fetch program no_model execute 4096 0 caller ≡ some (goes 4100 (write_reg caller 5 6))
unfolding fetch
one_insn = refl
