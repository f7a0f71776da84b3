-- ===== src/Interpreter/Resume.antt =====
-- The loop of `main` that runs the program for gdb.
use cavatools.Prelude.{ℕ, zero, suc, ◌≡◌, refl, Option, none, some}
use cavatools.Syscall.{Cpu}
use cavatools.Insn.{Insn}
use cavatools.Insn.Space.{InsnSpace}
use cavatools.Interpreter.{
  Executed, goes, breaks, fetch, zero_x0, leave, interpret, interpreter, resume,
}

module _ {World : Type 0} (code : InsnSpace) (insn_model : ℕ → World → Option World)
    (execute : Insn → ℕ → ℕ → Cpu World → Option (Executed World)) where
  -- States at a breakpoint, which stay at one.
  abbrev pub StayAtBreakpoint : (Cpu World → Type 0) → Type 0
  StayAtBreakpoint P =
      (c : Cpu World)
      → P c
      → (c' : Cpu World) × (fetch code insn_model execute c.pc 0 c ≡ some (breaks c'))
        × P (leave code insn_model execute c.pc 0 c')

  resume_one :
      (fuel npc : ℕ) (c c' : Cpu World)
      → fetch code insn_model execute c.pc 0 c ≡ some (goes npc c')
      → resume code insn_model execute (suc fuel) c
        ≡ some (leave code insn_model execute npc 1 (zero_x0 code insn_model execute c'))
  unfolding resume interpreter interpret
  resume_one fuel npc c c' e = rw e refl

  resume_never :
      (P : Cpu World → Type 0)
      → StayAtBreakpoint P
      → (fuel : ℕ) (c : Cpu World) → P c
      → resume code insn_model execute fuel c ≡ none
  unfolding resume interpreter interpret
  resume_never P stay zero c p = refl
  resume_never P stay (suc fuel) c p =
      let (c', e, p') = stay c p in
      rw e (resume_never P stay fuel (leave code insn_model execute c.pc 0 c') p')

  -- When gdb continues the program, the loop runs exactly one instruction if that one ends at a next
  -- pc, and then returns to gdb. If the program is at a breakpoint, which leaves the hart so that it
  -- is there again, the loop never ends: no number of rounds is enough.
  pub resume-single :
      ((fuel npc : ℕ) (c c' : Cpu World)
        → fetch code insn_model execute c.pc 0 c ≡ some (goes npc c')
        → resume code insn_model execute (suc fuel) c
          ≡ some (leave code insn_model execute npc 1 (zero_x0 code insn_model execute c')))
      × ((P : Cpu World → Type 0)
          → StayAtBreakpoint P
          → (fuel : ℕ) (c : Cpu World) → P c
          → resume code insn_model execute fuel c ≡ none)
  resume-single = (resume_one, resume_never)
