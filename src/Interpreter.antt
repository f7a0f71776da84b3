-- ===== src/Interpreter.antt =====
-- uspike/interpreter.cc and main.cc: the loop over instructions, and the loops that call it. What an
-- instruction does is generated, so it is a parameter, `execute`: from a descriptor, its pc and the
-- count of instructions before it in this call. `none` is a fault, or an exit of the program; a
-- `how_many` below 1 counts as 1. `World` has the memory and the timing model.
pub mod Count
pub mod Raises
pub mod Ecall
pub mod Timed
pub mod Resume
use cavatools.Prelude.{
  ℕ, zero, suc, ◌+◌, ◌≡◌, Bool, true, false, Option, none, some, ◌>>=◌, ltb, if◌then◌else◌,
}
use cavatools.Prelude.Sums.{update}
use cavatools.Syscall.{Cpu, incr_count}
use cavatools.Insn.{Insn}
use cavatools.Insn.Space.{InsnSpace, at}

-- How an instruction ends: at its next pc, or in a `trap_breakpoint`.
pub data Executed (World : Type 0) : Type 0 where
  goes : ℕ → Cpu World → Executed World
  breaks : Cpu World → Executed World

module _ {World : Type 0} (code : InsnSpace) (insn_model : ℕ → World → Option World)
    (execute : Insn → ℕ → ℕ → Cpu World → Option (Executed World)) where
  -- An instruction: the model is called before its descriptor is read.
  unfoldable pub fetch : ℕ → ℕ → Cpu World → Option (Executed World)
  unfolding at
  fetch pc insns c = do
    w ← insn_model pc c.memory
    i ← at code pc
    execute i pc insns (record c { memory = w })

  -- `xpr[0] = 0`
  abbrev pub zero_x0 : Cpu World → Cpu World
  zero_x0 c = record c { xpr = update c.xpr 0 0 }

  -- `write_pc(pc)` and `incr_count(insns)`
  unfoldable pub leave : ℕ → ℕ → Cpu World → Cpu World
  unfolding incr_count
  leave pc insns c = incr_count (record c { pc = pc }) insns

  -- The loop of `interpreter`, with a bound on its rounds.
  unfoldable pub interpret : ℕ → ℕ → ℕ → ℕ → Cpu World → Option (Bool × Cpu World)
  unfolding fetch leave
  interpret zero how_many pc insns c = none
  interpret (suc fuel) how_many pc insns c = do
    r ← fetch pc insns c
    elim r [
      | breaks c' ↦ some (true, leave pc insns c')
      | goes npc c' ↦
          let rest = interpret fuel how_many npc (insns + 1) (zero_x0 c') in
          if ltb (insns + 1) how_many
          then rest
          else some (false, leave npc (insns + 1) (zero_x0 c'))
    ]

  -- `hart_t::interpreter`
  unfoldable pub interpreter : ℕ → Cpu World → Option (Bool × Cpu World)
  unfolding interpret
  interpreter how_many c = interpret (suc how_many) how_many c.pc 0 c

  -- The inner loop of `main` with gdb, from the end of `ProcessGdbCommand` on, with a bound on its
  -- rounds.
  unfoldable pub resume : ℕ → Cpu World → Option (Cpu World)
  unfolding interpreter
  resume zero c = none
  resume (suc fuel) c = do
    (stopped, c') ← interpreter 1 c
    let rest = resume fuel c'
    if stopped then rest else some c'
