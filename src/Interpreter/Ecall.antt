-- ===== src/Interpreter/Ecall.antt =====
-- The instruction `ecall` in the interpreter of uspike/interpreter.cc: its case, which make_headers
-- copies from uspike/RV.fast, calls `proxy_ecall`.
use cavatools.Prelude.{
  ℕ, ◌+◌, ◌%◌, ◌≡◌, sym, subst, ◌||◌, ◌==◌, if◌then◌else◌, Option, none, some, WhenSome,
}
use cavatools.Prelude.Words.{long_mod}
use cavatools.Prelude.Sums.{update}
use cavatools.Syscall.{
  Cpu, HostCall, mapped, unmapped, Ends, returns, exits, clones, aborts, proxy_ecall, after_clone,
  clone_flags,
}
use cavatools.Syscall.Counting.{EcallEnds, proxy_ecall-EcallEnds}
use cavatools.Interpreter.{Executed, goes, breaks}
use cavatools.Interpreter.Raises.{AreLongs, Leaves}

module _ {Memory : Type 0} (host : ℕ → (ℕ → ℕ) → Memory → ℕ × Memory)
    (rv_to_host : ℕ → Option HostCall) (highest_ecall_num sys_exit sys_exit_group sys_clone : ℕ)
    (clone : ℕ → Cpu Memory → ℕ) where
  abbrev returned : ℕ → Ends Memory → Option (Executed Memory)
  returned pc (returns c) = some (goes (pc + 4) c)
  returned pc e = none

  -- `write_pc(pc); proxy_ecall(insns); pc+=4`, where `clone` gives the result of a clone.
  unfoldable pub ecall_end : ℕ → ℕ → Ends Memory → Option (Executed Memory)
  unfolding after_clone
  ecall_end pc insns (clones flags c) = returned pc (
      after_clone host rv_to_host highest_ecall_num sys_exit sys_exit_group sys_clone c insns
        (clone flags c))
  ecall_end pc insns e = returned pc e

  unfoldable pub ecall_insn : ℕ → ℕ → Cpu Memory → Option (Executed Memory)
  unfolding ecall_end proxy_ecall
  ecall_insn pc insns c = ecall_end pc insns (
      proxy_ecall host rv_to_host highest_ecall_num sys_exit sys_exit_group sys_clone
        (record c { pc = pc }) insns)

  end-Leaves :
      (pc insns : ℕ) (c : Cpu Memory) (x : Ends Memory)
      → EcallEnds host rv_to_host highest_ecall_num sys_exit sys_exit_group sys_clone c insns x
      → WhenSome (Leaves c) (ecall_end pc insns x)
  unfolding ecall_end
  end-Leaves pc insns c (returns c') (executed, total, same_pc, registers, call) = (executed, total)
  end-Leaves pc insns c (exits code c') v = tt
  end-Leaves pc insns c (aborts c') v = tt
  end-Leaves pc insns c (clones flags c') (found, flag, after) =
      let (c'', e, executed, total, result) = after (clone flags c') in
      subst (λ x. WhenSome (Leaves c) (returned pc x)) (sym e) (executed, total)

  whole-Leaves :
      (pc insns : ℕ) (c : Cpu Memory) (r : Executed Memory)
      → AreLongs insns c
      → ecall_insn pc insns c ≡ some r
      → Leaves (record c { pc = pc }) r
  unfolding ecall_insn
  whole-Leaves pc insns c r (executed, total, few) e =
      subst (WhenSome (Leaves (record c { pc = pc }))) e (
        end-Leaves pc insns (record c { pc = pc }) _
          (proxy_ecall-EcallEnds host rv_to_host highest_ecall_num sys_exit sys_exit_group sys_clone
            (record c { pc = pc }) insns executed total few))

  -- The law of the interpreter's loop for this case, whatever the host does.
  pub ecall_insn-Leaves :
      (pc insns : ℕ) (c : Cpu Memory) (r : Executed Memory)
      → AreLongs insns c
      → ecall_insn pc insns c ≡ some r
      → Leaves c r
  ecall_insn-Leaves pc insns c (goes npc c') longs e = whole-Leaves pc insns c (goes npc c') longs e
  ecall_insn-Leaves pc insns c (breaks c') longs e = whole-Leaves pc insns c (breaks c') longs e

  abbrev pub flags : ℕ → ℕ
  flags = clone_flags host rv_to_host highest_ecall_num sys_exit sys_exit_group sys_clone

  -- What is in register 10 and in memory behind a call of the host.
  abbrev pub answered : ℕ → Cpu Memory → ℕ × Memory → Cpu Memory
  answered pc c (retval, memory) = record c {
    pc = pc;
    xpr = update c.xpr 10 retval;
    memory = memory;
  }

  -- The hart that a clone copies and that an exit leaves: all instructions are counted.
  abbrev pub counted : ℕ → ℕ → Cpu Memory → Cpu Memory
  counted pc insns c = record c {
    pc = pc;
    executed = (c.executed + insns) % long_mod;
    total_insns = (c.total_insns + insns) % long_mod;
  }

  -- The ecall as a program sees it, by the entry of the table; `none` where its thread does not go on.
  abbrev pub answer : ℕ → ℕ → Cpu Memory → Option HostCall → Option (Executed Memory)
  answer pc insns c none = none
  answer pc insns c (some unmapped) = none
  answer pc insns c (some (mapped sysnum)) =
      if (sysnum == sys_exit) || (sysnum == sys_exit_group)
      then none
      else some (
          goes (pc + 4) (
            answered pc c (
              if sysnum == sys_clone
              then (clone (flags (c.xpr 10)) (counted pc insns c), c.memory)
              else host sysnum (λ k. c.xpr (10 + k)) c.memory)))
