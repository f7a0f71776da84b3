-- ===== src/Syscall.antt =====
-- uspike/proxy_syscall.cc: an ecall of the simulated program. The host kernel is a parameter, `host`:
-- from a call's number, its six arguments and the memory it makes a result and the memory. `rv_to_host`
-- is generated; `none` in it is an entry without a name, and a negative number of the host is given by
-- its absolute value.
pub mod Counting
pub mod Clone
pub mod Places
pub mod Handshake
pub mod Wakes
use cavatools.Prelude.{
  ℕ, ◌+◌, ◌-◌, ◌*◌, ◌/◌, ◌%◌, ◌^◌, Bool, true, false, ◌||◌, Option, none, some, ltb, ◌==◌,
  if◌then◌else◌,
}
use cavatools.Prelude.Words.{long_mod, long_sign}
use cavatools.Prelude.Sums.{update}

-- What an ecall reads and writes of a hart, with the total count of all harts.
pub record Cpu (Memory : Type 0) : Type 0 where
  pub xpr : ℕ → ℕ
  pub pc : ℕ
  pub executed : ℕ
  pub total_insns : ℕ
  pub memory : Memory

-- A number of the host, or why there is none.
pub data HostCall : Type 0 where
  mapped : ℕ → HostCall
  unmapped : HostCall

-- How an ecall ends: with a return, an exit of the program, or an abort. `clones` has the flags of a
-- new thread: the caller goes on when that thread has released it.
pub data Ends (Memory : Type 0) : Type 0 where
  returns : Cpu Memory → Ends Memory
  exits clones : ℕ → Cpu Memory → Ends Memory
  aborts : Cpu Memory → Ends Memory

-- `write_reg`; the register 0 is not written.
unfoldable pub write_reg : {Memory : Type 0} → Cpu Memory → ℕ → ℕ → Cpu Memory
write_reg c n v = record c { xpr = if n == 0 then c.xpr else update c.xpr n v }

-- `incr_count` by one thread, with a pattern for the addend.
unfoldable pub incr_count : {Memory : Type 0} → Cpu Memory → ℕ → Cpu Memory
incr_count c n = record c {
  executed = (c.executed + n) % long_mod;
  total_insns = (c.total_insns + n) % long_mod;
}

-- `-n`
abbrev pub minus_long : ℕ → ℕ
minus_long n = (long_mod - n) % long_mod

module _ {Memory : Type 0} (host : ℕ → (ℕ → ℕ) → Memory → ℕ × Memory)
    (rv_to_host : ℕ → Option HostCall)
    (highest_ecall_num sys_exit sys_exit_group sys_clone : ℕ) where
  -- `a0 & ~CLONE_SETTLS`
  unfoldable pub clone_flags : ℕ → ℕ
  clone_flags a0 = a0 - a0 / 2 ^ 19 % 2 * 2 ^ 19

  -- `hart_t::proxy_syscall`, up to the call of `clone`; the arguments are registers 10 to 15.
  unfoldable pub proxy_syscall : Cpu Memory → ℕ → Ends Memory
  unfolding write_reg clone_flags
  proxy_syscall c sysnum =
      if (sysnum == sys_exit) || (sysnum == sys_exit_group)
      then exits (c.xpr 10) c
      else if sysnum == sys_clone
      then clones (clone_flags (c.xpr 10)) c
      else (let (retval, memory) = host sysnum (λ k. c.xpr (10 + k)) c.memory in
          returns (write_reg (record c { memory = memory }) 10 retval))

  -- The entry of the table for a number; `none` where the number is illegal.
  unfoldable pub lookup_ecall : ℕ → Option HostCall
  lookup_ecall rvnum =
      if ltb (long_sign - 1) rvnum || ltb highest_ecall_num rvnum then none else rv_to_host rvnum

  -- `incr_count(-insns)` behind a call that returns.
  unfoldable pub put_back : ℕ → Ends Memory → Ends Memory
  unfolding incr_count
  put_back insns (returns c) = returns (incr_count c (minus_long insns))
  put_back insns (exits code c) = exits code c
  put_back insns (clones flags c) = clones flags c
  put_back insns (aborts c) = aborts c

  unfoldable pub ecall_entry : Cpu Memory → ℕ → Option HostCall → Ends Memory
  unfolding proxy_syscall put_back
  ecall_entry c insns none = aborts c
  ecall_entry c insns (some unmapped) = aborts c
  ecall_entry c insns (some (mapped sysnum)) = put_back insns (proxy_syscall c sysnum)

  -- `hart_t::proxy_ecall`
  unfoldable pub proxy_ecall : Cpu Memory → ℕ → Ends Memory
  unfolding incr_count lookup_ecall ecall_entry
  proxy_ecall c insns =
      let counted = incr_count c insns in ecall_entry counted insns (lookup_ecall (counted.xpr 17))

  -- The end of both for the caller of `clone`, with its result.
  unfoldable pub after_clone : Cpu Memory → ℕ → ℕ → Ends Memory
  unfolding write_reg put_back
  after_clone c insns retval = put_back insns (returns (write_reg c 10 retval))
