-- ===== src/Syscall/Counting.antt =====
-- The counts over an ecall of uspike/proxy_syscall.cc.
use cavatools.Prelude.{
  ℕ, ◌+◌, ◌%◌, ◌<◌, ◌≡◌, ◌≢◌, ◌⊎◌, refl, ap, ◌∙◌, Bool, true, false, ◌||◌, Option, none, some, ◌==◌,
  arith, inl, inr,
}
use cavatools.Prelude.Words.{long_mod}
use cavatools.Syscall.{
  Cpu, HostCall, mapped, unmapped, Ends, returns, exits, aborts, write_reg, incr_count, minus_long,
  proxy_syscall, lookup_ecall, put_back, ecall_entry, proxy_ecall, clone_flags, after_clone, clones,
}

module _ {Memory : Type 0} (host : ℕ → (ℕ → ℕ) → Memory → ℕ × Memory)
    (rv_to_host : ℕ → Option HostCall)
    (highest_ecall_num sys_exit sys_exit_group sys_clone : ℕ) where
  abbrev ecall : Cpu Memory → ℕ → Ends Memory
  ecall = proxy_ecall host rv_to_host highest_ecall_num sys_exit sys_exit_group sys_clone

  abbrev entry : ℕ → Option HostCall
  entry = lookup_ecall host rv_to_host highest_ecall_num sys_exit sys_exit_group sys_clone

  -- The ecall as seen from outside.
  abbrev pub EcallEnds : Cpu Memory → ℕ → Ends Memory → Type 0
  EcallEnds c insns (returns c') =
      (c'.executed ≡ c.executed)
      × (c'.total_insns ≡ c.total_insns)
      × (c'.pc ≡ c.pc)
      × ((n : ℕ) → n ≢ 10 → c'.xpr n ≡ c.xpr n)
      × ((sysnum : ℕ) × (entry (c.xpr 17) ≡ some (mapped sysnum))
          × (c'.xpr 10 ≡ (host sysnum (λ k. c.xpr (10 + k)) c.memory).0)
          × (c'.memory ≡ (host sysnum (λ k. c.xpr (10 + k)) c.memory).1))
  EcallEnds c insns (exits code c') =
      (code ≡ c.xpr 10)
      × (c'.executed ≡ (c.executed + insns) % long_mod)
      × (c'.total_insns ≡ (c.total_insns + insns) % long_mod)
  EcallEnds c insns (clones flags c') =
      (entry (c.xpr 17) ≡ some (mapped sys_clone))
      × (flags
          ≡ clone_flags host rv_to_host highest_ecall_num sys_exit sys_exit_group sys_clone
              (c.xpr 10))
      × ((retval : ℕ)
          → (c'' : Cpu Memory) × (after_clone host rv_to_host highest_ecall_num sys_exit
                sys_exit_group sys_clone c' insns retval
              ≡ returns c'')
            × (c''.executed ≡ c.executed)
            × (c''.total_insns ≡ c.total_insns)
            × (c''.xpr 10 ≡ retval))
  EcallEnds c insns (aborts c') = (entry (c.xpr 17) ≡ none) ⊎ (entry (c.xpr 17) ≡ some unmapped)

  back :
      (x n : ℕ) → x < long_mod → n < long_mod → ((x + n) % long_mod + minus_long n) % long_mod ≡ x
  back x n hx hn = omega arith

  module _ (c : Cpu Memory) (insns : ℕ) (executed : c.executed < long_mod)
      (total : c.total_insns < long_mod) (few : insns < long_mod) where
    resumed :
        (retval : ℕ)
        → (c' : Cpu Memory) × (after_clone host rv_to_host highest_ecall_num sys_exit sys_exit_group
              sys_clone
              (incr_count c insns)
              insns
              retval
            ≡ returns c')
          × (c'.executed ≡ c.executed)
          × (c'.total_insns ≡ c.total_insns)
          × (c'.xpr 10 ≡ retval)
    unfolding after_clone put_back incr_count write_reg
    resumed retval =
        (_, refl, back c.executed insns executed few, back c.total_insns insns total few, refl)

    called :
        (sysnum : ℕ) (exit_call clone_call : Bool)
        → entry (c.xpr 17) ≡ some (mapped sysnum)
        → (sysnum == sys_exit) || (sysnum == sys_exit_group) ≡ exit_call
        → (sysnum == sys_clone) ≡ clone_call
        → EcallEnds c insns (
            put_back host rv_to_host highest_ecall_num sys_exit sys_exit_group sys_clone insns (
              proxy_syscall host rv_to_host highest_ecall_num sys_exit sys_exit_group sys_clone
                (incr_count c insns)
                sysnum))
    unfolding put_back proxy_syscall incr_count write_reg
    called sysnum true b found e f = rw e (refl, refl, refl)
    called sysnum false true found e f =
        let same : sysnum ≡ sys_clone = ground (arith, f) in
        rw (e, f) (found ∙ ap (λ n. some (mapped n)) same, refl, resumed)
    called sysnum false false found e f =
        rw (e, f)
          (
            back c.executed insns executed few,
            back c.total_insns insns total few,
            refl,
            λ n other. ground (arith, other),
            (sysnum, found, refl, refl),
          )

    by_entry :
        (r : Option HostCall)
        → entry (c.xpr 17) ≡ r
        → EcallEnds c insns (
            ecall_entry host rv_to_host highest_ecall_num sys_exit sys_exit_group sys_clone
              (incr_count c insns)
              insns
              r)
    unfolding ecall_entry
    by_entry none e = inl e
    by_entry (some unmapped) e = inr e
    by_entry (some (mapped sysnum)) e = called sysnum _ _ e refl refl

    -- With counts and `insns` of 64 bits: an ecall that returns has called the host by the number that
    -- its own is mapped to, with registers 10 to 15; the result is in register 10, the memory is the
    -- host's, and every other register, the pc and both counts are as before. One that exits has
    -- register 10 as its code and leaves both counts raised by `insns`. One that clones is mapped to
    -- the clone call, and when its caller goes on, both counts are as before and register 10 is the
    -- result. One that aborts has a number that is illegal or not mapped.
    pub proxy_ecall-EcallEnds : EcallEnds c insns (ecall c insns)
    unfolding proxy_ecall incr_count
    proxy_ecall-EcallEnds = by_entry (entry (c.xpr 17)) refl
