-- ===== src/Interpreter/Timed.antt =====
-- The interpreter of uspike/interpreter.cc with the timing model of caveat/simulator.cc.
use cavatools.Prelude.{
  ℕ, suc, ◌+◌, ◌<◌, ◌≡◌, ◌⊎◌, refl, sym, ◌∙◌, subst, Bool, true, false, Option, none, some, ◌>>=◌,
  WhenSome, arith,
}
use cavatools.Prelude.Words.{long_mod}
use cavatools.Simulator.{Mem, insn_model}
use cavatools.Simulator.Accounts.{IsParcel, Setup, Accounts}
use cavatools.Simulator.Steps.{insn-Steps}
use cavatools.Syscall.{Cpu, incr_count}
use cavatools.Insn.{Insn}
use cavatools.Insn.Space.{InsnSpace, at}
use cavatools.Interpreter.{Executed, goes, breaks, fetch, leave, interpreter}
use cavatools.Interpreter.Count.{
  Runs, done, one, Ended, counted, stopped, faulted, interpreter-Ended,
}
use cavatools.Interpreter.Raises.{
  AreLongs, LeaveCounts, Counts, ending, counted-Counts, stopped-Counts,
}

-- `insn_model` of the mem_t that a core is, beside its memory.
unfoldable pub core_insn : {M : Type 0} → ℕ → Mem × M → Option (Mem × M)
unfolding insn_model
core_insn pc (m, memory) = do m' ← insn_model m pc; some (m', memory)

module _ {M : Type 0} (s : Setup) (code : InsnSpace)
    (execute : Insn → ℕ → ℕ → Cpu (Mem × M) → Option (Executed (Mem × M))) where
  abbrev Core : Type 0
  Core = Cpu (Mem × M)

  abbrev next : ℕ → ℕ → Core → Option (Executed (Mem × M))
  next = fetch code core_insn execute

  -- The accounts of a core balance with a number of instructions, and its counters are those of the
  -- text.
  abbrev pub Balanced : ℕ → Core → Type 0
  Balanced insns c =
      ((jumps : ℕ) × Accounts s c.memory.0 insns jumps)
      × ((pc : ℕ) (i : Insn) → at code pc ≡ some i → (pc < long_mod) × IsParcel c.memory.0.seg pc)

  abbrev pub BalancedAfter : ℕ → Executed (Mem × M) → Type 0
  BalancedAfter insns (goes npc c) = Balanced insns c
  BalancedAfter insns (breaks c) = Balanced insns c

  -- The instruction cases call the timing model only for jumps and data.
  abbrev pub CallsNoInsn : Type 0
  CallsNoInsn =
      (i : Insn) (pc n : ℕ) (c : Core) (insns : ℕ)
      → at code pc ≡ some i
      → Balanced insns c
      → WhenSome (BalancedAfter insns) (execute i pc n c)

  module _ (law : CallsNoInsn) where
    decoded-Balanced :
        (pc n insns : ℕ) (c : Core) (m : Mem) (r : Option Insn)
        → at code pc ≡ r
        → Balanced insns (record c { memory = (m, c.memory.1) })
        → WhenSome
            (BalancedAfter insns)
            (do i ← r; execute i pc n (record c { memory = (m, c.memory.1) }))
    decoded-Balanced pc n insns c m none e b = tt
    decoded-Balanced pc n insns c m (some i) e b =
        law i pc n (record c { memory = (m, c.memory.1) }) insns e b

    fetch-Balanced :
        (pc n insns : ℕ) (c : Core) (i : Insn)
        → at code pc ≡ some i
        → Balanced insns c
        → WhenSome (BalancedAfter (insns + 1)) (next pc n c)
    unfolding fetch core_insn
    fetch-Balanced pc n insns c i e ((jumps, acc), text) =
        let (small, parcel) = text pc i e in
        let (m, modelled, acc', same) = insn-Steps s c.memory.0 pc insns jumps small parcel acc in
        rw modelled (
          decoded-Balanced pc n (insns + 1) c m (at code pc) refl (
            (jumps, acc'),
            λ q j f. let (less, (k, there)) = text q j f in (less, (k, same q ∙ there)),
          ))

    no_insn :
        (w : Option (Mem × M)) (f : Mem × M → Option (Executed (Mem × M))) (k : ℕ)
        → ((v : Mem × M) → f v ≡ none)
        → WhenSome (BalancedAfter k) (do v ← w; f v)
    no_insn none f k h = tt
    no_insn (some v) f k h = subst (WhenSome (BalancedAfter k)) (sym (h v)) tt

    any_fetch-Balanced :
        (pc n insns : ℕ) (c : Core) (r : Option Insn)
        → at code pc ≡ r
        → Balanced insns c
        → WhenSome (BalancedAfter (insns + 1)) (next pc n c)
    unfolding fetch
    any_fetch-Balanced pc n insns c none e b =
        no_insn (core_insn pc c.memory)
          (λ v. do i ← at code pc; execute i pc n (record c { memory = v })) (insns + 1)
          (λ v. rw e refl)
    any_fetch-Balanced pc n insns c (some i) e b = fetch-Balanced pc n insns c i e b

    one-Balanced :
        (pc n insns : ℕ) (c : Core) (r : Executed (Mem × M))
        → next pc n c ≡ some r
        → Balanced insns c
        → BalancedAfter (insns + 1) r
    one-Balanced pc n insns c r e b =
        subst (WhenSome (BalancedAfter (insns + 1))) e
          (any_fetch-Balanced pc n insns c (at code pc) refl b)

    Runs-Balanced :
        {n m pc q : ℕ} {c d : Core} (insns : ℕ)
        → Balanced insns c
        → Runs code core_insn execute n pc c m q d
        → (k : ℕ) × (k + n ≡ insns + m) × Balanced k d
    Runs-Balanced insns b done = (insns, omega arith, b)
    Runs-Balanced {n} {m} {pc} {q} {c} {d} insns b (one {npc = npc} {c' = c'} e run) =
        let (k, sum, b') =
          Runs-Balanced (insns + 1) (one-Balanced pc n insns c (goes npc c') e b) run in
        (k, omega (arith, sum), b')

  -- What a call of `interpreter` leaves behind.
  abbrev pub BothCount : ℕ → ℕ → Core → Option (Bool × Core) → Type 0
  BothCount insns how_many c none = Unit
  BothCount insns how_many c (some (false, c')) =
      (m : ℕ) × ((m ≡ how_many) ⊎ ((how_many ≡ 0) × (m ≡ 1)))
      × Balanced (insns + m) c'
      × Counts code core_insn execute m c c'
  BothCount insns how_many c (some (true, c')) =
      (m : ℕ) × ((m < how_many) ⊎ (m ≡ 0))
      × Balanced (insns + m + 1) c'
      × Counts code core_insn execute m c c'

  module _ (law : CallsNoInsn) (leaves : LeaveCounts code core_insn execute) (insns how_many : ℕ)
      (c : Core) (longs : AreLongs (suc how_many) c) (balanced : Balanced insns c) where
    Ended-BothCount :
        (r : Option (Bool × Core))
        → Ended code core_insn execute how_many 0 c.pc c r
        → BothCount insns how_many c r
    unfolding leave incr_count
    Ended-BothCount r (counted {m = m} {q = q} {d = d} run more last) =
        let (k, sum, b) = Runs-Balanced law insns balanced run in
        let total : k ≡ insns + m = omega (arith, sum) in
        (
          m,
          ending how_many m last,
          subst (λ t. Balanced t d) total b,
          counted-Counts code core_insn execute leaves how_many c longs run last,
        )
    Ended-BothCount r (stopped {m = m} {q = q} {d = d} {d' = d'} run before breakpoint) =
        let (k, sum, b) = Runs-Balanced law insns balanced run in
        let total : k + 1 ≡ insns + m + 1 = omega (arith, sum) in
        (
          m,
          before,
          subst (λ t. Balanced t d') total (one-Balanced law q m k d (breaks d') breakpoint b),
          stopped-Counts code core_insn execute leaves how_many c longs run before breakpoint,
        )
    Ended-BothCount r (faulted run before fault) = tt

    -- If the instruction cases call the timing model only for jumps and data, and leave the counts of
    -- the hart to the loop, and the accounts of a core balance with some number of instructions:
    -- behind a call of `interpreter` that returns `false` they balance with as many more as the call
    -- has added to the count of the hart, which are `how_many`, or one where that is 0. Behind one that
    -- returns `true` they balance with one more than that, for the instruction with the breakpoint.
    pub interpreter-BothCount :
        BothCount insns how_many c (interpreter code core_insn execute how_many c)
    interpreter-BothCount =
        Ended-BothCount (interpreter code core_insn execute how_many c)
          (interpreter-Ended code core_insn execute how_many c)
