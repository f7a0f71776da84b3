-- ===== src/Interpreter/Raises.antt =====
-- The counts of instructions over a call of the interpreter.
use cavatools.Prelude.{
  ℕ, suc, ◌+◌, ◌%◌, ◌≤◌, ◌⊎◌, ◌<◌, ◌≡◌, refl, ◌∙◌, Bool, true, false, Option, none, some, arith,
  inl, inr,
}
use cavatools.Prelude.Words.{long_mod}
use cavatools.Syscall.{Cpu, incr_count}
use cavatools.Insn.{Insn}
use cavatools.Insn.Space.{InsnSpace}
use cavatools.Interpreter.{Executed, goes, breaks, fetch, zero_x0, leave, interpreter}
use cavatools.Interpreter.Count.{
  Runs, done, one, Ended, counted, stopped, faulted, interpreter-Ended,
}

pub ending :
    (how_many m : ℕ)
    → (m ≡ how_many) ⊎ ((how_many ≤ 0) × (m ≡ 0 + 1))
    → (m ≡ how_many) ⊎ ((how_many ≡ 0) × (m ≡ 1))
ending how_many m (inl e) = inl e
ending how_many m (inr (le, e)) = inr (omega arith, omega (arith, e))

at_most : (how_many m : ℕ) → (m ≡ how_many) ⊎ ((how_many ≤ 0) × (m ≡ 0 + 1)) → m ≤ suc how_many
at_most how_many m (inl e) = omega arith
at_most how_many m (inr (le, e)) = omega arith

before_le : (how_many m : ℕ) → (m < how_many) ⊎ (m ≡ 0) → m ≤ suc how_many
before_le how_many m (inl lt) = omega arith
before_le how_many m (inr e) = omega arith

abbrev pub AreLongs : {World : Type 0} → ℕ → Cpu World → Type 0
AreLongs n c = (c.executed < long_mod) × (c.total_insns < long_mod) × (n < long_mod)

abbrev pub Leaves : {World : Type 0} → Cpu World → Executed World → Type 0
Leaves c (goes npc c') = (c'.executed ≡ c.executed) × (c'.total_insns ≡ c.total_insns)
Leaves c (breaks c') = (c'.executed ≡ c.executed) × (c'.total_insns ≡ c.total_insns)

module _ {World : Type 0} (code : InsnSpace) (insn_model : ℕ → World → Option World)
    (execute : Insn → ℕ → ℕ → Cpu World → Option (Executed World)) where
  abbrev pub AllRuns : ℕ → ℕ → Cpu World → ℕ → ℕ → Cpu World → Type 0
  AllRuns = Runs code insn_model execute

  abbrev pub next : ℕ → ℕ → Cpu World → Option (Executed World)
  next = fetch code insn_model execute

  -- How a step leaves the two counts.
  abbrev pub Counts : ℕ → Cpu World → Cpu World → Type 0
  Counts m c c' =
      (c'.executed ≡ (c.executed + m) % long_mod)
      × (c'.total_insns ≡ (c.total_insns + m) % long_mod)

  -- The instructions leave the counts to the loop.
  abbrev pub LeaveCounts : Type 0
  LeaveCounts =
      (pc n : ℕ) (c : Cpu World) (r : Executed World)
      → AreLongs n c
      → next pc n c ≡ some r
      → Leaves c r

  -- The counts behind a call, by its result.
  abbrev pub CountsAdd : ℕ → Cpu World → Option (Bool × Cpu World) → Type 0
  CountsAdd how_many c none = Unit
  CountsAdd how_many c (some (true, c')) = (m : ℕ) × ((m < how_many) ⊎ (m ≡ 0)) × Counts m c c'
  CountsAdd how_many c (some (false, c')) =
      (m : ℕ) × ((m ≡ how_many) ⊎ ((how_many ≡ 0) × (m ≡ 1))) × Counts m c c'

  Runs-le : {n m pc q : ℕ} {c d : Cpu World} → AllRuns n pc c m q d → n ≤ m
  Runs-le done = omega arith
  Runs-le (one e run) = omega (arith, Runs-le run)

  Leaves-goes :
      (c c' : Cpu World) (npc n bound : ℕ)
      → AreLongs bound c
      → Leaves c (goes npc c')
      → AreLongs bound (zero_x0 code insn_model execute c')
  Leaves-goes c c' npc n bound (executed, total, few) (same, same_total) =
      (omega (arith, same, executed), omega (arith, same_total, total), few)

  Runs-counts :
      {n m pc q : ℕ} {c d : Cpu World} (bound : ℕ)
      → LeaveCounts
      → AreLongs bound c
      → m ≤ bound
      → AllRuns n pc c m q d
      → (d.executed ≡ c.executed) × (d.total_insns ≡ c.total_insns)
  Runs-counts bound law longs le done = (refl, refl)
  Runs-counts {n} {m} {pc} {q} {c} {d} bound law longs le (one {npc = npc} {c' = c'} e run) =
      let (executed, total, few) = longs in
      let small : n < long_mod = omega (arith, Runs-le run, few) in
      let left = law pc n c (goes npc c') (executed, total, small) e in
      let (later, later_total) =
        Runs-counts bound law (Leaves-goes c c' npc n bound longs left) le run in
      (later ∙ left.0, later_total ∙ left.1)

  Counts-leave :
      (m q : ℕ) (c d : Cpu World)
      → d.executed ≡ c.executed
      → d.total_insns ≡ c.total_insns
      → Counts m c (leave code insn_model execute q m d)
  unfolding leave incr_count
  Counts-leave m q c d e f = (rw e refl, rw f refl)

  module _ (law : LeaveCounts) (how_many : ℕ) (c : Cpu World)
      (longs : AreLongs (suc how_many) c) where
    pub counted-Counts :
        {m q : ℕ} {d : Cpu World}
        → AllRuns 0 c.pc c m q d
        → (m ≡ how_many) ⊎ ((how_many ≤ 0) × (m ≡ 0 + 1))
        → Counts m c (leave code insn_model execute q m d)
    counted-Counts {m} {q} {d} run last =
        let (e, f) = Runs-counts (suc how_many) law longs (at_most how_many m last) run in
        Counts-leave m q c d e f

    pub stopped-Counts :
        {m q : ℕ} {d d' : Cpu World}
        → AllRuns 0 c.pc c m q d
        → (m < how_many) ⊎ (m ≡ 0)
        → next q m d ≡ some (breaks d')
        → Counts m c (leave code insn_model execute q m d')
    stopped-Counts {m} {q} {d} {d'} run before breakpoint =
        let few : m ≤ suc how_many = before_le how_many m before in
        let (e, f) = Runs-counts (suc how_many) law longs few run in
        let (executed, total, small) = longs in
        let left =
          law q m d (breaks d')
            (omega (arith, e, executed), omega (arith, f, total), omega (arith, few, small))
            breakpoint in
        Counts-leave m q c d' (left.0 ∙ e) (left.1 ∙ f)

    Ended-counts :
        (r : Option (Bool × Cpu World))
        → Ended code insn_model execute how_many 0 c.pc c r
        → CountsAdd how_many c r
    Ended-counts r (counted {m = m} run more last) =
        (m, ending how_many m last, counted-Counts run last)
    Ended-counts r (stopped {m = m} run before breakpoint) =
        (m, before, stopped-Counts run before breakpoint)
    Ended-counts r (faulted run before fault) = tt

    -- If the instructions leave the two counts to the loop, a call of `interpreter` that returns
    -- `false` has raised the count of the hart and the total, as 64-bit longs, by `how_many`, or by one
    -- where that is 0; one that returns `true` has raised both by the same smaller number.
    pub interpreter-CountsAdd :
        CountsAdd how_many c (interpreter code insn_model execute how_many c)
    interpreter-CountsAdd =
        Ended-counts (interpreter code insn_model execute how_many c)
          (interpreter-Ended code insn_model execute how_many c)
