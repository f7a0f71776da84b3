-- ===== src/Interpreter/Count.antt =====
-- A call of the interpreter against single instructions.
use cavatools.Prelude.{
  ℕ, zero, suc, ◌+◌, ◌≤◌, ◌⊎◌, ◌<◌, ◌≡◌, refl, Bool, true, false, Option, none, some, ltb, arith,
  inl, inr, Bool-cases,
}
use cavatools.Syscall.{Cpu}
use cavatools.Insn.{Insn}
use cavatools.Insn.Space.{InsnSpace}
use cavatools.Interpreter.{Executed, goes, breaks, fetch, zero_x0, leave, interpret, interpreter}

at_end :
    (how_many n m : ℕ)
    → n + 1 < how_many
    → (m ≡ how_many) ⊎ ((how_many ≤ n + 1) × (m ≡ n + 1 + 1))
    → (m ≡ how_many) ⊎ ((how_many ≤ n) × (m ≡ n + 1))
at_end how_many n m lt (inl e) = inl e
at_end how_many n m lt (inr (le, e)) = absurd (omega arith)

before_end : (how_many n m : ℕ) → n + 1 < how_many → (m < how_many) ⊎ (m ≡ n + 1) → m < how_many
before_end how_many n m lt (inl h) = h
before_end how_many n m lt (inr e) = omega arith

end_here :
    (how_many n : ℕ) → how_many ≤ n + 1 → (n + 1 ≡ how_many) ⊎ ((how_many ≤ n) × (n + 1 ≡ n + 1))
end_here how_many n le = elim (Bool-cases (ltb n how_many)) [
  | inl below ↦ inl (ground arith)
  | inr above ↦ inr (ground arith, refl)
]

module _ {World : Type 0} (code : InsnSpace) (insn_model : ℕ → World → Option World)
    (execute : Insn → ℕ → ℕ → Cpu World → Option (Executed World)) where
  abbrev next : ℕ → ℕ → Cpu World → Option (Executed World)
  next = fetch code insn_model execute

  -- Some instructions in a row, with the number of those before them in the call.
  pub data Runs : ℕ → ℕ → Cpu World → ℕ → ℕ → Cpu World → Type 0 where
    done : {n pc : ℕ} {c : Cpu World} → Runs n pc c n pc c
    one :
        {n pc npc m q : ℕ} {c c' d : Cpu World}
        → next pc n c ≡ some (goes npc c')
        → Runs (n + 1) npc (zero_x0 code insn_model execute c') m q d
        → Runs n pc c m q d

  -- How a call ends from an instruction on: the count is reached, a breakpoint stops it before, or an
  -- instruction faults.
  pub data Ended (how_many n pc : ℕ) (c : Cpu World) : Option (Bool × Cpu World) → Type 0 where
    counted :
        {m q : ℕ} {d : Cpu World}
        → Runs n pc c m q d
        → n < m
        → (m ≡ how_many) ⊎ ((how_many ≤ n) × (m ≡ n + 1))
        → Ended how_many n pc c (some (false, leave code insn_model execute q m d))
    stopped :
        {m q : ℕ} {d d' : Cpu World}
        → Runs n pc c m q d
        → (m < how_many) ⊎ (m ≡ n)
        → next q m d ≡ some (breaks d')
        → Ended how_many n pc c (some (true, leave code insn_model execute q m d'))
    faulted :
        {m q : ℕ} {d : Cpu World}
        → Runs n pc c m q d
        → (m < how_many) ⊎ (m ≡ n)
        → next q m d ≡ none
        → Ended how_many n pc c none

  Ended-one :
      (how_many n pc npc : ℕ) (c c' : Cpu World) (r : Option (Bool × Cpu World))
      → next pc n c ≡ some (goes npc c')
      → n + 1 < how_many
      → Ended how_many (n + 1) npc (zero_x0 code insn_model execute c') r
      → Ended how_many n pc c r
  Ended-one how_many n pc npc c c' r e lt (counted run more last) =
      counted (one e run) (omega arith) (at_end how_many n _ lt last)
  Ended-one how_many n pc npc c c' r e lt (stopped run before breakpoint) =
      stopped (one e run) (inl (before_end how_many n _ lt before)) breakpoint
  Ended-one how_many n pc npc c c' r e lt (faulted run before fault) =
      faulted (one e run) (inl (before_end how_many n _ lt before)) fault

  -- What is left to do behind an instruction that has been fetched.
  fetched-Ended :
      (fuel how_many n pc : ℕ) (c : Cpu World) (r : Option (Executed World))
      → ((npc : ℕ) (c' : Cpu World)
          → n + 1 < how_many
          → Ended how_many
              (n + 1)
              npc
              c'
              (interpret code insn_model execute fuel how_many npc (n + 1) c'))
      → next pc n c ≡ r
      → Ended how_many n pc c (interpret code insn_model execute (suc fuel) how_many pc n c)
  unfolding interpret
  fetched-Ended fuel how_many n pc c none rest e = rw e (faulted done (inr refl) e)
  fetched-Ended fuel how_many n pc c (some (breaks c')) rest e = rw e (stopped done (inr refl) e)
  fetched-Ended fuel how_many n pc c (some (goes npc c')) rest e =
      elim (Bool-cases (ltb (n + 1) how_many)) [
        | inl more ↦
            rw (e, more)
              (Ended-one how_many n pc npc c c' _ e (ground arith)
                (rest npc (zero_x0 code insn_model execute c') (ground arith)))
        | inr last ↦
            rw (e, last) (counted (one e done) (omega arith) (end_here how_many n (ground arith)))
      ]

  interpret-Ended :
      (fuel how_many n pc : ℕ) (c : Cpu World)
      → how_many < n + fuel
      → 0 < fuel
      → Ended how_many n pc c (interpret code insn_model execute fuel how_many pc n c)
  interpret-Ended zero how_many n pc c enough pos = absurd (omega arith)
  interpret-Ended (suc fuel) how_many n pc c enough pos =
      fetched-Ended fuel how_many n pc c (next pc n c)
        (λ npc c' more. interpret-Ended fuel how_many (n + 1) npc c' (omega arith) (omega arith))
        refl

  -- Whatever the instructions do, a call of `interpreter` ends: with `false` and the state behind
  -- `how_many` instructions in a row, or behind one where `how_many` is 0; with `true` and the state
  -- that the instruction with the breakpoint leaves, at its pc, if one comes before that; or without a
  -- result if an instruction faults before. The count that it adds is that of the instructions run.
  pub interpreter-Ended :
      (how_many : ℕ) (c : Cpu World)
      → Ended how_many 0 c.pc c (interpreter code insn_model execute how_many c)
  unfolding interpreter
  interpreter-Ended how_many c =
      interpret-Ended (suc how_many) how_many 0 c.pc c (omega arith) (omega arith)
