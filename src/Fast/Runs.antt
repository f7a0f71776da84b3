-- ===== src/Fast/Runs.antt =====
-- The loop of uspike/interpreter.cc on the cases of uspike/RV.fast against the RISC-V manual.
use cavatools.Prelude.{
  ℕ, zero, suc, ◌+◌, ◌^◌, ◌≤◌, ◌<◌, ◌≡◌, refl, sym, ap, ap₂, subst, Bool, true, false, Option, some,
  ltb, arith,
}
use cavatools.Syscall.{Cpu, incr_count}
use cavatools.Insn.{Insn, immed}
use cavatools.Insn.Space.{InsnSpace, at}
use cavatools.Interpreter.{Executed, goes, fetch, zero_x0, leave, interpret, interpreter}
use cavatools.Mmu.{AccessModel, Mmu}
use cavatools.Mmu.Words.{IsAccessModel}
use cavatools.Fast.Manual
use cavatools.Fast.States.{IsState, step-IsState}
use cavatools.Fast.Step.{Fast, fast_case, switch}
use cavatools.Fast.Ends.{JumpsTo, Keeps, Exact, IsHart, state_at}
use cavatools.Fast.Executes.{fast_case-step}

-- A run of the manual's machine through a text, with the number of its instructions.
pub data Follows (code : InsnSpace) (cases : ℕ → Option Fast)
    : ℕ → Manual.State → Manual.State → Type 0 where
  finished : {s : Manual.State} {i : Insn} → at code s.pc ≡ some i → Follows code cases 0 s s
  follows :
      {n : ℕ} {s s' : Manual.State} {i : Insn} {op : Fast}
      → at code s.pc ≡ some i
      → cases i.op_code ≡ some op
      → Exact op i s.xpr
      → immed i < 2 ^ 64
      → Follows code cases n (Manual.step op i s) s'
      → Follows code cases (suc n) s s'

Follows-at :
    (code : InsnSpace) (cases : ℕ → Option Fast) (n : ℕ) (s s' : Manual.State)
    → Follows code cases n s s'
    → (i : Insn) × (at code s.pc ≡ some i)
Follows-at code cases n s s' (finished {i = i} there) = (i, there)
Follows-at code cases n s s' (follows {i = i} there coded exact small run) = (i, there)

Follows-zero :
    (code : InsnSpace) (cases : ℕ → Option Fast) (s s' : Manual.State)
    → Follows code cases 0 s s'
    → s ≡ s'
Follows-zero code cases s s' (finished there) = refl

module _ {Model : Type 0} (models : AccessModel Model) (jump : Model → ℕ → ℕ → Option (Model × ℕ))
    (code : InsnSpace) (cases : ℕ → Option Fast)
    (others : Insn → ℕ → ℕ → Cpu (Mmu Model) → Option (Executed (Mmu Model)))
    (insn_model : ℕ → Mmu Model → Option (Mmu Model)) where
  abbrev execute : Insn → ℕ → ℕ → Cpu (Mmu Model) → Option (Executed (Mmu Model))
  execute i = switch models jump code others (cases i.op_code) i

  -- The call for an instruction at an address that the model accepts leaves the memory as it is.
  abbrev pub IsInsnModel : (Model → ℕ → Type 0) → Type 0
  IsInsnModel Valid =
      (m : Mmu Model) (pc : ℕ)
      → Valid m.model pc
      → (m' : Model) × (insn_model pc m ≡ some (record m { model = m' })) × Keeps Valid m.model m'

  -- The model accepts the addresses of the text.
  abbrev pub AcceptsText : (Model → ℕ → Type 0) → Model → Type 0
  AcceptsText Valid m = (q : ℕ) (i : Insn) → at code q ≡ some i → Valid m q

  module _ (Valid : Model → ℕ → Type 0) (law : IsAccessModel models Valid)
      (turns : JumpsTo models jump code Valid) (steps : IsInsnModel Valid) where
    switch_lem :
        (i : Insn) (op : Fast) (pc insns : ℕ) (c : Cpu (Mmu Model))
        → cases i.op_code ≡ some op
        → execute i pc insns c ≡ fast_case models jump code op i pc c
    unfolding switch
    switch_lem i op pc insns c coded = ap (λ o. switch models jump code others o i pc insns c) coded

    fetch-step :
        (pc insns : ℕ) (c : Cpu (Mmu Model)) (i j : Insn) (op : Fast)
        → IsState (state_at pc c)
        → AcceptsText Valid c.memory.model
        → at code pc ≡ some i
        → cases i.op_code ≡ some op
        → Exact op i c.xpr
        → immed i < 2 ^ 64
        → let s = Manual.step op i (state_at pc c) in
          at code s.pc ≡ some j
          → (c' : Cpu (Mmu Model)) × (fetch code insn_model execute pc insns c
              ≡ some (goes s.pc c'))
            × (state_at s.pc (zero_x0 code insn_model execute c') ≡ s)
            × AcceptsText Valid c'.memory.model
    unfolding fetch
    fetch-step pc insns c i j op h text there coded exact small next =
        let (m, called, kept) = steps c.memory pc (text pc i there) in
        let c1 : Cpu (Mmu Model) = record c { memory = record c.memory { model = m } } in
        let s = Manual.step op i (state_at pc c) in
        let hart : IsHart c1 = record { zero_reg = h.zero_reg; longs = h.longs; bytes = h.bytes } in
        let (c', gives, regs, mem, still) =
          fast_case-step models jump code Valid law turns i pc c1 hart (kept pc (text pc i there))
            op exact small (kept s.pc (text s.pc j next)) in
        (
          c',
          rw (called, there, switch_lem i op pc insns c1 coded) gives,
          (λ k. record { pc = s.pc; xpr = λ n. regs n k; memory = λ a. mem a k }),
          λ q i' e. still q (kept q (text q i' e)),
        )

    interpret-Follows :
        (n fuel how_many insns pc : ℕ) (c : Cpu (Mmu Model)) (s : Manual.State)
        → Follows code cases (suc n) (state_at pc c) s
        → suc n ≤ fuel
        → insns + suc n ≡ how_many
        → IsState (state_at pc c)
        → AcceptsText Valid c.memory.model
        → (c' : Cpu (Mmu Model)) × (interpret code insn_model execute fuel how_many pc insns c
            ≡ some (false, leave code insn_model execute s.pc how_many c'))
          × (state_at s.pc c' ≡ s)
    unfolding interpret
    interpret-Follows n zero how_many insns pc c s run le total h text = absurd (omega arith)
    interpret-Follows zero (suc fuel) how_many insns pc c s
          (follows {i = i} {op = op} there coded exact small run) le total h text =
        let s1 = Manual.step op i (state_at pc c) in
        let (j, next) = Follows-at code cases 0 s1 s run in
        let end = Follows-zero code cases s1 s run in
        let (c1, fetched, same, text') =
          fetch-step pc insns c i j op h text there coded exact small next in
        let last : ltb (insns + 1) how_many ≡ false = ground arith in
        let now : insns + 1 ≡ how_many = omega arith in
        let c' = zero_x0 code insn_model execute c1 in
        let leaves : ℕ → ℕ → Option (Bool × Cpu (Mmu Model)) =
          λ q m. some (false, leave code insn_model execute q m c') in
        (
          c',
          rw (fetched, last) (ap₂ (λ t m. leaves t.pc m) end now),
          subst (λ t. state_at t.pc c' ≡ t) end same,
        )
    interpret-Follows (suc n) (suc fuel) how_many insns pc c s
          (follows {i = i} {op = op} there coded exact small run) le total h text =
        let s1 = Manual.step op i (state_at pc c) in
        let (j, next) = Follows-at code cases (suc n) s1 s run in
        let (c1, fetched, same, text') =
          fetch-step pc insns c i j op h text there coded exact small next in
        let more : ltb (insns + 1) how_many ≡ true = ground arith in
        let (c', goes_on, ends) =
          interpret-Follows n fuel how_many (insns + 1) s1.pc (zero_x0 code insn_model execute c1) s
            (subst (λ t. Follows code cases (suc n) t s) (sym same) run) (omega arith) (omega arith)
            (subst IsState (sym same) (step-IsState op i (state_at pc c) small h)) text' in
        (c', rw (fetched, more) goes_on, ends)

    -- A call of the interpreter for some number of instructions, at least one, that the manual's machine
    -- runs within the text from the state of the hart, each by a case that is neither a compare-and-swap
    -- nor one of the four that extend with zeros, with counts of shifts below the width and even targets of
    -- c.jr and c.jalr, ends without a breakpoint in the state that the manual's machine ends in, if
    -- registers are 64-bit patterns with 0 in register 0 and the timing models accept the text.
    pub interpreter-Follows :
        (n : ℕ) (c : Cpu (Mmu Model)) (s : Manual.State)
        → Follows code cases (suc n) (state_at c.pc c) s
        → IsState (state_at c.pc c)
        → AcceptsText Valid c.memory.model
        → (c' : Cpu (Mmu Model)) × (interpreter code insn_model execute (suc n) c
            ≡ some (false, c'))
          × (state_at c'.pc c' ≡ s)
    unfolding interpreter leave incr_count
    interpreter-Follows n c s run h text =
        let (c', ends, same) =
          interpret-Follows n (suc (suc n)) (suc n) 0 c.pc c s run (omega arith) (omega arith) h
            text in
        (leave code insn_model execute s.pc (suc n) c', ends, same)
