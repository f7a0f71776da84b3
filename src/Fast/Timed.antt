-- ===== src/Fast/Timed.antt =====
-- caveat: the interpreter with the cases of uspike/RV.fast on the timing model of caveat/simulator.cc.
use cavatools.Prelude.{ℕ, suc, ◌+◌, ◌<◌, ◌≡◌, refl, ap, ◌∙◌, false, Option, none, some, ◌>>=◌}
use cavatools.Prelude.Words.{long_mod}
use cavatools.Perf.{Segment, inc_cycle}
use cavatools.Simulator.{Mem, insn_model, jump_model}
use cavatools.Simulator.Accounts.{step, IsParcel, Setup, Accounts}
use cavatools.Simulator.Charges.{jump-Steps}
use cavatools.Simulator.Steps.{insn-Steps}
use cavatools.Syscall.{Cpu}
use cavatools.Insn.{Insn}
use cavatools.Insn.Space.{InsnSpace, at}
use cavatools.Interpreter.{Executed, interpreter}
use cavatools.Mmu.{Mmu, timed}
use cavatools.Mmu.Timed.{Accepts, timed-IsAccessModel}
use cavatools.Mmu.Words.{IsAccessModel}
use cavatools.Fast.Manual
use cavatools.Fast.States.{IsState}
use cavatools.Fast.Step.{Fast, switch}
use cavatools.Fast.Ends.{JumpsTo, state_at}
use cavatools.Fast.Runs.{Follows, IsInsnModel, interpreter-Follows}

-- `insn_model` of the mem_t that an mmu_t is.
unfoldable pub timed_insn : ℕ → Mmu Mem → Option (Mmu Mem)
unfolding insn_model
timed_insn pc m = do t ← insn_model m.model pc; some (record m { model = t })

abbrev with_place : ℕ → Option Mem → Option (Mem × ℕ)
with_place npc r = do m ← r; some (m, npc)

abbrev located : (Segment → Mem) → ℕ → Option Segment → Option (Mem × ℕ)
located finish npc r = do seg ← r; some (finish seg, npc)

-- What `jump_model` gives, from the core it leaves.
jumped :
    (r : Option Segment) (finish : Segment → Mem) (m' : Mem) (npc : ℕ)
    → (do (m, q) ← located finish npc r; some m) ≡ some m'
    → located finish npc r ≡ some (m', npc)
jumped none finish m' npc e = ap (with_place npc) e
jumped (some seg) finish m' npc e = ap (with_place npc) e

module _ (s : Setup) where
  -- A core whose accounts balance accepts the parcels of its text.
  abbrev pub AcceptsParcel : Mem → ℕ → Type 0
  AcceptsParcel m pc = (pc < long_mod) × Accepts s m pc

  timed-AcceptsParcel : IsAccessModel timed AcceptsParcel
  timed-AcceptsParcel =
      let law = timed-IsAccessModel s in
      record {
        loads = λ m a pc small (range, ok).
            let (t, e, kept) = law.loads m a pc small ok in (t, e, λ q (r, v). (r, kept q v));
        stores = λ m a pc small (range, ok).
            let (t, e, kept) = law.stores m a pc small ok in (t, e, λ q (r, v). (r, kept q v));
      }

  jump_model-JumpsTo :
      (code : InsnSpace) → JumpsTo timed (jump_model s.conf_jump) code AcceptsParcel
  unfolding step jump_model
  jump_model-JumpsTo code m npc pc (range, (parcel, (insns, jumps, acc))) =
      let (m', e, acc', same) = jump-Steps s m npc pc insns jumps parcel acc in
      (
        m',
        jumped (inc_cycle m.seg m.perf npc s.conf_jump)
            (λ seg. record m { seg = seg; local_time = m.local_time + s.conf_jump }) m' npc e,
        λ q (r, ((j, here), rest)). (r, ((j, same q ∙ here), (insns, jumps + 1, acc'))),
      )

  module _ (code : InsnSpace) (cases : ℕ → Option Fast)
      (others : Insn → ℕ → ℕ → Cpu (Mmu Mem) → Option (Executed (Mmu Mem))) where
    timed_insn-IsInsnModel :
        IsInsnModel timed (jump_model s.conf_jump) code cases others timed_insn AcceptsParcel
    unfolding timed_insn
    timed_insn-IsInsnModel m pc (range, (parcel, (insns, jumps, acc))) =
        let (t, e, acc', same) = insn-Steps s m.model pc insns jumps range parcel acc in
        (
          t,
          rw e refl,
          λ q (r, ((j, here), rest)). (r, ((j, same q ∙ here), (insns + 1, jumps, acc'))),
        )

    -- The timing model of caveat does not change what a program computes: on a core whose accounts balance
    -- and whose counters are those of the text, with registers of 64 bits and 0 in register 0, a call of
    -- the interpreter for some number of instructions, at least one, that the manual's machine runs within
    -- the text by the cases that Fast/Runs allows ends without a fault or a breakpoint in the state that the
    -- manual's machine ends in.
    pub timed-Follows :
        (n insns jumps : ℕ) (c : Cpu (Mmu Mem)) (end : Manual.State)
        → Follows code cases (suc n) (state_at c.pc c) end
        → IsState (state_at c.pc c)
        → Accounts s c.memory.model insns jumps
        → ((q : ℕ) (i : Insn) → at code q ≡ some i → (q < long_mod) × IsParcel c.memory.model.seg q)
        → (c' : Cpu (Mmu Mem)) × (interpreter code timed_insn
              (λ i. switch timed (jump_model s.conf_jump) code others (cases i.op_code) i)
              (suc n)
              c
            ≡ some (false, c'))
          × (state_at c'.pc c' ≡ end)
    timed-Follows n insns jumps c end run h acc text =
        interpreter-Follows timed (jump_model s.conf_jump) code cases others timed_insn
          AcceptsParcel timed-AcceptsParcel (jump_model-JumpsTo code) timed_insn-IsInsnModel n c end
          run h
          (λ q i e. let (range, parcel) = text q i e in (range, (parcel, (insns, jumps, acc))))
