-- ===== src/Simulator/Time.antt =====
-- The clock of a core, its counters and its caches' counts after any sequence of model calls.
use cavatools.Prelude.{ℕ, ◌+◌, ◌≡◌, refl, ◌∙◌, true, false, some, List, [], ◌∷◌, All}
use native.Mathlib.Nat.{add-zero, add_assoc}
use cavatools.Perf.{Segment, index}
use cavatools.Simulator.Accounts.{
  Event, insn, jump, load, store, amo, step, run, insns_of, jumps_of, InRange, Setup, Accounts,
  Steps,
}
use cavatools.Simulator.Charges.{jump-Steps}
use cavatools.Simulator.Steps.{data_access-Steps, insn-Steps}
use cavatools.Simulator.{Mem, load_model, store_model, amo_model}

abbrev pub sum : (Event → ℕ) → List Event → ℕ
sum f [] = 0
sum f (e ∷ es) = f e + sum f es

module _ (s : Setup) where
  open s use {iways, ifsm, ilaw, dways, dfsm, dlaw, core, conf_jump}

  step-Steps :
      (m : Mem) (e : Event) (insns jumps : ℕ)
      → InRange m.seg e
      → Accounts s m insns jumps
      → Steps s m (step conf_jump m e) (insns + insns_of e) (jumps + jumps_of e)
  unfolding step load_model store_model amo_model
  step-Steps m (insn pc) insns jumps (range, parcel) acc =
      rw add-zero (insn-Steps s m pc insns jumps range parcel acc)
  step-Steps m (jump npc pc) insns jumps parcel acc =
      rw add-zero (jump-Steps s m npc pc insns jumps parcel acc)
  step-Steps m (load a pc) insns jumps (range, parcel) acc =
      let (m', e, acc', same) = data_access-Steps s m a pc false insns jumps range parcel acc in
      (m', rw e, rw (add-zero, add-zero) acc', same)
  step-Steps m (store a pc) insns jumps (range, parcel) acc =
      let (m', e, acc', same) = data_access-Steps s m a pc true insns jumps range parcel acc in
      (m', rw e, rw (add-zero, add-zero) acc', same)
  step-Steps m (amo a pc) insns jumps (range, parcel) acc =
      let (m', e, acc', same) = data_access-Steps s m a pc true insns jumps range parcel acc in
      (m', e, rw (add-zero, add-zero) acc', same)

  InRange-same :
      (h h' : Segment) (e : Event)
      → ((pc : ℕ) → index h' pc ≡ index h pc)
      → InRange h e
      → InRange h' e
  InRange-same h h' (insn pc) same (range, (i, at)) = (range, (i, same pc ∙ at))
  InRange-same h h' (jump npc pc) same (i, at) = (i, same npc ∙ at)
  InRange-same h h' (load a pc) same (range, (i, at)) = (range, (i, same pc ∙ at))
  InRange-same h h' (store a pc) same (range, (i, at)) = (range, (i, same pc ∙ at))
  InRange-same h h' (amo a pc) same (range, (i, at)) = (range, (i, same pc ∙ at))

  All-same :
      (h h' : Segment) (es : List Event)
      → ((pc : ℕ) → index h' pc ≡ index h pc)
      → All (InRange h) es
      → All (InRange h') es
  All-same h h' [] same all = tt
  All-same h h' (e ∷ es) same (r, all) = (InRange-same h h' e same r, All-same h h' es same all)

  pub run-Accounts :
      (m : Mem) (es : List Event) (insns jumps : ℕ)
      → All (InRange m.seg) es
      → Accounts s m insns jumps
      → (m' : Mem) × (run conf_jump m es ≡ some m')
        × Accounts s m' (insns + sum insns_of es) (jumps + sum jumps_of es)
  unfolding run
  run-Accounts m [] insns jumps all acc = (m, refl, rw (add-zero, add-zero) acc)
  run-Accounts m (e ∷ es) insns jumps (r, all) acc =
      let (m1, stepped, acc1, same) = step-Steps m e insns jumps r acc in
      let (m', ran, acc') =
        run-Accounts m1 es (insns + insns_of e) (jumps + jumps_of e)
          (All-same m.seg m1.seg es same all) acc1 in
      (m', rw (stepped, ran), rw (← add_assoc, ← add_assoc) acc')
