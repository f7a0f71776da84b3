-- ===== src/Simulator/Steps.antt =====
-- Every call of the timing model keeps the accounts in balance.
use cavatools.Prelude.{
  ℕ, ◌+◌, ◌*◌, ◌<◌, ◌≡◌, refl, sym, ◌∙◌, Bool, true, false, some, if◌then◌else◌, arith,
}
use native.Mathlib.Nat.{add-zero}
use cavatools.Prelude.Words.{long_mod}
use cavatools.Cache.{Cache, lookup}
use cavatools.Cache.Refines.{IsValid}
use cavatools.Cache.Correct.{lookup-Accessed}
use cavatools.Perf.{Segment, index, inc_count, inc_cycle}
use cavatools.Perf.Layout.{executed, cycles}
use cavatools.Perf.Counters.{counter_eq}
use cavatools.Perf.Sums.{Totals, Totals-cast, inc-Totals}
use cavatools.Simulator.Accounts.{IsParcel, Setup, Accounts, Steps}
use cavatools.Simulator.Charges.{dmiss-charged, imiss-charged}
use cavatools.Simulator.{Mem, insn_model, data_access}

no_charge : {p p' k' : ℕ} (k : ℕ) → p' ≡ p → k' ≡ k → p' * k' ≡ p * k
no_charge k e f = rw (e, f)

charge : {p p' k' : ℕ} (k : ℕ) → p' ≡ p → k' ≡ k + 1 → p' * k' ≡ p * k + p
charge k e f = rw (e, f) (omega arith)

module _ (s : Setup) where
  open s use {iways, ifsm, ilaw, dways, dfsm, dlaw, core, conf_jump}

  data_answer-Steps :
      (hit : Bool) (m : Mem) (a pc : ℕ) (write : Bool) (insns jumps : ℕ) (dc' : Cache) (place' : ℕ)
      → IsParcel m.seg pc
      → Accounts s m insns jumps
      → lookup m.dc m.place a write ≡ some (dc', place', hit)
      → IsValid dways dfsm dlaw dc'
      → dc'.writeable ≡ m.dc.writeable
      → dc'.penalty ≡ m.dc.penalty
      → dc'.misses ≡ m.dc.misses + (if hit then 0 else 1)
      → Steps s m (data_access m a pc write) insns jumps
  unfolding data_access
  data_answer-Steps true m a pc write insns jumps dc' place' parcel acc found valid w pen mis = (
    record m { dc = dc'; place = place' },
    rw found,
    record {
      icache = acc.icache;
      dcache = valid;
      dwrites = w ∙ acc.dwrites;
      totals = Totals-cast refl refl refl (omega arith) acc.totals;
      time = acc.time ∙ omega (arith, no_charge _ pen (mis ∙ add-zero m.dc.misses));
    },
    λ q. refl,
  )
  data_answer-Steps false m a pc write insns jumps dc' place' parcel acc found valid w pen mis =
      let m1 : Mem = record m { dc = dc'; place = place' } in
      let (h', e, t, same) =
        dmiss-charged s m1 pc insns jumps parcel m.ic.misses m.dc.misses acc.totals in
      (
        record m1 { seg = h'; local_time = m.local_time + dc'.penalty },
        rw (found, e),
        record {
          icache = acc.icache;
          dcache = valid;
          dwrites = w ∙ acc.dwrites;
          totals = Totals-cast refl refl refl (sym mis) t;
          time = omega (arith, acc.time, pen, charge _ pen mis);
        },
        same,
      )

  pub data_access-Steps :
      (m : Mem) (a pc : ℕ) (write : Bool) (insns jumps : ℕ)
      → a < long_mod
      → IsParcel m.seg pc
      → Accounts s m insns jumps
      → Steps s m (data_access m a pc write) insns jumps
  data_access-Steps m a pc write insns jumps range parcel acc =
      let (dc', found, d) =
        lookup-Accessed dways dfsm dlaw m.dc m.place a write acc.dcache range (λ w. acc.dwrites) in
      data_answer-Steps _ m a pc write insns jumps dc' _ parcel acc found d.valid d.shape.writeable
        d.shape.penalty d.counts.misses

  -- The end of `insn_model`: the instruction is counted, and takes one cycle.
  insn_end-Steps :
      (m : Mem) (pc insns : ℕ) (imissed dmissed : ℕ)
      → IsParcel m.seg pc
      → Totals m.seg core m.perf insns m.local_time imissed dmissed
      → (h1 h' : Segment) × (inc_count m.seg m.perf pc 1 ≡ some h1)
        × (inc_cycle h1 m.perf pc 1 ≡ some h')
        × Totals h' core m.perf (insns + 1) (m.local_time + 1) imissed dmissed
        × ((q : ℕ) → index h' q ≡ index m.seg q)
  unfolding counter_eq
  insn_end-Steps m pc insns imissed dmissed (i, at) t =
      let (h1, e1, t1, same1) =
        inc-Totals executed m.seg core m.perf pc i 1 insns m.local_time imissed dmissed at t in
      let (h2, e2, t2, same2) =
        inc-Totals cycles h1 core m.perf pc i 1 _ _ _ _ (same1 pc ∙ at) t1 in
      (
        h1,
        h2,
        e1,
        e2,
        Totals-cast (omega arith) (omega arith) (omega arith) (omega arith) t2,
        λ q. same2 q ∙ same1 q,
      )

  insn_answer-Steps :
      (hit : Bool) (m : Mem) (pc insns jumps : ℕ) (ic' : Cache) (place' : ℕ)
      → IsParcel m.seg pc
      → Accounts s m insns jumps
      → lookup m.ic m.place pc false ≡ some (ic', place', hit)
      → IsValid iways ifsm ilaw ic'
      → ic'.penalty ≡ m.ic.penalty
      → ic'.misses ≡ m.ic.misses + (if hit then 0 else 1)
      → Steps s m (insn_model m pc) (insns + 1) jumps
  unfolding insn_model
  insn_answer-Steps true m pc insns jumps ic' place' parcel acc found valid pen mis =
      let m1 : Mem = record m { ic = ic'; place = place' } in
      let (h1, h2, e1, e2, t, same) =
        insn_end-Steps m1 pc insns m.ic.misses m.dc.misses parcel acc.totals in
      (
        record m1 { seg = h2; local_time = m.local_time + 1 },
        rw (found, e1, e2),
        record {
          icache = valid;
          dcache = acc.dcache;
          dwrites = acc.dwrites;
          totals = Totals-cast refl refl (omega arith) refl t;
          time = omega (arith, acc.time, no_charge _ pen (mis ∙ add-zero m.ic.misses));
        },
        same,
      )
  insn_answer-Steps false m pc insns jumps ic' place' parcel acc found valid pen mis =
      let m1 : Mem = record m { ic = ic'; place = place' } in
      let (h', e, t, same) =
        imiss-charged s m1 pc insns jumps parcel m.ic.misses m.dc.misses acc.totals in
      let m2 : Mem = record m1 { seg = h'; local_time = m.local_time + ic'.penalty } in
      let (i, at) = parcel in
      let (h1, h2, e1, e2, t', same') =
        insn_end-Steps m2 pc insns (m.ic.misses + 1) m.dc.misses (i, same pc ∙ at) t in
      (
        record m2 { seg = h2; local_time = m.local_time + ic'.penalty + 1 },
        rw (found, e, e1, e2),
        record {
          icache = valid;
          dcache = acc.dcache;
          dwrites = acc.dwrites;
          totals = Totals-cast refl refl (sym mis) refl t';
          time = omega (arith, acc.time, pen, charge _ pen mis);
        },
        λ q. same' q ∙ same q,
      )

  pub insn-Steps :
      (m : Mem) (pc insns jumps : ℕ)
      → pc < long_mod
      → IsParcel m.seg pc
      → Accounts s m insns jumps
      → Steps s m (insn_model m pc) (insns + 1) jumps
  insn-Steps m pc insns jumps range parcel acc =
      let (ic', found, d) =
        lookup-Accessed iways ifsm ilaw m.ic m.place pc false acc.icache range (λ w. cc) in
      insn_answer-Steps _ m pc insns jumps ic' _ parcel acc found d.valid d.shape.penalty
        d.counts.misses
