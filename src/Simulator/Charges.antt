-- ===== src/Simulator/Charges.antt =====
-- What a taken branch and the charge of a miss do to the accounts.
use cavatools.Prelude.{ℕ, ◌+◌, ◌≡◌, refl, ◌∙◌, some, arith}
use cavatools.Perf.{Segment, index}
use cavatools.Perf.Layout.{cycles, imisses, dmisses}
use cavatools.Perf.Counters.{counter_eq}
use cavatools.Perf.Sums.{Totals, Totals-cast, inc-Totals}
use cavatools.Simulator.Accounts.{jump, step, IsParcel, Setup, Accounts, Steps}
use cavatools.Simulator.{Mem, charge_imiss, charge_dmiss, jump_model}

module _ (s : Setup) where
  open s use {iways, ifsm, ilaw, dways, dfsm, dlaw, core, conf_jump}

  pub jump-Steps :
      (m : Mem) (npc pc insns jumps : ℕ)
      → IsParcel m.seg npc
      → Accounts s m insns jumps
      → Steps s m (step conf_jump m (jump npc pc)) insns (jumps + 1)
  unfolding step jump_model counter_eq
  jump-Steps m npc pc insns jumps (i, at) a =
      let (h', e, t, same) =
        inc-Totals cycles m.seg core m.perf npc i conf_jump insns m.local_time m.ic.misses
          m.dc.misses at a.totals in
      (
        record m { seg = h'; local_time = m.local_time + conf_jump },
        rw e,
        record {
          icache = a.icache;
          dcache = a.dcache;
          dwrites = a.dwrites;
          totals = Totals-cast (omega arith) refl (omega arith) (omega arith) t;
          time = omega (arith, a.time);
        },
        same,
      )

  -- Both caches charge a miss in the same way: the miss, and its penalty in cycles.
  module _ (m : Mem) (pc insns jumps : ℕ) (parcel : IsParcel m.seg pc) where
    pub dmiss-charged :
        (imissed dmissed : ℕ)
        → Totals m.seg core m.perf insns m.local_time imissed dmissed
        → (h' : Segment) × (charge_dmiss m pc
            ≡ some (record m { seg = h'; local_time = m.local_time + m.dc.penalty }))
          × Totals h' core m.perf insns (m.local_time + m.dc.penalty) imissed (dmissed + 1)
          × ((q : ℕ) → index h' q ≡ index m.seg q)
    unfolding charge_dmiss counter_eq
    dmiss-charged imissed dmissed t =
        let (i, at) = parcel in
        let (h1, e1, t1, same1) =
          inc-Totals dmisses m.seg core m.perf pc i 1 insns m.local_time imissed dmissed at t in
        let (h2, e2, t2, same2) =
          inc-Totals cycles h1 core m.perf pc i m.dc.penalty _ _ _ _ (same1 pc ∙ at) t1 in
        (
          h2,
          rw (e1, e2),
          Totals-cast (omega arith) (omega arith) (omega arith) (omega arith) t2,
          λ q. same2 q ∙ same1 q,
        )

    pub imiss-charged :
        (imissed dmissed : ℕ)
        → Totals m.seg core m.perf insns m.local_time imissed dmissed
        → (h' : Segment) × (charge_imiss m pc
            ≡ some (record m { seg = h'; local_time = m.local_time + m.ic.penalty }))
          × Totals h' core m.perf insns (m.local_time + m.ic.penalty) (imissed + 1) dmissed
          × ((q : ℕ) → index h' q ≡ index m.seg q)
    unfolding charge_imiss counter_eq
    imiss-charged imissed dmissed t =
        let (i, at) = parcel in
        let (h1, e1, t1, same1) =
          inc-Totals imisses m.seg core m.perf pc i 1 insns m.local_time imissed dmissed at t in
        let (h2, e2, t2, same2) =
          inc-Totals cycles h1 core m.perf pc i m.ic.penalty _ _ _ _ (same1 pc ∙ at) t1 in
        (
          h2,
          rw (e1, e2),
          Totals-cast (omega arith) (omega arith) (omega arith) (omega arith) t2,
          λ q. same2 q ∙ same1 q,
        )
