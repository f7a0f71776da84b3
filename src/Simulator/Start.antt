-- ===== src/Simulator/Start.antt =====
-- A core from its construction on: the counters of its segment and its clock after any calls.
use cavatools.Prelude.{
  ℕ, ◌+◌, ◌*◌, ◌<◌, ◌≤◌, ◌≡◌, refl, sym, ◌∙◌, true, false, some, List, All, arith,
}
use cavatools.Cache.{LruFsm}
use cavatools.Cache.Recency.{IsLru}
use cavatools.Cache.Init.{init-Tracks}
use cavatools.Perf.{Segment, create, perf_new}
use cavatools.Perf.Layout.{executed, cycles, imisses, dmisses, counter_at-create}
use cavatools.Perf.Sums.{total, total-create}
use cavatools.Simulator.Accounts.{Event, InRange, Setup, Accounts, run, insns_of, jumps_of}
use cavatools.Simulator.Time.{sum, run-Accounts}
use cavatools.Simulator.{Mem, Conf, mem_new}

-- The ways, line sizes and numbers of rows that the caches and their tables support.
pub record IsConf (tables : ℕ → ℕ → LruFsm) (conf : Conf) : Type 0 where
  pub ilaw : IsLru conf.iways (tables conf.iways)
  pub dlaw : IsLru conf.dways (tables conf.dways)
  pub ifew : conf.iways ≤ 4
  pub dfew : conf.dways ≤ 4
  pub iline : 0 < conf.iline
  pub dline : 0 < conf.dline
  pub iline_small : conf.iline < 31
  pub dline_small : conf.dline < 31
  pub irows_small : conf.irows < 31
  pub drows_small : conf.drows < 31

abbrev pub setup : (tables : ℕ → ℕ → LruFsm) (conf : Conf) → IsConf tables conf → ℕ → Setup
setup tables conf ok n = record {
  iways = conf.iways;
  ifsm = tables conf.iways;
  ilaw = ok.ilaw;
  dways = conf.dways;
  dfsm = tables conf.dways;
  dlaw = ok.dlaw;
  core = n;
  conf_jump = conf.jump;
}

module _ (tables : ℕ → ℕ → LruFsm) (conf : Conf) (ok : IsConf tables conf)
    (base bound cores n : ℕ) where
  abbrev pub h : Segment
  h = create base bound cores

  pub mem_new-Accounts :
      (place : ℕ)
      → n < cores
      → (m : Mem) × (mem_new tables conf h place n ≡ some m)
        × (m.seg ≡ h)
        × Accounts (setup tables conf ok n) m 0 0
  unfolding mem_new
  mem_new-Accounts place lt =
      let (p, made, _) = counter_at-create base bound cores n lt in
      let (ic, imade, it, _, _, imiss, _) =
        init-Tracks tables conf.iways ok.ilaw conf.imiss conf.iline conf.irows false ok.ifew
          ok.iline ok.iline_small ok.irows_small in
      let (dc, dmade, dt, dwrites, _, dmiss, _) =
        init-Tracks tables conf.dways ok.dlaw conf.dmiss conf.dline conf.drows true ok.dfew ok.dline
          ok.dline_small ok.drows_small in
      (
        record { ic = ic; dc = dc; place = place; seg = h; perf = p; local_time = 0 },
        rw (made, imade, dmade) refl,
        refl,
        record {
          icache = it.valid;
          dcache = dt.valid;
          dwrites = dwrites;
          totals = record {
            made = made;
            executed_sum = total-create executed base bound cores p;
            cycles_sum = total-create cycles base bound cores p;
            imisses_sum = total-create imisses base bound cores p ∙ sym imiss;
            dmisses_sum = total-create dmisses base bound cores p ∙ sym dmiss;
          };
          time = rw (imiss, dmiss) (omega arith);
        },
      )

  -- With caches of at most four ways over recency tables, lines of 2 to 2^30 bytes and at most 2^30 rows, a core
  -- below the number of cores that is constructed over a new segment runs any sequence of calls whose addresses are
  -- longs and whose counted parcels lie in the text segment without a fault. Then, summed over
  -- the text segment, its counters hold the number of instructions, its local clock, and the
  -- misses of its two caches; and the clock is one cycle for each instruction, the penalty of
  -- each miss, and the cycles of each taken branch.
  pub run-mem_new :
      (place : ℕ) (es : List Event)
      → n < cores
      → All (InRange h) es
      → (m m' : Mem) × (mem_new tables conf h place n ≡ some m)
        × (run conf.jump m es ≡ some m')
        × (perf_new m'.seg n ≡ some m'.perf)
        × (total executed m'.seg m'.perf ≡ sum insns_of es)
        × (total cycles m'.seg m'.perf ≡ m'.local_time)
        × (total imisses m'.seg m'.perf ≡ m'.ic.misses)
        × (total dmisses m'.seg m'.perf ≡ m'.dc.misses)
        × (m'.local_time
            ≡ sum insns_of es
              + m'.ic.penalty * m'.ic.misses
              + m'.dc.penalty * m'.dc.misses
              + conf.jump * sum jumps_of es)
  run-mem_new place es lt all =
      let (m, made, same, acc) = mem_new-Accounts place lt in
      let (m', ran, acc') = run-Accounts (setup tables conf ok n) m es 0 0 (rw same all) acc in
      (
        m,
        m',
        made,
        ran,
        acc'.totals.made,
        acc'.totals.executed_sum ∙ omega arith,
        acc'.totals.cycles_sum,
        acc'.totals.imisses_sum,
        acc'.totals.dmisses_sum,
        ground (arith, acc'.time),
      )
