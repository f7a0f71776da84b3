-- ===== src/Tests/Cores.antt =====
-- A core's timing model on a short run.
use cavatools.Prelude.{◌+◌, ◌*◌, ◌≡◌, refl, some, List, [], ◌∷◌, arith, All}
use cavatools.Cache.Generated.{make_cache-IsLru}
use cavatools.Perf.{Segment, create, perf_new, index}
use cavatools.Perf.Layout.{executed, cycles, imisses, dmisses}
use cavatools.Perf.Sums.{total}
use cavatools.Simulator.{Mem, Conf, mem_new}
use cavatools.Simulator.Accounts.{Event, insn, jump, load, amo, run, insns_of, jumps_of, InRange}
use cavatools.Simulator.Time.{sum}
use cavatools.Simulator.Start.{IsConf, run-mem_new}
use cavatools.Tests.Caches.{tables}

abbrev pub conf : Conf
conf = record {
  jump = 2;
  imiss = 5;
  iways = 4;
  iline = 6;
  irows = 6;
  dmiss = 15;
  dways = 4;
  dline = 6;
  drows = 6;
}

pub conf-IsConf : IsConf tables conf
conf-IsConf = record {
  ilaw = make_cache-IsLru 4 (omega arith) (omega arith);
  dlaw = make_cache-IsLru 4 (omega arith) (omega arith);
  ifew = omega arith;
  dfew = omega arith;
  iline = omega arith;
  dline = omega arith;
  iline_small = omega arith;
  dline_small = omega arith;
  irows_small = omega arith;
  drows_small = omega arith;
}

abbrev text : Segment
text = create 4096 4104 2

first_parcel : index text 4096 ≡ some 0
unfolding index create
first_parcel = refl

third_parcel : index text 4100 ≡ some 2
unfolding index create
third_parcel = refl

abbrev events : List Event
events = insn 4096 ∷ load 65536 4096 ∷ insn 4100 ∷ amo 65536 4100 ∷ jump 4096 4100 ∷ []

events-InRange : All (InRange text) events
events-InRange = (
  (omega arith, (0, first_parcel)),
  (
    (omega arith, (0, first_parcel)),
    ((omega arith, (2, third_parcel)), ((omega arith, (2, third_parcel)), ((0, first_parcel), tt))),
  ),
)

run-mem_new_example :
    (m m' : Mem) × (mem_new tables conf text 0 1 ≡ some m)
    × (run 2 m events ≡ some m')
    × (perf_new m'.seg 1 ≡ some m'.perf)
    × (total executed m'.seg m'.perf ≡ sum insns_of events)
    × (total cycles m'.seg m'.perf ≡ m'.local_time)
    × (total imisses m'.seg m'.perf ≡ m'.ic.misses)
    × (total dmisses m'.seg m'.perf ≡ m'.dc.misses)
    × (m'.local_time
        ≡ sum insns_of events
          + m'.ic.penalty * m'.ic.misses
          + m'.dc.penalty * m'.dc.misses
          + 2 * sum jumps_of events)
run-mem_new_example =
    run-mem_new tables conf conf-IsConf 4096 4104 2 1 0 events (omega arith) events-InRange
