-- ===== src/Tests/Counters.antt =====
-- The counter segment at concrete sizes.
use cavatools.Prelude.{ℕ, ◌+◌, ◌<◌, ◌≤◌, ◌≡◌, refl, some, arith, if◌then◌else◌}
use cavatools.Perf.{Segment, Perf, perf_new, create, index}
use cavatools.Perf.Layout.{Counter, cycles, counter_at, counter_at-create}
use cavatools.Perf.Counters.{inc, read, read-inc, same_test}

-- Four parcels from 4096 on, two cores.
abbrev four : Segment
four = create 4096 4104 2

abbrev first_core : Perf
first_core = record { count = 0; imiss = 64; dmiss = 96 }

abbrev second_core : Perf
second_core = record { count = 128; imiss = 192; dmiss = 224 }

first_made : perf_new four 0 ≡ some first_core
unfolding perf_new create
first_made = refl

second_made : perf_new four 1 ≡ some second_core
unfolding perf_new create
second_made = refl

parcel_test : index four 4100 ≡ some 2
unfolding index create
parcel_test = refl

counter_at-create_example :
    (p : Perf) × (perf_new four 1 ≡ some p)
    × ((k : Counter) (i : ℕ) → i < four.parcels → 32 + counter_at k p i + 8 ≤ four.size)
counter_at-create_example = counter_at-create 4096 4104 2 1 (omega arith)

read-inc_example :
    (h' : Segment) × (x : ℕ) × (inc cycles four second_core 4100 7 ≡ some h')
    × (read cycles four second_core 4100 ≡ some x)
    × (read cycles h' second_core 4100
        ≡ some (if same_test 1 1 cycles cycles 2 2 then x + 7 else x))
read-inc_example =
    read-inc four 1 1 second_core second_core cycles cycles 4100 4100 2 2 7 second_made second_made
      parcel_test parcel_test
