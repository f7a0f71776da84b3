-- ===== src/Tests/Caches.antt =====
-- The caches at concrete tables, addresses and runs.
use cavatools.Prelude.{◌<◌, ℕ, ◌^◌, ◌≡◌, refl, true, false, some, List, [], ◌∷◌, arith, length}
use cavatools.Prelude.Words.{shr_long}
use cavatools.Cache.{Cache, LruFsm, row_of, fresh, init, lookup}
use cavatools.Cache.Recency.{IsLru, IsState}
use cavatools.Cache.Generator.{make_cache, array_of}
use cavatools.Cache.Generated.{make_cache-IsLru}
use cavatools.Cache.Bounds.{chosen-bounds}
use cavatools.Cache.Lookup.{chosen}
use cavatools.Cache.Refines.{IsValid}
use cavatools.Cache.Correct.{Accessed, hits, left_behind, lookup-Accessed}
use cavatools.Cache.History.{Reference, run, ideal, missed, note}
use cavatools.Cache.Recent.{contains, remove}
use cavatools.Cache.Init.{flushed, run-init-ideal}

abbrev pub tables : ℕ → ℕ → LruFsm
tables n = array_of (make_cache n)

abbrev pub two_ways : IsLru 2 (tables 2)
two_ways = make_cache-IsLru 2 (omega arith) (omega arith)

-- The table of three ways orders its first state as 0, 1, 2 and moves way 2 to the front.
make_cache-IsLru_example : IsLru 3 (array_of (make_cache 3))
make_cache-IsLru_example = make_cache-IsLru 3 (omega arith) (omega arith)

-- Two ways, lines of 64 bytes, four rows.
abbrev small : Cache
small = fresh tables 15 2 6 2 64 4 true

small-IsValid : IsValid 2 (tables 2) two_ways small
unfolding fresh
small-IsValid = record {
  fsm_is = refl;
  ways_is = refl;
  states_are = λ r. (0, two_ways.some_state, refl);
  mask_is = refl;
  line_pos = omega arith;
  clean = λ w v r. refl;
}

lookup-Accessed_example :
    (c' : Cache) × (lookup small 0 4096 true
      ≡ some (
        c',
        left_behind 2 (tables 2) two_ways small 0 4096,
        hits 2 (tables 2) two_ways small 4096,
      ))
    × Accessed 2 (tables 2) two_ways small 4096 true c'
unfolding fresh
lookup-Accessed_example =
    lookup-Accessed 2 (tables 2) two_ways small 0 4096 true small-IsValid (omega arith) (λ w. refl)

abbrev references : List Reference
references =
    record { addr = 4096; write = true }
    ∷ record { addr = 4100; write = false }
    ∷ record { addr = 8192; write = false }
    ∷ record { addr = 12288; write = false }
    ∷ record { addr = 4096; write = false }
    ∷ []

run-init-ideal_example :
    (c c' : Cache) × (place' : ℕ) × (init tables 15 2 6 2 true ≡ some c)
    × (run c 0 references ≡ some (c', place', ideal 2 6 3 (flushed 2) references))
    × (c'.refs ≡ length references)
    × (c'.misses ≡ missed (ideal 2 6 3 (flushed 2) references))
run-init-ideal_example =
    run-init-ideal tables 2 two_ways 15 6 2 true 0 references (omega arith) (omega arith)
      (omega arith) (omega arith)
      (
        (omega arith, λ w. refl),
        (
          (omega arith, λ w. refl),
          ((omega arith, λ w. refl), ((omega arith, λ w. refl), ((omega arith, λ w. refl), tt))),
        ),
      )

-- The second reference hits the line of the first; the fourth replaces it.
answers_test : ideal 2 6 3 (flushed 2) references ≡ false ∷ true ∷ false ∷ false ∷ false ∷ []
unfolding ideal contains shr_long note remove
answers_test = refl

chosen-bounds_example :
    (row_of small 4096 < 2 ^ small.lg_rows)
    × ((chosen small 4096).way < small.ways)
    × IsState two_ways.count 2 (chosen small 4096).next_state
chosen-bounds_example = chosen-bounds 2 (tables 2) two_ways small 4096 small-IsValid
