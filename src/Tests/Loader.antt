-- ===== src/Tests/Loader.antt =====
-- The loader, the pool and the options at concrete values.
use cavatools.Prelude.{
  ◌+◌, ◌*◌, ◌%◌, ◌≤◌, ◌≡◌, refl, true, false, some, List, [], ◌∷◌, ◌++◌, length, arith, ◌==◌,
  if◌then◌else◌,
}
use cavatools.Elf.{Section, find_text, Pinfo, initialize_stack, copy_strings}
use cavatools.Elf.Layout.{initialize_stack-fits}
use cavatools.Simulator.{PoolRound, pool_next, malloc, least_time, update_time}
use cavatools.Simulator.Pool.{Apart, malloc-Apart}
use cavatools.Options.{Opt, alone, text, exits, sets, matches}
use cavatools.Options.Matching.{matches-name}

abbrev sections : List Section
sections =
    record { sh_addr = 65536; sh_size = 4096; executable = true }
    ∷ record { sh_addr = 81920; sh_size = 64; executable = false }
    ∷ []

bounds_test : find_text sections ≡ (65536, 69632)
unfolding find_text
bounds_test = refl

abbrev info : Pinfo
info = record { phdr = 1 ∷ 2 ∷ []; phent = 56; phnum = 1; entry = 65536; stack_top = 1610612736 }

initialize_stack-fits_example :
    let stack = initialize_stack info ((97 ∷ []) ∷ []) [] ((6, 0) ∷ (0, 0) ∷ []) in
    (stack.top % 16 ≡ 0) × (stack.top + 8 * length stack.words ≤ stack.copies)
unfolding initialize_stack copy_strings
initialize_stack-fits_example =
    initialize_stack-fits info ((97 ∷ []) ∷ []) [] ((6, 0) ∷ (0, 0) ∷ []) (omega arith)

abbrev rounds : List PoolRound
rounds =
    record { size = 10; first = 4096; second = 4096 }
    ∷ record { size = 2000000000; first = 4112; second = 4112 }
    ∷ record { size = 20; first = 4112; second = 4112 }
    ∷ []

malloc-Apart_example : Apart 4096 4096 (malloc 4096 4096 rounds) (10 ∷ 2000000000 ∷ 20 ∷ [])
malloc-Apart_example =
    malloc-Apart 4096 4096 rounds (omega arith) (omega arith)
      ((refl, omega arith), ((refl, omega arith), ((refl, omega arith), tt)))

-- Another thread places a block of 64 bytes between the reads of the second round, whose swap then
-- lowers the top into that block, so the third block lies in the first.
stale_test :
    malloc 4096 4096 (
      record { size = 64; first = 4096; second = 4096 }
      ∷ record { size = 16; first = 4096; second = 4176 }
      ∷ record { size = 16; first = 4128; second = 4128 }
      ∷ [])
    ≡ some 4096 ∷ some 4176 ∷ some 4128 ∷ []
unfolding malloc pool_next
stale_test = refl

clocks_test : update_time 5 (9 ∷ 7 ∷ []) ≡ some 7
unfolding update_time least_time
clocks_test = refl

abbrev ways : Opt
ways = record { name = 119 ∷ []; no_equal = false; is_bool = false; value = alone }

matches-name_example : matches ways (ways.name ++ 61 ∷ (52 ∷ [])) ≡ (
    if 61 == 61
    then (if ways.is_bool then exits else sets (record ways { value = text (52 ∷ []) }))
    else exits)
matches-name_example = matches-name ways (52 ∷ []) 61
