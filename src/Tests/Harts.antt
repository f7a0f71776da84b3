-- ===== src/Tests/Harts.antt =====
-- Harts: two threads that construct theirs at once, and the ring of program counters.
use cavatools.Prelude.{
  ℕ, zero, suc, ◌<◌, ◌≡◌, sym, All, length-replicate, get_or, refl, List, [], ◌∷◌, ◌++◌, length,
  drop, replicate, arith,
}
use cavatools.Hart.{Harts}
use cavatools.Hart.Steps.{initial, advance, Reach, start, later}
use cavatools.Hart.Totals.{IsBalanced, total_insns-IsBalanced}
use cavatools.Hart.Numbered.{IsNumbered, number-IsNumbered}
use cavatools.Hart.Listed.{is_linked, IsListed, cpu_list-IsListed}
use cavatools.Hart.Solo.{Finishes, alone-Finishes}
use cavatools.Hart.Debug.{PcTrace, Debug, print}
use cavatools.Hart.Ring.{blank, Shows, inserts, print-inserts}

-- Both read the list before one of them swaps.
abbrev schedule : List ℕ
schedule = 0 ∷ 1 ∷ 0 ∷ 1 ∷ 1 ∷ 0 ∷ 1 ∷ 0 ∷ 1 ∷ 0 ∷ 0 ∷ 1 ∷ 0 ∷ 0 ∷ []

unfoldable scheduled : List ℕ → Harts
unfolding advance
scheduled [] = initial
scheduled (i ∷ l) = advance (scheduled l) i 7

abbrev two_harts : Harts
two_harts = scheduled schedule

scheduled-Reach : (l : List ℕ) → All (λ i. i < 2) l → Reach 2 (scheduled l)
unfolding scheduled
scheduled-Reach [] h = start
scheduled-Reach (i ∷ l) (lt, h) = later i 7 (scheduled-Reach l h) lt

two_harts-Reach : Reach 2 two_harts
two_harts-Reach = scheduled-Reach schedule (ground arith)

two_harts-total : two_harts.total_insns ≡ 7
unfolding scheduled
two_harts-total = refl

two_harts-threads : two_harts.num_threads ≡ 2
unfolding scheduled
two_harts-threads = refl

total_insns-IsBalanced_example : IsBalanced 2 two_harts
total_insns-IsBalanced_example = total_insns-IsBalanced 2 two_harts two_harts-Reach

number-IsNumbered_example : IsNumbered 2 two_harts
number-IsNumbered_example = number-IsNumbered 2 two_harts two_harts-Reach

cpu_list-IsListed_example : IsListed 2 two_harts
cpu_list-IsListed_example = cpu_list-IsListed 2 two_harts two_harts-Reach

alone-Finishes_example : Finishes 5 two_harts 1
alone-Finishes_example = alone-Finishes two_harts 1

one_linked : is_linked (two_harts.place 1) ≡ 1
unfolding scheduled
one_linked = refl

-- A new ring.
abbrev new_ring : Debug
new_ring = record { trace = λ i. blank; cursor = 0 }

get_or-replicate : (n j : ℕ) → get_or (replicate n blank) j blank ≡ blank
get_or-replicate zero j = refl
get_or-replicate (suc n) zero = refl
get_or-replicate (suc n) (suc j) = get_or-replicate n j

new_ring-Shows : Shows new_ring (replicate 128 blank)
new_ring-Shows = record {
  small = omega arith;
  size = length-replicate 128 blank;
  entries = λ j lt. sym (get_or-replicate 128 j);
}

abbrev two_entries : List PcTrace
two_entries =
    record { count = 1; pc = 4096; val = 5; rn = 10 }
    ∷ record { count = 2; pc = 4100; val = 0; rn = 0 }
    ∷ []

print-inserts_example :
    let shown = drop (length two_entries) (replicate 128 blank ++ two_entries) in
    ((print (inserts new_ring two_entries)).1 ≡ shown)
    × Shows (print (inserts new_ring two_entries)).0 shown
print-inserts_example = print-inserts new_ring (replicate 128 blank) two_entries new_ring-Shows
