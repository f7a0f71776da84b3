-- ===== src/Simulator/Pool.antt =====
-- The memory pool and the global clock of caveat/simulator.cc.
use cavatools.Prelude.{
  ℕ, ◌+◌, ◌-◌, ◌%◌, ◌^◌, ◌≤◌, ◌≡◌, Option, none, some, List, [], ◌∷◌, map, All, ltb, ◌==◌, ◌<◌,
  if◌then◌else◌, arith, inl, inr, Bool-cases,
}
use cavatools.Prelude.Words.{long_mod}
use cavatools.Simulator.{
  least_time, update_time, PoolRound, PoolEnd, refused, retried, placed, pool_next, hand_out,
  malloc,
}

-- Blocks from an address on, one behind the other inside the pool, aligned to 16 bytes.
abbrev pub Apart : ℕ → ℕ → List (Option ℕ) → List ℕ → Type 0
Apart simpool low (none ∷ blocks) (size ∷ sizes) = Apart simpool low blocks sizes
Apart simpool low (some block ∷ blocks) (size ∷ sizes) =
    (low ≤ block)
    × (block % 16 ≡ 0)
    × (block + size ≤ simpool + 2 ^ 30)
    × Apart simpool (block + size) blocks sizes
Apart simpool low _ _ = Unit

Apart-weaken :
    (simpool low low' : ℕ) (blocks : List (Option ℕ)) (sizes : List ℕ)
    → low' ≤ low
    → Apart simpool low blocks sizes
    → Apart simpool low' blocks sizes
Apart-weaken simpool low low' [] sizes le a = tt
Apart-weaken simpool low low' (none ∷ blocks) [] le a = tt
Apart-weaken simpool low low' (some block ∷ blocks) [] le a = tt
Apart-weaken simpool low low' (none ∷ blocks) (size ∷ sizes) le a =
    Apart-weaken simpool low low' blocks sizes le a
Apart-weaken simpool low low' (some block ∷ blocks) (size ∷ sizes) le (h, rest1, rest2, rest3) =
    (omega (arith, h, le), rest1, rest2, rest3)

-- A round without a swap between its reads, for a size at which the sum of the code does not wrap.
abbrev pub IsUndisturbed : ℕ → PoolRound → Type 0
IsUndisturbed simpool r = (r.first ≡ r.second) × (simpool + 2 ^ 30 + r.size + 16 < long_mod)

-- What a round that places a block does to the top.
abbrev Places : ℕ → ℕ → PoolRound → PoolEnd → Type 0
Places simpool pooltop r refused = Unit
Places simpool pooltop r retried = Unit
Places simpool pooltop r (placed block top) =
    (block ≡ pooltop) × (block + r.size ≤ top) × (top % 16 ≡ 0) × (top ≤ simpool + 2 ^ 30)

pool_next-Places :
    (simpool pooltop : ℕ) (r : PoolRound)
    → IsUndisturbed simpool r
    → pooltop ≤ simpool + 2 ^ 30
    → Places simpool pooltop r (pool_next simpool pooltop r)
unfolding pool_next
pool_next-Places simpool pooltop r (same, small) low =
    let after = (r.first + r.size + 16) % long_mod in
    elim (Bool-cases (ltb (simpool + 2 ^ 30) after)) [
      | inl full ↦ rw full tt
      | inr room ↦ elim (Bool-cases (pooltop == r.second)) [
        | inr other ↦ rw (room, other) tt
        | inl swaps ↦
            rw (room, swaps)
              (
                ground (arith, swaps),
                ground (arith, swaps, same, small, low),
                omega arith,
                ground (arith, room),
              )
      ]
    ]

hand_out-Apart :
    (simpool pooltop : ℕ) (r : PoolRound) (rounds : List PoolRound) (e : PoolEnd)
    → pooltop % 16 ≡ 0
    → pooltop ≤ simpool + 2 ^ 30
    → ((top : ℕ)
        → top % 16 ≡ 0
        → top ≤ simpool + 2 ^ 30
        → Apart simpool top (malloc simpool top rounds) (map (λ r. r.size) rounds))
    → Places simpool pooltop r e
    → Apart simpool pooltop
        (hand_out e pooltop (λ top. malloc simpool top rounds))
        (r.size ∷ map (λ r. r.size) rounds)
hand_out-Apart simpool pooltop r rounds refused aligned low rest v = rest pooltop aligned low
hand_out-Apart simpool pooltop r rounds retried aligned low rest v = rest pooltop aligned low
hand_out-Apart simpool pooltop r rounds (placed block top) aligned low rest
      (at, before, even, under) =
    (
      omega (arith, at),
      omega (arith, at, aligned),
      omega (arith, before, under),
      Apart-weaken simpool top (block + r.size) (malloc simpool top rounds)
          (map (λ r. r.size) rounds) before (rest top even under),
    )

-- From an aligned top in the pool on, whatever the threads ask for and in whatever order their rounds
-- end: the blocks that `malloc` hands out are aligned to 16 bytes, do not overlap, and lie inside the
-- pool, if no swap falls between the two reads of a round, and no size is so large that the sum wraps.
pub malloc-Apart :
    (simpool pooltop : ℕ) (rounds : List PoolRound)
    → pooltop % 16 ≡ 0
    → pooltop ≤ simpool + 2 ^ 30
    → All (IsUndisturbed simpool) rounds
    → Apart simpool pooltop (malloc simpool pooltop rounds) (map (λ r. r.size) rounds)
unfolding malloc
malloc-Apart simpool pooltop [] aligned low all = tt
malloc-Apart simpool pooltop (r ∷ rounds) aligned low (quiet, all) =
    hand_out-Apart simpool pooltop r rounds (pool_next simpool pooltop r) aligned low
      (λ top even under. malloc-Apart simpool top rounds even under all)
      (pool_next-Places simpool pooltop r quiet low)

least_time-le :
    (times : List ℕ) (last : ℕ)
    → (least_time times last ≤ last) × All (λ t. least_time times last ≤ t) times
unfolding least_time
least_time-le [] last = (omega arith, tt)
least_time-le (time ∷ times) last =
    let next = if ltb time last then time else last in
    let (le, all) = least_time-le times next in
    let a : next ≤ last = ground arith in
    let b : next ≤ time = ground arith in (omega (arith, le, a), (omega (arith, le, b), all))

-- The global clock never goes back, and is afterwards at most the local clock of each core.
pub update_time-le :
    (global_time global_time' : ℕ) (times : List ℕ)
    → update_time global_time times ≡ some global_time'
    → (global_time ≤ global_time') × All (λ t. global_time' ≤ t) times
unfolding update_time
update_time-le global_time global_time' times e =
    let (le, all) = least_time-le times (2 ^ 63 - 1) in
    let same : least_time times (2 ^ 63 - 1) ≡ global_time' = ground (arith, e) in
    (ground (arith, e), rw (← same) all)
