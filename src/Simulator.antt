-- ===== src/Simulator.antt =====
-- caveat/simulator.cc: the timing model `mem_t` of one core, over its two caches and its counters.
-- The penalties and `conf_Jump` are options. `none` is a SEGV, of `checkif` in the counters or of a
-- lookup. The word behind the caches' `evicted` is one static variable, `place`.
pub mod Accounts
pub mod Charges
pub mod Steps
pub mod Time
pub mod Start
pub mod Pool
use cavatools.Prelude.{
  none, ltb, ◌==◌, ◌-◌, ◌%◌, ◌^◌, List, [], ◌∷◌, ℕ, ◌+◌, Bool, true, false, Option, some, ◌>>=◌,
  if◌then◌else◌,
}
use cavatools.Prelude.Words.{long_mod}
use cavatools.Cache.{Cache, LruFsm, init, lookup}
use cavatools.Perf.{Segment, Perf, perf_new, inc_count, inc_cycle, inc_imiss, inc_dmiss}

pub record Mem : Type 0 where
  pub ic : Cache
  pub dc : Cache
  pub place : ℕ
  pub seg : Segment
  pub perf : Perf
  pub local_time : ℕ

-- The options of the simulator that the model reads.
pub record Conf : Type 0 where
  pub jump : ℕ
  pub imiss : ℕ
  pub iways : ℕ
  pub iline : ℕ
  pub irows : ℕ
  pub dmiss : ℕ
  pub dways : ℕ
  pub dline : ℕ
  pub drows : ℕ

-- `mem_t::mem_t` of core `n` over the segment; `none` where a cache exits, or the core is past the
-- segment's and its counter pointers stay unset. `place` is the word as the previous core left it.
unfoldable pub mem_new : (ℕ → ℕ → LruFsm) → Conf → Segment → ℕ → ℕ → Option Mem
mem_new tables conf h place n = do
  p ← perf_new h n
  ic ← init tables conf.imiss conf.iways conf.iline conf.irows false
  dc ← init tables conf.dmiss conf.dways conf.dline conf.drows true
  some (record { ic = ic; dc = dc; place = place; seg = h; perf = p; local_time = 0 })

-- The branch of `insn_model` at a miss.
unfoldable pub charge_imiss : Mem → ℕ → Option Mem
charge_imiss m pc = do
  let penalty = m.ic.penalty
  seg1 ← inc_imiss m.seg m.perf pc 1
  seg2 ← inc_cycle seg1 m.perf pc penalty
  some (record m { seg = seg2; local_time = m.local_time + penalty })

-- The branch of `load_model`, `store_model` and `amo_model` at a miss.
unfoldable pub charge_dmiss : Mem → ℕ → Option Mem
charge_dmiss m pc = do
  let penalty = m.dc.penalty
  seg1 ← inc_dmiss m.seg m.perf pc 1
  seg2 ← inc_cycle seg1 m.perf pc penalty
  some (record m { seg = seg2; local_time = m.local_time + penalty })

unfoldable pub insn_model : Mem → ℕ → Option Mem
insn_model m pc = do
  (ic', place', hit) ← lookup m.ic m.place pc false
  let m1 = record m { ic = ic'; place = place' }
  m2 ← (if hit then some m1 else charge_imiss m1 pc)
  seg1 ← inc_count m2.seg m2.perf pc 1
  seg2 ← inc_cycle seg1 m2.perf pc 1
  some (record m2 { seg = seg2; local_time = m2.local_time + 1 })

-- The cycles of a taken branch go to its target.
unfoldable pub jump_model : ℕ → Mem → ℕ → ℕ → Option (Mem × ℕ)
jump_model conf_jump m npc pc = do
  seg1 ← inc_cycle m.seg m.perf npc conf_jump
  some (record m { seg = seg1; local_time = m.local_time + conf_jump }, npc)

-- The common body of the three data accesses.
unfoldable pub data_access : Mem → ℕ → ℕ → Bool → Option Mem
data_access m a pc write = do
  (dc', place', hit) ← lookup m.dc m.place a write
  let m1 = record m { dc = dc'; place = place' }
  if hit then some m1 else charge_dmiss m1 pc

unfoldable pub load_model : Mem → ℕ → ℕ → Option (Mem × ℕ)
unfolding data_access
load_model m a pc = do m' ← data_access m a pc false; some (m', a)

unfoldable pub store_model : Mem → ℕ → ℕ → Option (Mem × ℕ)
unfolding data_access
store_model m a pc = do m' ← data_access m a pc true; some (m', a)

unfoldable pub amo_model : Mem → ℕ → ℕ → Option Mem
unfolding data_access
amo_model m a pc = data_access m a pc true

-- `core_t::update_time`: the least local clock of the list of cores; `none` is the `dieif`. Clocks
-- are below 2^63.
unfoldable pub least_time : List ℕ → ℕ → ℕ
least_time [] last = last
least_time (time ∷ times) last = least_time times (if ltb time last then time else last)

unfoldable pub update_time : ℕ → List ℕ → Option ℕ
unfolding least_time
update_time global_time times =
    let last = least_time times (2 ^ 63 - 1) in if ltb last global_time then none else some last

-- One round of `malloc`: what is asked for, and what the two reads of `pooltop` give.
pub record PoolRound : Type 0 where
  pub size : ℕ
  pub first : ℕ
  pub second : ℕ

-- How a round ends: 0 is returned, the swap fails and the loop goes on, or the block and the new top.
pub data PoolEnd : Type 0 where
  refused retried : PoolEnd
  placed : ℕ → ℕ → PoolEnd

-- The round over the pool that starts at `simpool`, where `pooltop` is the top at its swap.
unfoldable pub pool_next : ℕ → ℕ → PoolRound → PoolEnd
pool_next simpool pooltop r =
    let after = (r.first + r.size + 16) % long_mod in
    if ltb (simpool + 2 ^ 30) after
    then refused
    else if pooltop == r.second
    then placed r.second (after - after % 16)
    else retried

-- What is returned by a round, and by the rounds behind it from the top that it leaves.
abbrev pub hand_out : PoolEnd → ℕ → (ℕ → List (Option ℕ)) → List (Option ℕ)
hand_out refused pooltop rest = none ∷ rest pooltop
hand_out retried pooltop rest = none ∷ rest pooltop
hand_out (placed block top) pooltop rest = some block ∷ rest top

-- The rounds of any calls by any threads, in the order in which they swap or return 0, and the block that
-- each returns, if it returns one.
unfoldable pub malloc : ℕ → ℕ → List PoolRound → List (Option ℕ)
unfolding pool_next
malloc simpool pooltop [] = []
malloc simpool pooltop (r ∷ rounds) =
    hand_out (pool_next simpool pooltop r) pooltop (λ top. malloc simpool top rounds)
