-- ===== src/Hart.antt =====
-- uspike/hart.h and hart.cc: harts that are constructed and counted by any number of threads. Thread
-- `i` constructs the hart `i`, and a pointer to it is `some i`. Each read, or compare-and-swap, of a
-- static member is one step; private stores are done with the step before them. A long is its 64-bit
-- pattern, so that counting by `-n` adds `2^64 - n`; the int `num_threads` stays below 2^31.
pub mod Steps
pub mod Totals
pub mod Listed
pub mod Numbered
pub mod Solo
pub mod Find
pub mod Debug
pub mod Ring
use cavatools.Prelude.{
  ℕ, zero, suc, ◌+◌, ◌%◌, Bool, true, false, Option, none, some, ◌==◌, if◌then◌else◌,
}
use cavatools.Prelude.Words.{long_mod}
use cavatools.Prelude.Sums.{update}

-- Where a thread stands in the constructor, or in `incr_count(n)` with the `oldtotal` it read.
pub data Place : Type 0 where
  outside read_list swap_list read_number : Place
  swap_number : ℕ → Place
  running : Place
  read_total : ℕ → Place
  swap_total : ℕ → ℕ → Place

-- The static members, and of each hart the fields that the loops write.
pub record Harts : Type 0 where
  pub cpu_list : Option ℕ
  pub num_threads : ℕ
  pub total_insns : ℕ
  pub link : ℕ → Option ℕ
  pub number : ℕ → ℕ
  pub executed : ℕ → ℕ
  pub place : ℕ → Place

unfoldable pub same_pointer : Option ℕ → Option ℕ → Bool
same_pointer none none = true
same_pointer (some p) (some q) = p == q
same_pointer _ _ = false

abbrev pub goes : Harts → ℕ → Place → Harts
goes s i p = record s { place = update s.place i p }

-- The next step of thread `i`; one that is `running` enters `incr_count(n)`.
unfoldable pub move : Place → Harts → ℕ → ℕ → Harts
unfolding same_pointer
move outside s i n = goes s i read_list
move read_list s i n = goes (record s { link = update s.link i s.cpu_list }) i swap_list
move swap_list s i n =
    if same_pointer s.cpu_list (s.link i)
    then goes (record s { cpu_list = some i }) i read_number
    else goes s i read_list
move read_number s i n = goes s i (swap_number s.num_threads)
move (swap_number old_n) s i n =
    if s.num_threads == old_n
    then goes (record s { num_threads = old_n + 1; number = update s.number i old_n }) i running
    else goes s i read_number
move running s i n =
    goes (record s { executed = update s.executed i ((s.executed i + n) % long_mod) }) i
      (read_total n)
move (read_total n) s i k = goes s i (swap_total n s.total_insns)
move (swap_total n oldtotal) s i k =
    if s.total_insns == oldtotal
    then goes (record s { total_insns = (oldtotal + n) % long_mod }) i running
    else goes s i (read_total n)

-- `hart_t::find` along the links, with a bound on their number; `tid` gives the thread numbers.
unfoldable pub find : (ℕ → ℕ) → (ℕ → Option ℕ) → ℕ → Option ℕ → ℕ → Option ℕ
find my_tid link zero p tid = none
find my_tid link (suc fuel) none tid = none
find my_tid link (suc fuel) (some p) tid =
    let rest = find my_tid link fuel (link p) tid in if my_tid p == tid then some p else rest
