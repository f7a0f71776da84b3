-- ===== src/Hart/Debug.antt =====
-- uspike/hart.h and hart.cc: the ring of the last program counters, `Debug_t`. The long `~0l` is its
-- pattern.
use cavatools.Prelude.{ℕ, zero, suc, ◌+◌, ◌-◌, ◌%◌, List, [], ◌∷◌}
use cavatools.Prelude.Words.{long_mod}
use cavatools.Prelude.Sums.{update}

pub record PcTrace : Type 0 where
  pub count : ℕ
  pub pc : ℕ
  pub val : ℕ
  pub rn : ℕ

-- `PCTRACEBUFSZ`
abbrev pub trace_size : ℕ
trace_size = 128

pub record Debug : Type 0 where
  pub trace : ℕ → PcTrace
  pub cursor : ℕ

unfoldable pub get : Debug → Debug × PcTrace
get d = let c = (d.cursor + 1) % trace_size in (record d { cursor = c }, d.trace c)

unfoldable pub insert : Debug → PcTrace → Debug
insert d pt =
    let c = (d.cursor + 1) % trace_size in record d { cursor = c; trace = update d.trace c pt }

-- `insert(c, pc)`, with GPREG for the register.
unfoldable pub insert_pc : Debug → ℕ → ℕ → Debug
unfolding insert
insert_pc d count pc = insert d (record { count = count; pc = pc; val = long_mod - 1; rn = 0 })

unfoldable pub addval : Debug → ℕ → ℕ → Debug
addval d rn val = record d {
  trace = update d.trace d.cursor (record (d.trace d.cursor) { rn = rn; val = val });
}

-- The entries that the loop of `print` gets, in order.
unfoldable pub print_loop : ℕ → Debug → Debug × List PcTrace
unfolding get
print_loop zero d = (d, [])
print_loop (suc n) d = let (d1, t) = get d in let (d2, ts) = print_loop n d1 in (d2, t ∷ ts)

unfoldable pub print : Debug → Debug × List PcTrace
unfolding print_loop
print = print_loop trace_size
