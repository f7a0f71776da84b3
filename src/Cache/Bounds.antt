-- ===== src/Cache/Bounds.antt =====
-- The places of the arrays that `cache_t::lookup` of caveat/cache.h reads and writes.
use cavatools.Prelude.{ℕ, ◌^◌, ◌<◌, ap, ◌∙◌, bit_and, arith}
use native.Mathlib.Nat.{mod-lt}
use cavatools.Prelude.Words.{bit_and-mask, pow_two_pos}
use cavatools.Cache.{Cache, LruFsm, line_of, row_of}
use cavatools.Cache.Recency.{IsState, IsLru}
use cavatools.Cache.Lookup.{chosen}
use cavatools.Cache.Refines.{IsValid, chosen_is, here}

-- In a valid cache over a recency table, a lookup of any address uses a row below the number of rows
-- and a way below the number of ways, and the state that it stores is one of the table's.
pub chosen-bounds :
    (ways : ℕ) (fsm : ℕ → LruFsm) (law : IsLru ways fsm) (c : Cache) (addr : ℕ)
    → IsValid ways fsm law c
    → (row_of c addr < 2 ^ c.lg_rows)
      × ((chosen c addr).way < c.ways)
      × IsState law.count ways (chosen c addr).next_state
unfolding row_of
chosen-bounds ways fsm law c addr valid =
    let low =
      ap (bit_and (line_of c addr)) valid.mask_is ∙ bit_and-mask (line_of c addr) c.lg_rows in
    let small = mod-lt (line_of c addr) (pow_two_pos c.lg_rows) in
    let entry = here ways fsm law c addr valid in
    let same = chosen_is ways fsm law c addr valid in
    (
      omega (arith, low, small),
      omega (arith, entry.way_lt, ap (λ (e : LruFsm). e.way) same, valid.ways_is),
      rw (ap (λ (e : LruFsm). e.next_state) same) entry.next_IsState,
    )
