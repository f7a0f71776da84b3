-- ===== src/Cache.antt =====
-- caveat/cache.h and caveat/cache.cc: a set-associative cache whose rows are ordered by a table of
-- recency states. Addresses are 64-bit patterns. `none` is a SEGV, or the constructor's exit.

pub mod Recency
pub mod Generator
pub mod Generated
pub mod Rows
pub mod Field
pub mod Search
pub mod Installs
pub mod Lookup
pub mod Refines
pub mod Correct
pub mod Bounds
pub mod Recent
pub mod History
pub mod Init
use cavatools.Prelude.{
  ℕ, zero, suc, ◌+◌, ◌-◌, ◌%◌, ◌^◌, Bool, true, false, ◌&&◌, Option, none, some, ◌>>=◌, ltb, leb,
  ◌==◌, if◌then◌else◌, bit_and,
}
use cavatools.Prelude.Words.{long_mod, long_sign, shr_long}

-- An entry of the generated tables lru_fsm_?way.h.
pub record LruFsm : Type 0 where
  pub way : ℕ
  pub next_state : ℕ

pub record Tag : Type 0 where
  pub dirty : Bool
  pub addr : ℕ

pub record Cache : Type 0 where
  pub fsm : ℕ → LruFsm
  pub line : ℕ
  pub rows : ℕ
  pub ways : ℕ
  pub lg_line : ℕ
  pub lg_rows : ℕ
  pub tag_mask : ℕ
  pub row_mask : ℕ
  pub tags : ℕ → ℕ → Tag
  pub states : ℕ → ℕ
  -- `evicted` is not NULL
  pub writeable : Bool
  pub penalty : ℕ
  pub refs : ℕ
  pub misses : ℕ
  pub updates : ℕ
  pub evictions : ℕ

-- A long kept in the signed bit field `long addr : 63`, and read back.
unfoldable pub to_field : ℕ → ℕ
to_field w = let low = w % 2 ^ 63 in if ltb low (2 ^ 62) then low else low + 2 ^ 63

abbrev pub set_tag : Cache → ℕ → ℕ → Tag → Cache
set_tag c w r t = record c { tags = λ v q. if v == w && q == r then t else c.tags v q }

abbrev pub set_state : Cache → ℕ → ℕ → Cache
set_state c r s = record c { states = λ q. if q == r then s else c.states q }

-- The tag that an address is looked up by, and its row.
unfoldable pub line_of : Cache → ℕ → ℕ
line_of c addr = shr_long addr c.lg_line

unfoldable pub row_of : Cache → ℕ → ℕ
row_of c addr = bit_and (line_of c addr) c.row_mask

-- The `do` loop, with `n` rounds to go: the entry that it stops at, and whether that is a hit.
unfoldable pub scan : Cache → ℕ → ℕ → ℕ → ℕ → ℕ → ℕ × Bool
scan c row tag end zero p = (p, false)
scan c row tag end (suc n) p =
    let p' = p + 1 in
    let rest = scan c row tag end n p' in
    if tag == (c.tags (c.fsm p').way row).addr
    then (p', true)
    else if ltb p' end
    then rest
    else (p', false)

unfoldable pub search_row : Cache → ℕ → ℕ → ℕ × Bool
search_row c row tag = let p = c.states row in scan c row tag (p + c.ways) c.ways p

-- At a miss: `tag->addr = addr; _misses++`, the dirty bit as it was.
unfoldable pub fill : Cache → ℕ → ℕ → ℕ → Cache
fill c row way tag =
    record (set_tag c way row (record { dirty = (c.tags way row).dirty; addr = to_field tag })) {
      misses = c.misses + 1;
    }

-- `_evictions++; tag->dirty = 0`.
unfoldable pub evict : Cache → ℕ → ℕ → Cache
evict c row way =
    record (set_tag c way row (record { dirty = false; addr = (c.tags way row).addr })) {
      evictions = c.evictions + 1;
    }

-- The statements between the loop and `cache_hit`, with the word that `evicted` points to. The tag
-- that is written there is read after `fill`; the last `tag->addr = addr` writes it once more.
unfoldable pub refill : Cache → ℕ → ℕ → ℕ → ℕ → Option (Cache × ℕ)
refill c place row way tag =
    let filled = fill c row way tag in
    if (filled.tags way row).dirty
    then (if c.writeable then some (evict filled row way, (filled.tags way row).addr) else none)
    else some (filled, if c.writeable then 0 else place)

-- The statements from `cache_hit` on.
unfoldable pub touch : Cache → ℕ → LruFsm → Bool → Cache
touch c row p write =
    let c' = set_state c row p.next_state in
    let t = c'.tags p.way row in
    if write
    then record (set_tag c' p.way row (record { dirty = true; addr = t.addr })) {
      updates = c'.updates + 1;
    }
    else c'

-- `cache_t::lookup`: the cache, the word behind `evicted`, and whether it was a hit.
unfoldable pub lookup : Cache → ℕ → ℕ → Bool → Option (Cache × ℕ × Bool)
lookup c place addr write = do
  let counted = record c { refs = c.refs + 1 }
  let tag = line_of c addr
  let row = row_of c addr
  let found = search_row c row tag
  let p = c.fsm found.0
  (c', place') ← (if found.1 then some (counted, place) else refill counted place row p.way tag)
  some (touch c' row p write, place', found.1)

-- `cache_t::flush`: the `memset`s clear every tag and every state.
unfoldable pub flush : Cache → Cache
flush c = record c { tags = λ v q. record { dirty = false; addr = 0 }; states = λ q. 0 }

-- `1 << n` of a 32-bit int, as a long; C++ defines it up to the sign.
unfoldable pub shl_one : ℕ → Option ℕ
shl_one n = if ltb n 31 then some (2 ^ n) else if n == 31 then some (long_mod - 2 ^ 31) else none

-- The body of the constructor behind its two shifts, `l` and `r`; `tables w` is the generated table
-- cache_fsm_<w>way.
unfoldable pub fresh : (ℕ → ℕ → LruFsm) → ℕ → ℕ → ℕ → ℕ → ℕ → ℕ → Bool → Cache
unfolding flush
fresh tables miss w lin row l r writeable = flush (record {
  fsm = tables w;
  line = l;
  rows = r;
  ways = w;
  lg_line = lin;
  lg_rows = row;
  tag_mask = (long_mod - l) % long_mod;
  row_mask = r - 1;
  tags = λ v q. record { dirty = false; addr = 0 };
  states = λ q. 0;
  writeable = writeable;
  penalty = miss;
  refs = 0;
  misses = 0;
  updates = 0;
  evictions = 0;
})

-- `cache_t::cache_t`, with the `default` of its switch; `new` refuses a negative number of rows.
unfoldable pub init : (ℕ → ℕ → LruFsm) → ℕ → ℕ → ℕ → ℕ → Bool → Option Cache
unfolding fresh shl_one
init tables miss w lin row writeable = do
  l ← shl_one lin
  r ← shl_one row
  if (leb 1 w && leb w 4) && ltb r long_sign
      then some (fresh tables miss w lin row l r writeable)
      else none
