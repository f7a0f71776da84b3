-- ===== src/Cache/Installs.antt =====
-- What the parts of `cache_t::lookup` write: `refill` at a miss, and `touch` at its end.
use cavatools.Prelude.{
  ℕ, ◌+◌, ◌≡◌, refl, Bool, true, false, ◌&&◌, ◌||◌, none, some, if◌then◌else◌, ◌==◌, ap, ◌∙◌, arith,
}
use cavatools.Cache.{Cache, Tag, LruFsm, fill, evict, to_field, refill, touch}

-- What the constructor fixes.
pub record SameShape (c c' : Cache) : Type 0 where
  pub fsm : c'.fsm ≡ c.fsm
  pub ways : c'.ways ≡ c.ways
  pub lg_line : c'.lg_line ≡ c.lg_line
  pub lg_rows : c'.lg_rows ≡ c.lg_rows
  pub row_mask : c'.row_mask ≡ c.row_mask
  pub writeable : c'.writeable ≡ c.writeable
  pub penalty : c'.penalty ≡ c.penalty

-- One tag and the state of its row are written, and no other tag or state.
pub record Installs (c c' : Cache) (row : ℕ) (p : LruFsm) (t : Tag) : Type 0 where
  pub tags : (v q : ℕ) → c'.tags v q ≡ (if v == p.way && q == row then t else c.tags v q)
  pub states : (q : ℕ) → c'.states q ≡ (if q == row then p.next_state else c.states q)
  pub shape : SameShape c c'

-- How the four counters move.
pub record Counts (c c' : Cache) (hit write evicts : Bool) : Type 0 where
  pub refs : c'.refs ≡ c.refs + 1
  pub misses : c'.misses ≡ c.misses + (if hit then 0 else 1)
  pub updates : c'.updates ≡ c.updates + (if write then 1 else 0)
  pub evictions : c'.evictions ≡ c.evictions + (if evicts then 1 else 0)

pub SameShape-trans : {c f c' : Cache} → SameShape c f → SameShape f c' → SameShape c c'
SameShape-trans s t = record {
  fsm = t.fsm ∙ s.fsm;
  ways = t.ways ∙ s.ways;
  lg_line = t.lg_line ∙ s.lg_line;
  lg_rows = t.lg_rows ∙ s.lg_rows;
  row_mask = t.row_mask ∙ s.row_mask;
  writeable = t.writeable ∙ s.writeable;
  penalty = t.penalty ∙ s.penalty;
}

pub or_false : (b : Bool) → b || false ≡ b
or_false true = refl
or_false false = refl

-- The end of a lookup, on the cache that the search or the refill leaves.
module _ (c : Cache) (row : ℕ) (p : LruFsm) where
  pub touch-SameShape : (write : Bool) → SameShape c (touch c row p write)
  unfolding touch
  touch-SameShape true = ground arith
  touch-SameShape false = ground arith

  pub touch-Installs :
      (write : Bool)
      → Installs c
          (touch c row p write)
          row
          p
          (record { dirty = write || (c.tags p.way row).dirty; addr = (c.tags p.way row).addr })
  unfolding touch
  touch-Installs true = record {
    tags = λ v q. ground arith;
    states = λ q. refl;
    shape = touch-SameShape true;
  }
  touch-Installs false = record {
    tags = λ v q. ground arith;
    states = λ q. refl;
    shape = touch-SameShape false;
  }

  pub touch-counters :
      (write : Bool)
      → let c' = touch c row p write in
        (c'.refs ≡ c.refs)
        × (c'.misses ≡ c.misses)
        × (c'.updates ≡ c.updates + (if write then 1 else 0))
        × (c'.evictions ≡ c.evictions)
  unfolding touch
  touch-counters true = (refl, refl, refl, refl)
  touch-counters false = (refl, refl, omega arith, refl)

-- A tag that is written first is overwritten by what is installed last.
pub Installs-after_set :
    (c f c' : Cache) (row : ℕ) (p : LruFsm) (first t : Tag)
    → ((v q : ℕ) → f.tags v q ≡ (if v == p.way && q == row then first else c.tags v q))
    → f.states ≡ c.states
    → SameShape c f
    → Installs f c' row p t
    → Installs c c' row p t
Installs-after_set c f c' row p first t tags states shape i = record {
  tags = λ v q. ground (arith, i.tags v q, tags v q);
  states = λ q. i.states q ∙ ap (λ s. if q == row then p.next_state else s q) states;
  shape = SameShape-trans shape i.shape;
}

-- What a refill leaves, and the word that it leaves behind `evicted`.
pub record Refills (c f : Cache) (row : ℕ) (p : LruFsm) (tag : ℕ) (evicts : Bool) : Type 0 where
  pub tags :
      (v q : ℕ)
      → f.tags v q ≡ (
          if v == p.way && q == row
          then record { dirty = false; addr = to_field tag }
          else c.tags v q)
  pub states : f.states ≡ c.states
  pub shape : SameShape c f
  pub refs : f.refs ≡ c.refs
  pub misses : f.misses ≡ c.misses + 1
  pub updates : f.updates ≡ c.updates
  pub evictions : f.evictions ≡ c.evictions + (if evicts then 1 else 0)

module _ (c : Cache) (place row : ℕ) (p : LruFsm) (tag : ℕ) where
  unfoldable pub filled : Cache
  filled = fill c row p.way tag

  pub fill-tags :
      (v q : ℕ)
      → filled.tags v q ≡ (
          if v == p.way && q == row
          then record { dirty = (c.tags p.way row).dirty; addr = to_field tag }
          else c.tags v q)
  unfolding filled fill
  fill-tags v q = refl

  pub fill-tag_self :
      filled.tags p.way row ≡ record { dirty = (c.tags p.way row).dirty; addr = to_field tag }
  unfolding filled fill
  fill-tag_self = ground arith

  pub evicted-Refills : Refills c (evict filled row p.way) row p tag true
  unfolding filled fill evict
  evicted-Refills = record {
    tags = λ v q. ground arith;
    states = refl;
    shape = ground arith;
    refs = refl;
    misses = refl;
    updates = refl;
    evictions = refl;
  }

  pub filled-Refills : (c.tags p.way row).dirty ≡ false → Refills c filled row p tag false
  unfolding filled fill
  filled-Refills d = record {
    tags = λ v q. ground arith;
    states = refl;
    shape = ground arith;
    refs = refl;
    misses = refl;
    updates = refl;
    evictions = omega arith;
  }

  pub refill_dirty :
      (c.tags p.way row).dirty ≡ true
      → c.writeable ≡ true
      → refill c place row p.way tag ≡ some (evict filled row p.way, to_field tag)
  unfolding refill filled
  refill_dirty d w = rw (fill-tag_self) (simp (d, w))

  pub refill_clean :
      (c.tags p.way row).dirty ≡ false
      → refill c place row p.way tag ≡ some (filled, if c.writeable then 0 else place)
  unfolding refill filled
  refill_clean d = rw fill-tag_self (simp d)

  pub refill_fault :
      (c.tags p.way row).dirty ≡ true → c.writeable ≡ false → refill c place row p.way tag ≡ none
  unfolding refill filled
  refill_fault d w = rw fill-tag_self (simp (d, w))
