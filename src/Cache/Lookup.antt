-- ===== src/Cache/Lookup.antt =====
-- `cache_t::lookup` step by step: what a hit and a miss write, and when a miss is a SEGV.
use cavatools.Prelude.{
  ℕ, ◌+◌, ◌≡◌, refl, Bool, true, false, ◌||◌, none, some, if◌then◌else◌, subst, ◌⊎◌, inl, inr,
  Bool-cases, arith,
}
use cavatools.Cache.{
  Cache, Tag, LruFsm, to_field, line_of, row_of, search_row, refill, touch, lookup,
}
use cavatools.Cache.Installs.{
  or_false, Installs, Counts, touch-Installs, touch-counters, Installs-after_set, Refills,
  evicted-Refills, filled-Refills, refill_dirty, refill_clean, refill_fault, SameShape-trans,
}

-- The way and the next state that a lookup settles on.
abbrev pub chosen : Cache → ℕ → LruFsm
chosen c addr = c.fsm (search_row c (row_of c addr) (line_of c addr)).0

abbrev pub is_hit : Cache → ℕ → Bool
is_hit c addr = (search_row c (row_of c addr) (line_of c addr)).1

module _ (c : Cache) (place addr : ℕ) (write : Bool) where
  abbrev victim : Tag
  victim = c.tags (chosen c addr).way (row_of c addr)

  pub lookup_hit :
      is_hit c addr ≡ true
      → (c' : Cache) × (lookup c place addr write ≡ some (c', place, true))
        × Installs c c'
            (row_of c addr)
            (chosen c addr)
            (record { dirty = write || victim.dirty; addr = victim.addr })
        × Counts c c' true write false
  unfolding lookup touch
  lookup_hit h =
      let f = record c { refs = c.refs + 1 } in
      (
        touch f (row_of c addr) (chosen c addr) write,
        rw h,
        Installs-after_set c f _ _ _ victim _ (λ v q. ground arith) refl (ground arith)
            (touch-Installs f (row_of c addr) (chosen c addr) write),
        ground arith,
      )

  abbrev counted : Cache
  counted = record c { refs = c.refs + 1 }

  lookup_of_refill :
      (f : Cache) (place' : ℕ) (evicts : Bool)
      → is_hit c addr ≡ false
      → refill counted place (row_of c addr) (chosen c addr).way (line_of c addr) ≡ some (f, place')
      → Refills counted f (row_of c addr) (chosen c addr) (line_of c addr) evicts
      → (c' : Cache) × (lookup c place addr write ≡ some (c', place', false))
        × Installs c c'
            (row_of c addr)
            (chosen c addr)
            (record { dirty = write; addr = to_field (line_of c addr) })
        × Counts c c' false write evicts
  unfolding lookup
  lookup_of_refill f place' evicts h e r = (
    touch f row p write,
    rw (h, e),
    Installs-after_set c f _ row p filled _ r.tags r.states (SameShape-trans (ground arith) r.shape)
        (subst
          (λ d. Installs f (touch f row p write) row p (record { dirty = d; addr = filled.addr }))
          (or_false write) (rw here at (touch-Installs f row p write))),
    ground (arith, touch-counters f row p write),
  )
    where
      row : ℕ
      row = row_of c addr

      p : LruFsm
      p = chosen c addr

      filled : Tag
      filled = record { dirty = false; addr = to_field (line_of c addr) }

      here : f.tags p.way row ≡ filled
      here = ground (arith, r.tags p.way row)

  -- A miss brings the line in, clean unless it is written; `evicted` tells of a dirty victim.
  pub lookup_miss :
      is_hit c addr ≡ false
      → (victim.dirty ≡ false) ⊎ (c.writeable ≡ true)
      → (c' : Cache) × (lookup c place addr write
          ≡ some (
            c',
            if c.writeable then (if victim.dirty then to_field (line_of c addr) else 0) else place,
            false,
          ))
        × Installs c c'
            (row_of c addr)
            (chosen c addr)
            (record { dirty = write; addr = to_field (line_of c addr) })
        × Counts c c' false write victim.dirty
  lookup_miss h allowed = elim (Bool-cases victim.dirty) [
    | inl d ↦
        let w : c.writeable ≡ true = ground arith in
        rw d (
          simp w (
            lookup_of_refill _ _ true h (refill_dirty counted place _ _ _ d w)
              (evicted-Refills counted place _ _ _)))
    | inr d ↦ rw d (
        lookup_of_refill _ _ false h (refill_clean counted place _ _ _ d)
          (filled-Refills counted place _ _ _ d))
  ]

  -- A lookup that misses and would replace a dirty line faults if the cache is not writable.
  pub lookup_fault :
      is_hit c addr ≡ false
      → victim.dirty ≡ true
      → c.writeable ≡ false
      → lookup c place addr write ≡ none
  unfolding lookup
  lookup_fault h d w = rw (h, refill_fault counted place (row_of c addr) (chosen c addr) _ d w)
