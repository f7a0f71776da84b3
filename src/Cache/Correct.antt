-- ===== src/Cache/Correct.antt =====
-- What a lookup guarantees, in the terms of the rows alone.
use cavatools.Prelude.{
  ℕ, ◌<◌, ◌≡◌, ◌≢◌, ap, sym, ◌∙◌, Bool, true, false, not, ◌&&◌, ◌||◌, some, List, ◌∷◌,
  if◌then◌else◌, arith, ◌⊎◌, inl, inr, Bool-cases,
}
use cavatools.Prelude.Words.{long_mod}
use cavatools.Cache.{Cache, Tag, LruFsm, to_field, line_of, row_of, lookup}
use cavatools.Cache.Recency.{IsLru, remove_at}
use cavatools.Cache.Rows.{
  member, is_dirty, last_dirty, access, position, get_or-position, get_or-position_miss,
}
use cavatools.Cache.Field.{to_field-shr_long}
use cavatools.Cache.Installs.{SameShape, Installs, Counts}
use cavatools.Cache.Lookup.{chosen, lookup_hit, lookup_miss}
use cavatools.Cache.Refines.{
  IsValid, row_view, row_view-pos, access_hit, access_miss, hit_is, stop_is, row_view_same,
  row_view_other, still-IsValid,
}

-- The tag and the row of an address in terms of the rows alone.
module _ (ways : ℕ) (fsm : ℕ → LruFsm) (law : IsLru ways fsm) where
  abbrev pub view_at : Cache → ℕ → List Tag
  view_at c addr = row_view ways fsm law c (row_of c addr)

  abbrev pub hits : Cache → ℕ → Bool
  hits c addr = member (line_of c addr) (view_at c addr)

  abbrev pub evicts : Cache → ℕ → Bool
  evicts c addr = not (hits c addr) && last_dirty (view_at c addr)

  pub record Accessed (c : Cache) (addr : ℕ) (write : Bool) (c' : Cache) : Type 0 where
    pub valid : IsValid ways fsm law c'
    pub shape : SameShape c c'
    pub same_row :
        row_view ways fsm law c' (row_of c addr) ≡ access (line_of c addr) write (view_at c addr)
    pub other_rows :
        (r : ℕ) → r ≢ row_of c addr → row_view ways fsm law c' r ≡ row_view ways fsm law c r
    pub counts : Counts c c' (hits c addr) write (evicts c addr)

  -- The word behind `evicted` after a lookup.
  abbrev pub left_behind : Cache → ℕ → ℕ → ℕ
  left_behind c place addr =
      if hits c addr
      then place
      else if c.writeable
      then (if last_dirty (view_at c addr) then line_of c addr else 0)
      else place

  module _ (c : Cache) (place addr : ℕ) (write : Bool) (valid : IsValid ways fsm law c) where
    field_kept : addr < long_mod → to_field (line_of c addr) ≡ line_of c addr
    unfolding line_of
    field_kept h = to_field-shr_long addr c.lg_line h valid.line_pos

    abbrev l : List Tag
    l = view_at c addr

    abbrev tag : ℕ
    tag = line_of c addr

    -- The result of a lookup that installs the tag of an access.
    accessed :
        (c' : Cache) (t : Tag)
        → t ∷ remove_at (position tag l) l ≡ access tag write l
        → (c.writeable ≡ false → t.dirty ≡ false)
        → Installs c c' (row_of c addr) (chosen c addr) t
        → Counts c c' (hits c addr) write (evicts c addr)
        → Accessed c addr write c'
    accessed c' t e clean i counts = record {
      valid = still-IsValid ways fsm law c addr valid c' t i clean;
      shape = i.shape;
      same_row = row_view_same ways fsm law c addr valid c' t i ∙ e;
      other_rows = row_view_other ways fsm law c addr valid c' t i;
      counts = counts;
    }

    -- Where nothing is written and the old tag is clean, so is the new one.
    stays_clean :
        (old : Bool)
        → (write ≡ true → c.writeable ≡ true)
        → (c.writeable ≡ false → old ≡ false)
        → c.writeable ≡ false
        → write || old ≡ false
    stays_clean old allowed clean w = ground (arith, allowed, clean w)

    old_clean : c.writeable ≡ false → (c.tags (chosen c addr).way (row_of c addr)).dirty ≡ false
    old_clean w = valid.clean w (chosen c addr).way (row_of c addr)

    module _ (allowed : write ≡ true → c.writeable ≡ true) where
      hit-Accessed :
          hits c addr ≡ true
          → (c' : Cache) × (lookup c place addr write ≡ some (c', place, true))
            × Accessed c addr write c'
      hit-Accessed h =
          let (c', e, i, counts) =
            lookup_hit c place addr write (hit_is ways fsm law c addr valid ∙ h) in
          (
            c',
            e,
            accessed c' _ (sym (access_hit tag write l h))
                (stays_clean (is_dirty tag l) allowed
                  (λ w. ap (λ (t : Tag). t.dirty) (sym stop) ∙ old_clean w))
                (rw stop at i) (rw h counts),
          )
        where
          stop :
              c.tags (chosen c addr).way (row_of c addr)
              ≡ record { dirty = is_dirty tag l; addr = tag }
          stop = stop_is ways fsm law c addr valid ∙ get_or-position tag _ l h

      miss-Accessed :
          addr < long_mod
          → hits c addr ≡ false
          → (c' : Cache) × (lookup c place addr write
              ≡ some (c', if c.writeable then (if last_dirty l then tag else 0) else place, false))
            × Accessed c addr write c'
      miss-Accessed range h =
          let (c', e, i, counts) =
            lookup_miss c place addr write (hit_is ways fsm law c addr valid ∙ h) replaceable in
          (
            c',
            e ∙ ap (λ p. some (c', p, false)) word,
            accessed c' _ entry (λ w. ground (arith, allowed)) i (rw h (rw dirty_is at counts)),
          )
        where
          dirty_is : (c.tags (chosen c addr).way (row_of c addr)).dirty ≡ last_dirty l
          dirty_is =
              ap (λ (t : Tag). t.dirty) (stop_is ways fsm law c addr valid)
              ∙ get_or-position_miss tag _ l (row_view-pos ways fsm law c addr valid) h

          replaceable :
              ((c.tags (chosen c addr).way (row_of c addr)).dirty ≡ false) ⊎ (c.writeable ≡ true)
          replaceable = elim (Bool-cases c.writeable) [ inl w ↦ inr w | inr w ↦ inl (old_clean w) ]

          word :
              (if c.writeable
                then (if (c.tags (chosen c addr).way (row_of c addr)).dirty
                    then to_field (line_of c addr)
                    else 0)
                else place)
              ≡ (if c.writeable then (if last_dirty l then tag else 0) else place)
          word = rw (dirty_is, field_kept range)

          entry :
              record { dirty = write; addr = to_field (line_of c addr) }
                ∷ remove_at (position tag l) l
              ≡ access tag write l
          entry = rw (field_kept range) (sym (access_miss tag write l h))

    -- In a valid cache over a recency table, the lookup of a 64-bit address, with no write to a
    -- cache that is not writable, does not fault. It answers whether the row holds the line of the
    -- address; the row then has that line in front, dirty if it is written or was dirty, the rest
    -- in order, and at a miss without the least recent line; the other rows and the parameters are
    -- unchanged; the cache stays valid; and references, misses, updates and evictions count what
    -- happened. The word behind `evicted` becomes at a miss of a writable cache the tag of the line
    -- that is brought in, if the replaced line was dirty, and else 0.
    pub lookup-Accessed :
        addr < long_mod
        → (write ≡ true → c.writeable ≡ true)
        → (c' : Cache) × (lookup c place addr write
            ≡ some (c', left_behind c place addr, hits c addr))
          × Accessed c addr write c'
    lookup-Accessed range allowed = elim (Bool-cases (hits c addr)) [
      | inl h ↦ rw h (hit-Accessed allowed h)
      | inr h ↦ rw h (miss-Accessed allowed range h)
    ]
