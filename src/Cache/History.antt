-- ===== src/Cache/History.antt =====
-- A cache over a whole run of lookups, against histories of its rows that forget nothing.
use cavatools.Prelude.{
  ℕ, ◌+◌, ◌<◌, ◌≤◌, ◌≡◌, refl, ap, ap₂, ◌∙◌, Bool, true, Option, some, ◌>>=◌, List, [], ◌∷◌, length,
  take, All, if◌then◌else◌, ◌==◌, bit_and, arith, inl, inr, Bool-cases,
}
use cavatools.Prelude.Words.{long_mod, shr_long}
use cavatools.Cache.{Cache, LruFsm, line_of, row_of, lookup}
use cavatools.Cache.Recency.{IsLru}
use cavatools.Cache.Refines.{IsValid, row_view}
use cavatools.Cache.Correct.{Accessed, hits, left_behind, lookup-Accessed}
use cavatools.Cache.Recent.{
  contains, use_line, lines, member-lines, length-use_line-le, lines-access,
}

-- A reference: the address, and whether it writes.
pub record Reference : Type 0 where
  pub addr : ℕ
  pub write : Bool

-- The lookups of a run, with the answers in order.
unfoldable pub run : Cache → ℕ → List Reference → Option (Cache × ℕ × List Bool)
run c place [] = some (c, place, [])
run c place (a ∷ rest) = do
  (c', place', hit) ← lookup c place a.addr a.write
  (c'', place'', hits) ← run c' place' rest
  some (c'', place'', hit ∷ hits)

-- The misses among the answers.
unfoldable pub missed : List Bool → ℕ
missed [] = 0
missed (hit ∷ hits) = (if hit then 0 else 1) + missed hits

-- An unbounded history for each row, and what each reference adds to it.
abbrev pub Histories : Type 0
Histories = ℕ → List ℕ

module _ (ways lg_line row_mask : ℕ) where
  abbrev row_at : ℕ → ℕ
  row_at addr = bit_and (shr_long addr lg_line) row_mask

  unfoldable pub note : Histories → ℕ → Histories
  note h addr r = if r == row_at addr then use_line (shr_long addr lg_line) (h r) else h r

  -- A hit, ideally: the line is among the `ways` most recent ones of its row.
  unfoldable pub ideal : Histories → List Reference → List Bool
  ideal h [] = []
  ideal h (a ∷ rest) =
      contains (shr_long a.addr lg_line) (take ways (h (row_at a.addr)))
      ∷ ideal (note h a.addr) rest

module _ (ways : ℕ) (fsm : ℕ → LruFsm) (law : IsLru ways fsm) where
  pub record Tracks (lg_line row_mask : ℕ) (c : Cache) (h : Histories) : Type 0 where
    pub valid : IsValid ways fsm law c
    pub same_line : c.lg_line ≡ lg_line
    pub same_mask : c.row_mask ≡ row_mask
    pub window : (r : ℕ) → lines (row_view ways fsm law c r) ≡ take ways (h r)
    pub deep : (r : ℕ) → ways ≤ length (h r)

  abbrev pub Allowed : Cache → List Reference → Type 0
  Allowed c = All (λ a. (a.addr < long_mod) × (a.write ≡ true → c.writeable ≡ true))

  module _ (lg_line row_mask : ℕ) where
    -- The cache's own tag and row of an address are those of the history.
    line_same :
        (c : Cache) (h : Histories) (addr : ℕ)
        → Tracks lg_line row_mask c h
        → line_of c addr ≡ shr_long addr lg_line
    unfolding line_of
    line_same c h addr t = ap (shr_long addr) t.same_line

    row_same :
        (c : Cache) (h : Histories) (addr : ℕ)
        → Tracks lg_line row_mask c h
        → row_of c addr ≡ bit_and (shr_long addr lg_line) row_mask
    unfolding row_of
    row_same c h addr t = ap₂ bit_and (line_same c h addr t) t.same_mask

    Tracks-lookup :
        (c c' : Cache) (h : Histories) (a : Reference)
        → Tracks lg_line row_mask c h
        → Accessed ways fsm law c a.addr a.write c'
        → Tracks lg_line row_mask c' (note ways lg_line row_mask h a.addr)
    unfolding note
    Tracks-lookup c c' h a t d = record {
      valid = d.valid;
      same_line = d.shape.lg_line ∙ t.same_line;
      same_mask = d.shape.row_mask ∙ t.same_mask;
      window = λ r. elim (Bool-cases (r == row)) [
        | inl e ↦
            let same : r ≡ row_of c a.addr = ground (arith, row_is) in
            rw (e, same, d.same_row, line_is)
              (lines-access ways (shr_long a.addr lg_line) a.write
                (row_view ways fsm law c (row_of c a.addr)) (h (row_of c a.addr)) law.some_way
                (t.deep (row_of c a.addr)) (t.window (row_of c a.addr)))
        | inr e ↦ rw e (ap lines (d.other_rows r (ground (arith, row_is))) ∙ t.window r)
      ];
      deep = λ r. ground (arith, t.deep r, length-use_line-le (shr_long a.addr lg_line) (h r));
    }
      where
        row : ℕ
        row = bit_and (shr_long a.addr lg_line) row_mask

        row_is : row_of c a.addr ≡ row
        row_is = row_same c h a.addr t

        line_is : line_of c a.addr ≡ shr_long a.addr lg_line
        line_is = line_same c h a.addr t

    hit-contains :
        (c : Cache) (h : Histories) (addr : ℕ)
        → Tracks lg_line row_mask c h
        → hits ways fsm law c addr
          ≡ contains
              (shr_long addr lg_line)
              (take ways (h (bit_and (shr_long addr lg_line) row_mask)))
    hit-contains c h addr t =
        member-lines (line_of c addr) (row_view ways fsm law c (row_of c addr))
        ∙ ap₂ contains (line_same c h addr t)
            (t.window (row_of c addr) ∙ ap (λ r. take ways (h r)) (row_same c h addr t))

    Allowed-shape :
        (c c' : Cache) (refs : List Reference)
        → c'.writeable ≡ c.writeable
        → Allowed c refs
        → Allowed c' refs
    Allowed-shape c c' [] e all = tt
    Allowed-shape c c' (a ∷ rest) e ((range, write), all) =
        ((range, λ w. e ∙ write w), Allowed-shape c c' rest e all)

    -- Every lookup of a run is answered as by an ideal least-recently-used row of `ways` lines.
    pub run-ideal :
        (refs : List Reference) (c : Cache) (place : ℕ) (h : Histories)
        → Tracks lg_line row_mask c h
        → Allowed c refs
        → (c' : Cache) × (place' : ℕ) × (run c place refs
            ≡ some (c', place', ideal ways lg_line row_mask h refs))
          × (c'.refs ≡ c.refs + length refs)
          × (c'.misses ≡ c.misses + missed (ideal ways lg_line row_mask h refs))
    unfolding run ideal missed
    run-ideal [] c place h t all = (c, place, refl, omega arith, omega arith)
    run-ideal (a ∷ rest) c place h t ((range, write), all) =
        let (c', e, d) = lookup-Accessed ways fsm law c place a.addr a.write t.valid range write in
        let (c'', place'', e', refs, misses) =
          run-ideal rest c' (left_behind ways fsm law c place a.addr)
            (note ways lg_line row_mask h a.addr) (Tracks-lookup c c' h a t d)
            (Allowed-shape c c' rest d.shape.writeable all) in
        (
          c'',
          place'',
          rw (e, e')
              (ap
                (λ b. some (
                  c'',
                  place'',
                  b ∷ ideal ways lg_line row_mask (note ways lg_line row_mask h a.addr) rest,
                ))
                (hit-contains c h a.addr t)),
          omega (arith, d.counts.refs, refs),
          rw (← hit-contains c h a.addr t) (omega (arith, d.counts.misses, misses)),
        )
