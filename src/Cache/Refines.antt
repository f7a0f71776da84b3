-- ===== src/Cache/Refines.antt =====
-- A cache of caveat/cache.h seen as a family of least-recently-used rows.
use cavatools.Prelude.{
  ℕ, ◌+◌, ◌-◌, ◌^◌, ◌<◌, ◌≡◌, ◌≢◌, refl, ap, sym, ◌∙◌, Bool, true, false, ◌||◌, List, [], ◌∷◌, map,
  length, get_or, All, ◌==◌, arith, inl, inr, Bool-cases, fun_ext, subst, ap₂,
}
use cavatools.Cache.{Cache, Tag, LruFsm, line_of, row_of, search_row}
use cavatools.Cache.Recency.{
  remove_at, move_front, IsState, IsEntry, IsLru, map-remove_at, get_or-map,
}
use cavatools.Cache.Rows.{
  member, is_dirty, access, position, position-lt-length, remove_at-position_hit,
  remove_at-position_miss,
}
use cavatools.Cache.Search.{length-map, search_row-position}
use cavatools.Cache.Installs.{Installs}
use cavatools.Cache.Lookup.{chosen, is_hit}

-- Off the ways of a list, two ways to read tags agree.
map_agree :
    (f g : ℕ → Tag) (w : ℕ) (vs : List ℕ)
    → ((v : ℕ) → v ≢ w → f v ≡ g v)
    → All (λ v. v ≢ w) vs
    → map f vs ≡ map g vs
map_agree f g w [] h a = refl
map_agree f g w (v ∷ vs) h a = cc (h v a.0, map_agree f g w vs h a.1)

-- An access is what installing at the position of the search amounts to.
pub access_hit :
    (t : ℕ) (write : Bool) (l : List Tag)
    → member t l ≡ true
    → access t write l
      ≡ record { dirty = write || is_dirty t l; addr = t } ∷ remove_at (position t l) l
unfolding access
access_hit t write l h = rw (h, remove_at-position_hit t l h)

pub access_miss :
    (t : ℕ) (write : Bool) (l : List Tag)
    → member t l ≡ false
    → access t write l ≡ record { dirty = write; addr = t } ∷ remove_at (position t l) l
unfolding access
access_miss t write l h = rw (h, remove_at-position_miss t l h)

module _ (ways : ℕ) (fsm : ℕ → LruFsm) (law : IsLru ways fsm) where
  -- A cache over this table. What is not writable holds no dirty line.
  pub record IsValid (c : Cache) : Type 0 where
    pub fsm_is : c.fsm ≡ fsm
    pub ways_is : c.ways ≡ ways
    pub states_are : (r : ℕ) → IsState law.count ways (c.states r)
    pub mask_is : c.row_mask ≡ 2 ^ c.lg_rows - 1
    pub line_pos : 0 < c.lg_line
    pub clean : c.writeable ≡ false → (v r : ℕ) → (c.tags v r).dirty ≡ false

  -- The lines of a row, most recently used first.
  abbrev pub row_view : Cache → ℕ → List Tag
  row_view c r = map (λ v. c.tags v r) (law.order (c.states r))

  module _ (c : Cache) (addr : ℕ) (valid : IsValid c) where
    abbrev r0 : ℕ
    r0 = row_of c addr

    abbrev tag : ℕ
    tag = line_of c addr

    abbrev pos : ℕ
    pos = position tag (row_view c r0)

    pub row_view-pos : 0 < length (row_view c r0)
    row_view-pos =
        let s = c.states r0 in
        let size = law.length-order s (valid.states_are r0) in
        omega (arith, size, length-map (λ v. c.tags v r0) (law.order s), law.some_way)

    pub pos-lt : pos < ways
    pos-lt =
        let s = c.states r0 in
        let size = law.length-order s (valid.states_are r0) in
        let same = length-map (λ v. c.tags v r0) (law.order s) in
        omega (arith, size, same, law.some_way, position-lt-length tag (row_view c r0))

    pub here : IsEntry fsm law.order law.count ways (c.states r0) pos
    here = law.entry (c.states r0) pos (valid.states_are r0) pos-lt

    searched : search_row c r0 tag ≡ (c.states r0 + 1 + pos, member tag (row_view c r0))
    searched = search_row-position c r0 tag law valid.fsm_is valid.ways_is (valid.states_are r0)

    pub chosen_is : chosen c addr ≡ fsm (c.states r0 + 1 + pos)
    chosen_is =
        ap (λ (x : ℕ × Bool). c.fsm x.0) searched
        ∙ ap (λ (g : ℕ → LruFsm). g (c.states r0 + 1 + pos)) valid.fsm_is

    way_is : (chosen c addr).way ≡ get_or (law.order (c.states r0)) pos 0
    way_is = ap (λ (e : LruFsm). e.way) chosen_is ∙ here.way_at

    pub hit_is : is_hit c addr ≡ member tag (row_view c r0)
    hit_is = ap (λ (x : ℕ × Bool). x.1) searched

    -- The tag that the search stops at.
    pub stop_is : c.tags (chosen c addr).way r0 ≡ get_or (row_view c r0) pos (c.tags 0 r0)
    stop_is =
        ap (λ v. c.tags v r0) way_is
        ∙ sym (get_or-map (λ v. c.tags v r0) pos (law.order (c.states r0)) 0)

    -- What installing a tag at the chosen way does to the rows.
    module _ (c' : Cache) (t : Tag) (i : Installs c c' r0 (chosen c addr) t) where
      order_is : law.order (c'.states r0) ≡ move_front 0 pos (law.order (c.states r0))
      order_is = ap law.order (ground (arith, i.states r0, chosen_is)) ∙ here.next_order

      pub row_view_same : row_view c' r0 ≡ t ∷ remove_at pos (row_view c r0)
      row_view_same = ap (map (λ v. c'.tags v r0)) order_is ∙ ap₂ ◌∷◌ front rest
        where
          vs : List ℕ
          vs = law.order (c.states r0)

          w : ℕ
          w = get_or vs pos 0

          front : c'.tags w r0 ≡ t
          front = ground (arith, i.tags w r0, way_is)

          off : (v : ℕ) → v ≢ w → c'.tags v r0 ≡ c.tags v r0
          off v ne = ground (arith, i.tags v r0, way_is)

          rest : map (λ v. c'.tags v r0) (remove_at pos vs) ≡ remove_at pos (row_view c r0)
          rest =
              map_agree (λ v. c'.tags v r0) (λ v. c.tags v r0) w (remove_at pos vs) off here.alone
              ∙ map-remove_at (λ v. c.tags v r0) pos vs

      pub row_view_other : (r : ℕ) → r ≢ r0 → row_view c' r ≡ row_view c r
      row_view_other r h =
          ap (λ s. map (λ v. c'.tags v r) (law.order s)) (ground (arith, i.states r))
          ∙ ap (λ (f : ℕ → Tag). map f (law.order (c.states r)))
              (fun_ext (λ v. ground (arith, i.tags v r)))

      states_still : (r : ℕ) → IsState law.count ways (c'.states r)
      states_still r = elim (Bool-cases (r == r0)) [
        | inl e ↦
            subst (IsState law.count ways) (ground (arith, i.states r, chosen_is)) here.next_IsState
        | inr e ↦ subst (IsState law.count ways) (ground (arith, i.states r)) (valid.states_are r)
      ]

      pub still-IsValid : (c.writeable ≡ false → t.dirty ≡ false) → IsValid c'
      still-IsValid h = record {
        fsm_is = i.shape.fsm ∙ valid.fsm_is;
        ways_is = i.shape.ways ∙ valid.ways_is;
        states_are = states_still;
        mask_is = ground (arith, i.shape.row_mask, i.shape.lg_rows, valid.mask_is);
        line_pos = omega (arith, i.shape.lg_line, valid.line_pos);
        clean = λ w v r.
            let w' : c.writeable ≡ false = sym i.shape.writeable ∙ w in
            ground (arith, i.tags v r, valid.clean w' v r, h w');
      }
