-- ===== src/Cache/Search.antt =====
-- The search loop of `cache_t::lookup` walks the entries of a row's state in order of recency.

use cavatools.Prelude.{
  ℕ, suc, ◌+◌, ◌<◌, ◌≡◌, refl, ap, List, [], ◌∷◌, map, length, get_or, arith, ◌∙◌, sym,
}
use cavatools.Cache.{Cache, LruFsm, Tag, scan, search_row}
use cavatools.Cache.Recency.{IsState, IsLru}
use cavatools.Cache.Rows.{member, position}

pub length-map {ℓ κ} :
    {A : Type ℓ} {B : Type κ} (f : A → B) (xs : List A) → length (map f xs) ≡ length xs
length-map f [] = refl
length-map f (x ∷ xs) = ap suc (length-map f xs)

module _ (c : Cache) (row tag : ℕ) where
  abbrev pub tags_at : List ℕ → List Tag
  tags_at = map (λ v. c.tags v row)

  -- The entries behind `p` name the ways of the list, in order.
  abbrev Names : ℕ → List ℕ → Type 0
  Names p [] = Unit
  Names p (v ∷ vs) = ((c.fsm (p + 1)).way ≡ v) × Names (p + 1) vs

  scan-position :
      (end p : ℕ) (vs : List ℕ)
      → Names p vs
      → 0 < length vs
      → end ≡ p + length vs
      → scan c row tag end (length vs) p
        ≡ (p + 1 + position tag (tags_at vs), member tag (tags_at vs))
  unfolding scan position member
  scan-position end p [] names h e = elim h [ ]
  scan-position end p (v ∷ []) (here, _) h e = rw here (ground arith)
  scan-position end p (v ∷ w ∷ vs) (here, names) h e =
      rw here (ground (arith, scan-position end (p + 1) (w ∷ vs) names))

  Names-of :
      (p : ℕ) (vs : List ℕ)
      → ((i : ℕ) → i < length vs → (c.fsm (p + 1 + i)).way ≡ get_or vs i 0)
      → Names p vs
  Names-of p [] h = tt
  Names-of p (v ∷ vs) h = (
    ap (λ k. (c.fsm k).way) (omega arith) ∙ h 0 (omega arith),
    Names-of (p + 1) vs (λ i lt. ap (λ k. (c.fsm k).way) (omega arith) ∙ h (suc i) (omega arith)),
  )

  -- In a row whose state is one of the recency table's, the search loop stops at the position of
  -- the first line with the tag in the row's order, and reports a hit; if no line has the tag, it
  -- stops at the last entry and reports a miss.
  pub search_row-position :
      {ways : ℕ} {fsm : ℕ → LruFsm} (law : IsLru ways fsm)
      → c.fsm ≡ fsm
      → c.ways ≡ ways
      → IsState law.count ways (c.states row)
      → let view = tags_at (law.order (c.states row)) in
        search_row c row tag ≡ (c.states row + 1 + position tag view, member tag view)
  unfolding search_row
  search_row-position law same_fsm same_ways valid =
      let s = c.states row in
      let vs = law.order s in
      let size = law.length-order s valid in
      ap (λ n. scan c row tag (s + n) n s) (same_ways ∙ sym size)
      ∙ scan-position (s + length vs) s vs
          (Names-of s vs (λ i lt.
            ap (λ (g : ℕ → LruFsm). (g (s + 1 + i)).way) same_fsm
            ∙ (law.entry s i valid (omega (arith, size))).way_at))
          (omega (arith, size, law.some_way)) refl
