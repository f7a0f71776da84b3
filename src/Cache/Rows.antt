-- ===== src/Cache/Rows.antt =====
-- A row of the cache as a list of its tags, most recently used first: what a search of the list
-- finds, and what an access makes of it.
use cavatools.Prelude.{
  ℕ, suc, ◌<◌, ◌≡◌, refl, Bool, true, false, ◌||◌, List, [], ◌∷◌, length, get_or, ◌==◌,
  if◌then◌else◌, arith,
}
use cavatools.Cache.{Tag}
use cavatools.Cache.Recency.{remove_at}

-- Is the line with this tag in the row?
unfoldable pub member : ℕ → List Tag → Bool
member t [] = false
member t (x ∷ l) = t == x.addr || member t l

unfoldable pub is_dirty : ℕ → List Tag → Bool
is_dirty t [] = false
is_dirty t (x ∷ l) = if t == x.addr then x.dirty else is_dirty t l

-- The row without its most recent entry for the tag.
unfoldable pub take_out : ℕ → List Tag → List Tag
take_out t [] = []
take_out t (x ∷ l) = if t == x.addr then l else x ∷ take_out t l

-- The row without its least recently used entry.
unfoldable pub drop_last : List Tag → List Tag
drop_last [] = []
drop_last (x ∷ []) = []
drop_last (x ∷ y ∷ l) = x ∷ drop_last (y ∷ l)

-- Is the line dirty that would give way?
unfoldable pub last_dirty : List Tag → Bool
last_dirty [] = false
last_dirty (x ∷ []) = x.dirty
last_dirty (x ∷ y ∷ l) = last_dirty (y ∷ l)

-- One access to a row, as least-recently-used replacement is specified: a line that is there moves
-- to the front, and else the last line gives way; a write makes the line dirty.
unfoldable pub access : ℕ → Bool → List Tag → List Tag
access t write l =
    if member t l
    then record { dirty = write || is_dirty t l; addr = t } ∷ take_out t l
    else record { dirty = write; addr = t } ∷ drop_last l

-- Where a search stops: at the first entry with the tag, and else at the last entry.
unfoldable pub position : ℕ → List Tag → ℕ
position t [] = 0
position t (x ∷ []) = 0
position t (x ∷ y ∷ l) = if t == x.addr then 0 else suc (position t (y ∷ l))

pub position-lt-length : (t : ℕ) (l : List Tag) → 0 < length l → position t l < length l
unfolding position
position-lt-length t [] h = elim h [ ]
position-lt-length t (x ∷ []) h = omega arith
position-lt-length t (x ∷ y ∷ l) h = ground (arith, position-lt-length t (y ∷ l))

-- At a hit the search stops at the entry.
module _ (t : ℕ) (d : Tag) where
  pub get_or-position :
      (l : List Tag)
      → member t l ≡ true
      → get_or l (position t l) d ≡ record { dirty = is_dirty t l; addr = t }
  unfolding position member is_dirty
  get_or-position [] h = cc
  get_or-position (x ∷ []) h = ground arith
  get_or-position (x ∷ y ∷ l) h = ground (arith, get_or-position (y ∷ l))

  pub get_or-position_miss :
      (l : List Tag)
      → 0 < length l
      → member t l ≡ false
      → (get_or l (position t l) d).dirty ≡ last_dirty l
  unfolding position member last_dirty
  get_or-position_miss [] h m = elim h [ ]
  get_or-position_miss (x ∷ []) h m = refl
  get_or-position_miss (x ∷ y ∷ l) h m = ground (arith, get_or-position_miss (y ∷ l))

pub remove_at-position_hit :
    (t : ℕ) (l : List Tag) → member t l ≡ true → remove_at (position t l) l ≡ take_out t l
unfolding position member take_out
remove_at-position_hit t [] h = cc
remove_at-position_hit t (x ∷ []) h = ground arith
remove_at-position_hit t (x ∷ y ∷ l) h = ground (arith, remove_at-position_hit t (y ∷ l))

pub remove_at-position_miss :
    (t : ℕ) (l : List Tag) → member t l ≡ false → remove_at (position t l) l ≡ drop_last l
unfolding position member drop_last
remove_at-position_miss t [] h = refl
remove_at-position_miss t (x ∷ []) h = refl
remove_at-position_miss t (x ∷ y ∷ l) h = ground (arith, remove_at-position_miss t (y ∷ l))
