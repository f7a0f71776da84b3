-- ===== src/Cache/Recency.antt =====
-- What the generated tables are relied on for: each state of a row stands for an order of its ways,
-- most recently used first, and the entry for position `i` leads to the order with that way in front.
use cavatools.Prelude.{
  ℕ, zero, suc, ◌+◌, ◌*◌, ◌<◌, ◌≡◌, ◌≢◌, refl, ap, List, [], ◌∷◌, map, length, get_or, All, arith,
}
use cavatools.Cache.{LruFsm}

module _ {ℓ} {A : Type ℓ} where
  abbrev pub remove_at : ℕ → List A → List A
  remove_at i [] = []
  remove_at zero (x ∷ xs) = xs
  remove_at (suc i) (x ∷ xs) = x ∷ remove_at i xs

  -- `cacheHit` of make_cache: `way = new.pop(hit); new.insert(0, way)`.
  abbrev pub move_front : A → ℕ → List A → List A
  move_front d i l = get_or l i d ∷ remove_at i l

  pub length-remove_at :
      (i : ℕ) (l : List A) → i < length l → suc (length (remove_at i l)) ≡ length l
  length-remove_at i [] h = elim h [ ]
  length-remove_at zero (x ∷ xs) h = refl
  length-remove_at (suc i) (x ∷ xs) h = ap suc (length-remove_at i xs (omega arith))

module _ {ℓ κ} {A : Type ℓ} {B : Type κ} (f : A → B) where
  pub map-remove_at : (i : ℕ) (l : List A) → map f (remove_at i l) ≡ remove_at i (map f l)
  map-remove_at i [] = refl
  map-remove_at zero (x ∷ xs) = refl
  map-remove_at (suc i) (x ∷ xs) = ap (◌∷◌ (f x)) (map-remove_at i xs)

  pub get_or-map : (i : ℕ) (l : List A) (d : A) → get_or (map f l) i (f d) ≡ f (get_or l i d)
  get_or-map i [] d = refl
  get_or-map zero (x ∷ xs) d = refl
  get_or-map (suc i) (x ∷ xs) d = get_or-map i xs d

-- A state is stored already multiplied by the ways.
abbrev pub IsState : ℕ → ℕ → ℕ → Type 0
IsState count ways s = (k : ℕ) × (k < count) × (s ≡ k * ways)

-- What one entry of the table is relied on for.
pub record IsEntry (fsm : ℕ → LruFsm) (order : ℕ → List ℕ) (count ways s i : ℕ) : Type 0 where
  pub way_at : (fsm (s + 1 + i)).way ≡ get_or (order s) i 0
  pub way_lt : (fsm (s + 1 + i)).way < ways
  pub next_IsState : IsState count ways (fsm (s + 1 + i)).next_state
  pub next_order : order (fsm (s + 1 + i)).next_state ≡ move_front 0 i (order s)
  pub alone : All (λ v. v ≢ get_or (order s) i 0) (remove_at i (order s))

pub record IsLru (ways : ℕ) (fsm : ℕ → LruFsm) : Type 0 where
  pub count : ℕ
  pub order : ℕ → List ℕ
  pub some_state : 0 < count
  pub some_way : 0 < ways
  pub length-order : (s : ℕ) → IsState count ways s → length (order s) ≡ ways
  pub entry : (s i : ℕ) → IsState count ways s → i < ways → IsEntry fsm order count ways s i
