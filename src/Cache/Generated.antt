-- ===== src/Cache/Generated.antt =====
-- The tables that caveat/make_cache writes, for each number of ways that the constructor accepts.
use cavatools.Prelude.{
  every, every_sound, ℕ, zero, suc, ◌+◌, ◌*◌, ◌/◌, ◌%◌, ◌<◌, ◌≤◌, ◌≡◌, ◌≢◌, refl, Bool, true, not,
  ◌&&◌, List, [], ◌∷◌, length, get_or, All, ltb, ◌==◌, arith,
}
use native.Mathlib.Nat.{div-add-mod'}
use cavatools.Cache.{LruFsm}
use cavatools.Cache.Recency.{remove_at, move_front, IsState, IsEntry, IsLru}
use cavatools.Cache.Generator.{
  Key, key_eq, make_cache, transitions, states_of, write_table, array_of,
}

key_eq_sound : (k j : Key) → key_eq k j ≡ true → k ≡ j
unfolding key_eq
key_eq_sound [] [] h = refl
key_eq_sound [] (y ∷ ys) h = cc
key_eq_sound (x ∷ xs) [] h = cc
key_eq_sound (x ∷ xs) (y ∷ ys) h = ground (arith, key_eq_sound xs ys)

all_ne : ℕ → List ℕ → Bool
all_ne w [] = true
all_ne w (v ∷ vs) = not (v == w) && all_ne w vs

all_ne_sound : (w : ℕ) (vs : List ℕ) → all_ne w vs ≡ true → All (λ v. v ≢ w) vs
unfolding all_ne
all_ne_sound w [] h = tt
all_ne_sound w (v ∷ vs) h = (ground arith, all_ne_sound w vs (ground arith))

-- The order that a state stands for: the key of its number.
abbrev order_of : List Key → ℕ → ℕ → Key
order_of keys ways s = get_or keys (s / ways) []

check_entry : List Key → List LruFsm → ℕ → ℕ → ℕ → Bool
unfolding key_eq all_ne
check_entry keys l ways s i =
    let e = array_of l (s + 1 + i) in
    let order = order_of keys ways s in
    (e.way == get_or order i 0)
    && (ltb e.way ways
        && ((e.next_state % ways == 0)
            && (ltb (e.next_state / ways) (length keys)
                && (key_eq (order_of keys ways e.next_state) (move_front 0 i order)
                    && all_ne (get_or order i 0) (remove_at i order)))))

check_state : List Key → List LruFsm → ℕ → ℕ → Bool
unfolding check_entry every
check_state keys l ways k =
    (length (order_of keys ways (k * ways)) == ways)
    && every (check_entry keys l ways (k * ways)) ways

check_table : ℕ → List Key → List LruFsm → Bool
unfolding check_state every
check_table ways keys l =
    ltb 0 ways && (ltb 0 (length keys) && every (check_state keys l ways) (length keys))

IsEntry-of_check :
    (keys : List Key) (l : List LruFsm) (ways s i : ℕ)
    → 0 < ways
    → check_entry keys l ways s i ≡ true
    → IsEntry (array_of l) (order_of keys ways) (length keys) ways s i
unfolding check_entry
IsEntry-of_check keys l ways s i pos h = record {
  way_at = ground arith;
  way_lt = ground arith;
  next_IsState = (e.next_state / ways, ground arith, divides);
  next_order = key_eq_sound _ _ (ground arith);
  alone = all_ne_sound _ _ (ground arith);
}
  where
    e : LruFsm
    e = array_of l (s + 1 + i)

    zero_rest : e.next_state % ways ≡ 0
    zero_rest = ground arith

    divides : e.next_state ≡ e.next_state / ways * ways
    divides = omega (arith, zero_rest, div-add-mod' e.next_state ways)

module _ (ways : ℕ) (keys : List Key) (l : List LruFsm)
    (checked : check_table ways keys l ≡ true) where
  some_way : 0 < ways
  unfolding check_table
  some_way = ground (arith, checked)

  state_checked : (k : ℕ) → k < length keys → check_state keys l ways k ≡ true
  unfolding check_table
  state_checked k h =
      every_sound (check_state keys l ways) (length keys) k h (ground (arith, checked))

  length_checked : (s : ℕ) → IsState (length keys) ways s → length (order_of keys ways s) ≡ ways
  unfolding check_state
  length_checked s (k, h, e) = rw e (ground (arith, state_checked k h))

  IsEntry-checked :
      (s i : ℕ)
      → IsState (length keys) ways s
      → i < ways
      → IsEntry (array_of l) (order_of keys ways) (length keys) ways s i
  unfolding check_state
  IsEntry-checked s i (k, h, e) lt = IsEntry-of_check keys l ways s i some_way (
      rw e (
        every_sound (check_entry keys l ways (k * ways)) ways i lt
          (ground (arith, state_checked k h))))

  IsLru_of_check : IsLru ways (array_of l)
  unfolding check_table
  IsLru_of_check = record {
    count = length keys;
    order = order_of keys ways;
    some_state = ground (arith, checked);
    some_way = some_way;
    length-order = length_checked;
    entry = IsEntry-checked;
  }

abbrev keys_for : ℕ → List Key
keys_for n = states_of (transitions n)

check_made : (n : ℕ) → Bool
unfolding check_table
check_made n = let t = transitions n in check_table n (states_of t) (write_table n t)

made1 : check_made 1 ≡ true
unfolding check_made make_cache
made1 = refl

made2 : check_made 2 ≡ true
unfolding check_made make_cache
made2 = refl

made3 : check_made 3 ≡ true
unfolding check_made make_cache
made3 = refl

made4 : check_made 4 ≡ true
unfolding check_made make_cache
made4 = refl

IsLru_of_made : (n : ℕ) → check_made n ≡ true → IsLru n (array_of (make_cache n))
unfolding check_made make_cache
IsLru_of_made n h = IsLru_of_check n (keys_for n) (write_table n (transitions n)) h

-- For 1 to 4 ways the table that make_cache writes orders the ways by recency: every entry names
-- the way at its position, and leads to the state with that way in front and the rest as before.
pub make_cache-IsLru : (n : ℕ) → 0 < n → n ≤ 4 → IsLru n (array_of (make_cache n))
make_cache-IsLru zero h k = absurd (omega arith)
make_cache-IsLru (suc zero) h k = IsLru_of_made 1 made1
make_cache-IsLru (suc (suc zero)) h k = IsLru_of_made 2 made2
make_cache-IsLru (suc (suc (suc zero))) h k = IsLru_of_made 3 made3
make_cache-IsLru (suc (suc (suc (suc zero)))) h k = IsLru_of_made 4 made4
make_cache-IsLru (suc (suc (suc (suc (suc n))))) h k = absurd (omega arith)
