-- ===== src/Cache/Init.antt =====
-- A cache as the constructor leaves it, and a run of lookups from there.
use cavatools.Prelude.{
  ℕ, zero, suc, ◌-◌, ◌^◌, ◌<◌, ◌≤◌, ◌≡◌, refl, ap, sym, ◌∙◌, Bool, true, false, some, List, [], ◌∷◌,
  map, length, take, replicate, All, arith, subst, ltb,
}
use native.Mathlib.Nat.{pow-le-pow_right}
use cavatools.Prelude.Words.{long_mod, long_sign}
use cavatools.Cache.{Cache, Tag, LruFsm, fresh, shl_one, init}
use cavatools.Cache.Recency.{IsState, IsLru}
use cavatools.Cache.Recent.{lines}
use cavatools.Cache.History.{Reference, Histories, Tracks, run, ideal, missed, run-ideal}

map-constant : (x : Tag) (l : List ℕ) → map (λ v. x) l ≡ replicate (length l) x
map-constant x [] = refl
map-constant x (v ∷ l) = ap (◌∷◌ x) (map-constant x l)

lines-replicate : (n : ℕ) (x : Tag) → lines (replicate n x) ≡ replicate n x.addr
lines-replicate zero x = refl
lines-replicate (suc n) x = ap (◌∷◌ x.addr) (lines-replicate n x)

take-replicate : (n : ℕ) → take n (replicate {A = ℕ} n 0) ≡ replicate n 0
take-replicate zero = refl
take-replicate (suc n) = ap (◌∷◌ 0) (take-replicate n)

length-replicate : (n : ℕ) → length (replicate {A = ℕ} n 0) ≡ n
length-replicate zero = refl
length-replicate (suc n) = ap suc (length-replicate n)

shl_one-small : (n : ℕ) → n < 31 → shl_one n ≡ some (2 ^ n)
unfolding shl_one
shl_one-small n lt = ground arith

rows_fit : (n : ℕ) → n < 31 → ltb (2 ^ n) long_sign ≡ true
rows_fit n lt =
    let below : 2 ^ n ≤ 2 ^ 31 =
      pow-le-pow_right {n = 2} (omega arith) {i = n} {j = 31} (omega arith) in
    ground (arith, below)

-- After a flush each row holds line 0 in every way.
abbrev pub flushed : ℕ → Histories
flushed ways r = replicate ways 0

module _ (tables : ℕ → ℕ → LruFsm) (ways : ℕ) (law : IsLru ways (tables ways)) where
  -- The constructor makes a cache that answers as an ideal one from the flushed rows on.
  pub init-Tracks :
      (miss lin row : ℕ) (writeable : Bool)
      → ways ≤ 4
      → 0 < lin
      → lin < 31
      → row < 31
      → (c : Cache) × (init tables miss ways lin row writeable ≡ some c)
        × Tracks ways (tables ways) law lin (2 ^ row - 1) c (flushed ways)
        × (c.writeable ≡ writeable)
        × (c.refs ≡ 0)
        × (c.misses ≡ 0)
        × (c.penalty ≡ miss)
  unfolding init
  init-Tracks miss lin row writeable few pos lin_small row_small = (
    fresh tables miss ways lin row (2 ^ lin) (2 ^ row) writeable,
    rw (shl_one-small lin lin_small, shl_one-small row row_small, rows_fit row row_small)
        (ground (arith, law.some_way)),
    record {
      valid = record {
        fsm_is = refl;
        ways_is = refl;
        states_are = λ r. at_zero;
        mask_is = refl;
        line_pos = pos;
        clean = λ w v r. refl;
      };
      same_line = refl;
      same_mask = refl;
      window = λ r.
          ap lines (map-constant cleared (law.order 0))
          ∙ lines-replicate (length (law.order 0)) cleared
          ∙ ap (λ n. replicate n 0) (law.length-order 0 at_zero)
          ∙ sym (take-replicate ways);
      deep = λ r. omega (arith, length-replicate ways);
    },
    refl,
    refl,
    refl,
    refl,
  )
    where
      at_zero : IsState law.count ways 0
      at_zero = (0, law.some_state, omega arith)

      cleared : Tag
      cleared = record { dirty = false; addr = 0 }

  -- Over a recency table of at most four ways, with lines of 2 to 2^30 bytes and at most 2^30 rows:
  -- from the constructor on, a run of references within the address space, with no write to a
  -- cache that is not writable, never faults, and each lookup hits exactly when its line is among
  -- the `ways` most recent ones of its row (a new row counts as `ways` uses of line 0). The
  -- counters end at the number of references and of the misses among them.
  pub run-init-ideal :
      (miss lin row : ℕ) (writeable : Bool) (place : ℕ) (refs : List Reference)
      → ways ≤ 4
      → 0 < lin
      → lin < 31
      → row < 31
      → All (λ a. (a.addr < long_mod) × (a.write ≡ true → writeable ≡ true)) refs
      → let answers = ideal ways lin (2 ^ row - 1) (flushed ways) refs in
        (c c' : Cache) × (place' : ℕ) × (init tables miss ways lin row writeable ≡ some c)
        × (run c place refs ≡ some (c', place', answers))
        × (c'.refs ≡ length refs)
        × (c'.misses ≡ missed answers)
  run-init-ideal miss lin row writeable place refs few pos lin_small row_small all =
      let (c, made, t, w, r, m, _) =
        init-Tracks miss lin row writeable few pos lin_small row_small in
      let (c', place', e, r', m') =
        run-ideal ways (tables ways) law lin (2 ^ row - 1) refs c place (flushed ways) t (
          subst
            (λ b. All (λ (a : Reference). (a.addr < long_mod) × (a.write ≡ true → b ≡ true)) refs)
            (sym w) all) in
      (c, c', place', made, e, omega (arith, r, r'), omega (arith, m, m'))
