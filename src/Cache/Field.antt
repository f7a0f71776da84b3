-- ===== src/Cache/Field.antt =====
-- The tags of caveat/cache.h in their 63-bit field.
use native.Mathlib.Nat.{le-mul_of_pos_right, pow-succ', div-lt_iff_lt-mul}
use cavatools.Prelude.{
  ℕ, zero, suc, ◌-◌, ◌*◌, ◌/◌, ◌^◌, ◌<◌, ◌≡◌, arith, ltb, Bool-cases, inl, inr, ◌≤◌,
}
use cavatools.Prelude.Words.{long_mod, long_sign, shr_long, pow_two_pos}
use cavatools.Cache.{to_field}

quotient-lt : (a b k : ℕ) → a < 2 * b → a / 2 ^ suc k < b
quotient-lt a b k h =
    (div-lt_iff_lt-mul (pow_two_pos (suc k))).1 (rw (pow-succ' 2 k) (omega (arith, grow)))
  where
    grow : b ≤ b * 2 ^ k
    grow = le-mul_of_pos_right b (pow_two_pos k)

-- For lines of at least two bytes, the tag of a 64-bit address, negative ones included, is read
-- back from the 63-bit field as it was stored.
pub to_field-shr_long : (w k : ℕ) → w < long_mod → 0 < k → to_field (shr_long w k) ≡ shr_long w k
unfolding to_field shr_long
to_field-shr_long w zero h pos = elim pos [ ]
to_field-shr_long w (suc k) h pos = elim (Bool-cases (ltb w long_sign)) [
  | inl nonneg ↦ rw nonneg (ground (arith, quotient-lt w (2 ^ 62) k))
  | inr negative ↦ rw negative (ground (arith, quotient-lt (long_mod - 1 - w) (2 ^ 62) k))
]
