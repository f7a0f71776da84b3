-- ===== src/Prelude/Words.antt =====
-- Machine words as native numbers. A `long` is its 64-bit pattern, and an `&` with a mask of ones
-- is a remainder.
use Prim.Native.Nat.{
  ℕ, zero, suc, ◌+◌, ◌-◌, ◌*◌, ◌/◌, ◌%◌, ◌^◌, ◌≤◌, ◌<◌, min, bit_and, digits, bit_and-bitwise,
}
use mathlib.Core.Path.{◌≡◌, refl, ap, sym, ◌∙◌}
use native.Mathlib.Omega.{arith}
use native.Mathlib.Nat.{
  pow-succ', one-le-pow, mod-lt, mod-eq_of_lt, add-mul-mod_self_left, mod-add-div, mod-one,
  zero-mod,
}
use cavatools.Prelude.Tests.{ltb, if◌then◌else◌}

abbrev pub long_mod : ℕ
long_mod = 2 ^ 64

abbrev pub long_sign : ℕ
long_sign = 2 ^ 63

-- `w >> k` of a signed long: of a negative word the complement is shifted.
unfoldable pub shr_long : ℕ → ℕ → ℕ
shr_long w k = if ltb w long_sign then w / 2 ^ k else long_mod - 1 - (long_mod - 1 - w) / 2 ^ k

pub pow_two_pos : (k : ℕ) → 0 < 2 ^ k
pow_two_pos k = one-le-pow k 2 (omega arith)

-- Twice the modulus: one binary digit more is kept.
mod_double : (a m : ℕ) → 0 < m → a % (2 * m) ≡ a / 2 % m * 2 + a % 2
mod_double a m pos =
    let rem : ℕ = a / 2 % m * 2 + a % 2 in
    let whole : rem + 2 * m * (a / 2 / m) ≡ a = omega (arith, mod-add-div (a / 2) m) in
    let small : rem % (2 * m) ≡ rem = mod-eq_of_lt (omega (arith, mod-lt (a / 2) pos)) in
    sym (ap (λ x. x % (2 * m)) whole) ∙ add-mul-mod_self_left rem (2 * m) (a / 2 / m) ∙ small

abbrev and_digits : ℕ → ℕ → ℕ → ℕ
and_digits n a b = digits (λ b. zero) min n a b

and_digits-zero : (n a : ℕ) → and_digits n a 0 ≡ 0
and_digits-zero zero a = refl
and_digits-zero (suc n) zero = refl
and_digits-zero (suc n) (suc a) = omega (arith, and_digits-zero n (suc a / 2))

mask_half : (k : ℕ) → (2 ^ suc k - 1) / 2 ≡ 2 ^ k - 1
mask_half k = omega (arith, pow-succ' 2 k, pow_two_pos k)

mask_odd : (k : ℕ) → (2 ^ suc k - 1) % 2 ≡ 1
mask_odd k = omega (arith, pow-succ' 2 k, pow_two_pos k)

and_digits-mask : (n a k : ℕ) → a ≤ n → and_digits n a (2 ^ k - 1) ≡ a % 2 ^ k
and_digits-mask n a zero h = and_digits-zero n a ∙ sym (mod-one a)
and_digits-mask zero zero (suc k) h = sym (zero-mod (2 ^ suc k))
and_digits-mask zero (suc a) (suc k) h = absurd (omega arith)
and_digits-mask (suc n) zero (suc k) h = sym (zero-mod (2 ^ suc k))
and_digits-mask (suc n) (suc a) (suc k) h =
    rw (mask_half k, mask_odd k, pow-succ' 2 k, mod_double (suc a) (2 ^ k) (pow_two_pos k))
      (omega (arith, and_digits-mask n (suc a / 2) k (omega arith)))

-- `a & (2^k - 1)` keeps the k low digits.
pub bit_and-mask : (a k : ℕ) → bit_and a (2 ^ k - 1) ≡ a % 2 ^ k
bit_and-mask a k = bit_and-bitwise a (2 ^ k - 1) ∙ and_digits-mask a a k (omega arith)
