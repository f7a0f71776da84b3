-- ===== src/Fast/Signed.antt =====
-- Signed sums, comparisons and shifts of uspike/RV.fast on patterns.
use cavatools.Prelude.{
  ℕ, zero, suc, ◌+◌, ◌-◌, ◌*◌, ◌/◌, ◌%◌, ◌^◌, ◌≤◌, ◌<◌, ◌≡◌, sym, ap, ◌∙◌, true, ltb, arith, inl,
  inr, Bool-cases,
}
use native.Mathlib.Nat.{
  pow-succ', mod-add-div', mod-lt, div-lt_iff_lt-mul, mul-add-div_right, div-eq_of_lt,
  pow-le-pow_right, add-mul-div_right, div-le_self, le-div_iff_mul-le, mul_comm, mul-sub,
}
use cavatools.Prelude.Words.{shr_long, pow_two_pos}
use cavatools.Mmu.{sign_extend}
use cavatools.Fast.{int32, add_int, sub_int, less_long, bit}
use cavatools.Fast.Isa.{sign, sext, slt, sra}

pub int32-sext : (x : ℕ) → int32 x ≡ sext x
unfolding int32 sext sign_extend
int32-sext x = ground arith

pub add_int-sext : (a b : ℕ) → add_int a b ≡ sext (a + b)
unfolding int32 sext sign_extend
add_int-sext a b = ground arith

pub sub_int-sext : (a b : ℕ) → sub_int a b ≡ sext (a + (2 ^ 32 - b % 2 ^ 32))
unfolding int32 sext sign_extend
sub_int-sext a b = ground arith

pub less_long-slt : (a b : ℕ) → a < 2 ^ 64 → b < 2 ^ 64 → bit (less_long a b) ≡ slt a b
unfolding less_long
less_long-slt a b ha hb = ground arith

pub pow_split : (j k : ℕ) → 2 ^ (j + k) ≡ 2 ^ j * 2 ^ k
pow_split j zero = let none_added : j + 0 ≡ j = omega arith in rw none_added (omega arith)
pow_split j (suc k) =
    let more : j + suc k ≡ suc (j + k) = omega arith in
    rw (more, pow-succ' 2 (j + k), pow_split j k, pow-succ' 2 k) (grind arith)

-- A power of two as a product of two powers.
pub pow_parts : (width k : ℕ) → k ≤ width → 2 ^ (width - k) * 2 ^ k ≡ 2 ^ width
pow_parts width k le = sym (pow_split (width - k) k) ∙ ap (λ e. 2 ^ e) (omega arith)

sum_times : (a q p : ℕ) → (a + q + 1) * p ≡ a * p + q * p + p
sum_times a q p = grind arith

-- The quotient of the complement is the complement of the quotient.
complement_div : (p n w : ℕ) → 0 < p → w < n * p → (n * p - 1 - w) / p ≡ n - 1 - w / p
complement_div p n w pos lt =
    let whole : w % p + w / p * p ≡ w = mod-add-div' w p in
    let small : w % p < p = mod-lt w pos in
    let below : w / p < n = (div-lt_iff_lt-mul pos).1 lt in
    let parts : n * p ≡ (n - 1 - w / p) * p + w / p * p + p =
      ap (λ t. t * p) (omega (arith, below)) ∙ sum_times (n - 1 - w / p) (w / p) p in
    let split : n * p - 1 - w ≡ (n - 1 - w / p) * p + (p - 1 - w % p) =
      omega (arith, whole, small, parts) in
    rw split (
      mul-add-div_right pos (n - 1 - w / p) (p - 1 - w % p)
      ∙ omega (arith, div-eq_of_lt {n = p - 1 - w % p} {m = p} (omega arith)))

pub shr_long-sra : (w k : ℕ) → w < 2 ^ 64 → k < 64 → shr_long w k ≡ sra 64 w k
unfolding shr_long sra
shr_long-sra w k small lt = elim (Bool-cases (ltb w (2 ^ 63))) [
  | inl positive ↦
      let no_sign : sign 64 w ≡ 0 = ground arith in rw (positive, no_sign) (omega arith)
  | inr negative ↦
      let signed : sign 64 w ≡ 1 = ground arith in
      let parts = pow_parts 64 k (omega arith) in
      let n = 2 ^ (64 - k) in
      let inside : w < n * 2 ^ k = omega (arith, parts, small) in
      let shifted : (2 ^ 64 - 1 - w) / 2 ^ k ≡ n - 1 - w / 2 ^ k =
        ap (λ t. (t - 1 - w) / 2 ^ k) (sym parts)
        ∙ complement_div (2 ^ k) n w (pow_two_pos k) inside in
      let below : w / 2 ^ k < n = (div-lt_iff_lt-mul (pow_two_pos k)).1 inside in
      let le : n ≤ 2 ^ 64 =
        pow-le-pow_right {n = 2} (omega arith) {i = 64 - k} {j = 64} (omega arith) in
      rw (negative, signed) (omega (arith, shifted, below, le))
]

-- The same for a word of 32 digits in a long.
sra-positive : (w k : ℕ) → w < 2 ^ 31 → shr_long w k ≡ sext (sra 32 w k)
unfolding shr_long sra sext
sra-positive w k small =
    let no_sign : sign 32 w ≡ 0 = omega arith in
    let le : w / 2 ^ k ≤ w = div-le_self w (2 ^ k) in
    let long : ltb w (2 ^ 63) ≡ true = ground arith in rw (long, no_sign) (omega (arith, le))

sra-negative :
    (w k : ℕ)
    → w < 2 ^ 32
    → 2 ^ 31 ≤ w
    → k < 32
    → shr_long (w + (2 ^ 64 - 2 ^ 32)) k ≡ sext (sra 32 w k)
unfolding sra sext
sra-negative w k small large lt =
    let n64 = 2 ^ (64 - k) in
    let n32 = 2 ^ (32 - k) in
    let n31 = 2 ^ (31 - k) in
    let parts64 = pow_parts 64 k (omega arith) in
    let parts32 = pow_parts 32 k (omega arith) in
    let parts31 = pow_parts 31 k (omega arith) in
    let times : (n64 - n32) * 2 ^ k ≡ 2 ^ 64 - 2 ^ 32 =
      mul_comm (n64 - n32) (2 ^ k)
      ∙ mul-sub (2 ^ k) n64 n32
      ∙ omega (arith, mul_comm (2 ^ k) n64, mul_comm (2 ^ k) n32, parts64, parts32) in
    let quotient : (w + (2 ^ 64 - 2 ^ 32)) / 2 ^ k ≡ w / 2 ^ k + (n64 - n32) =
      ap (λ t. (w + t) / 2 ^ k) (sym times) ∙ add-mul-div_right w (n64 - n32) (pow_two_pos k) in
    let below : w / 2 ^ k < n32 = (div-lt_iff_lt-mul (pow_two_pos k)).1 (omega (arith, parts32)) in
    let above : n31 ≤ w / 2 ^ k = (le-div_iff_mul-le (pow_two_pos k)).1 (omega (arith, parts31)) in
    let double : n32 ≡ 2 * n31 = ap (λ e. 2 ^ e) (omega arith) ∙ pow-succ' 2 (31 - k) in
    let le64 : n64 ≤ 2 ^ 64 =
      pow-le-pow_right {n = 2} (omega arith) {i = 64 - k} {j = 64} (omega arith) in
    let le32 : n32 ≤ 2 ^ 32 =
      pow-le-pow_right {n = 2} (omega arith) {i = 32 - k} {j = 32} (omega arith) in
    let order : n32 ≤ n64 =
      pow-le-pow_right {n = 2} (omega arith) {i = 32 - k} {j = 64 - k} (omega arith) in
    let signed : sign 32 w ≡ 1 = omega arith in
    let signed64 : sign 64 (w + (2 ^ 64 - 2 ^ 32)) ≡ 1 = omega arith in
    shr_long-sra (w + (2 ^ 64 - 2 ^ 32)) k (omega arith) (omega arith)
    ∙ rw (quotient, signed64, signed) (omega (arith, below, above, double, le64, le32, order))

pub shr_int-sra : (x k : ℕ) → k < 32 → shr_long (int32 x) k ≡ sext (sra 32 (x % 2 ^ 32) k)
unfolding int32 sign_extend
shr_int-sra x k lt = elim (Bool-cases (ltb (x % 2 ^ 32) (2 ^ 31))) [
  | inl positive ↦
      let word : int32 x ≡ x % 2 ^ 32 = ground arith in
      ap (λ t. shr_long t k) word ∙ sra-positive (x % 2 ^ 32) k (ground arith)
  | inr negative ↦
      let word : int32 x ≡ x % 2 ^ 32 + (2 ^ 64 - 2 ^ 32) = ground arith in
      ap (λ t. shr_long t k) word ∙ sra-negative (x % 2 ^ 32) k (omega arith) (ground arith) lt
]
