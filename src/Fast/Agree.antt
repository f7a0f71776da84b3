-- ===== src/Fast/Agree.antt =====
-- The values that uspike/RV.fast writes against the RISC-V manual.
use cavatools.Prelude.{
  ℕ, ◌+◌, ◌*◌, ◌/◌, ◌%◌, ◌^◌, ◌<◌, ◌≡◌, refl, sym, ap, ◌∙◌, Bool, true, false, some, ltb,
  if◌then◌else◌, arith,
}
use native.Mathlib.Nat.{mod-add-div, add-mul-mod_self_left, div-le_self, mod-eq_of_lt}
use cavatools.Prelude.Words.{long_mod, shr_long}
use cavatools.Fast.{
  Alu, c_addi4spn, c_addi, c_addiw, c_li, c_addi16sp, c_lui, c_srli, c_srai, c_andi, c_subw, c_addw,
  c_slli, c_mv, c_add, op_lui, op_auipc, op_addi, op_addiw, op_slti, op_sltiu, op_xori, op_ori,
  op_andi, op_slli, op_srli, op_srai, op_slliw, op_srliw, op_sraiw, op_add, op_sub, op_sll, op_slt,
  op_sltu, op_xor, op_srl, op_sra, op_or, op_and, op_addw, op_subw, op_sllw, op_srlw, op_sraw,
  int32, count_below, alu,
}
use cavatools.Fast.Isa.{sext, sra, result}
use cavatools.Fast.Signed.{add_int-sext, sub_int-sext, less_long-slt, shr_long-sra, shr_int-sra}

-- The count of a shift is below the width.
abbrev pub CountFits : Alu → ℕ → ℕ → Type 0
CountFits c_srli imm r2 = imm < 64
CountFits c_srai imm r2 = imm < 64
CountFits c_slli imm r2 = imm < 64
CountFits op_slli imm r2 = imm < 64
CountFits op_srli imm r2 = imm < 64
CountFits op_srai imm r2 = imm < 64
CountFits op_slliw imm r2 = imm < 32
CountFits op_srliw imm r2 = imm < 32
CountFits op_sraiw imm r2 = imm < 32
CountFits op_sll imm r2 = r2 < 64
CountFits op_srl imm r2 = r2 < 64
CountFits op_sra imm r2 = r2 < 64
CountFits op_sllw imm r2 = r2 % 2 ^ 32 < 32
CountFits op_srlw imm r2 = r2 % 2 ^ 32 < 32
CountFits op_sraw imm r2 = r2 % 2 ^ 32 < 32
CountFits op imm r2 = Unit

-- The cases that leave the upper half of the register zero.
abbrev pub zero_extends : Alu → Bool
zero_extends op_slliw = true
zero_extends op_srliw = true
zero_extends op_sllw = true
zero_extends op_srlw = true
zero_extends op = false

count_below_lem :
    (width k m v w : ℕ) → k < width → k ≡ m → (k ≡ m → v ≡ w) → count_below width k v ≡ some w
count_below_lem width k m v w lt e f =
    let inside : ltb k width ≡ true = ground arith in rw inside (ap some (f e))

sext_low : (v : ℕ) → sext v % 2 ^ 32 ≡ v % 2 ^ 32
unfolding sext
sext_low v = omega arith

spread : (r m q b : ℕ) → (r + m * q) * b ≡ r * b + m * (q * b)
spread r m q b = grind arith

mod_times : (a m b : ℕ) → a % m * b % m ≡ a * b % m
mod_times a m b =
    let whole : a % m + m * (a / m) ≡ a = mod-add-div a m in
    let product : a % m * b + m * (a / m * b) ≡ a * b =
      sym (ap (λ t. t * b) (sym whole) ∙ spread (a % m) m (a / m) b) in
    sym (ap (λ t. t % m) (sym product) ∙ add-mul-mod_self_left (a % m * b) m (a / m * b))

module _ (r1 r2 imm pc : ℕ) (small1 : r1 < 2 ^ 64) (small2 : r2 < 2 ^ 64)
    (small : imm < 2 ^ 64) where
  -- The cases as a result of a shift by a count below its width.
  logical : (k : ℕ) → k < 64 → count_below 64 k (r1 / 2 ^ k) ≡ some (r1 / 2 ^ (k % 64))
  logical k lt = count_below_lem 64 k (k % 64) _ _ lt (omega arith) (λ e. ap (λ j. r1 / 2 ^ j) e)

  left :
      (k : ℕ)
      → k < 64
      → count_below 64 k (r1 * 2 ^ k % long_mod) ≡ some (r1 * 2 ^ (k % 64) % 2 ^ 64)
  left k lt =
      count_below_lem 64 k (k % 64) _ _ lt (omega arith) (λ e. ap (λ j. r1 * 2 ^ j % 2 ^ 64) e)

  arithmetic : (k : ℕ) → k < 64 → count_below 64 k (shr_long r1 k) ≡ some (sra 64 r1 (k % 64))
  arithmetic k lt =
      count_below_lem 64 k (k % 64) _ _ lt (omega arith)
        (λ e. shr_long-sra r1 k small1 lt ∙ ap (sra 64 r1) e)

  left_word :
      (k : ℕ)
      → k < 32
      → count_below 32 k (r1 % 2 ^ 32 * 2 ^ k % 2 ^ 32) ≡ some (sext (r1 * 2 ^ (k % 32)) % 2 ^ 32)
  left_word k lt = count_below_lem 32 k (k % 32) _ _ lt (omega arith) (λ e.
      mod_times r1 (2 ^ 32) (2 ^ k)
      ∙ sym (sext_low (r1 * 2 ^ k))
      ∙ ap (λ j. sext (r1 * 2 ^ j) % 2 ^ 32) e)

  logical_word :
      (k : ℕ)
      → k < 32
      → count_below 32 k (r1 % 2 ^ 32 / 2 ^ k) ≡ some (sext (r1 % 2 ^ 32 / 2 ^ (k % 32)) % 2 ^ 32)
  logical_word k lt = count_below_lem 32 k (k % 32) _ _ lt (omega arith) (λ e.
      sym (mod-eq_of_lt (omega (arith, div-le_self (r1 % 2 ^ 32) (2 ^ k))))
      ∙ sym (sext_low (r1 % 2 ^ 32 / 2 ^ k))
      ∙ ap (λ j. sext (r1 % 2 ^ 32 / 2 ^ j) % 2 ^ 32) e)

  arithmetic_word :
      (k : ℕ)
      → k < 32
      → count_below 32 k (shr_long (int32 r1) k) ≡ some (sext (sra 32 (r1 % 2 ^ 32) (k % 32)))
  arithmetic_word k lt =
      count_below_lem 32 k (k % 32) _ _ lt (omega arith)
        (λ e. shr_int-sra r1 k lt ∙ ap (λ j. sext (sra 32 (r1 % 2 ^ 32) j)) e)

  -- A count is given by its low digits.
  low_count : {A : Type 0} (f : ℕ → A) (k : ℕ) → f (k % 2 ^ 32 % 32) ≡ f (k % 32)
  low_count f k = ap f (omega arith)

  -- For operands of 64 digits and a count of a shift that is below its width, each case writes what the
  -- manual says, but for slliw, srliw, sllw and srlw: these write the low 32 digits of it, with zeros
  -- above them in place of the sign.
  pub alu-result :
      (op : Alu)
      → CountFits op imm r2
      → let value = result op r1 r2 imm pc in
        alu op r1 r2 imm pc ≡ some (if zero_extends op then value % 2 ^ 32 else value)
  unfolding alu result
  alu-result c_addi4spn fits = refl
  alu-result c_addi fits = refl
  alu-result c_addiw fits = ap some (add_int-sext r1 imm)
  alu-result c_li fits = refl
  alu-result c_addi16sp fits = refl
  alu-result c_lui fits = refl
  alu-result c_srli fits = logical imm fits
  alu-result c_srai fits = arithmetic imm fits
  alu-result c_andi fits = refl
  alu-result c_subw fits = ap some (sub_int-sext r1 r2)
  alu-result c_addw fits = ap some (add_int-sext r1 r2)
  alu-result c_slli fits = left imm fits
  alu-result c_mv fits = refl
  alu-result c_add fits = refl
  alu-result op_lui fits = refl
  alu-result op_auipc fits = refl
  alu-result op_addi fits = refl
  alu-result op_addiw fits = ap some (add_int-sext r1 imm)
  alu-result op_slti fits = ap some (less_long-slt r1 imm small1 small)
  alu-result op_sltiu fits = refl
  alu-result op_xori fits = refl
  alu-result op_ori fits = refl
  alu-result op_andi fits = refl
  alu-result op_slli fits = left imm fits
  alu-result op_srli fits = logical imm fits
  alu-result op_srai fits = arithmetic imm fits
  alu-result op_slliw fits = left_word imm fits
  alu-result op_srliw fits = logical_word imm fits
  alu-result op_sraiw fits = arithmetic_word imm fits
  alu-result op_add fits = refl
  alu-result op_sub fits = ap some (omega arith)
  alu-result op_sll fits = left r2 fits
  alu-result op_slt fits = ap some (less_long-slt r1 r2 small1 small2)
  alu-result op_sltu fits = refl
  alu-result op_xor fits = refl
  alu-result op_srl fits = logical r2 fits
  alu-result op_sra fits = arithmetic r2 fits
  alu-result op_or fits = refl
  alu-result op_and fits = refl
  alu-result op_addw fits = ap some (add_int-sext r1 r2)
  alu-result op_subw fits = ap some (sub_int-sext r1 r2)
  alu-result op_sllw fits =
      left_word (r2 % 2 ^ 32) fits ∙ low_count (λ k. some (sext (r1 * 2 ^ k) % 2 ^ 32)) r2
  alu-result op_srlw fits =
      logical_word (r2 % 2 ^ 32) fits
      ∙ low_count (λ k. some (sext (r1 % 2 ^ 32 / 2 ^ k) % 2 ^ 32)) r2
  alu-result op_sraw fits =
      arithmetic_word (r2 % 2 ^ 32) fits ∙ low_count (λ k. some (sext (sra 32 (r1 % 2 ^ 32) k))) r2
