-- ===== src/Fast/Operands.antt =====
-- Operands of the cases of uspike/RV.fast: the words that loads read, and the tests of branches.
use cavatools.Prelude.{
  ℕ, zero, suc, ◌+◌, ◌*◌, ◌/◌, ◌^◌, ◌<◌, ◌≡◌, refl, ap, ◌∙◌, true, ltb, arith, inl, inr, Bool-cases,
  ltb→lt,
}
use native.Mathlib.Nat.{div-eq_of_lt, div-eq_of_lt-le}
use cavatools.Mmu.{word, sign_extend}
use cavatools.Fast.Signed.{less_long-slt, pow_split}
use cavatools.Fast.Manual
use cavatools.Fast.Step.{
  Branch, c_beqz, c_bnez, op_beq, op_bne, op_blt, op_bge, op_bltu, op_bgeu, taken,
}

abbrev pub IsBytes : (ℕ → ℕ) → Type 0
IsBytes memory = (a : ℕ) → memory a < 256

pub word-lt : (n : ℕ) (memory : ℕ → ℕ) (a : ℕ) → IsBytes memory → word n memory a < 2 ^ (8 * n)
unfolding word
word-lt zero memory a bytes = omega arith
word-lt (suc n) memory a bytes =
    let more : 2 ^ (8 * suc n) ≡ 256 * 2 ^ (8 * n) =
      ap (λ e. 2 ^ e) (omega arith) ∙ pow_split 8 (8 * n) in
    omega (arith, more, bytes a, word-lt n memory (a + 1) bytes)

pub sign_extend-operand :
    (n w : ℕ) → w < 2 ^ (8 * n) → sign_extend n w ≡ Manual.operand_value (n, true) w
unfolding sign_extend
sign_extend-operand n w lt = elim (Bool-cases (ltb (2 * w) (2 ^ (8 * n)))) [
  | inl positive ↦
      let no_sign : 2 * w / 2 ^ (8 * n) ≡ 0 =
        div-eq_of_lt (ltb→lt (2 * w) (2 ^ (8 * n)) positive) in
      rw (positive, no_sign) (omega arith)
  | inr negative ↦
      let signed : 2 * w / 2 ^ (8 * n) ≡ 1 =
        div-eq_of_lt-le {k = 1} (2 ^ (8 * n)) (ground arith) (omega arith) in
      rw (negative, signed) (omega arith)
]

pub taken-branches_if :
    (op : Branch) (a b : ℕ) → a < 2 ^ 64 → b < 2 ^ 64 → taken op a b ≡ Manual.branches_if op a b
unfolding taken
taken-branches_if c_beqz a b ha hb = refl
taken-branches_if c_bnez a b ha hb = refl
taken-branches_if op_beq a b ha hb = refl
taken-branches_if op_bne a b ha hb = refl
taken-branches_if op_blt a b ha hb = ground (arith, less_long-slt a b ha hb)
taken-branches_if op_bge a b ha hb = ground (arith, less_long-slt a b ha hb)
taken-branches_if op_bltu a b ha hb = ground arith
taken-branches_if op_bgeu a b ha hb = ground arith
