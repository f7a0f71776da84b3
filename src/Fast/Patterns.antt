-- ===== src/Fast/Patterns.antt =====
-- The results in Fast/Isa are 64-bit patterns.
use Prim.Native.Nat.{digits, differ, bit_and-bitwise, bit_or-bitwise, bit_xor-bitwise, max}
use native.Mathlib.Nat.{pow-succ', div-le_self, div-lt_iff_lt-mul, one-le-pow}
use cavatools.Prelude.{
  ℕ, zero, suc, ◌+◌, ◌-◌, ◌*◌, ◌/◌, ◌%◌, ◌^◌, ◌≤◌, ◌<◌, ◌≡◌, min, bit_and, bit_or, bit_xor, arith,
}
use cavatools.Fast.{
  Alu, c_addi4spn, c_addi, c_addiw, c_li, c_addi16sp, c_lui, c_srli, c_srai, c_andi, c_subw, c_addw,
  c_slli, c_mv, c_add, op_lui, op_auipc, op_addi, op_addiw, op_slti, op_sltiu, op_xori, op_ori,
  op_andi, op_slli, op_srli, op_srai, op_slliw, op_srliw, op_sraiw, op_add, op_sub, op_sll, op_slt,
  op_sltu, op_xor, op_srl, op_sra, op_or, op_and, op_addw, op_subw, op_sllw, op_srlw, op_sraw,
}
use cavatools.Fast.Isa.{sign, sext, sra, slt, sltu, sll, result}
use cavatools.Fast.Signed.{pow_parts}

-- An operation on digits has no more digits than its operands.
digits-lt :
    (z : ℕ → ℕ) (f : ℕ → ℕ → ℕ)
    → ((b : ℕ) → z b ≤ b)
    → ((a b : ℕ) → f (a % 2) (b % 2) ≤ 1)
    → (n a b k : ℕ) → a < 2 ^ k
    → b < 2 ^ k
    → digits z f n a b < 2 ^ k
digits-lt z f hz hf zero a b k la lb = omega (arith, hz b)
digits-lt z f hz hf (suc n) zero b k la lb = omega (arith, hz b)
digits-lt z f hz hf (suc n) (suc a) b zero la lb = absurd (omega arith)
digits-lt z f hz hf (suc n) (suc a) b (suc k) la lb =
    let more : 2 ^ suc k ≡ 2 * 2 ^ k = pow-succ' 2 k in
    let rest =
      digits-lt z f hz hf n (suc a / 2) (b / 2) k (omega (arith, more)) (omega (arith, more)) in
    omega (arith, more, rest, hf (suc a) b)

differ-le : (x y : ℕ) → x ≤ 1 → y ≤ 1 → differ x y ≤ 1
differ-le zero y hx hy = hy
differ-le (suc x) zero hx hy = hx
differ-le (suc x) (suc zero) hx hy = differ-le x zero (omega arith) (omega arith)
differ-le (suc x) (suc (suc y)) hx hy = absurd (omega arith)

bit_and-lt : (a b : ℕ) → a < 2 ^ 64 → b < 2 ^ 64 → bit_and a b < 2 ^ 64
bit_and-lt a b la lb = omega (
  arith,
  bit_and-bitwise a b,
  digits-lt (λ b. zero) min (λ b. omega arith) (λ a b. omega arith) a a b 64 la lb,
)

bit_or-lt : (a b : ℕ) → a < 2 ^ 64 → b < 2 ^ 64 → bit_or a b < 2 ^ 64
bit_or-lt a b la lb = omega (
  arith,
  bit_or-bitwise a b,
  digits-lt (λ b. b) max (λ b. omega arith) (λ a b. omega arith) a a b 64 la lb,
)

bit_xor-lt : (a b : ℕ) → a < 2 ^ 64 → b < 2 ^ 64 → bit_xor a b < 2 ^ 64
bit_xor-lt a b la lb = omega (
  arith,
  bit_xor-bitwise a b,
  digits-lt (λ b. b) differ (λ b. omega arith)
      (λ a b. differ-le (a % 2) (b % 2) (omega arith) (omega arith)) a a b 64 la lb,
)

sext-lt : (w : ℕ) → sext w < 2 ^ 64
unfolding sext
sext-lt w = omega arith

div-small : (w k : ℕ) → w < 2 ^ 64 → w / 2 ^ k < 2 ^ 64
div-small w k h = omega (arith, div-le_self w (2 ^ k))

times_bit : (m s : ℕ) → s < 2 → m * s ≤ m
times_bit m zero h = omega arith
times_bit m (suc zero) h = omega arith
times_bit m (suc (suc s)) h = absurd (omega arith)

le_times : (p q : ℕ) → 1 ≤ q → p ≤ p * q
le_times p zero h = absurd (omega arith)
le_times p (suc q) h = grind arith

sra-lt : (w k : ℕ) → w < 2 ^ 64 → sra 64 w (k % 64) < 2 ^ 64
unfolding sra
sra-lt w k h =
    let j = k % 64 in
    let parts : 2 ^ (64 - j) * 2 ^ j ≡ 2 ^ 64 = pow_parts 64 j (omega arith) in
    let some_count : 1 ≤ 2 ^ j = one-le-pow j 2 (omega arith) in
    let shifted : w / 2 ^ j < 2 ^ (64 - j) =
      (div-lt_iff_lt-mul some_count).1 (omega (arith, parts, h)) in
    let below : 2 ^ (64 - j) ≤ 2 ^ 64 =
      omega (arith, le_times (2 ^ (64 - j)) (2 ^ j) some_count, parts) in
    omega (arith, shifted, below, times_bit (2 ^ 64 - 2 ^ (64 - j)) (sign 64 w) (omega arith))

slt-lt : (a b : ℕ) → slt a b < 2 ^ 64
slt-lt a b = ground arith

sltu-lt : (a b : ℕ) → sltu a b < 2 ^ 64
sltu-lt a b = ground arith

sll-lt : (w k : ℕ) → sll 64 w k < 2 ^ 64
sll-lt w k = omega arith

-- With operands of 64 digits, a result has 64 digits.
pub result-lt :
    (op : Alu) (r1 r2 imm pc : ℕ)
    → r1 < 2 ^ 64
    → r2 < 2 ^ 64
    → imm < 2 ^ 64
    → result op r1 r2 imm pc < 2 ^ 64
unfolding result
result-lt c_addi4spn r1 r2 imm pc small1 small2 small = omega arith
result-lt c_addi r1 r2 imm pc small1 small2 small = omega arith
result-lt c_addiw r1 r2 imm pc small1 small2 small = sext-lt (r1 + imm)
result-lt c_li r1 r2 imm pc small1 small2 small = small
result-lt c_addi16sp r1 r2 imm pc small1 small2 small = omega arith
result-lt c_lui r1 r2 imm pc small1 small2 small = small
result-lt c_srli r1 r2 imm pc small1 small2 small = div-small r1 (imm % 64) small1
result-lt c_srai r1 r2 imm pc small1 small2 small = sra-lt r1 imm small1
result-lt c_andi r1 r2 imm pc small1 small2 small = bit_and-lt r1 imm small1 small
result-lt c_subw r1 r2 imm pc small1 small2 small = sext-lt (r1 + (2 ^ 32 - r2 % 2 ^ 32))
result-lt c_addw r1 r2 imm pc small1 small2 small = sext-lt (r1 + r2)
result-lt c_slli r1 r2 imm pc small1 small2 small = sll-lt r1 (imm % 64)
result-lt c_mv r1 r2 imm pc small1 small2 small = small2
result-lt c_add r1 r2 imm pc small1 small2 small = omega arith
result-lt op_lui r1 r2 imm pc small1 small2 small = small
result-lt op_auipc r1 r2 imm pc small1 small2 small = omega arith
result-lt op_addi r1 r2 imm pc small1 small2 small = omega arith
result-lt op_addiw r1 r2 imm pc small1 small2 small = sext-lt (r1 + imm)
result-lt op_slti r1 r2 imm pc small1 small2 small = slt-lt r1 imm
result-lt op_sltiu r1 r2 imm pc small1 small2 small = sltu-lt r1 imm
result-lt op_xori r1 r2 imm pc small1 small2 small = bit_xor-lt r1 imm small1 small
result-lt op_ori r1 r2 imm pc small1 small2 small = bit_or-lt r1 imm small1 small
result-lt op_andi r1 r2 imm pc small1 small2 small = bit_and-lt r1 imm small1 small
result-lt op_slli r1 r2 imm pc small1 small2 small = sll-lt r1 (imm % 64)
result-lt op_srli r1 r2 imm pc small1 small2 small = div-small r1 (imm % 64) small1
result-lt op_srai r1 r2 imm pc small1 small2 small = sra-lt r1 imm small1
result-lt op_slliw r1 r2 imm pc small1 small2 small = sext-lt (r1 * 2 ^ (imm % 32))
result-lt op_srliw r1 r2 imm pc small1 small2 small = sext-lt (r1 % 2 ^ 32 / 2 ^ (imm % 32))
result-lt op_sraiw r1 r2 imm pc small1 small2 small = sext-lt (sra 32 (r1 % 2 ^ 32) (imm % 32))
result-lt op_add r1 r2 imm pc small1 small2 small = omega arith
result-lt op_sub r1 r2 imm pc small1 small2 small = omega arith
result-lt op_sll r1 r2 imm pc small1 small2 small = sll-lt r1 (r2 % 64)
result-lt op_slt r1 r2 imm pc small1 small2 small = slt-lt r1 r2
result-lt op_sltu r1 r2 imm pc small1 small2 small = sltu-lt r1 r2
result-lt op_xor r1 r2 imm pc small1 small2 small = bit_xor-lt r1 r2 small1 small2
result-lt op_srl r1 r2 imm pc small1 small2 small = div-small r1 (r2 % 64) small1
result-lt op_sra r1 r2 imm pc small1 small2 small = sra-lt r1 r2 small1
result-lt op_or r1 r2 imm pc small1 small2 small = bit_or-lt r1 r2 small1 small2
result-lt op_and r1 r2 imm pc small1 small2 small = bit_and-lt r1 r2 small1 small2
result-lt op_addw r1 r2 imm pc small1 small2 small = sext-lt (r1 + r2)
result-lt op_subw r1 r2 imm pc small1 small2 small = sext-lt (r1 + (2 ^ 32 - r2 % 2 ^ 32))
result-lt op_sllw r1 r2 imm pc small1 small2 small = sext-lt (r1 * 2 ^ (r2 % 32))
result-lt op_srlw r1 r2 imm pc small1 small2 small = sext-lt (r1 % 2 ^ 32 / 2 ^ (r2 % 32))
result-lt op_sraw r1 r2 imm pc small1 small2 small = sext-lt (sra 32 (r1 % 2 ^ 32) (r2 % 32))
