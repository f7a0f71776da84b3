-- ===== src/Fast.antt =====
-- uspike/RV.fast: the cases that make_headers copies into the switch of the interpreter. A register is a
-- 64-bit pattern; sums wrap. A shift by a count that is not below the width is undefined in C: `none`.
pub mod Step
pub mod Isa
pub mod Signed
pub mod Agree
pub mod Manual
pub mod Operands
pub mod Patterns
pub mod States
pub mod Ends
pub mod Executes
pub mod Runs
pub mod Swaps
pub mod Timed
use cavatools.Prelude.{
  ℕ, ◌+◌, ◌-◌, ◌*◌, ◌/◌, ◌%◌, ◌^◌, Bool, true, false, Option, none, some, bit_and, bit_or, bit_xor,
  ltb, if◌then◌else◌,
}
use cavatools.Prelude.Words.{long_mod, long_sign, shr_long}
use cavatools.Mmu.{sign_extend}

-- The cases of the form `wrd(e)`, where `e` reads no memory.
pub data Alu : Type 0 where
  c_addi4spn c_addi c_addiw c_li c_addi16sp c_lui c_srli c_srai c_andi c_subw c_addw c_slli c_mv
        c_add :
      Alu
  op_lui op_auipc op_addi op_addiw op_slti op_sltiu op_xori op_ori op_andi op_slli op_srli op_srai :
      Alu
  op_slliw op_srliw op_sraiw op_add op_sub op_sll op_slt op_sltu op_xor op_srl op_sra op_or op_and :
      Alu
  op_addw op_subw op_sllw op_srlw op_sraw : Alu

-- `int32_t(x)`, as a long.
unfoldable pub int32 : ℕ → ℕ
unfolding sign_extend
int32 x = sign_extend 4 (x % 2 ^ 32)

abbrev pub add_long : ℕ → ℕ → ℕ
add_long a b = (a + b) % long_mod

abbrev pub sub_long : ℕ → ℕ → ℕ
sub_long a b = (a + long_mod - b) % long_mod

-- The sum and the difference of two ints, as a long.
abbrev pub add_int : ℕ → ℕ → ℕ
add_int a b = int32 (int32 a + int32 b)

abbrev pub sub_int : ℕ → ℕ → ℕ
sub_int a b = int32 (int32 a + long_mod - int32 b)

-- `<` of two signed longs.
unfoldable pub less_long : ℕ → ℕ → Bool
less_long a b =
    if ltb a long_sign
    then (if ltb b long_sign then ltb a b else false)
    else (if ltb b long_sign then true else ltb a b)

abbrev pub bit : Bool → ℕ
bit b = if b then 1 else 0

abbrev pub count_below : ℕ → ℕ → ℕ → Option ℕ
count_below width k v = if ltb k width then some v else none

-- `int32_t(x) >> k`; the shifted value is an int again.
abbrev pub shr_int : ℕ → ℕ → ℕ
shr_int x k = shr_long (int32 x) k

unfoldable pub alu : Alu → ℕ → ℕ → ℕ → ℕ → Option ℕ
unfolding int32 less_long shr_long
alu c_addi4spn r1 r2 imm pc = some (add_long r1 imm)
alu c_addi r1 r2 imm pc = some (add_long r1 imm)
alu c_addiw r1 r2 imm pc = some (add_int r1 imm)
alu c_li r1 r2 imm pc = some imm
alu c_addi16sp r1 r2 imm pc = some (add_long r1 imm)
alu c_lui r1 r2 imm pc = some imm
alu c_srli r1 r2 imm pc = count_below 64 imm (r1 / 2 ^ imm)
alu c_srai r1 r2 imm pc = count_below 64 imm (shr_long r1 imm)
alu c_andi r1 r2 imm pc = some (bit_and r1 imm)
alu c_subw r1 r2 imm pc = some (sub_int r1 r2)
alu c_addw r1 r2 imm pc = some (add_int r1 r2)
alu c_slli r1 r2 imm pc = count_below 64 imm (r1 * 2 ^ imm % long_mod)
alu c_mv r1 r2 imm pc = some r2
alu c_add r1 r2 imm pc = some (add_long r1 r2)
alu op_lui r1 r2 imm pc = some imm
alu op_auipc r1 r2 imm pc = some (add_long pc imm)
alu op_addi r1 r2 imm pc = some (add_long r1 imm)
alu op_addiw r1 r2 imm pc = some (add_int r1 imm)
alu op_slti r1 r2 imm pc = some (bit (less_long r1 imm))
alu op_sltiu r1 r2 imm pc = some (bit (ltb r1 imm))
alu op_xori r1 r2 imm pc = some (bit_xor r1 imm)
alu op_ori r1 r2 imm pc = some (bit_or r1 imm)
alu op_andi r1 r2 imm pc = some (bit_and r1 imm)
alu op_slli r1 r2 imm pc = count_below 64 imm (r1 * 2 ^ imm % long_mod)
alu op_srli r1 r2 imm pc = count_below 64 imm (r1 / 2 ^ imm)
alu op_srai r1 r2 imm pc = count_below 64 imm (shr_long r1 imm)
alu op_slliw r1 r2 imm pc = count_below 32 imm (r1 % 2 ^ 32 * 2 ^ imm % 2 ^ 32)
alu op_srliw r1 r2 imm pc = count_below 32 imm (r1 % 2 ^ 32 / 2 ^ imm)
alu op_sraiw r1 r2 imm pc = count_below 32 imm (shr_int r1 imm)
alu op_add r1 r2 imm pc = some (add_long r1 r2)
alu op_sub r1 r2 imm pc = some (sub_long r1 r2)
alu op_sll r1 r2 imm pc = count_below 64 r2 (r1 * 2 ^ r2 % long_mod)
alu op_slt r1 r2 imm pc = some (bit (less_long r1 r2))
alu op_sltu r1 r2 imm pc = some (bit (ltb r1 r2))
alu op_xor r1 r2 imm pc = some (bit_xor r1 r2)
alu op_srl r1 r2 imm pc = count_below 64 r2 (r1 / 2 ^ r2)
alu op_sra r1 r2 imm pc = count_below 64 r2 (shr_long r1 r2)
alu op_or r1 r2 imm pc = some (bit_or r1 r2)
alu op_and r1 r2 imm pc = some (bit_and r1 r2)
alu op_addw r1 r2 imm pc = some (add_int r1 r2)
alu op_subw r1 r2 imm pc = some (sub_int r1 r2)
alu op_sllw r1 r2 imm pc = count_below 32 (r2 % 2 ^ 32) (r1 % 2 ^ 32 * 2 ^ (r2 % 2 ^ 32) % 2 ^ 32)
alu op_srlw r1 r2 imm pc = count_below 32 (r2 % 2 ^ 32) (r1 % 2 ^ 32 / 2 ^ (r2 % 2 ^ 32))
alu op_sraw r1 r2 imm pc = count_below 32 (r2 % 2 ^ 32) (shr_int r1 (r2 % 2 ^ 32))
