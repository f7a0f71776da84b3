-- ===== src/Tests/Instructions.antt =====
-- Instructions of uspike/RV.fast on a small hart.
use cavatools.Prelude.{
  ℕ, ◌+◌, ◌-◌, ◌*◌, ◌%◌, ◌^◌, ◌<◌, ◌≡◌, refl, Option, some, ◌==◌, if◌then◌else◌, arith,
}
use cavatools.Prelude.Words.{shr_long}
use cavatools.Syscall.{Cpu}
use cavatools.Insn.{Insn, immed}
use cavatools.Insn.Space.{InsnSpace}
use cavatools.Mmu.{Mmu, plain}
use cavatools.Fast.{alu, op_sllw, op_sraw, op_sub}
use cavatools.Fast.Isa.{result}
use cavatools.Fast.Agree.{alu-result}
use cavatools.Fast.Manual
use cavatools.Fast.Step.{fast_case, loads, op_lw}
use cavatools.Fast.Ends.{JumpsTo, IsHart, state_at, EndsIn}
use cavatools.Fast.Executes.{fast_case-step}
use cavatools.Tests.Descriptors.{decoder}
use cavatools.Tests.Words.{plain-IsAccessModel}

alu-result_example :
    alu op_sllw (2 ^ 31) 0 0 4096 ≡ some (result op_sllw (2 ^ 31) 0 0 4096 % 2 ^ 32)
alu-result_example =
    alu-result (2 ^ 31) 0 0 4096 (omega arith) (omega arith) (omega arith) op_sllw (omega arith)

-- The manual has the sign above the 32 digits.
manual_sllw : result op_sllw (2 ^ 31) 0 0 4096 ≡ 2 ^ 64 + 2 ^ 31 - 2 ^ 32
unfolding result
manual_sllw = refl

sraw_two : alu op_sraw (2 ^ 31) 2 0 4096 ≡ some (2 ^ 64 + 2 ^ 29 - 2 ^ 30)
unfolding alu
sraw_two = refl

sub_wraps : alu op_sub 3 5 0 4096 ≡ some (2 ^ 64 - 2)
unfolding alu
sub_wraps = refl

abbrev code : InsnSpace
code = record { base = 4096; limit = 4104; entry = 4096; predecoded = λ j. decoder 1 0 }

abbrev pub Untimed : Type 0
Untimed = Unit

abbrev pub jump : Untimed → ℕ → ℕ → Option (Untimed × ℕ)
jump m npc pc = some (m, npc)

pub jump-JumpsTo : JumpsTo plain jump code (λ m pc. Unit)
jump-JumpsTo m npc pc valid = (m, refl, λ q v. v)

abbrev pub hart : Cpu (Mmu Unit)
hart = record {
  xpr = λ n. if n == 0 then 0 else 64;
  pc = 4096;
  executed = 0;
  total_insns = 0;
  memory = record { memory = λ a. 200; model = tt };
}

hart-IsHart : IsHart hart
hart-IsHart = record { zero_reg = refl; longs = λ n. ground arith; bytes = λ a. omega arith }

-- Its immediate is 8.
abbrev insn : Insn
insn = record { op_code = 1; op_rd = 3; op_rs1 = 1; imm = 65; rs2 = 2; rs3 = 0 }

immed_small : immed insn < 2 ^ 64
unfolding immed shr_long
immed_small = omega arith

fast_case-step_example :
    EndsIn
      (λ m pc. Unit)
      tt
      (fast_case plain jump code (loads op_lw) insn 4096 hart)
      (Manual.step (loads op_lw) insn (state_at 4096 hart))
fast_case-step_example =
    fast_case-step plain jump code (λ m pc. Unit) plain-IsAccessModel jump-JumpsTo insn 4096 hart
      hart-IsHart tt (loads op_lw) tt immed_small tt

-- It loads the four bytes at 72, with their sign.
loaded :
    (Manual.step (loads op_lw) insn (state_at 4096 hart)).xpr 3 ≡ 2 ^ 64 + 200 * 16843009 - 2 ^ 32
unfolding Manual.step immed
loaded = refl
