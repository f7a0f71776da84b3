-- ===== src/Tests/Swaps.antt =====
-- A compare-and-swap of uspike/RV.fast that finds the expected word.
use cavatools.Prelude.{◌≡◌, some, refl, ◌==◌, if◌then◌else◌, arith}
use cavatools.Syscall.{Cpu}
use cavatools.Insn.{Insn, immed}
use cavatools.Insn.Space.{InsnSpace, at}
use cavatools.Mmu.{Mmu, plain, sign_extend, word, put_word}
use cavatools.Fast.Manual
use cavatools.Fast.Step.{cas12_w, swap_case}
use cavatools.Fast.Ends.{IsHart, state_at, EndsIn}
use cavatools.Fast.Swaps.{IsSequence, lr_bne_sc, swap_case-EndsIn}
use cavatools.Tests.Instructions.{Untimed, jump, jump-JumpsTo}

-- The address is in x1, the expected value in x2, the new value in x4, and the flag goes to x5.
abbrev swap : Insn
swap = record { op_code = 90; op_rd = 5; op_rs1 = 1; imm = 0; rs2 = 2; rs3 = 4 }

-- bne x3, x2, -4
abbrev retry : Insn
retry = record { op_code = 52; op_rd = 255; op_rs1 = 3; imm = 65505; rs2 = 2; rs3 = 255 }

abbrev code : InsnSpace
code = record {
  base = 4096;
  limit = 4108;
  entry = 4096;
  predecoded = λ j. if j == 0 then swap else retry;
}

abbrev hart : Cpu (Mmu Untimed)
hart = record {
  xpr = λ n. if n == 0 then 0 else if n == 4 then 7 else 64;
  pc = 4096;
  executed = 0;
  total_insns = 0;
  memory = record { memory = λ a. if a == 64 then 64 else 0; model = tt };
}

hart-IsHart : IsHart hart
hart-IsHart = record { zero_reg = refl; longs = λ n. ground arith; bytes = λ a. ground arith }

hart-IsSequence : IsSequence 4 3 swap hart.xpr
unfolding sign_extend
hart-IsSequence = record {
  loads_some = refl;
  addr_apart = refl;
  test_apart = refl;
  newv_apart = refl;
  extended = refl;
}

swap_there : at code 4096 ≡ some swap
unfolding at
swap_there = refl

retry_there : at code 4100 ≡ some retry
unfolding at
retry_there = refl

abbrev end : Manual.State
end = lr_bne_sc 4 12 3 1 2 4 5 (Manual.add (Manual.add 4096 (immed retry)) 4) (state_at 4096 hart)

swap_case-EndsIn_example :
    EndsIn (λ m pc. Unit) tt (swap_case plain jump code cas12_w 4096 hart) end
swap_case-EndsIn_example =
    swap_case-EndsIn plain jump code (λ m pc. Unit) jump-JumpsTo cas12_w 4096 hart swap retry
      swap_there retry_there hart-IsHart hart-IsSequence tt

-- The new value is stored, and the flag is 0.
end_test : (end.pc ≡ 4108) × (end.memory 64 ≡ 7) × (end.xpr 5 ≡ 0) × (end.xpr 3 ≡ 64)
unfolding word put_word
end_test = (refl, refl, refl, refl)
