-- ===== src/Fast/Step.antt =====
-- uspike/RV.fast: the cases as make_headers writes them into the switch, each with the length of its
-- instruction. `jump` is the `jump_model` of the timing model.
use cavatools.Prelude.{
  ℕ, ◌+◌, ◌-◌, ◌%◌, Bool, not, Option, none, some, ◌>>=◌, ltb, leb, ◌==◌, if◌then◌else◌,
}
use cavatools.Prelude.Sums.{update}
use cavatools.Syscall.{Cpu}
use cavatools.Insn.{Insn, immed}
use cavatools.Insn.Space.{InsnSpace, at}
use cavatools.Interpreter.{Executed, goes}
use cavatools.Mmu.{AccessModel, Mmu, load_uint, load_int, store_word, cas}
use cavatools.Fast.{
  Alu, c_addi4spn, c_addi, c_addiw, c_li, c_addi16sp, c_lui, c_srli, c_srai, c_andi, c_subw, c_addw,
  c_slli, c_mv, c_add, alu, add_long, less_long,
}

pub data Load : Type 0 where
  c_lw c_ld c_lwsp c_ldsp op_lb op_lh op_lw op_ld op_lbu op_lhu op_lwu : Load

pub data Store : Type 0 where
  c_sw c_sd c_swsp c_sdsp op_sb op_sh op_sw op_sd : Store

pub data Branch : Type 0 where
  c_beqz c_bnez op_beq op_bne op_blt op_bge op_bltu op_bgeu : Branch

pub data Jump : Type 0 where
  c_j c_jr c_jalr op_jal op_jalr : Jump

-- `cas12.w` to `cas10.d`.
pub data Swap : Type 0 where
  cas12_w cas12_d cas10_w cas10_d : Swap

pub data Fast : Type 0 where
  alus : Alu → Fast
  loads : Load → Fast
  stores : Store → Fast
  branches : Branch → Fast
  jumps : Jump → Fast
  swaps : Swap → Fast

abbrev pub alu_length : Alu → ℕ
alu_length c_addi4spn = 2
alu_length c_addi = 2
alu_length c_addiw = 2
alu_length c_li = 2
alu_length c_addi16sp = 2
alu_length c_lui = 2
alu_length c_srli = 2
alu_length c_srai = 2
alu_length c_andi = 2
alu_length c_subw = 2
alu_length c_addw = 2
alu_length c_slli = 2
alu_length c_mv = 2
alu_length c_add = 2
alu_length op = 4

abbrev pub load_length : Load → ℕ
load_length c_lw = 2
load_length c_ld = 2
load_length c_lwsp = 2
load_length c_ldsp = 2
load_length op = 4

abbrev pub store_length : Store → ℕ
store_length c_sw = 2
store_length c_sd = 2
store_length c_swsp = 2
store_length c_sdsp = 2
store_length op = 4

abbrev pub branch_length : Branch → ℕ
branch_length c_beqz = 2
branch_length c_bnez = 2
branch_length op = 4

abbrev pub swap_length : Swap → ℕ
swap_length cas12_w = 12
swap_length cas12_d = 12
swap_length op = 10

abbrev pub swap_bytes : Swap → ℕ
swap_bytes cas12_w = 4
swap_bytes cas10_w = 4
swap_bytes op = 8

-- The test of a branch.
unfoldable pub taken : Branch → ℕ → ℕ → Bool
unfolding less_long
taken c_beqz r1 r2 = r1 == 0
taken c_bnez r1 r2 = not (r1 == 0)
taken op_beq r1 r2 = r1 == r2
taken op_bne r1 r2 = not (r1 == r2)
taken op_blt r1 r2 = less_long r1 r2
taken op_bge r1 r2 = not (less_long r1 r2)
taken op_bltu r1 r2 = ltb r1 r2
taken op_bgeu r1 r2 = leb r2 r1

module _ {Model : Type 0} (models : AccessModel Model) (jump : Model → ℕ → ℕ → Option (Model × ℕ))
    (code : InsnSpace) where
  abbrev pub Core : Type 0
  Core = Cpu (Mmu Model)

  -- `wrd(e)`, and `wpc(npc)` for what is to be done behind it.
  abbrev pub wrd : Insn → ℕ → Core → Core
  wrd i v c = record c { xpr = update c.xpr i.op_rd v }

  unfoldable pub wpc : ℕ → ℕ → Core → (Core → Core) → Option (Executed (Mmu Model))
  wpc npc pc c finish = do
    (model, q) ← jump c.memory.model npc pc
    some (goes q (finish (record c { memory = record c.memory { model = model } })))

  unfoldable pub load : Load → Mmu Model → ℕ → ℕ → Option (Mmu Model × ℕ)
  unfolding load_int load_uint
  load c_lw m a pc = load_int models 4 m a pc
  load c_ld m a pc = load_int models 8 m a pc
  load c_lwsp m a pc = load_int models 4 m a pc
  load c_ldsp m a pc = load_int models 8 m a pc
  load op_lb m a pc = load_int models 1 m a pc
  load op_lh m a pc = load_int models 2 m a pc
  load op_lw m a pc = load_int models 4 m a pc
  load op_ld m a pc = load_int models 8 m a pc
  load op_lbu m a pc = load_uint models 1 m a pc
  load op_lhu m a pc = load_uint models 2 m a pc
  load op_lwu m a pc = load_uint models 4 m a pc

  abbrev pub store_bytes : Store → ℕ
  store_bytes c_sw = 4
  store_bytes c_sd = 8
  store_bytes c_swsp = 4
  store_bytes c_sdsp = 8
  store_bytes op_sb = 1
  store_bytes op_sh = 2
  store_bytes op_sw = 4
  store_bytes op_sd = 8

  unfoldable pub jump_case : Jump → Insn → ℕ → Core → Option (Executed (Mmu Model))
  unfolding wpc immed
  jump_case c_j i pc c = wpc (add_long pc (immed i)) pc c (λ d. d)
  jump_case c_jr i pc c = wpc (c.xpr i.op_rs1) pc c (λ d. d)
  jump_case c_jalr i pc c = wpc (c.xpr i.op_rs1) pc c (wrd i (add_long pc 2))
  jump_case op_jal i pc c = wpc (add_long pc (immed i)) pc c (wrd i (add_long pc 4))
  jump_case op_jalr i pc c =
      let npc = add_long (c.xpr i.op_rs1) (immed i) in
      wpc (npc - npc % 2) pc c (wrd i (add_long pc 4))

  -- A compare-and-swap that fails goes where the branch behind its first instruction goes.
  unfoldable pub swap_case : Swap → ℕ → Core → Option (Executed (Mmu Model))
  unfolding wpc immed at cas
  swap_case op pc c = do
    (same, d) ← cas (swap_bytes op) code pc (record {
      xpr = c.xpr;
      pc = c.pc;
      executed = c.executed;
      total_insns = c.total_insns;
      memory = c.memory.memory;
    })
    let c' : Core = record c { xpr = d.xpr; memory = record c.memory { memory = d.memory } }
    i2 ← at code (pc + 4)
    if same
        then some (goes (add_long pc (swap_length op)) c')
        else wpc (add_long (add_long pc (immed i2)) 4) pc c' (λ e. e)

  unfoldable pub fast_case : Fast → Insn → ℕ → Core → Option (Executed (Mmu Model))
  unfolding alu load store_word taken jump_case swap_case immed
  fast_case (alus op) i pc c = do
    v ← alu op (c.xpr i.op_rs1) (c.xpr i.rs2) (immed i) pc
    some (goes (add_long pc (alu_length op)) (wrd i v c))
  fast_case (loads op) i pc c = do
    (m, v) ← load op c.memory (add_long (c.xpr i.op_rs1) (immed i)) pc
    some (goes (add_long pc (load_length op)) (wrd i v (record c { memory = m })))
  fast_case (stores op) i pc c = do
    let place = add_long (c.xpr i.op_rs1) (immed i)
    m ← store_word models (store_bytes op) c.memory place pc (c.xpr i.rs2)
    some (goes (add_long pc (store_length op)) (record c { memory = m }))
  fast_case (branches op) i pc c =
      if taken op (c.xpr i.op_rs1) (c.xpr i.rs2)
      then wpc (add_long pc (immed i)) pc c (λ d. d)
      else some (goes (add_long pc (branch_length op)) c)
  fast_case (jumps op) i pc c = jump_case op i pc c
  fast_case (swaps op) i pc c = swap_case op pc c

  -- The switch of `interpreter`, on the case of an opcode. `others` has the case of ecall and what the
  -- library does for all other instructions.
  unfoldable pub switch :
      (Insn → ℕ → ℕ → Core → Option (Executed (Mmu Model)))
      → Option Fast
      → Insn
      → ℕ
      → ℕ
      → Core
      → Option (Executed (Mmu Model))
  unfolding fast_case
  switch others (some op) i pc insns c = fast_case op i pc c
  switch others none i pc insns c = others i pc insns c
