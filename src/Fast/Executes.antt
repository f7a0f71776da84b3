-- ===== src/Fast/Executes.antt =====
-- The cases of uspike/RV.fast against the RISC-V manual.
use cavatools.Prelude.{
  ℕ, ◌+◌, ◌%◌, ◌^◌, ◌<◌, ◌≡◌, refl, sym, ap, subst, Bool, true, false, Option, some, if◌then◌else◌,
  arith,
}
use cavatools.Prelude.Words.{long_mod}
use cavatools.Syscall.{Cpu}
use cavatools.Insn.{Insn, immed}
use cavatools.Insn.Space.{InsnSpace}
use cavatools.Interpreter.{Executed, goes}
use cavatools.Mmu.{AccessModel, Mmu, word, put_word, store_word}
use cavatools.Mmu.Words.{IsAccessModel}
use cavatools.Fast.Manual
use cavatools.Fast.Step.{
  Load, Store, c_sw, c_sd, c_swsp, c_sdsp, op_sb, op_sh, op_sw, op_sd, Branch, Jump, c_j, c_jr,
  c_jalr, op_jal, op_jalr, Fast, alus, loads, stores, branches, jumps, swaps, wrd, wpc, fast_case,
  store_bytes, branch_length,
}
use cavatools.Fast.Operands.{taken-branches_if}
use cavatools.Fast.Ends.{
  JumpsTo, Keeps, Exact, IsHart, state_at, EndsIn, set_reg_lem, kept_reg, alu-EndsIn, load_value,
}

module _ {Model : Type 0} (models : AccessModel Model) (jump : Model → ℕ → ℕ → Option (Model × ℕ))
    (code : InsnSpace) where
  module _ (Valid : Model → ℕ → Type 0) (law : IsAccessModel models Valid)
      (turns : JumpsTo models jump code Valid) where
    module _ (i : Insn) (pc : ℕ) (c : Cpu (Mmu Model)) (h : IsHart c)
        (valid : Valid c.memory.model pc) where
      abbrev runs : Fast → Option (Executed (Mmu Model))
      runs op = fast_case models jump code op i pc c

      abbrev after : Fast → Manual.State
      after op = Manual.step op i (state_at pc c)

      place_lt : (a : ℕ) → a % 2 ^ 64 < long_mod
      place_lt a = omega arith

      load-EndsIn : (op : Load) → EndsIn Valid c.memory.model (runs (loads op)) (after (loads op))
      unfolding fast_case Manual.step
      load-EndsIn op =
          let place = (c.xpr i.op_rs1 + immed i) % 2 ^ 64 in
          let operand = Manual.load_operand op in
          let v = Manual.operand_value operand (word operand.0 c.memory.memory place) in
          let (t, gives, kept) =
            load_value models jump code Valid law turns op c.memory place pc
              (place_lt (c.xpr i.op_rs1 + immed i)) valid h.bytes in
          (
            wrd models jump code i v (record c { memory = record c.memory { model = t } }),
            rw gives refl,
            (λ n. set_reg_lem c.xpr i.op_rd v v n h.zero_reg refl),
            (λ a. refl),
            kept,
          )

      stored_bytes : (op : Store) → store_bytes models jump code op ≡ Manual.store_operand op
      stored_bytes c_sw = refl
      stored_bytes c_sd = refl
      stored_bytes c_swsp = refl
      stored_bytes c_sdsp = refl
      stored_bytes op_sb = refl
      stored_bytes op_sh = refl
      stored_bytes op_sw = refl
      stored_bytes op_sd = refl

      store-EndsIn :
          (op : Store) → EndsIn Valid c.memory.model (runs (stores op)) (after (stores op))
      unfolding fast_case Manual.step store_word
      store-EndsIn op =
          let place = (c.xpr i.op_rs1 + immed i) % 2 ^ 64 in
          let (t, gives, kept) =
            law.stores c.memory.model place pc (place_lt (c.xpr i.op_rs1 + immed i)) valid in
          (
            record c {
              memory = record {
                memory =
                    put_word (store_bytes models jump code op) c.memory.memory place (c.xpr i.rs2);
                model = t;
              };
            },
            rw gives refl,
            (λ n. kept_reg c.xpr n h.zero_reg),
            (λ a. ap (λ n. put_word n c.memory.memory place (c.xpr i.rs2) a) (stored_bytes op)),
            kept,
          )

      jump_to :
          (npc : ℕ) (finish : Cpu (Mmu Model) → Cpu (Mmu Model))
          → Valid c.memory.model npc
          → (t : Model) × (wpc models jump code npc pc c finish
              ≡ some (goes npc (finish (record c { memory = record c.memory { model = t } }))))
            × Keeps Valid c.memory.model t
      unfolding wpc
      jump_to npc finish ok =
          let (t, gives, kept) = turns c.memory.model npc pc ok in (t, rw gives refl, kept)

      -- A jump that writes no register, and one that writes the address behind it.
      jumps-EndsIn :
          (npc : ℕ)
          → Valid c.memory.model npc
          → EndsIn Valid c.memory.model
              (wpc models jump code npc pc c (λ d. d))
              (record (state_at pc c) { pc = npc })
      jumps-EndsIn npc ok =
          let (t, gives, kept) = jump_to npc (λ d. d) ok in
          (
            record c { memory = record c.memory { model = t } },
            gives,
            (λ n. kept_reg c.xpr n h.zero_reg),
            (λ a. refl),
            kept,
          )

      links-EndsIn :
          (npc link : ℕ)
          → Valid c.memory.model npc
          → EndsIn Valid c.memory.model
              (wpc models jump code npc pc c (wrd models jump code i link))
              (record (state_at pc c) { pc = npc; xpr = Manual.set_reg c.xpr i.op_rd link })
      links-EndsIn npc link ok =
          let (t, gives, kept) = jump_to npc (wrd models jump code i link) ok in
          (
            wrd models jump code i link (record c { memory = record c.memory { model = t } }),
            gives,
            (λ n. set_reg_lem c.xpr i.op_rd link link n h.zero_reg refl),
            (λ a. refl),
            kept,
          )

      -- Of two tests that agree, with a jump or the next instruction behind each.
      either-EndsIn :
          (test : Bool) (there behind : ℕ)
          → Valid c.memory.model (if test then there else behind)
          → EndsIn Valid c.memory.model
              (if test then wpc models jump code there pc c (λ d. d) else some (goes behind c))
              (if test
                then record (state_at pc c) { pc = there }
                else record (state_at pc c) { pc = behind })
      either-EndsIn true there behind ok = jumps-EndsIn there ok
      either-EndsIn false there behind ok =
          (c, refl, (λ n. kept_reg c.xpr n h.zero_reg), (λ a. refl), λ q v. v)

      next_pc :
          (test : Bool) (there behind : ℕ)
          → (if test
              then record (state_at pc c) { pc = there }
              else record (state_at pc c) { pc = behind }).pc
            ≡ (if test then there else behind)
      next_pc true there behind = refl
      next_pc false there behind = refl

      branch-EndsIn :
          (op : Branch)
          → Valid c.memory.model (after (branches op)).pc
          → EndsIn Valid c.memory.model (runs (branches op)) (after (branches op))
      unfolding fast_case Manual.step
      branch-EndsIn op ok =
          let there = (pc + immed i) % 2 ^ 64 in
          let behind = (pc + branch_length op) % 2 ^ 64 in
          let test = Manual.branches_if op (c.xpr i.op_rs1) (c.xpr i.rs2) in
          let ends =
            either-EndsIn test there behind
              (subst (Valid c.memory.model) (next_pc test there behind) ok) in
          subst
            (λ b.
              EndsIn Valid c.memory.model
                (if b then wpc models jump code there pc c (λ d. d) else some (goes behind c))
                (after (branches op)))
            (sym (
              taken-branches_if op (c.xpr i.op_rs1) (c.xpr i.rs2) (h.longs i.op_rs1)
                (h.longs i.rs2)))
            ends

      even_lem : (a : ℕ) → a % 2 ≡ 0 → Manual.even a ≡ a
      even_lem a e = omega (arith, e)

      jump-EndsIn :
          (op : Jump)
          → Exact (jumps op) i c.xpr
          → Valid c.memory.model (after (jumps op)).pc
          → EndsIn Valid c.memory.model (runs (jumps op)) (after (jumps op))
      unfolding fast_case Manual.step
      jump-EndsIn c_j exact ok = jumps-EndsIn ((pc + immed i) % 2 ^ 64) ok
      jump-EndsIn c_jr exact ok =
          let same = even_lem (c.xpr i.op_rs1) exact in
          let ends = jumps-EndsIn (c.xpr i.op_rs1) (subst (Valid c.memory.model) same ok) in
          rw same ends
      jump-EndsIn c_jalr exact ok =
          let same = even_lem (c.xpr i.op_rs1) exact in
          let ends =
            links-EndsIn (c.xpr i.op_rs1) ((pc + 2) % 2 ^ 64)
              (subst (Valid c.memory.model) same ok) in
          rw same ends
      jump-EndsIn op_jal exact ok = links-EndsIn ((pc + immed i) % 2 ^ 64) ((pc + 4) % 2 ^ 64) ok
      jump-EndsIn op_jalr exact ok =
          links-EndsIn (Manual.even ((c.xpr i.op_rs1 + immed i) % 2 ^ 64)) ((pc + 4) % 2 ^ 64) ok

      -- Each case but a compare-and-swap and the four that `zero_extends` lists leaves the pc, the
      -- registers and the memory as the manual says, and a timing model that accepts what it accepted,
      -- where registers and the immediate are 64-bit patterns with 0 in register 0, a count of a shift is
      -- below its width, the target of c.jr and c.jalr is even, and the timing models accept the pc and
      -- the address that follows.
      pub fast_case-step :
          (op : Fast)
          → Exact op i c.xpr
          → immed i < 2 ^ 64
          → Valid c.memory.model (after op).pc
          → EndsIn Valid c.memory.model (runs op) (after op)
      fast_case-step (alus op) exact small ok =
          alu-EndsIn models jump code Valid law turns op i pc c h small exact
      fast_case-step (loads op) exact small ok = load-EndsIn op
      fast_case-step (stores op) exact small ok = store-EndsIn op
      fast_case-step (branches op) exact small ok = branch-EndsIn op ok
      fast_case-step (jumps op) exact small ok = jump-EndsIn op exact ok
      fast_case-step (swaps op) exact small ok = elim exact [ ]
