-- ===== src/Fast/Swaps.antt =====
-- The compare-and-swaps of uspike/RV.fast against the sequence of instructions that they replace.
use cavatools.Prelude.{
  ℕ, ◌+◌, ◌*◌, ◌%◌, ◌^◌, ◌≡◌, refl, sym, ap, ap₂, ◌∙◌, subst, Bool, true, false, Option, some, ◌==◌,
  if◌then◌else◌, arith, inl, inr, Bool-cases,
}
use cavatools.Syscall.{Cpu, write_reg}
use cavatools.Insn.{Insn, immed}
use cavatools.Insn.Space.{InsnSpace, at}
use cavatools.Interpreter.{goes}
use cavatools.Mmu.{AccessModel, Mmu, word, put_word, sign_extend, cas}
use cavatools.Fast.Manual
use cavatools.Fast.Operands.{word-lt, sign_extend-operand}
use cavatools.Fast.Step.{
  Swap, cas12_w, cas12_d, cas10_w, cas10_d, swap_bytes, swap_length, wpc, swap_case,
}
use cavatools.Fast.Ends.{JumpsTo, IsHart, state_at, EndsIn, kept_reg}

-- The bytes that a sequence loads, and its length: lr and sc have 4 bytes each, bne 4, c.bnez 2.
abbrev pub loaded_bytes : Swap → ℕ
loaded_bytes cas12_w = 4
loaded_bytes cas12_d = 8
loaded_bytes cas10_w = 4
loaded_bytes cas10_d = 8

abbrev pub sequence_bytes : Swap → ℕ
sequence_bytes cas12_w = 4 + 4 + 4
sequence_bytes cas12_d = 4 + 4 + 4
sequence_bytes cas10_w = 4 + 2 + 4
sequence_bytes cas10_d = 4 + 2 + 4

-- The manual's machine on lr, a branch to a target if the loaded register is not the tested one, and sc,
-- which succeeds as nothing comes between; the registers are `load`, `addr`, `test`, `newv` and `flag`.
abbrev pub lr_bne_sc : ℕ → ℕ → ℕ → ℕ → ℕ → ℕ → ℕ → ℕ → Manual.State → Manual.State
lr_bne_sc n len load addr test newv flag target s =
    let xpr =
      Manual.set_reg s.xpr load (Manual.operand_value (n, true) (word n s.memory (s.xpr addr))) in
    if xpr load == xpr test
    then record {
      pc = Manual.add s.pc len;
      xpr = Manual.set_reg xpr flag 0;
      memory = put_word n s.memory (xpr addr) (xpr newv);
    }
    else record { pc = target; xpr = xpr; memory = s.memory }

same_bytes : (op : Swap) → swap_bytes op ≡ loaded_bytes op
same_bytes cas12_w = refl
same_bytes cas12_d = refl
same_bytes cas10_w = refl
same_bytes cas10_d = refl

same_length : (op : Swap) → swap_length op ≡ sequence_bytes op
same_length cas12_w = refl
same_length cas12_d = refl
same_length cas10_w = refl
same_length cas10_d = refl

-- The registers of a sequence whose loaded register is neither register 0 nor one that it reads.
pub record IsSequence (n load : ℕ) (i : Insn) (xpr : ℕ → ℕ) : Type 0 where
  pub loads_some : (load == 0) ≡ false
  pub addr_apart : (i.op_rs1 == load) ≡ false
  pub test_apart : (i.rs2 == load) ≡ false
  pub newv_apart : (i.rs3 == load) ≡ false
  pub extended : sign_extend n (xpr i.rs2 % 2 ^ (8 * n)) ≡ xpr i.rs2

set_reg_there : (xpr : ℕ → ℕ) (r v : ℕ) → (r == 0) ≡ false → Manual.set_reg xpr r v r ≡ v
set_reg_there xpr r v e = ground (arith, e)

set_reg_other : (xpr : ℕ → ℕ) (r v q : ℕ) → (q == r) ≡ false → Manual.set_reg xpr r v q ≡ xpr q
set_reg_other xpr r v q e = ground (arith, e)

-- Register 0 after the two writes.
zero_after :
    (xpr : ℕ → ℕ) (load flag v : ℕ)
    → xpr 0 ≡ 0
    → Manual.set_reg (Manual.set_reg xpr load v) flag 0 0 ≡ 0
zero_after xpr load flag v zero_reg = ground arith

zero_loaded : (xpr : ℕ → ℕ) (load v : ℕ) → xpr 0 ≡ 0 → Manual.set_reg xpr load v 0 ≡ 0
zero_loaded xpr load v zero_reg = ground arith

module _ {Model : Type 0} (models : AccessModel Model) (jump : Model → ℕ → ℕ → Option (Model × ℕ))
    (code : InsnSpace) (Valid : Model → ℕ → Type 0) (turns : JumpsTo models jump code Valid) where
  module _ (op : Swap) (pc : ℕ) (c : Cpu (Mmu Model)) (i i2 : Insn) (there : at code pc ≡ some i)
      (branch : at code (pc + 4) ≡ some i2) (h : IsHart c)
      (seq : IsSequence (swap_bytes op) i2.op_rs1 i c.xpr) where
    abbrev old : ℕ
    old = sign_extend (swap_bytes op) (word (swap_bytes op) c.memory.memory (c.xpr i.op_rs1))

    abbrev xpr_loaded : ℕ → ℕ
    xpr_loaded = Manual.set_reg c.xpr i2.op_rs1 old

    abbrev target : ℕ
    target = Manual.add (Manual.add pc (immed i2)) 4

    abbrev swapped : Cpu (Mmu Model)
    swapped = record c {
      xpr = Manual.set_reg xpr_loaded i.op_rd 0;
      memory = record c.memory {
        memory = put_word (swap_bytes op) c.memory.memory (c.xpr i.op_rs1) (c.xpr i.rs3);
      };
    }

    -- The case where the word is the expected one, and where it is another.
    swap_case-same :
        (old == c.xpr i.rs2) ≡ true
        → swap_case models jump code op pc c ≡ some (goes ((pc + swap_length op) % 2 ^ 64) swapped)
    unfolding swap_case cas write_reg
    swap_case-same same = rw (there, branch, seq.extended, same) refl

    swap_case-other :
        (old == c.xpr i.rs2) ≡ false
        → swap_case models jump code op pc c
          ≡ wpc models jump code target pc (record c { xpr = xpr_loaded }) (λ e. e)
    unfolding swap_case cas write_reg
    swap_case-other other = rw (there, branch, seq.extended, other) refl

    abbrev sequence : ℕ → ℕ → Manual.State
    sequence n len = lr_bne_sc n len i2.op_rs1 i.op_rs1 i.rs2 i.rs3 i.op_rd target (state_at pc c)

    valued :
        Manual.operand_value
          (swap_bytes op, true)
          (word (swap_bytes op) c.memory.memory (c.xpr i.op_rs1))
        ≡ old
    valued = sym (
        sign_extend-operand (swap_bytes op) (word (swap_bytes op) c.memory.memory (c.xpr i.op_rs1))
          (word-lt (swap_bytes op) c.memory.memory (c.xpr i.op_rs1) h.bytes))

    tested : (xpr_loaded i2.op_rs1 == xpr_loaded i.rs2) ≡ (old == c.xpr i.rs2)
    tested =
        ap₂ (λ a b. a == b) (set_reg_there c.xpr i2.op_rs1 old seq.loads_some)
          (set_reg_other c.xpr i2.op_rs1 old i.rs2 seq.test_apart)

    -- The branch and sc on a loaded value.
    abbrev branch_sc : ℕ → (ℕ → ℕ) → Bool → ℕ → ℕ → Manual.State
    branch_sc len xpr stays place v =
        if stays
        then record {
          pc = Manual.add pc len;
          xpr = Manual.set_reg xpr i.op_rd 0;
          memory = put_word (swap_bytes op) c.memory.memory place v;
        }
        else record { pc = target; xpr = xpr; memory = c.memory.memory }

    sequence_lem :
        (len : ℕ)
        → sequence (swap_bytes op) len
          ≡ branch_sc len xpr_loaded (old == c.xpr i.rs2) (c.xpr i.op_rs1) (c.xpr i.rs3)
    sequence_lem len =
        ap
          (λ v.
            let xpr : ℕ → ℕ = Manual.set_reg c.xpr i2.op_rs1 v in
            branch_sc len xpr (xpr i2.op_rs1 == xpr i.rs2) (xpr i.op_rs1) (xpr i.rs3))
          valued
        ∙ ap₂ (λ b place. branch_sc len xpr_loaded b place (xpr_loaded i.rs3)) tested
            (set_reg_other c.xpr i2.op_rs1 old i.op_rs1 seq.addr_apart)
        ∙ ap (λ v. branch_sc len xpr_loaded (old == c.xpr i.rs2) (c.xpr i.op_rs1) v)
            (set_reg_other c.xpr i2.op_rs1 old i.rs3 seq.newv_apart)

    wpc_lem :
        (t : Model)
        → jump c.memory.model target pc ≡ some (t, target)
        → wpc models jump code target pc (record c { xpr = xpr_loaded }) (λ e. e)
          ≡ some
              (goes target (record c { xpr = xpr_loaded; memory = record c.memory { model = t } }))
    unfolding wpc
    wpc_lem t gives = rw gives refl

    swap-EndsIn :
        (len : ℕ)
        → swap_length op ≡ len
        → Valid c.memory.model target
        → EndsIn Valid c.memory.model
            (swap_case models jump code op pc c)
            (sequence (swap_bytes op) len)
    swap-EndsIn len length ok = elim (Bool-cases (old == c.xpr i.rs2)) [
      | inl same ↦
          subst (EndsIn Valid c.memory.model (swap_case models jump code op pc c))
            (sym (
              sequence_lem len
              ∙ ap (λ b. branch_sc len xpr_loaded b (c.xpr i.op_rs1) (c.xpr i.rs3)) same))
            (
              swapped,
              swap_case-same same ∙ ap (λ m. some (goes ((pc + m) % 2 ^ 64) swapped)) length,
              (λ n. kept_reg swapped.xpr n (zero_after c.xpr i2.op_rs1 i.op_rd old h.zero_reg)),
              (λ a. refl),
              λ q v. v,
            )
      | inr other ↦
          let (t, gives, kept) = turns c.memory.model target pc ok in
          let d : Cpu (Mmu Model) = record c {
            xpr = xpr_loaded;
            memory = record c.memory { model = t };
          } in
          subst (EndsIn Valid c.memory.model (swap_case models jump code op pc c))
            (sym (
              sequence_lem len
              ∙ ap (λ b. branch_sc len xpr_loaded b (c.xpr i.op_rs1) (c.xpr i.rs3)) other))
            (
              d,
              swap_case-other other ∙ wpc_lem t gives,
              (λ n. kept_reg xpr_loaded n (zero_loaded c.xpr i2.op_rs1 old h.zero_reg)),
              (λ a. refl),
              kept,
            )
    ]

    -- A compare-and-swap ends in the state in which lr, the branch and sc end that it replaces, when
    -- nothing comes between them, and its timing model accepts what it accepted: where registers are
    -- 64-bit patterns with 0 in register 0, the loaded register is neither register 0 nor the register of
    -- the address, of the expected or of the new value, the expected value is a word with its sign, and
    -- the timing model accepts the target of the branch.
    pub swap_case-EndsIn :
        Valid c.memory.model target
        → EndsIn Valid c.memory.model (swap_case models jump code op pc c) (
            lr_bne_sc
              (loaded_bytes op)
              (sequence_bytes op)
              i2.op_rs1
              i.op_rs1
              i.rs2
              i.rs3
              i.op_rd
              (Manual.add (Manual.add pc (immed i2)) 4)
              (state_at pc c))
    swap_case-EndsIn ok =
        subst
          (λ n.
            EndsIn Valid c.memory.model (swap_case models jump code op pc c)
              (sequence n (sequence_bytes op)))
          (same_bytes op) (swap-EndsIn (sequence_bytes op) (same_length op) ok)
