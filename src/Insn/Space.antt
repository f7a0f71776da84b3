-- ===== src/Insn/Space.antt =====
-- uspike/instructions.h and instructions.cc: the text segment with a descriptor for each parcel.
use cavatools.Prelude.{
  ℕ, zero, suc, ◌+◌, ◌-◌, ◌/◌, Bool, ◌&&◌, ◌||◌, Option, none, some, ◌>>=◌, ltb, leb, ◌==◌,
  if◌then◌else◌,
}
use cavatools.Insn.{Insn, reg3insn}

pub record InsnSpace : Type 0 where
  pub base : ℕ
  pub limit : ℕ
  pub entry : ℕ
  pub predecoded : ℕ → Insn

unfoldable pub valid : InsnSpace → ℕ → Bool
valid s pc = leb s.base pc && ltb pc s.limit

unfoldable pub parcel : InsnSpace → ℕ → Option ℕ
unfolding valid
parcel s pc = if valid s pc then some ((pc - s.base) / 2) else none

unfoldable pub at : InsnSpace → ℕ → Option Insn
unfolding parcel
at s pc = do i ← parcel s pc; some (s.predecoded i)

abbrev pub put : InsnSpace → ℕ → Insn → InsnSpace
put s i x = record s { predecoded = λ j. if j == i then x else s.predecoded j }

unfoldable pub set_insn : InsnSpace → ℕ → Insn → Option InsnSpace
unfolding parcel
set_insn s pc x = do i ← parcel s pc; some (put s i x)

-- The generated opcode numbers.
pub record Opcodes : Type 0 where
  pub last_compressed : ℕ
  pub lr_w : ℕ
  pub lr_d : ℕ
  pub bne : ℕ
  pub c_bnez : ℕ
  pub sc_w : ℕ
  pub sc_d : ℕ
  pub cas12_w : ℕ
  pub cas12_d : ℕ
  pub cas10_w : ℕ
  pub cas10_d : ℕ

module _ (ops : Opcodes) (decoder : ℕ → ℕ → Insn) (image : ℕ → ℕ) where
  unfoldable pub compressed : Insn → Bool
  compressed i = leb i.op_code ops.last_compressed

  unfoldable pub insn_bytes : Insn → ℕ
  unfolding compressed
  insn_bytes i = if compressed i then 2 else 4

  -- The predecode loop of `loadelf`.
  unfoldable pub predecode : ℕ → ℕ → InsnSpace → Option InsnSpace
  unfolding set_insn insn_bytes
  predecode zero pc s = if ltb pc s.limit then none else some s
  predecode (suc fuel) pc s =
      let i = decoder (image pc) pc in
      let rest : Option InsnSpace = do s' ← set_insn s pc i; predecode fuel (pc + insn_bytes i) s'
      in if ltb pc s.limit then rest else some s

  -- The body of the loop of `substitute_cas` for a load-reserve at `pc`: the descriptor that replaces
  -- it, or `none` inside, where a `continue` leaves it. The outer `none` is a failed `checkif`.
  unfoldable pub cas_pattern : InsnSpace → ℕ → Insn → Option (Option Insn)
  unfolding at
  cas_pattern s pc i = do
    i2 ← at s (pc + 4)
    let branch = (i2.op_code == ops.bne) || (i2.op_code == ops.c_bnez)
    let short = i2.op_code == ops.c_bnez
    let len = if short then 6 else 8
    let op_w = if short then ops.cas10_w else ops.cas12_w
    let op_d = if short then ops.cas10_d else ops.cas12_d
    let test_reg = if short then 0 else i2.rs2
    if branch
        then (do
          i3 ← at s (pc + len)
          let conditional = (i3.op_code == ops.sc_w) || (i3.op_code == ops.sc_d)
          let same = (i2.op_rs1 == i.op_rd) && (i3.op_rs1 == i.op_rs1)
          let new =
              reg3insn (if i.op_code == ops.lr_w then op_w else op_d) i3.op_rd i.op_rs1 test_reg
                i3.rs2
          some (if conditional && same then some new else none))
        else some none

  -- `substitute_cas`, with `possible` and `replaced`; the exit where they differ is `none`. The
  -- length of the step is read behind the replacement.
  unfoldable pub substitute_cas : ℕ → ℕ → ℕ → ℕ → ℕ → InsnSpace → Option InsnSpace
  unfolding at set_insn insn_bytes cas_pattern
  substitute_cas zero hi pc possible replaced s = none
  substitute_cas (suc fuel) hi pc possible replaced s =
      let next : ℕ → ℕ → InsnSpace → Option InsnSpace =
        λ p r s'. do j ← at s' pc; substitute_cas fuel hi (pc + insn_bytes j) p r s'
      in let body : Option InsnSpace = do
        i ← at s pc
        if (i.op_code == ops.lr_w) || (i.op_code == ops.lr_d)
            then (do
              found ← cas_pattern s pc i
              elim found [
                | none ↦ next (possible + 1) replaced s
                | some new ↦ do s' ← set_insn s pc new; next (possible + 1) (replaced + 1) s'
              ])
            else next possible replaced s
        in if ltb pc hi then body else (if replaced == possible then some s else none)
