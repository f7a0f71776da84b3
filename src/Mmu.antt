-- ===== src/Mmu.antt =====
-- uspike/mmu.h: the loads, stores and atomic operations of mmu_t. The virtual functions of the timing
-- model are an interface, which mmu_t itself and mem_t of caveat/simulator.cc fill. Memory is a byte at
-- each address, in little-endian words; an access does not pass the end of the address space.
pub mod Words
pub mod Timed
use cavatools.Prelude.{
  ℕ, zero, suc, ◌+◌, ◌-◌, ◌*◌, ◌/◌, ◌%◌, ◌^◌, Bool, true, false, Option, none, some, ◌>>=◌, ltb,
  ◌==◌, if◌then◌else◌,
}
use cavatools.Prelude.Words.{long_mod}
use cavatools.Prelude.Sums.{update}
use cavatools.Simulator.{Mem, load_model, store_model, amo_model}
use cavatools.Syscall.{Cpu, write_reg}
use cavatools.Insn.{Insn}
use cavatools.Insn.Space.{InsnSpace, at}

-- The virtual functions; those for loads and stores return an address.
pub record AccessModel (Model : Type 0) : Type 0 where
  pub load : Model → ℕ → ℕ → Option (Model × ℕ)
  pub store : Model → ℕ → ℕ → Option (Model × ℕ)
  pub amo : Model → ℕ → ℕ → Option Model

-- mmu_t
abbrev pub plain : AccessModel Unit
plain = record {
  load = λ m a pc. some (m, a);
  store = λ m a pc. some (m, a);
  amo = λ m a pc. some m;
}

-- mem_t
abbrev pub timed : AccessModel Mem
timed = record { load = load_model; store = store_model; amo = amo_model }

pub record Mmu (Model : Type 0) : Type 0 where
  pub memory : ℕ → ℕ
  pub model : Model

unfoldable pub word : ℕ → (ℕ → ℕ) → ℕ → ℕ
word zero memory a = 0
word (suc n) memory a = memory a + 256 * word n memory (a + 1)

unfoldable pub put_word : ℕ → (ℕ → ℕ) → ℕ → ℕ → ℕ → ℕ
put_word zero memory a v = memory
put_word (suc n) memory a v = put_word n (update memory a (v % 256)) (a + 1) (v / 256)

-- A signed word of `n` bytes as a long.
unfoldable pub sign_extend : ℕ → ℕ → ℕ
sign_extend n w = if ltb (2 * w) (2 ^ (8 * n)) then w else w + (long_mod - 2 ^ (8 * n))

module _ {Model : Type 0} (models : AccessModel Model) where
  -- `load_uint8` to `load_uint64`, by the number of bytes.
  unfoldable pub load_uint : ℕ → Mmu Model → ℕ → ℕ → Option (Mmu Model × ℕ)
  unfolding word
  load_uint n m a pc = do
    (model, place) ← models.load m.model a pc
    some (record m { model = model }, word n m.memory place)

  -- `load_int8` to `load_int64`
  unfoldable pub load_int : ℕ → Mmu Model → ℕ → ℕ → Option (Mmu Model × ℕ)
  unfolding load_uint sign_extend
  load_int n m a pc = do (m', w) ← load_uint n m a pc; some (m', sign_extend n w)

  -- The stores; those of signed and unsigned words are alike.
  unfoldable pub store_word : ℕ → Mmu Model → ℕ → ℕ → ℕ → Option (Mmu Model)
  unfolding put_word
  store_word n m a pc v = do
    (model, place) ← models.store m.model a pc
    some (record { memory = put_word n m.memory place v; model = model })

  -- `amo_uint32` and `amo_uint64`; the swap of the loop succeeds on the value that was read.
  unfoldable pub amo_uint : ℕ → Mmu Model → ℕ → ℕ → (ℕ → ℕ) → Option (Mmu Model × ℕ)
  unfolding word put_word
  amo_uint n m a pc f = do
    let lhs = word n m.memory a
    model ← models.amo m.model a pc
    some (record { memory = put_word n m.memory a (f lhs); model = model }, lhs)

-- `cas` of uspike/interpreter.cc for words of `n` bytes, on the memory itself.
unfoldable pub cas : ℕ → InsnSpace → ℕ → Cpu (ℕ → ℕ) → Option (Bool × Cpu (ℕ → ℕ))
unfolding at word put_word sign_extend write_reg
cas n code pc c = do
  i ← at code pc
  let place = c.xpr i.op_rs1
  let expect = sign_extend n (c.xpr i.rs2 % 2 ^ (8 * n))
  let oldval = sign_extend n (word n c.memory place)
  let same = oldval == expect
  let memory = if same then put_word n c.memory place (c.xpr i.rs3) else c.memory
  i2 ← at code (pc + 4)
  let loaded = write_reg (record c { memory = memory }) i2.op_rs1 oldval
  some (same, if same then write_reg loaded i.op_rd 0 else loaded)
