-- ===== src/Tests/Timed.antt =====
-- The interpreter on a core of caveat: two instructions that load.
use cavatools.Prelude.{
  ℕ, ◌+◌, ◌-◌, ◌/◌, ◌<◌, ◌≡◌, refl, sym, ◌∙◌, subst, false, Option, none, some, ◌>>=◌, WhenSome,
  ltb, leb, arith, inl, inr, Bool-cases,
}
use cavatools.Prelude.Words.{long_mod}
use cavatools.Perf.{create, index}
use cavatools.Simulator.{Mem, load_model}
use cavatools.Simulator.Accounts.{IsParcel, Setup, Accounts}
use cavatools.Simulator.Steps.{data_access-Steps}
use cavatools.Simulator.Start.{setup, mem_new-Accounts}
use cavatools.Syscall.{Cpu}
use cavatools.Insn.{Insn}
use cavatools.Insn.Space.{InsnSpace, at}
use cavatools.Interpreter.{Executed, goes, fetch, interpreter}
use cavatools.Interpreter.Raises.{Leaves, LeaveCounts}
use cavatools.Interpreter.Timed.{core_insn, Balanced, CallsNoInsn, BothCount, interpreter-BothCount}
use cavatools.Tests.Caches.{tables}
use cavatools.Tests.Cores.{conf, conf-IsConf}
use cavatools.Tests.Descriptors.{decoder}

abbrev code : InsnSpace
code = record { base = 4096; limit = 4104; entry = 4096; predecoded = λ j. decoder 1 0 }

abbrev pub one_core : Setup
one_core = setup tables conf conf-IsConf 1

pub new_core : (m : Mem) × (m.seg ≡ create 4096 4104 2) × Accounts one_core m 0 0
new_core =
    let (m, made, same, acc) =
      mem_new-Accounts tables conf conf-IsConf 4096 4104 2 1 0 (omega arith) in
    (m, same, acc)

abbrev core : Cpu (Mem × Unit)
core = record { xpr = λ n. 64; pc = 4096; executed = 0; total_insns = 0; memory = (new_core.0, tt) }

-- Each instruction loads from the address in register 1.
abbrev loads : Insn → ℕ → ℕ → Cpu (Mem × Unit) → Option (Executed (Mem × Unit))
loads i pc n c = do
  (m, a) ← load_model c.memory.0 64 pc
  some (goes (pc + 4) (record c { memory = (m, tt) }))

text-IsParcel :
    (pc : ℕ) (i : Insn) → at code pc ≡ some i → (pc < long_mod) × IsParcel (create 4096 4104 2) pc
unfolding at index create
text-IsParcel pc i e = elim (Bool-cases (leb 4096 pc)) [
  | inl low ↦ elim (Bool-cases (ltb pc 4104)) [
    | inl high ↦ (ground arith, ((pc - 4096) / 2, ground arith))
    | inr out ↦ ground (arith, e)
  ]
  | inr out ↦ ground (arith, e)
]

core-Balanced : Balanced one_core code loads 0 core
core-Balanced = (
  (0, new_core.2),
  λ pc i e. subst (λ h. (pc < long_mod) × IsParcel h pc) (sym new_core.1) (text-IsParcel pc i e),
)

loads-CallsNoInsn : CallsNoInsn one_core code loads
unfolding load_model
loads-CallsNoInsn i pc n c insns e ((jumps, acc), text) =
    let (small, there) = text pc i e in
    let (m, loaded, acc', same) =
      data_access-Steps one_core c.memory.0 64 pc false insns jumps (omega arith) there acc in
    rw loaded
      ((jumps, acc'), λ q j f. let (less, (k, here)) = text q j f in (less, (k, same q ∙ here)))

loads-Leaves :
    (c : Cpu (Mem × Unit)) (pc : ℕ) (r : Option (Mem × ℕ))
    → WhenSome (Leaves c) (do (m, a) ← r; some (goes (pc + 4) (record c { memory = (m, tt) })))
loads-Leaves c pc none = tt
loads-Leaves c pc (some (m, a)) = (refl, refl)

fetched-Leaves :
    (pc n : ℕ) (c : Cpu (Mem × Unit)) (w : Option (Mem × Unit)) (r : Option Insn)
    → WhenSome (Leaves c) (do v ← w; i ← r; loads i pc n (record c { memory = v }))
fetched-Leaves pc n c none r = tt
fetched-Leaves pc n c (some v) none = tt
fetched-Leaves pc n c (some v) (some i) = loads-Leaves c pc (load_model v.0 64 pc)

loads-LeaveCounts : LeaveCounts code core_insn loads
unfolding fetch
loads-LeaveCounts pc n c r longs e =
    subst (WhenSome (Leaves c)) e (fetched-Leaves pc n c (core_insn pc c.memory) (at code pc))

interpreter-BothCount_example :
    BothCount one_core code loads 0 2 core (interpreter code core_insn loads 2 core)
interpreter-BothCount_example =
    interpreter-BothCount one_core code loads loads-CallsNoInsn loads-LeaveCounts 0 2 core
      (omega arith, omega arith, omega arith) core-Balanced
