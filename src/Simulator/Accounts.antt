-- ===== src/Simulator/Accounts.antt =====
-- Sequences of calls on a core's timing model, and the accounts that every call keeps in balance.
use cavatools.Prelude.{ℕ, ◌+◌, ◌*◌, ◌<◌, ◌≡◌, true, Option, some, ◌>>=◌, List, [], ◌∷◌}
use cavatools.Prelude.Words.{long_mod}
use cavatools.Cache.{LruFsm}
use cavatools.Cache.Recency.{IsLru}
use cavatools.Cache.Refines.{IsValid}
use cavatools.Perf.{Segment, index}
use cavatools.Perf.Sums.{Totals}
use cavatools.Simulator.{Mem, insn_model, jump_model, load_model, store_model, amo_model}

-- The calls that the interpreter makes on a core's model.
pub data Event : Type 0 where
  insn : ℕ → Event
  jump load store : ℕ → ℕ → Event
  amo : ℕ → ℕ → Event

unfoldable pub step : ℕ → Mem → Event → Option Mem
step conf_jump m (insn pc) = insn_model m pc
step conf_jump m (jump npc pc) = do (m', _) ← jump_model conf_jump m npc pc; some m'
step conf_jump m (load a pc) = do (m', _) ← load_model m a pc; some m'
step conf_jump m (store a pc) = do (m', _) ← store_model m a pc; some m'
step conf_jump m (amo a pc) = amo_model m a pc

unfoldable pub run : ℕ → Mem → List Event → Option Mem
run conf_jump m [] = some m
run conf_jump m (e ∷ es) = do m' ← step conf_jump m e; run conf_jump m' es

-- Instructions and taken branches so far.
abbrev pub insns_of : Event → ℕ
insns_of (insn pc) = 1
insns_of _ = 0

abbrev pub jumps_of : Event → ℕ
jumps_of (jump npc pc) = 1
jumps_of _ = 0

abbrev pub IsParcel : Segment → ℕ → Type 0
IsParcel h pc = (i : ℕ) × (index h pc ≡ some i)

-- Addresses are longs, and the counters that a call adds to are those of code parcels.
abbrev pub InRange : Segment → Event → Type 0
InRange h (insn pc) = (pc < long_mod) × IsParcel h pc
InRange h (jump npc pc) = IsParcel h npc
InRange h (load a pc) = (a < long_mod) × IsParcel h pc
InRange h (store a pc) = (a < long_mod) × IsParcel h pc
InRange h (amo a pc) = (a < long_mod) × IsParcel h pc

-- One core: its two caches' tables, its number, and the cycles of a taken branch.
pub record Setup : Type 0 where
  pub iways : ℕ
  pub ifsm : ℕ → LruFsm
  pub ilaw : IsLru iways ifsm
  pub dways : ℕ
  pub dfsm : ℕ → LruFsm
  pub dlaw : IsLru dways dfsm
  pub core : ℕ
  pub conf_jump : ℕ

module _ (s : Setup) where
  open s use {iways, ifsm, ilaw, dways, dfsm, dlaw, core, conf_jump}

  pub record Accounts (m : Mem) (insns jumps : ℕ) : Type 0 where
    pub icache : IsValid iways ifsm ilaw m.ic
    pub dcache : IsValid dways dfsm dlaw m.dc
    pub dwrites : m.dc.writeable ≡ true
    pub totals : Totals m.seg core m.perf insns m.local_time m.ic.misses m.dc.misses
    pub time :
        m.local_time
        ≡ insns + m.ic.penalty * m.ic.misses + m.dc.penalty * m.dc.misses + conf_jump * jumps

  -- What a call keeps, besides the accounts.
  abbrev pub Steps : Mem → Option Mem → ℕ → ℕ → Type 0
  Steps m r insns jumps =
      (m' : Mem) × (r ≡ some m')
      × Accounts m' insns jumps
      × ((pc : ℕ) → index m'.seg pc ≡ index m.seg pc)
