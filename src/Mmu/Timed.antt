-- ===== src/Mmu/Timed.antt =====
-- mem_t of caveat/simulator.cc behind the loads and stores of uspike/mmu.h.
use cavatools.Prelude.{ℕ, refl, ◌∙◌, true, false}
use cavatools.Simulator.{Mem, load_model, store_model}
use cavatools.Simulator.Accounts.{IsParcel, Setup, Accounts}
use cavatools.Simulator.Steps.{data_access-Steps}
use cavatools.Mmu.{timed}
use cavatools.Mmu.Words.{IsAccessModel}

-- A core whose accounts balance accepts an instruction of the text.
abbrev pub Accepts : Setup → Mem → ℕ → Type 0
Accepts s m pc = IsParcel m.seg pc × ((insns jumps : ℕ) × Accounts s m insns jumps)

-- The timing model of caveat is one that the loads and stores can rely on: for any core whose accounts
-- balance, and at any instruction of the text, `load_model` and `store_model` return the address they
-- are given, and leave a core whose accounts balance, with the same text.
pub timed-IsAccessModel : (s : Setup) → IsAccessModel timed (Accepts s)
unfolding load_model store_model
timed-IsAccessModel s = record {
  loads = λ m a pc small ((i, at), (insns, jumps, acc)).
      let (m', e, acc', same) = data_access-Steps s m a pc false insns jumps small (i, at) acc in
      (m', rw e refl, λ q ((j, here), rest). ((j, same q ∙ here), (insns, jumps, acc')));
  stores = λ m a pc small ((i, at), (insns, jumps, acc)).
      let (m', e, acc', same) = data_access-Steps s m a pc true insns jumps small (i, at) acc in
      (m', rw e refl, λ q ((j, here), rest). ((j, same q ∙ here), (insns, jumps, acc')));
}
