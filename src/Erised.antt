-- ===== src/Erised.antt =====
-- erised/erised.cc: the viewer of the counters. Drawing is output; kept is what the drawing functions
-- change. Addresses do not pass 2^63, and a text is shorter than 2^31 bytes. `none` is a failed
-- `checkif`, a division by 0, a bad mouse event, or fuel that does not suffice.
pub mod Screen
pub mod Walks
pub mod Bins
pub mod Windows
pub mod Clicks
pub mod Rounds
use cavatools.Prelude.{
  ℕ, zero, suc, ◌+◌, ◌-◌, ◌*◌, ◌/◌, Bool, true, false, not, ◌&&◌, ◌||◌, Option, none, some, ◌>>=◌,
  List, [], ◌∷◌, ltb, leb, ◌==◌, if◌then◌else◌,
}
use cavatools.Prelude.Sums.{update}
use cavatools.Perf.{Segment, Perf, count}
use cavatools.Insn.{Insn}
use cavatools.Insn.Space.{InsnSpace, Opcodes, at, insn_bytes}

pub record Histogram : Type 0 where
  pub bin : ℕ → ℕ
  pub decay : ℕ → ℕ
  pub base : ℕ
  pub bound : ℕ
  pub range : ℕ
  pub max_value : ℕ
  pub bins : ℕ

-- `assembly_t` without its `max_value`, which is never read.
pub record Assembly : Type 0 where
  pub old : ℕ → ℕ
  pub decay : ℕ → ℕ
  pub base : ℕ
  pub bound : ℕ
  pub lines : ℕ

-- `HOT_COLOR*PERSISTENCE`
abbrev pub hot : ℕ
hot = 150

abbrev pub larger : ℕ → ℕ → ℕ
larger a b = if ltb b a then a else b

-- `histo_create` behind `histo_delete`, which clears all fields.
unfoldable pub histo_create : ℕ → Histogram
histo_create lines = record {
  bin = λ i. 0;
  decay = λ i. 0;
  base = 0;
  bound = 0;
  range = 0;
  max_value = 0;
  bins = lines - 1;
}

-- `assembly_create` behind `assembly_delete`
unfoldable pub assembly_create : ℕ → Assembly
assembly_create lines = record { old = λ i. 0; decay = λ i. 0; base = 0; bound = 0; lines = lines }

-- The program that is viewed, and the counters of the current core.
pub record Viewed : Type 0 where
  pub code : InsnSpace
  pub seg : Segment
  pub perf : Perf

module _ (ops : Opcodes) (decoder : ℕ → ℕ → Insn) (image : ℕ → ℕ) (of : Viewed) where
  -- The inner loop of `histo_compute`: the count of a bin, and where it ends.
  unfoldable pub bin_count : ℕ → ℕ → ℕ → ℕ → Option (ℕ × ℕ)
  unfolding count at insn_bytes
  bin_count zero end pc mcount = if ltb pc end then none else some (mcount, pc)
  bin_count (suc fuel) end pc mcount =
      let rest : Option (ℕ × ℕ) = do
        k ← count of.seg of.perf pc
        i ← at of.code pc
        bin_count fuel end (pc + insn_bytes ops decoder image i) (mcount + k)
      in if ltb pc end then rest else some (mcount, pc)

  abbrev pub set_bin : Histogram → ℕ → ℕ → Histogram
  set_bin h i mcount = record h {
    bin = update h.bin i mcount;
    decay = if h.bin i == mcount then h.decay else update h.decay i hot;
  }

  -- The outer loop, with the bins to go; a bin is at most `range` bytes long, so that is its fuel.
  unfoldable pub fill_bins : ℕ → ℕ → ℕ → ℕ → Histogram → Option Histogram
  unfolding bin_count
  fill_bins zero i pc max_count h = some (record h { max_value = max_count })
  fill_bins (suc n) i pc max_count h =
      let end = if ltb h.bound (pc + h.range) then h.bound else pc + h.range in
      do
        (mcount, next) ← bin_count h.range end pc 0
        fill_bins n (i + 1) next (larger max_count mcount) (set_bin h i mcount)

  unfoldable pub histo_compute : Histogram → ℕ → ℕ → Option Histogram
  unfolding fill_bins
  histo_compute h base bound =
      if (base == 0) || (bound == 0)
      then some h
      else if h.bins == 0
      then none
      else fill_bins h.bins 0 base 0
          (record h { base = base; bound = bound; range = (bound - base) / h.bins })
