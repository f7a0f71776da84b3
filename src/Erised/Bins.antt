-- ===== src/Erised/Bins.antt =====
-- The bins of a histogram against a walk through the text.
use cavatools.Prelude.{
  ℕ, zero, suc, ◌+◌, ◌-◌, ◌*◌, ◌/◌, ◌≤◌, ◌<◌, ◌≡◌, refl, ap, ◌∙◌, subst, false, ◌||◌, Option, some,
  ltb, ◌==◌, if◌then◌else◌, arith, inl, inr, Bool-cases, min,
}
use native.Mathlib.Nat.{mod-add-div, mod-lt}
use cavatools.Prelude.Sums.{update, sum_below, sum_below-same}
use cavatools.Insn.{Insn}
use cavatools.Insn.Space.{Opcodes}
use cavatools.Erised.{Histogram, Viewed, larger, bin_count, set_bin, fill_bins, histo_compute}
use cavatools.Erised.Walks.{IsViewed, here, Counted, Counted-append, Bin, bin_count-Bin}

sum_suc : (i n : ℕ) (f : ℕ → ℕ) → sum_below (i + suc n) f ≡ sum_below (i + 1 + n) f
sum_suc i n f = let same : i + suc n ≡ i + 1 + n = omega arith in rw same refl

sum_below_next : (i : ℕ) (f : ℕ → ℕ) → sum_below (i + 1) f ≡ sum_below i f + f i
unfolding sum_below
sum_below_next i f = let same : i + 1 ≡ suc i = omega arith in rw same refl

sum_all :
    (n total : ℕ) (f g : ℕ → ℕ)
    → sum_below (0 + n) f ≡ sum_below 0 g + total
    → total ≡ sum_below n f
unfolding sum_below
sum_all n total f g e =
    let all : 0 + n ≡ n = omega arith in omega (arith, e, ap (λ k. sum_below k f) all)

module _ (ops : Opcodes) (decoder : ℕ → ℕ → Insn) (image : ℕ → ℕ) (of : Viewed) where
  module _ (v : IsViewed of) where
    -- What the outer loop gives from the bin `i` at `pc` on.
    record Filled (n i pc max_count : ℕ) (h : Histogram) (r : Option Histogram) : Type 0 where
      filled : Histogram
      total : ℕ
      last : ℕ
      gives : r ≡ some filled
      counted : Counted ops decoder image of pc last total
      full : min h.bound (pc + n * h.range) ≤ last
      near : last < h.bound + 4
      kept : (j : ℕ) → j < i → filled.bin j ≡ h.bin j
      sums : sum_below (i + n) filled.bin ≡ sum_below i h.bin + total
      greatest : (j : ℕ) → i ≤ j → j < i + n → filled.bin j ≤ filled.max_value
      greater : max_count ≤ filled.max_value
      same_base : filled.base ≡ h.base
      same_bound : filled.bound ≡ h.bound
      same_range : filled.range ≡ h.range
      same_bins : filled.bins ≡ h.bins

    abbrev bin_end : Histogram → ℕ → ℕ
    bin_end h pc = if ltb h.bound (pc + h.range) then h.bound else pc + h.range

    abbrev counts : ℕ → Histogram → ℕ → Option (ℕ × ℕ)
    counts pc h mcount = bin_count ops decoder image of h.range (bin_end h pc) pc mcount

    abbrev fill : ℕ → ℕ → ℕ → ℕ → Histogram → Option Histogram
    fill = fill_bins ops decoder image of

    -- A bin, and those behind it.
    Filled-join :
        (n i pc max_count : ℕ) (h : Histogram)
        → (b : Bin ops decoder image of v (bin_end h pc) pc 0 h.bound (counts pc h 0))
        → let h1 = set_bin ops decoder image of h i b.total in
          let next_max = larger max_count b.total in
          Filled n (i + 1) b.last next_max h1 (fill n (i + 1) b.last next_max h1)
          → Filled (suc n) i pc max_count h (fill (suc n) i pc max_count h)
    unfolding fill_bins
    Filled-join n i pc max_count h b f =
        let this_bin : f.filled.bin i ≡ b.total = f.kept i (omega arith) ∙ ground arith in
        record {
          filled = f.filled;
          total = b.total + f.total;
          last = f.last;
          gives =
              let none_before : 0 + b.total ≡ b.total = omega arith in
              rw (b.gives, none_before) f.gives;
          counted = Counted-append ops decoder image of b.counted f.counted;
          full = ground (arith, b.full, f.full);
          near = f.near;
          kept = λ j lt. f.kept j (omega arith) ∙ ground arith;
          sums =
              let before = sum_below-same i h.bin (update h.bin i b.total) (λ j lt. ground arith) in
              let this : update h.bin i b.total i ≡ b.total = ground arith in
              sum_suc i n f.filled.bin
              ∙ f.sums
              ∙ ap (λ k. k + f.total) (sum_below_next i (update h.bin i b.total))
              ∙ omega (arith, before, this);
          greatest = λ j le lt. elim (Bool-cases (i == j)) [
            | inl e ↦ ground (arith, this_bin, f.greater)
            | inr e ↦ f.greatest j (ground arith) (omega arith)
          ];
          greater = ground (arith, f.greater);
          same_base = f.same_base;
          same_bound = f.same_bound;
          same_range = f.same_range;
          same_bins = f.same_bins;
        }

    fill_bins-Filled :
        (n i pc max_count : ℕ) (h : Histogram)
        → of.code.base ≤ pc
        → h.bound ≤ of.code.limit
        → pc < h.bound + 4
        → Filled n i pc max_count h (fill_bins ops decoder image of n i pc max_count h)
    unfolding fill_bins
    fill_bins-Filled zero i pc max_count h lo hi near = record {
      filled = record h { max_value = max_count };
      total = 0;
      last = pc;
      gives = refl;
      counted = here;
      full = omega arith;
      near = near;
      kept = λ j lt. refl;
      sums = let none_left : i + 0 ≡ i = omega arith in rw none_left (omega arith);
      greatest = λ j le lt. absurd (omega arith);
      greater = omega arith;
      same_base = refl;
      same_bound = refl;
      same_range = refl;
      same_bins = refl;
    }
    fill_bins-Filled (suc n) i pc max_count h lo hi near =
        let b =
          bin_count-Bin ops decoder image of v h.range (bin_end h pc) pc 0 h.bound lo (ground arith)
            (ground arith) near (ground arith) in
        Filled-join n i pc max_count h b (
          fill_bins-Filled n (i + 1) b.last (larger max_count b.total)
            (set_bin ops decoder image of h i b.total) (omega (arith, b.later)) hi b.near)

    -- A computed histogram.
    pub record IsComputed (h : Histogram) (base bound : ℕ) (h' : Histogram) : Type 0 where
      pub last : ℕ
      pub counted : Counted ops decoder image of base last (sum_below h.bins h'.bin)
      pub reaches : bound < last + h.bins
      pub near : last < bound + 4
      pub greatest : (j : ℕ) → j < h.bins → h'.bin j ≤ h'.max_value
      pub same_base : h'.base ≡ base
      pub same_bound : h'.bound ≡ bound
      pub same_range : h'.range ≡ (bound - base) / h.bins
      pub same_bins : h'.bins ≡ h.bins

    whole_range :
        (base bound bins : ℕ)
        → 0 < bins
        → base ≤ bound
        → bound < base + bins * ((bound - base) / bins) + bins
    whole_range base bound bins pos le =
        omega (arith, mod-add-div (bound - base) bins, mod-lt (bound - base) pos)

    -- For any window of a text whose counters are its own, and any histogram with a bin,
    -- `histo_compute` ends without a fault. Its bins add up to the counts of all instructions of one
    -- walk from the base on, each counted once; the walk stops less than `bins` bytes before the bound
    -- and less than four behind it; and no bin exceeds `max_value`.
    pub histo_compute-IsComputed :
        (h : Histogram) (base bound : ℕ)
        → 0 < h.bins
        → of.code.base ≤ base
        → base ≤ bound
        → bound ≤ of.code.limit
        → (h' : Histogram) × (histo_compute ops decoder image of h base bound ≡ some h')
          × IsComputed h base bound h'
    unfolding histo_compute
    histo_compute-IsComputed h base bound pos lo le hi =
        let range = (bound - base) / h.bins in
        let f =
          fill_bins-Filled h.bins 0 base 0 (record h { base = base; bound = bound; range = range })
            lo hi (omega arith) in
        let some_base : (base == 0) || (bound == 0) ≡ false = ground (arith, v.above) in
        let some_bin : (h.bins == 0) ≡ false = ground arith in
        (
          f.filled,
          rw (some_base, some_bin) f.gives,
          record {
            last = f.last;
            counted =
                subst (Counted ops decoder image of base f.last)
                  (sum_all h.bins f.total f.filled.bin h.bin f.sums) f.counted;
            reaches = omega (arith, f.full, whole_range base bound h.bins pos le);
            near = f.near;
            greatest = λ j lt. f.greatest j (omega arith) (omega arith);
            same_base = f.same_base;
            same_bound = f.same_bound;
            same_range = f.same_range;
            same_bins = f.same_bins;
          },
        )
