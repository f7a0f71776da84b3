-- ===== src/Perf/Layout.antt =====
-- Where the counters of all cores stand in the segment.
use cavatools.Prelude.{ℕ, zero, suc, ◌+◌, ◌-◌, ◌*◌, ◌/◌, ◌<◌, ◌≤◌, ◌≡◌, refl, ap, some, arith}
use native.Mathlib.Nat.{mul-le-mul_right}
use cavatools.Perf.{Segment, Perf, perf_new, create, executed_at, cycles_at, imiss_at, dmiss_at}

pub data Counter : Type 0 where
  executed cycles imisses dmisses : Counter

abbrev pub counter_at : Counter → Perf → ℕ → ℕ
counter_at executed = executed_at
counter_at cycles = cycles_at
counter_at imisses = imiss_at
counter_at dmisses = dmiss_at

-- The place of a counter within its core's block.
offset_in : ℕ → Counter → ℕ → ℕ
offset_in parcels executed i = 16 * i
offset_in parcels cycles i = 16 * i + 8
offset_in parcels imisses i = parcels * 16 + 8 * i
offset_in parcels dmisses i = parcels * 16 + parcels * 8 + 8 * i

counter_at-offset :
    (h : Segment) (n : ℕ) (p : Perf) (k : Counter) (i : ℕ)
    → perf_new h n ≡ some p
    → counter_at k p i ≡ n * h.parcels * 32 + offset_in h.parcels k i
unfolding perf_new offset_in
counter_at-offset h n p executed i e = ground arith
counter_at-offset h n p k i e = ground arith

offset_in-lt :
    (parcels : ℕ) (k : Counter) (i : ℕ) → i < parcels → offset_in parcels k i + 8 ≤ parcels * 32
unfolding offset_in
offset_in-lt parcels executed i h = omega arith
offset_in-lt parcels k i h = omega arith

offset_in-ne :
    (parcels : ℕ) (k k' : Counter) (i i' : ℕ)
    → i < parcels
    → i' < parcels
    → offset_in parcels k i ≡ offset_in parcels k' i'
    → (k ≡ k') × (i ≡ i')
unfolding offset_in
offset_in-ne parcels executed executed i i' h h' e = (refl, omega arith)
offset_in-ne parcels cycles cycles i i' h h' e = (refl, omega arith)
offset_in-ne parcels imisses imisses i i' h h' e = (refl, omega arith)
offset_in-ne parcels dmisses dmisses i i' h h' e = (refl, omega arith)
offset_in-ne parcels k k' i i' h h' e = absurd (omega arith)

block-ne :
    (n n' size a b : ℕ) → a < size → b < size → n * size + a ≡ n' * size + b → (n ≡ n') × (a ≡ b)
block-ne zero zero size a b ha hb e = (refl, omega arith)
block-ne zero (suc n') size a b ha hb e = absurd (omega arith)
block-ne (suc n) zero size a b ha hb e = absurd (omega arith)
block-ne (suc n) (suc n') size a b ha hb e =
    let (same, rest) = block-ne n n' size a b ha hb (omega arith) in (ap suc same, rest)

module _ (h : Segment) (n : ℕ) (p : Perf) (made : perf_new h n ≡ some p) where
  core-lt : n < h.cores
  unfolding perf_new
  core-lt = ground (arith, made)

  -- Counters stand at one place only if they are the same counter of the same parcel and core.
  pub counter_at-injective :
      (n' : ℕ) (p' : Perf) (k k' : Counter) (i i' : ℕ)
      → perf_new h n' ≡ some p'
      → i < h.parcels
      → i' < h.parcels
      → counter_at k p i ≡ counter_at k' p' i'
      → (n ≡ n') × (k ≡ k') × (i ≡ i')
  counter_at-injective n' p' k k' i i' made' lt lt' e =
      let here = counter_at-offset h n p k i made in
      let there = counter_at-offset h n' p' k' i' made' in
      let (cores, offsets) =
        block-ne n n' (h.parcels * 32) (offset_in h.parcels k i) (offset_in h.parcels k' i')
          (omega (arith, offset_in-lt h.parcels k i lt))
          (omega (arith, offset_in-lt h.parcels k' i' lt')) (omega (arith, here, there)) in
      let (kinds, parcels) = offset_in-ne h.parcels k k' i i' lt lt' offsets in
      (cores, kinds, parcels)

-- In the segment that `create` sizes, a core below the number of cores gets its pointers, and the
-- eight bytes of each of its counters lie inside the segment.
pub counter_at-create :
    (base bound cores n : ℕ)
    → n < cores
    → let h = create base bound cores in
      (p : Perf) × (perf_new h n ≡ some p)
      × ((k : Counter) (i : ℕ) → i < h.parcels → 32 + counter_at k p i + 8 ≤ h.size)
unfolding create perf_new
counter_at-create base bound cores n lt =
    let h = create base bound cores in
    let ptr : ℕ = n * h.parcels * (16 + 2 * 8) in
    let p : Perf = record {
      count = ptr;
      imiss = ptr + h.parcels * 16;
      dmiss = ptr + h.parcels * 16 + h.parcels * 8;
    } in
    let made : perf_new h n ≡ some p = ground arith in
    (
      p,
      made,
      λ k i inside. omega (
        arith,
        counter_at-offset h n p k i made,
        offset_in-lt h.parcels k i inside,
        mul-le-mul_right ((bound - base) / 2) lt,
      ),
    )
