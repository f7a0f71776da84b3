-- ===== src/Perf/Counters.antt =====
-- Reading a counter after adding to one.
use cavatools.Prelude.{
  ℕ, ◌+◌, ◌<◌, ◌≡◌, refl, ap, ◌∙◌, Bool, true, false, ◌&&◌, Option, some, if◌then◌else◌, ◌==◌,
  arith, inl, inr, Bool-cases,
}
use cavatools.Perf.{
  Segment, Perf, perf_new, index, count, cycle, imiss, dmiss, inc_count, inc_cycle, inc_imiss,
  inc_dmiss, add_at,
}
use cavatools.Perf.Layout.{
  Counter, executed, cycles, imisses, dmisses, counter_at, counter_at-injective,
}

-- Reading and adding, for all four counters.
abbrev pub read : Counter → Segment → Perf → ℕ → Option ℕ
read executed = count
read cycles = cycle
read imisses = imiss
read dmisses = dmiss

abbrev pub inc : Counter → Segment → Perf → ℕ → ℕ → Option Segment
inc executed = inc_count
inc cycles = inc_cycle
inc imisses = inc_imiss
inc dmisses = inc_dmiss

pub read-at :
    (k : Counter) (h : Segment) (p : Perf) (pc i : ℕ)
    → index h pc ≡ some i
    → read k h p pc ≡ some (h.arrays (counter_at k p i))
unfolding count cycle imiss dmiss
read-at executed h p pc i e = rw e
read-at cycles h p pc i e = rw e
read-at imisses h p pc i e = rw e
read-at dmisses h p pc i e = rw e

pub inc-at :
    (k : Counter) (h : Segment) (p : Perf) (pc i v : ℕ)
    → index h pc ≡ some i
    → inc k h p pc v ≡ some (add_at h (counter_at k p i) v)
unfolding inc_count inc_cycle inc_imiss inc_dmiss
inc-at executed h p pc i v e = rw e
inc-at cycles h p pc i v e = rw e
inc-at imisses h p pc i v e = rw e
inc-at dmisses h p pc i v e = rw e

pub index-add_at : (h : Segment) (a v pc : ℕ) → index (add_at h a v) pc ≡ index h pc
unfolding index
index-add_at h a v pc = refl

pub index-lt : (h : Segment) (pc i : ℕ) → index h pc ≡ some i → i < h.parcels
unfolding index
index-lt h pc i e = ground arith

unfoldable pub counter_eq : Counter → Counter → Bool
counter_eq executed executed = true
counter_eq cycles cycles = true
counter_eq imisses imisses = true
counter_eq dmisses dmisses = true
counter_eq _ _ = false

counter_eq-of_refl : (k : Counter) → counter_eq k k ≡ true
unfolding counter_eq
counter_eq-of_refl executed = refl
counter_eq-of_refl cycles = refl
counter_eq-of_refl imisses = refl
counter_eq-of_refl dmisses = refl

counter_eq_sound : (k k' : Counter) → counter_eq k k' ≡ true → k ≡ k'
unfolding counter_eq
counter_eq_sound executed executed h = refl
counter_eq_sound cycles cycles h = refl
counter_eq_sound imisses imisses h = refl
counter_eq_sound dmisses dmisses h = refl
counter_eq_sound k k' h = cc

abbrev pub same_test : ℕ → ℕ → Counter → Counter → ℕ → ℕ → Bool
same_test n n' k k' i i' = counter_eq k k' && (n == n' && i == i')

-- Two counters are at one place exactly when kind, core and parcel are the same.
module _ (h : Segment) (n n' : ℕ) (p p' : Perf) (k k' : Counter) (i i' : ℕ)
    (made : perf_new h n ≡ some p) (made' : perf_new h n' ≡ some p') (lt : i < h.parcels)
    (lt' : i' < h.parcels) where
  same_place : counter_at k p i ≡ counter_at k' p' i' → same_test n n' k k' i i' ≡ true
  same_place e =
      let (cores, kinds, parcels) =
        counter_at-injective h n p made n' p' k k' i i' made' lt lt' e in
      ground (arith, cores, kinds, parcels, counter_eq-of_refl k)

  same_counter : same_test n n' k k' i i' ≡ true → counter_at k p i ≡ counter_at k' p' i'
  same_counter t =
      let kinds : k ≡ k' = counter_eq_sound k k' (ground arith) in
      let cores : n ≡ n' = ground arith in let parcels : i ≡ i' = ground arith in cc

  pub place_test : (counter_at k' p' i' == counter_at k p i) ≡ same_test n n' k k' i i'
  place_test = elim (Bool-cases (same_test n n' k k' i i')) [
    | inl t ↦ ground (arith, same_counter t)
    | inr t ↦ ground (arith, same_place)
  ]

-- For two cores of the segment and two addresses inside its text: adding to one counter and reading
-- another do not fault, and what is read is more by the added number exactly when the two are of
-- the same kind, core and parcel, and unchanged otherwise.
pub read-inc :
    (h : Segment) (n n' : ℕ) (p p' : Perf) (k k' : Counter) (pc pc' i i' v : ℕ)
    → perf_new h n ≡ some p
    → perf_new h n' ≡ some p'
    → index h pc ≡ some i
    → index h pc' ≡ some i'
    → (h' : Segment) × (x : ℕ) × (inc k h p pc v ≡ some h')
      × (read k' h p' pc' ≡ some x)
      × (read k' h' p' pc' ≡ some (if same_test n n' k k' i i' then x + v else x))
read-inc h n n' p p' k k' pc pc' i i' v made made' e e' = (
  add_at h (counter_at k p i) v,
  h.arrays (counter_at k' p' i'),
  inc-at k h p pc i v e,
  read-at k' h p' pc' i' e',
  read-at k' _ p' pc' i' (index-add_at h _ v pc' ∙ e')
      ∙ ap some (
          ap (λ b. if b then h.arrays (counter_at k' p' i') + v else h.arrays (counter_at k' p' i'))
            (place_test h n n' p p' k k' i i' made made' (index-lt h pc i e)
              (index-lt h pc' i' e'))),
)
