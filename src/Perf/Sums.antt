-- ===== src/Perf/Sums.antt =====
-- The counters of one kind, summed over the text segment.
use cavatools.Prelude.{
  ℕ, zero, suc, ◌+◌, ◌-◌, ◌/◌, ◌<◌, ◌≡◌, refl, ap, ◌∙◌, Bool, false, ◌&&◌, some, if◌then◌else◌,
  ◌==◌, arith, inl, inr, Bool-cases,
}
use cavatools.Prelude.Sums.{sum_below, sum_below-same, sum_below-bump}
use cavatools.Perf.{Segment, Perf, perf_new, create, index, add_at}
use cavatools.Perf.Layout.{Counter, executed, cycles, imisses, dmisses, counter_at}
use cavatools.Perf.Counters.{counter_eq, inc, inc-at, index-add_at, index-lt, same_test, place_test}

abbrev pub total : Counter → Segment → Perf → ℕ
total k h p = sum_below h.parcels (λ i. h.arrays (counter_at k p i))

-- Adding to a counter adds to the total of its kind on its core, and to no other total.
pub total-add_at :
    (h : Segment) (n n' : ℕ) (p p' : Perf) (k k' : Counter) (i v : ℕ)
    → perf_new h n ≡ some p
    → perf_new h n' ≡ some p'
    → i < h.parcels
    → total k' (add_at h (counter_at k p i) v) p'
      ≡ (if counter_eq k k' && n == n' then total k' h p' + v else total k' h p')
total-add_at h n n' p p' k k' i v made made' lt = elim (Bool-cases (counter_eq k k' && n == n')) [
  | inl t ↦
      rw t (sum_below-bump h.parcels _ _ i v lt (λ j below. agree j (i == j) below (ground arith)))
  | inr t ↦ rw t (sum_below-same h.parcels _ _ (λ j below. agree j false below (ground arith)))
]
  where
    agree :
        (j : ℕ) (b : Bool)
        → j < h.parcels
        → same_test n n' k k' i j ≡ b
        → (add_at h (counter_at k p i) v).arrays (counter_at k' p' j)
          ≡ (if b then h.arrays (counter_at k' p' j) + v else h.arrays (counter_at k' p' j))
    agree j b below e =
        ap (λ b. if b then h.arrays (counter_at k' p' j) + v else h.arrays (counter_at k' p' j))
          (place_test h n n' p p' k k' i j made made' lt below ∙ e)

pub total-create :
    (k : Counter) (base bound cores : ℕ) (p : Perf) → total k (create base bound cores) p ≡ 0
unfolding create sum_below
total-create k base bound cores p = zeros ((bound - base) / 2)
  where
    zeros : (n : ℕ) → sum_below n (λ i. 0) ≡ 0
    zeros zero = refl
    zeros (suc n) = omega (arith, zeros n)

-- The totals of one core: instructions, cycles, and the misses of the two caches.
pub record Totals (h : Segment) (n : ℕ) (p : Perf) (insns time imissed dmissed : ℕ) : Type 0 where
  pub made : perf_new h n ≡ some p
  pub executed_sum : total executed h p ≡ insns
  pub cycles_sum : total cycles h p ≡ time
  pub imisses_sum : total imisses h p ≡ imissed
  pub dmisses_sum : total dmisses h p ≡ dmissed

perf_new-add_at : (h : Segment) (a v n : ℕ) → perf_new (add_at h a v) n ≡ perf_new h n
unfolding perf_new
perf_new-add_at h a v n = refl

-- What an increment adds to the total of a kind.
abbrev pub gain : Counter → Counter → ℕ → ℕ
gain k k' v = if counter_eq k k' then v else 0

pub inc-Totals :
    (k : Counter) (h : Segment) (n : ℕ) (p : Perf) (pc i v insns time imissed dmissed : ℕ)
    → index h pc ≡ some i
    → Totals h n p insns time imissed dmissed
    → (h' : Segment) × (inc k h p pc v ≡ some h')
      × Totals h' n p
          (insns + gain k executed v)
          (time + gain k cycles v)
          (imissed + gain k imisses v)
          (dmissed + gain k dmisses v)
      × ((pc' : ℕ) → index h' pc' ≡ index h pc')
inc-Totals k h n p pc i v insns time imissed dmissed at t = (
  add_at h (counter_at k p i) v,
  inc-at k h p pc i v at,
  record {
    made = perf_new-add_at h _ v n ∙ t.made;
    executed_sum = grown executed ∙ ap (λ x. x + gain k executed v) t.executed_sum;
    cycles_sum = grown cycles ∙ ap (λ x. x + gain k cycles v) t.cycles_sum;
    imisses_sum = grown imisses ∙ ap (λ x. x + gain k imisses v) t.imisses_sum;
    dmisses_sum = grown dmisses ∙ ap (λ x. x + gain k dmisses v) t.dmisses_sum;
  },
  index-add_at h _ v,
)
  where
    grown : (k' : Counter) → total k' (add_at h (counter_at k p i) v) p ≡ total k' h p + gain k k' v
    grown k' = total-add_at h n n p p k k' i v t.made t.made (index-lt h pc i at) ∙ ground arith

pub Totals-cast :
    {h : Segment} {n : ℕ} {p : Perf} {a b c d a' b' c' d' : ℕ}
    → a ≡ a'
    → b ≡ b'
    → c ≡ c'
    → d ≡ d'
    → Totals h n p a b c d
    → Totals h n p a' b' c' d'
Totals-cast ea eb ec ed t = record {
  made = t.made;
  executed_sum = t.executed_sum ∙ ea;
  cycles_sum = t.cycles_sum ∙ eb;
  imisses_sum = t.imisses_sum ∙ ec;
  dmisses_sum = t.dmisses_sum ∙ ed;
}
