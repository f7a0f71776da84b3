-- ===== src/Hart/Find.antt =====
-- `hart_t::find` on the list of harts.
use cavatools.Prelude.{
  ℕ, zero, suc, ◌≤◌, ◌<◌, ◌≡◌, refl, ◌∙◌, Option, none, some, List, [], ◌∷◌, length, ◌==◌,
  if◌then◌else◌, arith, inl, inr, Bool-cases,
}
use cavatools.Prelude.Sums.{sum_below}
use cavatools.Hart.{Harts, Place, find}
use cavatools.Hart.Steps.{Reach}
use cavatools.Hart.Listed.{is_linked, occurs, Chain, cpu_list-IsListed}

-- The first hart with a thread number, in a list.
first_with : (ℕ → ℕ) → List ℕ → ℕ → Option ℕ
first_with my_tid [] tid = none
first_with my_tid (p ∷ l) tid =
    let rest = first_with my_tid l tid in if my_tid p == tid then some p else rest

find-first_with :
    (my_tid : ℕ → ℕ) (link : ℕ → Option ℕ) (fuel : ℕ) (p : Option ℕ) (l : List ℕ) (tid : ℕ)
    → Chain link p l
    → length l < fuel
    → find my_tid link fuel p tid ≡ first_with my_tid l tid
unfolding find first_with
find-first_with my_tid link zero p l tid c lt = elim lt [ ]
find-first_with my_tid link (suc fuel) p [] tid e lt = rw e refl
find-first_with my_tid link (suc fuel) p (i ∷ l) tid (e, c) lt =
    let rest = find-first_with my_tid link fuel (link i) l tid c (omega arith) in rw (e, rest) refl

first_with-only :
    (my_tid : ℕ → ℕ) (l : List ℕ) (j : ℕ)
    → 0 < occurs j l
    → ((i : ℕ) → 0 < occurs i l → my_tid i ≡ my_tid j → i ≡ j)
    → first_with my_tid l (my_tid j) ≡ some j
unfolding first_with
first_with-only my_tid [] j there only = elim there [ ]
first_with-only my_tid (i ∷ l) j there only = elim (Bool-cases (my_tid i == my_tid j)) [
  | inl e ↦ ground (arith, only i (ground arith))
  | inr e ↦
      rw e (first_with-only my_tid l j (ground arith) (λ k below same. only k (omega arith) same))
]

sum_below-le : (n : ℕ) (f : ℕ → ℕ) → ((i : ℕ) → f i ≤ 1) → sum_below n f ≤ n
unfolding sum_below
sum_below-le zero f h = omega arith
sum_below-le (suc n) f h = omega (arith, h n, sum_below-le n f h)

is_linked-le : (p : Place) → is_linked p ≤ 1
is_linked-le p = ground arith

-- With `n` threads in any reachable state, `find` ends after at most `n + 1` pointers. It returns the
-- hart whose thread number it is given, if that hart is linked and no other linked one has its number.
pub find-linked :
    (n : ℕ) (s : Harts) (my_tid : ℕ → ℕ) (j : ℕ)
    → Reach n s
    → is_linked (s.place j) ≡ 1
    → ((i : ℕ) → is_linked (s.place i) ≡ 1 → my_tid i ≡ my_tid j → i ≡ j)
    → find my_tid s.link (suc n) s.cpu_list (my_tid j) ≡ some j
find-linked n s my_tid j r linked only =
    let v = cpu_list-IsListed n s r in
    let few = sum_below-le n (λ i. is_linked (s.place i)) (λ i. is_linked-le (s.place i)) in
    find-first_with my_tid s.link (suc n) s.cpu_list v.items (my_tid j) v.chain
      (omega (arith, v.size, few))
    ∙ first_with-only my_tid v.items j (omega (arith, v.once j, linked))
        (λ i there. only i (omega (arith, v.once i, there, is_linked-le (s.place i))))
