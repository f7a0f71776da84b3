-- ===== src/Prelude/Sums.antt =====
-- Sums over the first members of a family, and families that are updated at one index.
use Prim.Native.Nat.{ℕ, zero, suc, ◌+◌, ◌<◌}
use mathlib.Core.Path.{◌≡◌, refl}
use mathlib.Core.Logic.{inl, inr}
use native.Mathlib.Omega.{arith}
use cavatools.Prelude.Tests.{if◌then◌else◌, ◌==◌, Bool-cases}

unfoldable pub sum_below : ℕ → (ℕ → ℕ) → ℕ
sum_below zero f = 0
sum_below (suc n) f = sum_below n f + f n

pub sum_below-same :
    (n : ℕ) (f g : ℕ → ℕ) → ((j : ℕ) → j < n → g j ≡ f j) → sum_below n g ≡ sum_below n f
unfolding sum_below
sum_below-same zero f g h = refl
sum_below-same (suc n) f g h =
    omega (arith, sum_below-same n f g (λ j lt. h j (omega arith)), h n (omega arith))

pub sum_below-bump :
    (n : ℕ) (f g : ℕ → ℕ) (i v : ℕ)
    → i < n
    → ((j : ℕ) → j < n → g j ≡ (if i == j then f j + v else f j))
    → sum_below n g ≡ sum_below n f + v
unfolding sum_below
sum_below-bump zero f g i v lt h = elim lt [ ]
sum_below-bump (suc n) f g i v lt h = elim (Bool-cases (i == n)) [
  | inl e ↦
      let others = sum_below-same n f g (λ j below. ground (arith, h j (omega arith))) in
      ground (arith, others, h n (omega arith))
  | inr e ↦
      let others = sum_below-bump n f g i v (ground arith) (λ j below. h j (omega arith)) in
      ground (arith, others, h n (omega arith))
]

abbrev pub update {ℓ} : {A : Type ℓ} → (ℕ → A) → ℕ → A → ℕ → A
update f i a j = if i == j then a else f j

-- The sum after an update, without subtraction.
pub sum_below-update {ℓ} :
    {A : Type ℓ} (w : A → ℕ) (n : ℕ) (f : ℕ → A) (i : ℕ) (a : A)
    → i < n
    → sum_below n (λ j. w (update f i a j)) + w (f i) ≡ sum_below n (λ j. w (f j)) + w a
unfolding sum_below
sum_below-update w zero f i a lt = elim lt [ ]
sum_below-update w (suc n) f i a lt = elim (Bool-cases (i == n)) [
  | inl e ↦
      let others =
        sum_below-same n (λ j. w (f j)) (λ j. w (update f i a j)) (λ j below. ground arith) in
      ground (arith, others)
  | inr e ↦ ground (arith, sum_below-update w n f i a (ground arith))
]

pub sum_below-zero : (n : ℕ) → sum_below n (λ i. 0) ≡ 0
unfolding sum_below
sum_below-zero zero = refl
sum_below-zero (suc n) = omega (arith, sum_below-zero n)
