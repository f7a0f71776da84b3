-- ===== src/Hart/Totals.antt =====
-- The total count against the counts of the harts.
use cavatools.Prelude.{ℕ, ◌+◌, ◌%◌, ◌<◌, ◌≡◌, sym, ap, ◌∙◌, arith}
use cavatools.Prelude.Words.{long_mod}
use cavatools.Prelude.Sums.{sum_below, sum_below-update, sum_below-zero, update}
use cavatools.Hart.{
  Harts, Place, outside, read_list, swap_list, read_number, swap_number, running, read_total,
  swap_total, move,
}
use cavatools.Hart.Steps.{Reach, Reach-invariant}

-- What a thread in `incr_count` has added to its hart and not yet to the total.
abbrev pub pending : Place → ℕ
pending (read_total n) = n
pending (swap_total n oldtotal) = n
pending _ = 0

abbrev pub IsBalanced : ℕ → Harts → Type 0
IsBalanced n s =
    (s.total_insns < long_mod)
    × ((s.total_insns + sum_below n (λ i. pending (s.place i))) % long_mod
        ≡ sum_below n s.executed % long_mod)

module _ (n i : ℕ) (lt : i < n) where
  goes-pending :
      (s : Harts) (p q : Place)
      → s.place i ≡ p
      → sum_below n (λ j. pending (update s.place i q j)) + pending p
        ≡ sum_below n (λ j. pending (s.place j)) + pending q
  goes-pending s p q e =
      ap (λ r. sum_below n (λ j. pending (update s.place i q j)) + pending r) (sym e)
      ∙ sum_below-update pending n s.place i q lt

  executed-update :
      (s : Harts) (x : ℕ)
      → sum_below n (update s.executed i x) + s.executed i ≡ sum_below n s.executed + x
  executed-update s x = sum_below-update (λ e. e) n s.executed i x lt

  move-IsBalanced :
      (p : Place) (s : Harts) (k : ℕ) → s.place i ≡ p → IsBalanced n s → IsBalanced n (move p s i k)
  unfolding move
  move-IsBalanced outside s k e (small, b) =
      (small, omega (arith, goes-pending s outside read_list e, b))
  move-IsBalanced read_list s k e (small, b) =
      (small, omega (arith, goes-pending s read_list swap_list e, b))
  move-IsBalanced swap_list s k e (small, b) =
      ground (arith, goes-pending s swap_list read_list e, goes-pending s swap_list read_number e)
  move-IsBalanced read_number s k e (small, b) =
      (small, omega (arith, goes-pending s read_number (swap_number s.num_threads) e, b))
  move-IsBalanced (swap_number old) s k e (small, b) = ground (
    arith,
    goes-pending s (swap_number old) running e,
    goes-pending s (swap_number old) read_number e,
  )
  move-IsBalanced running s k e (small, b) = (
    small,
    omega (
      arith,
      goes-pending s running (read_total k) e,
      executed-update s ((s.executed i + k) % long_mod),
      b,
    ),
  )
  move-IsBalanced (read_total m) s k e (small, b) =
      (small, omega (arith, goes-pending s (read_total m) (swap_total m s.total_insns) e, b))
  move-IsBalanced (swap_total m old) s k e (small, b) = ground (
    arith,
    goes-pending s (swap_total m old) running e,
    goes-pending s (swap_total m old) (read_total m) e,
  )

-- However the threads interleave, the total count and what the threads in `incr_count` have yet to add
-- to it make up the sum of the counts of the harts, modulo 2^64: no addition is lost or doubled.
pub total_insns-IsBalanced : (n : ℕ) (s : Harts) → Reach n s → IsBalanced n s
total_insns-IsBalanced n =
    Reach-invariant n (IsBalanced n) (omega arith, omega (arith, sum_below-zero n))
      (λ p s i k lt. move-IsBalanced n i lt p s k)
