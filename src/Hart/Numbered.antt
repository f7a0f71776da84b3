-- ===== src/Hart/Numbered.antt =====
-- The numbers that the constructors give to harts.
use cavatools.Prelude.{
  ℕ, ◌+◌, ◌%◌, some, ◌<◌, ◌≡◌, refl, sym, ap, ◌∙◌, ◌==◌, arith, inl, inr, Bool-cases, fun_ext,
}
use cavatools.Prelude.Words.{long_mod}
use cavatools.Prelude.Sums.{sum_below, sum_below-update, sum_below-zero, update}
use cavatools.Hart.{
  Harts, Place, outside, read_list, swap_list, read_number, swap_number, running, read_total,
  swap_total, move, same_pointer,
}
use cavatools.Hart.Steps.{Reach, Reach-invariant}

-- Whether a thread has constructed its hart.
abbrev pub has_number : Place → ℕ
has_number running = 1
has_number (read_total n) = 1
has_number (swap_total n oldtotal) = 1
has_number _ = 0

pub record IsNumbered (n : ℕ) (s : Harts) : Type 0 where
  pub threads : s.num_threads ≡ sum_below n (λ i. has_number (s.place i))
  pub below : (i : ℕ) → has_number (s.place i) ≡ 1 → s.number i < s.num_threads
  pub unique :
      (i j : ℕ)
      → has_number (s.place i) ≡ 1
      → has_number (s.place j) ≡ 1
      → s.number i ≡ s.number j
      → i ≡ j

module _ (n i : ℕ) (lt : i < n) where
  -- A step to a place that is numbered as before keeps the invariant.
  goes-IsNumbered :
      (s t : Harts) (q : Place)
      → has_number q ≡ has_number (s.place i)
      → t.num_threads ≡ s.num_threads
      → ((j : ℕ) → t.number j ≡ s.number j)
      → ((j : ℕ) → t.place j ≡ update s.place i q j)
      → IsNumbered n s
      → IsNumbered n t
  goes-IsNumbered s t q same threads number place v = record {
    threads = threads ∙ v.threads ∙ sums;
    below = λ j h. ground (arith, threads, number j, v.below j (sym (kind j) ∙ h));
    unique = λ a b ha hb e.
        v.unique a b (sym (kind a) ∙ ha) (sym (kind b) ∙ hb) (sym (number a) ∙ e ∙ number b);
  }
    where
      kind : (j : ℕ) → has_number (t.place j) ≡ has_number (s.place j)
      kind j = ap has_number (place j) ∙ ground (arith, same)

      sums : sum_below n (λ j. has_number (s.place j)) ≡ sum_below n (λ j. has_number (t.place j))
      sums = ap (sum_below n) (fun_ext (λ j. sym (kind j)))

  -- The swap that wins gives the next number.
  takes-IsNumbered :
      (s : Harts)
      → has_number (s.place i) ≡ 0
      → IsNumbered n s
      → IsNumbered n (record s {
        num_threads = s.num_threads + 1;
        number = update s.number i s.num_threads;
        place = update s.place i running;
      })
  takes-IsNumbered s none_yet v = record {
    threads =
        omega (arith, v.threads, none_yet, sum_below-update has_number n s.place i running lt);
    below = λ j h. ground (arith, v.below j);
    unique = λ a b ha hb e. ground (arith, v.below a, v.below b, v.unique a b);
  }

  move-IsNumbered :
      (p : Place) (s : Harts) (k : ℕ) → s.place i ≡ p → IsNumbered n s → IsNumbered n (move p s i k)
  unfolding move
  move-IsNumbered outside s k e v =
      goes-IsNumbered s (move outside s i k) read_list (rw e refl) refl (λ j. refl) (λ j. refl) v
  move-IsNumbered read_list s k e v =
      goes-IsNumbered s (move read_list s i k) swap_list (rw e refl) refl (λ j. refl) (λ j. refl) v
  move-IsNumbered swap_list s k e v = elim (Bool-cases (same_pointer s.cpu_list (s.link i))) [
    | inl won ↦ rw won (
        goes-IsNumbered s (record s { cpu_list = some i; place = update s.place i read_number })
          read_number (rw e refl) refl (λ j. refl) (λ j. refl) v)
    | inr lost ↦ rw lost (
        goes-IsNumbered s (record s { place = update s.place i read_list }) read_list (rw e refl)
          refl (λ j. refl) (λ j. refl) v)
  ]
  move-IsNumbered read_number s k e v =
      goes-IsNumbered s (move read_number s i k) (swap_number s.num_threads) (rw e refl) refl
        (λ j. refl) (λ j. refl) v
  move-IsNumbered (swap_number old) s k e v = elim (Bool-cases (s.num_threads == old)) [
    | inl won ↦
        let same : old ≡ s.num_threads = ground arith in
        rw (won, same) (takes-IsNumbered s (ap has_number e) v)
    | inr lost ↦ rw lost (
        goes-IsNumbered s (record s { place = update s.place i read_number }) read_number
          (rw e refl) refl (λ j. refl) (λ j. refl) v)
  ]
  move-IsNumbered running s k e v =
      goes-IsNumbered s (move running s i k) (read_total k) (rw e refl) refl (λ j. refl) (λ j. refl)
        v
  move-IsNumbered (read_total m) s k e v =
      goes-IsNumbered s (move (read_total m) s i k) (swap_total m s.total_insns) (rw e refl) refl
        (λ j. refl) (λ j. refl) v
  move-IsNumbered (swap_total m old) s k e v = elim (Bool-cases (s.total_insns == old)) [
    | inl won ↦ rw won (
        goes-IsNumbered s
          (record s { total_insns = (old + m) % long_mod; place = update s.place i running })
          running (rw e refl) refl (λ j. refl) (λ j. refl) v)
    | inr lost ↦ rw lost (
        goes-IsNumbered s (record s { place = update s.place i (read_total m) }) (read_total m)
          (rw e refl) refl (λ j. refl) (λ j. refl) v)
  ]

-- However the threads interleave, `num_threads` is the number of harts that have their number, each
-- of these numbers is below it, and no two harts have the same.
pub number-IsNumbered : (n : ℕ) (s : Harts) → Reach n s → IsNumbered n s
number-IsNumbered n =
    Reach-invariant n (IsNumbered n)
      (record {
        threads = sym (sum_below-zero n);
        below = λ i h. absurd (omega arith);
        unique = λ i j h. absurd (omega arith);
      })
      (λ p s i k lt. move-IsNumbered n i lt p s k)
