-- ===== src/Hart/Solo.antt =====
-- A thread that runs alone.
use cavatools.Prelude.{
  ℕ, zero, suc, ◌≤◌, ◌≡◌, refl, sym, subst, true, Option, none, some, ◌==◌, arith, inl, inr,
  Bool-cases,
}
use cavatools.Prelude.Sums.{update}
use cavatools.Hart.{
  Harts, Place, outside, read_list, swap_list, read_number, swap_number, running, read_total,
  swap_total, move, same_pointer,
}
use cavatools.Hart.Steps.{advance}

-- Steps of one thread only.
unfoldable pub alone : ℕ → Harts → ℕ → Harts
alone zero s i = s
alone (suc m) s i = alone m (advance s i 0) i

abbrev pub Finishes : ℕ → Harts → ℕ → Type 0
Finishes k s i = (m : ℕ) × (m ≤ k) × ((alone m s i).place i ≡ running)

module _ (i : ℕ) where
  update_self : (f : ℕ → Place) (p : Place) → update f i p i ≡ p
  update_self f p = ground arith

  update_self_pointer : (f : ℕ → Option ℕ) (p : Option ℕ) → update f i p i ≡ p
  update_self_pointer f p = ground arith

  done : (s : Harts) → s.place i ≡ running → Finishes 0 s i
  unfolding alone
  done s e = (0, omega arith, e)

  -- One step more, from a known place.
  before :
      (k : ℕ) (s : Harts) (p : Place)
      → s.place i ≡ p
      → Finishes k (move p s i 0) i
      → Finishes (suc k) s i
  unfolding alone advance
  before k s p e (m, le, f) =
      (suc m, omega arith, subst (λ q. (alone m (move q s i 0) i).place i ≡ running) (sym e) f)

  from_swap_number : (s : Harts) → s.place i ≡ swap_number s.num_threads → Finishes 1 s i
  unfolding move
  from_swap_number s e = before 0 s (swap_number s.num_threads) e (done _ (ground arith))

  from_read_number : (s : Harts) → s.place i ≡ read_number → Finishes 2 s i
  unfolding move
  from_read_number s e =
      before 1 s read_number e
        (from_swap_number _ (update_self s.place (swap_number s.num_threads)))

  from_swap_list :
      (s : Harts)
      → s.place i ≡ swap_list
      → same_pointer s.cpu_list (s.link i) ≡ true
      → Finishes 3 s i
  unfolding move
  from_swap_list s e fresh =
      before 2 s swap_list e (rw fresh (from_read_number _ (update_self s.place read_number)))

  same_pointer_refl : (p : Option ℕ) → same_pointer p p ≡ true
  unfolding same_pointer
  same_pointer_refl none = refl
  same_pointer_refl (some p) = ground arith

  from_read_list : (s : Harts) → s.place i ≡ read_list → Finishes 4 s i
  unfolding move
  from_read_list s e = before 3 s read_list e (
      from_swap_list _ (update_self s.place swap_list)
        (rw (update_self_pointer s.link s.cpu_list) (same_pointer_refl s.cpu_list)))

  from_swap_total : (s : Harts) (n : ℕ) → s.place i ≡ swap_total n s.total_insns → Finishes 1 s i
  unfolding move
  from_swap_total s n e = before 0 s (swap_total n s.total_insns) e (done _ (ground arith))

  from_read_total : (s : Harts) (n : ℕ) → s.place i ≡ read_total n → Finishes 2 s i
  unfolding move
  from_read_total s n e =
      before 1 s (read_total n) e
        (from_swap_total _ n (update_self s.place (swap_total n s.total_insns)))

  longer : (j k : ℕ) (s : Harts) → j ≤ k → Finishes j s i → Finishes k s i
  longer j k s le (m, small, f) = (m, omega arith, f)

  from_place : (p : Place) (s : Harts) → s.place i ≡ p → Finishes 5 s i
  unfolding move
  from_place outside s e = before 4 s outside e (from_read_list _ (update_self s.place read_list))
  from_place read_list s e = longer 4 5 s (omega arith) (from_read_list s e)
  from_place swap_list s e =
      before 4 s swap_list e (elim (Bool-cases (same_pointer s.cpu_list (s.link i))) [
        | inl won ↦
            rw won
              (longer 2 4 _ (omega arith) (from_read_number _ (update_self s.place read_number)))
        | inr lost ↦ rw lost (from_read_list _ (update_self s.place read_list))
      ])
  from_place read_number s e = longer 2 5 s (omega arith) (from_read_number s e)
  from_place (swap_number old) s e =
      before 4 s (swap_number old) e (elim (Bool-cases (s.num_threads == old)) [
        | inl won ↦ rw won (longer 0 4 _ (omega arith) (done _ (update_self s.place running)))
        | inr lost ↦
            rw lost
              (longer 2 4 _ (omega arith) (from_read_number _ (update_self s.place read_number)))
      ])
  from_place running s e = longer 0 5 s (omega arith) (done s e)
  from_place (read_total n) s e = longer 2 5 s (omega arith) (from_read_total s n e)
  from_place (swap_total n old) s e =
      before 4 s (swap_total n old) e (elim (Bool-cases (s.total_insns == old)) [
        | inl won ↦ rw won (longer 0 4 _ (omega arith) (done _ (update_self s.place running)))
        | inr lost ↦
            rw lost (
              longer 2 4 _ (omega arith) (from_read_total _ n (update_self s.place (read_total n))))
      ])

-- No thread waits for another: from any state, whatever the others did in between, a thread that runs
-- alone has constructed its hart, or ended its `incr_count`, after at most five steps.
pub alone-Finishes : (s : Harts) (i : ℕ) → Finishes 5 s i
alone-Finishes s i = from_place i (s.place i) s refl
