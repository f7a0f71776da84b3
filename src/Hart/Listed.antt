-- ===== src/Hart/Listed.antt =====
-- The list of harts that the constructors link.
use cavatools.Prelude.{
  ℕ, ◌+◌, ◌%◌, ◌<◌, ◌≡◌, refl, sym, ap, ◌∙◌, subst, fun_ext, true, false, Option, none, some, List,
  [], ◌∷◌, length, ◌==◌, if◌then◌else◌, arith, inl, inr, Bool-cases,
}
use cavatools.Prelude.Words.{long_mod}
use cavatools.Prelude.Sums.{sum_below, sum_below-update, sum_below-zero, update}
use cavatools.Hart.{
  Harts, Place, outside, read_list, swap_list, read_number, swap_number, running, read_total,
  swap_total, move, same_pointer,
}
use cavatools.Hart.Steps.{Reach, Reach-invariant}

-- Whether the swap that links a thread's hart has succeeded.
abbrev pub is_linked : Place → ℕ
is_linked outside = 0
is_linked read_list = 0
is_linked swap_list = 0
is_linked _ = 1

abbrev pub occurs : ℕ → List ℕ → ℕ
occurs i [] = 0
occurs i (j ∷ l) = (if i == j then 1 else 0) + occurs i l

-- The links from a pointer on visit these harts, and end.
abbrev pub Chain : (ℕ → Option ℕ) → Option ℕ → List ℕ → Type 0
Chain link p [] = p ≡ none
Chain link p (i ∷ l) = (p ≡ some i) × Chain link (link i) l

pub record IsListed (n : ℕ) (s : Harts) : Type 0 where
  pub items : List ℕ
  pub chain : Chain s.link s.cpu_list items
  pub once : (i : ℕ) → occurs i items ≡ is_linked (s.place i)
  pub size : length items ≡ sum_below n (λ i. is_linked (s.place i))

Chain-update :
    (link : ℕ → Option ℕ) (p x : Option ℕ) (i : ℕ) (l : List ℕ)
    → occurs i l ≡ 0
    → Chain link p l
    → Chain (update link i x) p l
Chain-update link p x i [] h c = c
Chain-update link p x i (j ∷ l) h (e, c) =
    let other : (i == j) ≡ false = ground arith in
    let kept : update link i x j ≡ link j = rw other refl in
    (e, rw kept (Chain-update link (link j) x i l (omega (arith, h)) c))

same_pointer_sound : (p q : Option ℕ) → same_pointer p q ≡ true → p ≡ q
unfolding same_pointer
same_pointer_sound none none h = refl
same_pointer_sound none (some q) h = cc
same_pointer_sound (some p) none h = cc
same_pointer_sound (some p) (some q) h = ground arith

module _ (n i : ℕ) (lt : i < n) where
  -- A step that leaves the links of the listed harts, to a place that is linked as before.
  goes-IsListed :
      (s t : Harts) (q : Place)
      → is_linked q ≡ is_linked (s.place i)
      → t.cpu_list ≡ s.cpu_list
      → ((j : ℕ) → t.place j ≡ update s.place i q j)
      → ((l : List ℕ)
          → occurs i l ≡ is_linked (s.place i)
          → Chain s.link s.cpu_list l
          → Chain t.link s.cpu_list l)
      → IsListed n s
      → IsListed n t
  goes-IsListed s t q same first place kept v = record {
    items = v.items;
    chain = subst (λ p. Chain t.link p v.items) (sym first) (kept v.items (v.once i) v.chain);
    once = λ j. v.once j ∙ sym (kind j);
    size = v.size ∙ ap (sum_below n) (fun_ext (λ j. sym (kind j)));
  }
    where
      kind : (j : ℕ) → is_linked (t.place j) ≡ is_linked (s.place j)
      kind j = ap is_linked (place j) ∙ ground (arith, same)

  -- The swap that wins puts the hart in front of the list that its link points to.
  links-IsListed :
      (s : Harts)
      → is_linked (s.place i) ≡ 0
      → s.cpu_list ≡ s.link i
      → IsListed n s
      → IsListed n (record s { cpu_list = some i; place = update s.place i read_number })
  links-IsListed s not_yet e v = record {
    items = i ∷ v.items;
    chain = (refl, subst (λ p. Chain s.link p v.items) e v.chain);
    once = λ j. ground (arith, v.once j, not_yet);
    size = omega (arith, v.size, not_yet, sum_below-update is_linked n s.place i read_number lt);
  }

  move-IsListed :
      (p : Place) (s : Harts) (k : ℕ) → s.place i ≡ p → IsListed n s → IsListed n (move p s i k)
  unfolding move
  move-IsListed outside s k e v =
      goes-IsListed s (move outside s i k) read_list (rw e refl) refl (λ j. refl) (λ l o c. c) v
  move-IsListed read_list s k e v =
      goes-IsListed s (move read_list s i k) swap_list (rw e refl) refl (λ j. refl)
        (λ l o c. Chain-update s.link s.cpu_list s.cpu_list i l (o ∙ ap is_linked e) c) v
  move-IsListed swap_list s k e v = elim (Bool-cases (same_pointer s.cpu_list (s.link i))) [
    | inl won ↦
        rw won (links-IsListed s (ap is_linked e) (same_pointer_sound s.cpu_list (s.link i) won) v)
    | inr lost ↦ rw lost (
        goes-IsListed s (record s { place = update s.place i read_list }) read_list (rw e refl) refl
          (λ j. refl) (λ l o c. c) v)
  ]
  move-IsListed read_number s k e v =
      goes-IsListed s (move read_number s i k) (swap_number s.num_threads) (rw e refl) refl
        (λ j. refl) (λ l o c. c) v
  move-IsListed (swap_number old) s k e v = elim (Bool-cases (s.num_threads == old)) [
    | inl won ↦ rw won (
        goes-IsListed s
          (record s {
            num_threads = old + 1;
            number = update s.number i old;
            place = update s.place i running;
          })
          running (rw e refl) refl (λ j. refl) (λ l o c. c) v)
    | inr lost ↦ rw lost (
        goes-IsListed s (record s { place = update s.place i read_number }) read_number (rw e refl)
          refl (λ j. refl) (λ l o c. c) v)
  ]
  move-IsListed running s k e v =
      goes-IsListed s (move running s i k) (read_total k) (rw e refl) refl (λ j. refl) (λ l o c. c)
        v
  move-IsListed (read_total m) s k e v =
      goes-IsListed s (move (read_total m) s i k) (swap_total m s.total_insns) (rw e refl) refl
        (λ j. refl) (λ l o c. c) v
  move-IsListed (swap_total m old) s k e v = elim (Bool-cases (s.total_insns == old)) [
    | inl won ↦ rw won (
        goes-IsListed s
          (record s { total_insns = (old + m) % long_mod; place = update s.place i running })
          running (rw e refl) refl (λ j. refl) (λ l o c. c) v)
    | inr lost ↦ rw lost (
        goes-IsListed s (record s { place = update s.place i (read_total m) }) (read_total m)
          (rw e refl) refl (λ j. refl) (λ l o c. c) v)
  ]

-- However the threads interleave, the links from `cpu_list` on end, and visit each hart whose swap has
-- succeeded exactly once, and no other.
pub cpu_list-IsListed : (n : ℕ) (s : Harts) → Reach n s → IsListed n s
cpu_list-IsListed n =
    Reach-invariant n (IsListed n)
      (record { items = []; chain = refl; once = λ i. refl; size = sym (sum_below-zero n) })
      (λ p s i k lt. move-IsListed n i lt p s k)
