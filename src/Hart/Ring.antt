-- ===== src/Hart/Ring.antt =====
-- The ring of `Debug_t` as a queue that drops its oldest entry.
use cavatools.Prelude.{
  ℕ, zero, suc, ◌+◌, ◌%◌, ◌<◌, ◌≡◌, refl, sym, ap, ap₂, ◌∙◌, subst, List, [], ◌∷◌, ◌++◌, length,
  length-append, drop, false, get_or, get_or-append, get_or-append_left, append_assoc, append-empty,
  ◌==◌, if◌then◌else◌, arith, inl, inr, Bool-cases,
}
use cavatools.Hart.Debug.{PcTrace, trace_size, Debug, get, insert, print_loop, print}

abbrev pub blank : PcTrace
blank = record { count = 0; pc = 0; val = 0; rn = 0 }

-- The entries, the oldest first.
pub record Shows (d : Debug) (l : List PcTrace) : Type 0 where
  pub small : d.cursor < trace_size
  pub size : length l ≡ trace_size
  pub entries :
      (j : ℕ) → j < trace_size → d.trace ((d.cursor + 1 + j) % trace_size) ≡ get_or l j blank

-- The oldest entry goes to the end; what then stands there may be another one.
rotates :
    (d d' : Debug) (x y : PcTrace) (l : List PcTrace)
    → Shows d (x ∷ l)
    → d'.cursor ≡ (d.cursor + 1) % trace_size
    → ((a : ℕ) → d'.trace a ≡ (if (d.cursor + 1) % trace_size == a then y else d.trace a))
    → Shows d' (l ++ y ∷ [])
rotates d d' x y l v next trace = record {
  small = omega (arith, next);
  size = omega (arith, v.size, length-append l (y ∷ []));
  entries = λ j lt. elim (Bool-cases (j == 127)) [
    | inl last ↦
        let here : (d.cursor + 1) % trace_size ≡ (d'.cursor + 1 + j) % trace_size =
          ground (arith, next, v.small) in
        let end : j ≡ length l = ground (arith, v.size) in
        let written : d'.trace ((d'.cursor + 1 + j) % trace_size) ≡ y =
          ground (arith, trace ((d'.cursor + 1 + j) % trace_size), here) in
        written ∙ sym (ap (λ k. get_or (l ++ y ∷ []) k blank) end ∙ get_or-append l [] y blank)
    | inr before ↦
        let below : j < length l = ground (arith, v.size) in
        let elsewhere : ((d.cursor + 1) % trace_size == (d'.cursor + 1 + j) % trace_size) ≡ false =
          ground (arith, next, v.small) in
        let kept : d'.trace ((d'.cursor + 1 + j) % trace_size)
            ≡ d.trace ((d'.cursor + 1 + j) % trace_size) =
          ground (arith, trace ((d'.cursor + 1 + j) % trace_size), elsewhere) in
        let same : (d'.cursor + 1 + j) % trace_size ≡ (d.cursor + 1 + suc j) % trace_size =
          omega (arith, next) in
        kept
        ∙ ap d.trace same
        ∙ v.entries (suc j) (ground arith)
        ∙ sym (get_or-append_left l (y ∷ []) j blank below)
  ];
}

insert-Shows :
    (d : Debug) (x y : PcTrace) (l : List PcTrace)
    → Shows d (x ∷ l)
    → Shows (insert d y) (l ++ y ∷ [])
unfolding insert
insert-Shows d x y l v = rotates d (insert d y) x y l v refl (λ a. refl)

get-Shows :
    (d : Debug) (x : PcTrace) (l : List PcTrace)
    → Shows d (x ∷ l)
    → ((get d).1 ≡ x) × Shows (get d).0 (l ++ x ∷ [])
unfolding get
get-Shows d x l v =
    let first : d.trace ((d.cursor + 1) % trace_size) ≡ x =
      ap (λ k. d.trace (k % trace_size)) (omega arith) ∙ v.entries 0 (omega arith) in
    (first, rotates d (get d).0 x x l v refl (λ a. ground (arith, first)))

print_loop-Shows :
    (n : ℕ) (d : Debug) (a b : List PcTrace)
    → length a ≡ n
    → Shows d (a ++ b)
    → ((print_loop n d).1 ≡ a) × Shows (print_loop n d).0 (b ++ a)
unfolding print_loop
print_loop-Shows zero d [] b e v = (refl, subst (Shows d) (sym (append-empty b)) v)
print_loop-Shows zero d (x ∷ a) b e v = absurd (omega (arith, e))
print_loop-Shows (suc n) d [] b e v = absurd (omega (arith, e))
print_loop-Shows (suc n) d (x ∷ a) b e v =
    let (first, v1) = get-Shows d x (a ++ b) v in
    let (rest, v2) =
      print_loop-Shows n (get d).0 a (b ++ x ∷ []) (omega (arith, e))
        (subst (Shows (get d).0) (append_assoc a b (x ∷ [])) v1) in
    (ap₂ ◌∷◌ first rest, subst (Shows (print_loop n (get d).0).0) (append_assoc b (x ∷ []) a) v2)

unfoldable pub inserts : Debug → List PcTrace → Debug
unfolding insert
inserts d [] = d
inserts d (t ∷ ts) = inserts (insert d t) ts

inserts-Shows :
    (d : Debug) (ts l : List PcTrace)
    → Shows d l
    → Shows (inserts d ts) (drop (length ts) (l ++ ts))
unfolding inserts
inserts-Shows d [] l v = subst (Shows d) (sym (append-empty l)) v
inserts-Shows d (t ∷ ts) [] v = absurd (omega (arith, v.size))
inserts-Shows d (t ∷ ts) (x ∷ l) v =
    subst (λ m. Shows (inserts (insert d t) ts) (drop (length ts) m)) (append_assoc l (t ∷ []) ts)
      (inserts-Shows (insert d t) ts (l ++ t ∷ []) (insert-Shows d x t l v))

-- From a ring that shows some 128 entries on, after any insertions `print` prints the last 128 of these
-- entries and the inserted ones, the oldest first, and the ring shows them still.
pub print-inserts :
    (d : Debug) (l ts : List PcTrace)
    → Shows d l
    → let shown = drop (length ts) (l ++ ts) in
      ((print (inserts d ts)).1 ≡ shown) × Shows (print (inserts d ts)).0 shown
unfolding print
print-inserts d l ts v =
    let shown = drop (length ts) (l ++ ts) in
    let w = inserts-Shows d ts l v in
    print_loop-Shows trace_size (inserts d ts) shown [] w.size
      (subst (Shows (inserts d ts)) (sym (append-empty shown)) w)
