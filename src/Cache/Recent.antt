-- ===== src/Cache/Recent.antt =====
-- An ideal history of lines that forgets nothing, and the part of it that a row of `n` ways holds.
use cavatools.Prelude.{
  ℕ, zero, suc, ◌<◌, ◌≤◌, ◌≡◌, refl, ap, sym, ◌∙◌, Bool, true, false, ◌||◌, List, [], ◌∷◌, map,
  length, take, if◌then◌else◌, ◌==◌, arith, inl, inr, Bool-cases,
}
use cavatools.Cache.{Tag}
use cavatools.Cache.Rows.{member, take_out, drop_last, access}

unfoldable pub contains : ℕ → List ℕ → Bool
contains t [] = false
contains t (x ∷ l) = t == x || contains t l

unfoldable pub remove : ℕ → List ℕ → List ℕ
remove t [] = []
remove t (x ∷ l) = if t == x then l else x ∷ remove t l

-- A use of the line `t`: it becomes the most recent one.
abbrev pub use_line : ℕ → List ℕ → List ℕ
use_line t h = t ∷ remove t h

-- The lines of a row, without their dirty bits.
abbrev pub lines : List Tag → List ℕ
lines = map (λ x. x.addr)

drop_end : List ℕ → List ℕ
drop_end [] = []
drop_end (x ∷ []) = []
drop_end (x ∷ y ∷ l) = x ∷ drop_end (y ∷ l)

pub member-lines : (t : ℕ) (l : List Tag) → member t l ≡ contains t (lines l)
unfolding member contains
member-lines t [] = refl
member-lines t (x ∷ l) = ap (◌||◌ (t == x.addr)) (member-lines t l)

lines-take_out : (t : ℕ) (l : List Tag) → lines (take_out t l) ≡ remove t (lines l)
unfolding take_out remove
lines-take_out t [] = refl
lines-take_out t (x ∷ l) = ground (arith, lines-take_out t l)

lines-drop_last : (l : List Tag) → lines (drop_last l) ≡ drop_end (lines l)
unfolding drop_last drop_end
lines-drop_last [] = refl
lines-drop_last (x ∷ []) = refl
lines-drop_last (x ∷ y ∷ l) = ap (◌∷◌ x.addr) (lines-drop_last (y ∷ l))

pub length-use_line-le : (t : ℕ) (h : List ℕ) → length h ≤ length (use_line t h)
unfolding remove
length-use_line-le t [] = omega arith
length-use_line-le t (x ∷ h) = ground (arith, length-use_line-le t h)

take-remove_in :
    (m t : ℕ) (h : List ℕ)
    → contains t (take (suc m) h) ≡ true
    → take m (remove t h) ≡ remove t (take (suc m) h)
unfolding contains remove
take-remove_in m t [] e = cc
take-remove_in zero t (x ∷ h) e = ground arith
take-remove_in (suc m) t (x ∷ h) e = ground (arith, take-remove_in m t h)

take-remove_out :
    (m t : ℕ) (h : List ℕ)
    → suc m ≤ length h
    → contains t (take (suc m) h) ≡ false
    → take m (remove t h) ≡ drop_end (take (suc m) h)
unfolding contains remove drop_end
take-remove_out m t [] lt e = absurd (omega arith)
take-remove_out zero t (x ∷ h) lt e = refl
take-remove_out (suc m) t (x ∷ []) lt e = absurd (omega arith)
take-remove_out (suc m) t (x ∷ y ∷ h) lt e = ground (arith, take-remove_out m t (y ∷ h))

-- A row that holds the `n` most recent lines still does after an access.
pub lines-access :
    (n t : ℕ) (write : Bool) (l : List Tag) (h : List ℕ)
    → 0 < n
    → n ≤ length h
    → lines l ≡ take n h
    → lines (access t write l) ≡ take n (use_line t h)
unfolding access
lines-access zero t write l h pos le e = elim pos [ ]
lines-access (suc m) t write l h pos le e = elim (Bool-cases (member t l)) [
  | inl hit ↦ rw hit (
      ap (◌∷◌ t) (
        lines-take_out t l
        ∙ ap (remove t) e
        ∙ sym (take-remove_in m t h (ap (contains t) (sym e) ∙ sym (member-lines t l) ∙ hit))))
  | inr miss ↦ rw miss (
      ap (◌∷◌ t) (
        lines-drop_last l
        ∙ ap drop_end e
        ∙ sym (take-remove_out m t h le (ap (contains t) (sym e) ∙ sym (member-lines t l) ∙ miss))))
]
