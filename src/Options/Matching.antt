-- ===== src/Options/Matching.antt =====
-- The match of an option with an argument.
use cavatools.Prelude.{
  get_or-append, ℕ, suc, ◌+◌, ◌≡◌, refl, ap, ◌∙◌, true, false, List, [], ◌∷◌, ◌++◌, length,
  length-append, drop, leb, ◌==◌, if◌then◌else◌, is_prefix, arith,
}
use cavatools.Options.{text, Opt, exits, sets, set_text, matches}

is_prefix-append : (name rest : List ℕ) → is_prefix name (name ++ rest) ≡ true
unfolding is_prefix
is_prefix-append [] rest = refl
is_prefix-append (ch ∷ name) rest = ground (arith, is_prefix-append name rest)

drop-append : (name rest : List ℕ) (ch : ℕ) → drop (suc (length name)) (name ++ ch ∷ rest) ≡ rest
drop-append [] rest ch = refl
drop-append (x ∷ name) rest ch = drop-append name rest ch

-- `name=text` sets an option of that name to the text, or exits for an option without a text; `name`
-- followed by any other character exits.
pub matches-name :
    (p : Opt) (v : List ℕ) (ch : ℕ)
    → matches p (p.name ++ ch ∷ v) ≡ (
        if ch == 61
        then (if p.is_bool then exits else sets (record p { value = text v }))
        else exits)
unfolding matches set_text
matches-name p v ch =
    let long : leb (length (p.name ++ ch ∷ v)) (length p.name) ≡ false =
      ground (arith, length-append p.name (ch ∷ v)) in
    let next : length p.name + 1 ≡ suc (length p.name) = omega arith in
    let rest : drop (length p.name + 1) (p.name ++ ch ∷ v) ≡ v =
      ap (λ n. drop n (p.name ++ ch ∷ v)) next ∙ drop-append p.name v ch in
    rw (is_prefix-append p.name (ch ∷ v), long, get_or-append p.name v ch 0, rest) refl
