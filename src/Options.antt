-- ===== src/Options.antt =====
-- uspike/options.h and options.cc: command line options. Texts are lists of character codes. An option
-- holds the text that it is set to, which `atoi` reads for numbers; exits are outcomes.
pub mod Matching
use cavatools.Prelude.{
  ℕ, ◌+◌, Bool, true, false, not, ◌&&◌, Option, none, some, List, [], ◌∷◌, length, drop, get_or,
  leb, ◌==◌, if◌then◌else◌, is_prefix,
}

-- What an option holds: its initial value, the value of `--option` alone, or a text.
pub data Value : Type 0 where
  initial alone : Value
  text : List ℕ → Value

pub record Opt : Type 0 where
  pub name : List ℕ
  pub no_equal : Bool
  -- an `option<bool>`, whose `setval` takes no text
  pub is_bool : Bool
  pub value : Value

-- The outcome of `matches`: false, an exit with help, or true with the option set.
pub data Match : Type 0 where
  differs exits : Match
  sets : Opt → Match

-- `setval` with a text
unfoldable pub set_text : Opt → List ℕ → Match
set_text p v = if p.is_bool then exits else sets (record p { value = text v })

-- `options_t::matches`
unfoldable pub matches : Opt → List ℕ → Match
unfolding set_text
matches p opt =
    let len = length p.name in
    if not (is_prefix p.name opt)
    then differs
    else if leb (length opt) len
    then (if p.no_equal then sets (record p { value = alone }) else exits)
    else if get_or opt len 0 == 61
    then set_text p (drop (len + 1) opt)
    else exits

-- The loop over the list of options: the options then, or an exit.
unfoldable pub set_first : List Opt → List ℕ → Option (List Opt)
unfolding matches
set_first [] opt = none
set_first (p ∷ next) opt = elim (matches p opt) [
  | differs ↦ elim (set_first next opt) [ none ↦ none | some next' ↦ some (p ∷ next') ]
  | exits ↦ none
  | sets p' ↦ some (p' ∷ next)
]

-- "--" and "--help"
abbrev pub dashes : List ℕ
dashes = 45 ∷ 45 ∷ []

unfoldable pub same_text : List ℕ → List ℕ → Bool
same_text s t = is_prefix s t && (length s == length t)

-- `parse_options` behind `argv[0]`: the options and the arguments that are left; `none` is an exit.
unfoldable pub parse_options : List Opt → List (List ℕ) → Option (List Opt × List (List ℕ))
unfolding set_first same_text
parse_options list [] = some (list, [])
parse_options list (arg ∷ argv) = elim (is_prefix dashes arg) [
  | false ↦ some (list, arg ∷ argv)
  | true ↦ elim (same_text (45 ∷ 45 ∷ 104 ∷ 101 ∷ 108 ∷ 112 ∷ []) arg) [
    | true ↦ none
    | false ↦ elim (set_first list (drop 2 arg)) [
      | none ↦ none
      | some list' ↦ parse_options list' argv
    ]
  ]
]
