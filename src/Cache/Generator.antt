-- ===== src/Cache/Generator.antt =====
-- caveat/make_cache: the script that writes the tables lru_fsm_?way.h. A key is the list of its
-- numbers; the keys have one length and their numbers one digit, so text order is list order.

use cavatools.Prelude.{
  ℕ, zero, suc, ◌+◌, ◌*◌, Bool, true, false, ◌&&◌, ◌||◌, List, [], ◌∷◌, ◌++◌, map, length, get_or,
  ltb, ◌==◌, if◌then◌else◌,
}
use cavatools.Cache.{LruFsm}
use cavatools.Cache.Recency.{move_front}

abbrev pub Key : Type 0
Key = List ℕ

unfoldable pub key_eq : Key → Key → Bool
key_eq [] [] = true
key_eq (x ∷ xs) (y ∷ ys) = x == y && key_eq xs ys
key_eq _ _ = false

unfoldable pub key_lt : Key → Key → Bool
key_lt [] [] = false
key_lt [] (y ∷ ys) = true
key_lt (x ∷ xs) [] = false
key_lt (x ∷ xs) (y ∷ ys) = ltb x y || (x == y && key_lt xs ys)

-- The dictionary `table`: a key with its successors.
abbrev pub Table : Type 0
Table = List (Key × List Key)

unfoldable pub has_key : Key → Table → Bool
unfolding key_eq
has_key k [] = false
has_key k ((j, v) ∷ t) = key_eq j k || has_key k t

unfoldable pub successors : Key → Table → List Key
unfolding key_eq
successors k [] = []
successors k ((j, v) ∷ t) = let rest = successors k t in if key_eq j k then v else rest

-- `table[key][i] = next`, for i = 0, 1, ... in this order: the successor is appended.
unfoldable pub add_successor : Key → Key → Table → Table
unfolding key_eq
add_successor k next [] = []
add_successor k next ((j, v) ∷ t) =
    let rest = add_successor k next t in
    if key_eq j k then (j, v ++ next ∷ []) ∷ t else (j, v) ∷ rest

-- The loop of `factorial` over `i`; `rec` is the call of `factorial` itself.
unfoldable pub visit_loop : (Key → Table → Table) → Key → ℕ → ℕ → Table → Table
unfolding has_key add_successor
visit_loop rec state zero i table = table
visit_loop rec state (suc n) i table =
    let next = move_front 0 i state in
    let table' : Table = elim (has_key next table) [
      | true ↦ table
      | false ↦ rec next ((next, []) ∷ table)
    ] in
    visit_loop rec state n (i + 1) (add_successor state next table')

-- `factorial(state)`; the fuel bounds the depth of its recursion.
unfoldable pub visit : ℕ → ℕ → Key → Table → Table
unfolding visit_loop
visit zero n state table = table
visit (suc fuel) n state table = visit_loop (visit fuel n) state n 0 table

unfoldable pub initial : ℕ → Key
initial zero = []
initial (suc n) = n ∷ initial n

unfoldable pub insert_key : Key → List Key → List Key
unfolding key_lt
insert_key k [] = k ∷ []
insert_key k (j ∷ js) = let rest = insert_key k js in if key_lt k j then k ∷ j ∷ js else j ∷ rest

unfoldable pub sort_keys : List Key → List Key
unfolding insert_key
sort_keys [] = []
sort_keys (k ∷ ks) = insert_key k (sort_keys ks)

-- `number[key]`
unfoldable pub number : Key → List Key → ℕ
unfolding key_eq
number k [] = 0
number k (j ∷ js) = let rest = number k js in if key_eq k j then 0 else suc rest

unfoldable pub factorial : ℕ → ℕ
factorial zero = 1
factorial (suc n) = suc n * factorial n

-- The whole `table`: there are N! states, so no path of the recursion is longer.
unfoldable pub transitions : ℕ → Table
unfolding visit initial factorial
transitions n = visit (factorial n) n (initial n) ((initial n, []) ∷ [])

unfoldable pub states_of : Table → List Key
unfolding sort_keys
states_of t = sort_keys (map (λ e. e.0) t)

-- The lines that are written for one state.
unfoldable pub lines : ℕ → List Key → Key → List Key → List LruFsm
unfolding number
lines n keys (w ∷ ws) (next ∷ nexts) =
    record { way = w; next_state = number next keys * n } ∷ lines n keys ws nexts
lines n keys _ _ = []

unfoldable pub all_lines : ℕ → Table → List Key → List Key → List LruFsm
unfolding lines successors
all_lines n t keys [] = []
all_lines n t keys (k ∷ ks) = lines n keys k (successors k t) ++ all_lines n t keys ks

-- The array in the file: the header, and then the entries of the states in order.
unfoldable pub write_table : ℕ → Table → List LruFsm
unfolding states_of all_lines
write_table n t =
    let keys = states_of t in record { way = n; next_state = length keys } ∷ all_lines n t keys keys

unfoldable pub make_cache : ℕ → List LruFsm
unfolding transitions write_table
make_cache n = write_table n (transitions n)

-- `cache_fsm_<n>way` as an array.
abbrev pub array_of : List LruFsm → ℕ → LruFsm
array_of l p = get_or l p (record { way = 0; next_state = 0 })
