-- ===== src/Hart/Steps.antt =====
-- The states that any schedule of `n` threads reaches.
use cavatools.Prelude.{ℕ, ◌<◌, ◌≡◌, refl, none}
use cavatools.Hart.{Harts, Place, outside, move}

abbrev pub initial : Harts
initial = record {
  cpu_list = none;
  num_threads = 0;
  total_insns = 0;
  link = λ i. none;
  number = λ i. 0;
  executed = λ i. 0;
  place = λ i. outside;
}

unfoldable pub advance : Harts → ℕ → ℕ → Harts
unfolding move
advance s i n = move (s.place i) s i n

pub data Reach (n : ℕ) : Harts → Type 0 where
  start : Reach n initial
  later : {s : Harts} (i k : ℕ) → Reach n s → i < n → Reach n (advance s i k)

-- An invariant that holds at first and is kept by the move from each place holds in every state.
pub Reach-invariant :
    (n : ℕ) (P : Harts → Type 0)
    → P initial
    → ((p : Place) (s : Harts) (i k : ℕ) → i < n → s.place i ≡ p → P s → P (move p s i k))
    → (u : Harts) → Reach n u
    → P u
unfolding advance
Reach-invariant n P first kept u start = first
Reach-invariant n P first kept u (later {s} i k r lt) =
    kept (s.place i) s i k lt refl (Reach-invariant n P first kept s r)
