-- ===== src/Tests/Words.antt =====
-- Words in memory.
use cavatools.Prelude.{ℕ, ◌+◌, ◌-◌, ◌%◌, ◌^◌, ◌≤◌, ◌<◌, ◌≡◌, ◌⊎◌, refl, arith, some}
use cavatools.Simulator.Start.{setup}
use cavatools.Tests.Caches.{tables}
use cavatools.Tests.Cores.{conf, conf-IsConf}
use cavatools.Mmu.Timed.{Accepts, timed-IsAccessModel}
use cavatools.Mmu.{timed, plain, Mmu, sign_extend, load_int, store_word}
use cavatools.Mmu.Words.{IsAccessModel, load_int-store_word}

abbrev zeros : Mmu Unit
zeros = record { memory = λ a. 0; model = tt }

pub plain-IsAccessModel : IsAccessModel plain (λ m pc. Unit)
plain-IsAccessModel = record {
  loads = λ m a pc small v. (m, refl, λ q w. w);
  stores = λ m a pc small v. (m, refl, λ q w. w);
}

load_int-store_word_example :
    (m1 m2 : Mmu Unit) × (store_word plain 4 zeros 64 4096 3000000000 ≡ some m1)
    × (load_int plain 4 m1 64 4100 ≡ some (m2, sign_extend 4 (3000000000 % 256 ^ 4)))
    × ((b : ℕ) → (b < 64) ⊎ (64 + 4 ≤ b) → m2.memory b ≡ zeros.memory b)
    × ((b : ℕ) → m2.memory b ≡ m1.memory b)
load_int-store_word_example =
    load_int-store_word plain (λ m pc. Unit) plain-IsAccessModel 4 64 4096 4100 3000000000 zeros
      (omega arith) tt tt

negative_word : sign_extend 4 3000000000 ≡ 2 ^ 64 + 3000000000 - 2 ^ 32
unfolding sign_extend
negative_word = refl

timed-IsAccessModel_example : IsAccessModel timed (Accepts (setup tables conf conf-IsConf 0))
timed-IsAccessModel_example = timed-IsAccessModel (setup tables conf conf-IsConf 0)
