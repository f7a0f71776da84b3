-- ===== src/Elf/Pages.antt =====
-- uspike/elf_loader.c: pages, and what mmap and memset leave in memory.
use cavatools.Prelude.{
  ℕ, ◌+◌, ◌-◌, ◌*◌, ◌/◌, ◌%◌, ◌^◌, ◌≤◌, ◌<◌, ◌≡◌, ◌⊎◌, false, some, ltb, arith, inl, inr,
}
use cavatools.Elf.Loading.{Memory, Kernel, round_up, put_zeros}

-- The bytes of the pages that a size takes.
abbrev pub pages : ℕ → ℕ
pages n = (n + 4095) / 4096 * 4096

pub round_up-pages : (a : ℕ) → 0 < a → a + 4096 < 2 ^ 64 → round_up a ≡ pages a
unfolding round_up
round_up-pages a pos small = omega arith

abbrev pub Inside : ℕ → ℕ → ℕ → Type 0
Inside place size a = (place ≤ a) × (a < place + size)

abbrev pub Outside : ℕ → ℕ → ℕ → Type 0
Outside place size a = (a < place) ⊎ (place + size ≤ a)

-- The calls of mmap on pages that a program may use: the pages hold the file from the offset, or zeros, and
-- all other memory is as before.
pub record IsKernel (kernel : Kernel) (file : Memory) (Usable : ℕ → ℕ → Type 0) : Type 0 where
  pub maps_file :
      (place size prot offset : ℕ) (m : Memory)
      → place % 4096 ≡ 0
      → offset % 4096 ≡ 0
      → 0 < size
      → Usable place size
      → (m' : Memory) × (kernel.map_file place size prot offset m ≡ some m')
        × ((a : ℕ) → Inside place (pages size) a → m' a ≡ file (offset + (a - place)))
        × ((a : ℕ) → Outside place (pages size) a → m' a ≡ m a)
  pub maps_zeros :
      (place size prot : ℕ) (m : Memory)
      → place % 4096 ≡ 0
      → 0 < size
      → Usable place size
      → (m' : Memory) × (kernel.map_zeros place size prot m ≡ some m')
        × ((a : ℕ) → Inside place (pages size) a → m' a ≡ 0)
        × ((a : ℕ) → Outside place (pages size) a → m' a ≡ m a)
  pub maps_stack :
      (place size : ℕ) (m : Memory)
      → Usable place size
      → (m' : Memory) × (kernel.map_stack place size m ≡ some m')
        × ((a : ℕ) → Inside place size a → m' a ≡ 0)
        × ((a : ℕ) → Outside place size a → m' a ≡ m a)

pub not_ltb : (a b : ℕ) → ltb a b ≡ false → b ≤ a
not_ltb a b e = ground arith

pub put_zeros-Inside :
    (place size a : ℕ) (m : Memory) → Inside place size a → put_zeros place size m a ≡ 0
unfolding put_zeros
put_zeros-Inside place size a m (low, high) = ground arith

pub put_zeros-Outside :
    (place size a : ℕ) (m : Memory) → Outside place size a → put_zeros place size m a ≡ m a
unfolding put_zeros
put_zeros-Outside place size a m (inl lt) = ground arith
put_zeros-Outside place size a m (inr le) = ground arith
