-- ===== src/Mmu/Words.antt =====
-- Words of uspike/mmu.h that are stored and loaded.
use cavatools.Prelude.{
  ℕ, zero, suc, ◌+◌, ◌*◌, ◌/◌, ◌%◌, ◌^◌, ◌≤◌, ◌<◌, ◌≡◌, ◌⊎◌, refl, sym, ap, ap₂, ◌∙◌, some, arith,
  inl, inr,
}
use native.Mathlib.Nat.{
  mod-add-div, mod-lt, mod-one, mod-eq_of_lt, add-mul-mod_self_left, one-le-pow, pow-succ',
}
use cavatools.Prelude.Words.{long_mod}
use cavatools.Prelude.Sums.{update}
use cavatools.Mmu.{AccessModel, Mmu, word, put_word, sign_extend, load_uint, load_int, store_word}

-- The low byte of a remainder.
mod_byte : (v m : ℕ) → 0 < m → v % 256 + 256 * (v / 256 % m) ≡ v % (256 * m)
mod_byte v m pos =
    let rem : ℕ = v % 256 + 256 * (v / 256 % m) in
    let whole : rem + 256 * m * (v / 256 / m) ≡ v = omega (arith, mod-add-div (v / 256) m) in
    let small : rem % (256 * m) ≡ rem = mod-eq_of_lt (omega (arith, mod-lt (v / 256) pos)) in
    sym (
      sym (ap (λ x. x % (256 * m)) whole)
      ∙ add-mul-mod_self_left rem (256 * m) (v / 256 / m)
      ∙ small)

put_word_outside :
    (n : ℕ) (memory : ℕ → ℕ) (a v b : ℕ)
    → (b < a) ⊎ (a + n ≤ b)
    → put_word n memory a v b ≡ memory b
unfolding put_word
put_word_outside zero memory a v b out = refl
put_word_outside (suc n) memory a v b (inl lt) =
    put_word_outside n (update memory a (v % 256)) (a + 1) (v / 256) b (inl (omega arith))
    ∙ ground arith
put_word_outside (suc n) memory a v b (inr le) =
    put_word_outside n (update memory a (v % 256)) (a + 1) (v / 256) b (inr (omega arith))
    ∙ ground arith

word-put_word : (n : ℕ) (memory : ℕ → ℕ) (a v : ℕ) → word n (put_word n memory a v) a ≡ v % 256 ^ n
unfolding word put_word
word-put_word zero memory a v = sym (mod-one v)
word-put_word (suc n) memory a v =
    let first =
      put_word_outside n (update memory a (v % 256)) (a + 1) (v / 256) a (inl (omega arith)) in
    let rest = word-put_word n (update memory a (v % 256)) (a + 1) (v / 256) in
    let this : update memory a (v % 256) a ≡ v % 256 = ground arith in
    (ap₂ (λ x y. x + 256 * y) (first ∙ this) rest
      ∙ mod_byte v (256 ^ n) (one-le-pow n 256 (omega arith)))
    ∙ sym (ap (λ m. v % m) (pow-succ' 256 n))

module _ {Model : Type 0} (models : AccessModel Model) where
  -- Where the model accepts an access, its two functions give the address itself, and accept what was
  -- accepted before.
  pub record IsAccessModel (Valid : Model → ℕ → Type 0) : Type 0 where
    pub loads :
        (m : Model) (a pc : ℕ)
        → a < long_mod
        → Valid m pc
        → (m' : Model) × (models.load m a pc ≡ some (m', a)) × ((q : ℕ) → Valid m q → Valid m' q)
    pub stores :
        (m : Model) (a pc : ℕ)
        → a < long_mod
        → Valid m pc
        → (m' : Model) × (models.store m a pc ≡ some (m', a)) × ((q : ℕ) → Valid m q → Valid m' q)

  module _ (Valid : Model → ℕ → Type 0) (law : IsAccessModel Valid) where
    -- With any timing model that gives the address itself: a store of `n` bytes and then a signed load of
    -- them, at program counters that the model accepts, both succeed; the load gives the low bytes of the
    -- value, sign-extended; every byte outside of the word is as before; and the load changes no byte.
    pub load_int-store_word :
        (n a pc q v : ℕ) (m : Mmu Model)
        → a < long_mod
        → Valid m.model pc
        → Valid m.model q
        → (m1 m2 : Mmu Model) × (store_word models n m a pc v ≡ some m1)
          × (load_int models n m1 a q ≡ some (m2, sign_extend n (v % 256 ^ n)))
          × ((b : ℕ) → (b < a) ⊎ (a + n ≤ b) → m2.memory b ≡ m.memory b)
          × ((b : ℕ) → m2.memory b ≡ m1.memory b)
    unfolding store_word load_int load_uint
    load_int-store_word n a pc q v m small valid valid_load =
        let (s, stored, kept) = law.stores m.model a pc small valid in
        let (t, loaded, kept_too) = law.loads s a q small (kept q valid_load) in
        let memory = put_word n m.memory a v in
        (
          record { memory = memory; model = s },
          record { memory = memory; model = t },
          rw stored refl,
          rw (loaded, word-put_word n m.memory a v) refl,
          (λ b out. put_word_outside n m.memory a v b out),
          (λ b. refl),
        )
