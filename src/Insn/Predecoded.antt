-- ===== src/Insn/Predecoded.antt =====
-- The predecode loop of `loadelf` in uspike/instructions.cc.
use cavatools.Prelude.{
  ℕ, zero, suc, ◌+◌, ◌*◌, ◌<◌, ◌≤◌, ◌≡◌, refl, ap, sym, ◌∙◌, true, Option, some, ◌>>=◌, ltb,
  if◌then◌else◌, arith, inl, inr, Bool-cases,
}
use cavatools.Insn.{Insn}
use cavatools.Insn.Space.{
  InsnSpace, Opcodes, valid, parcel, at, put, set_insn, compressed, insn_bytes, predecode,
}

parcel-at : (s : InsnSpace) (q k : ℕ) → q ≡ s.base + 2 * k → q < s.limit → parcel s q ≡ some k
unfolding parcel valid
parcel-at s q k e lt = ground (arith, e, lt)

at-parcel :
    (s : InsnSpace) (q k : ℕ) → q ≡ s.base + 2 * k → q < s.limit → at s q ≡ some (s.predecoded k)
unfolding at
at-parcel s q k e lt = rw (parcel-at s q k e lt) refl

set_insn-parcel :
    (s : InsnSpace) (q k : ℕ) (x : Insn)
    → q ≡ s.base + 2 * k
    → q < s.limit
    → set_insn s q x ≡ some (put s k x)
unfolding set_insn
set_insn-parcel s q k x e lt = rw (parcel-at s q k e lt) refl

module _ (ops : Opcodes) (decoder : ℕ → ℕ → Insn) (image : ℕ → ℕ) where
  abbrev pub decoded : ℕ → Insn
  decoded pc = decoder (image pc) pc

  -- The instructions of a straight walk through the text up to a limit.
  pub data Walk (limit : ℕ) : ℕ → ℕ → Type 0 where
    here : {pc : ℕ} → Walk limit pc pc
    later :
        {pc q : ℕ}
        → pc < limit
        → Walk limit (pc + insn_bytes ops decoder image (decoded pc)) q
        → Walk limit pc q

  insn_bytes-half : (i : Insn) → (n : ℕ) × (insn_bytes ops decoder image i ≡ 2 * n) × (0 < n)
  unfolding insn_bytes
  insn_bytes-half i = elim (Bool-cases (compressed ops decoder image i)) [
    | inl e ↦ (1, rw e refl, omega arith)
    | inr e ↦ (2, rw e refl, omega arith)
  ]

  -- What the loop makes of the segment from the parcel `k` at `pc` on.
  record Filled (s : InsnSpace) (pc k : ℕ) (s' : InsnSpace) : Type 0 where
    same_base : s'.base ≡ s.base
    same_limit : s'.limit ≡ s.limit
    before : (j : ℕ) → j < k → s'.predecoded j ≡ s.predecoded j
    walked : (q : ℕ) → Walk s.limit pc q → q < s.limit → at s' q ≡ some (decoded q)

  Walk-end :
      (s : InsnSpace) (pc q : ℕ)
      → s.limit ≤ pc
      → Walk s.limit pc q
      → q < s.limit
      → at s q ≡ some (decoded q)
  Walk-end s pc q end here lt = absurd (omega arith)
  Walk-end s pc q end (later below w) lt = absurd (omega arith)

  predecode_done :
      (fuel pc k : ℕ) (s : InsnSpace)
      → s.limit ≤ pc
      → (s' : InsnSpace) × (predecode ops decoder image fuel pc s ≡ some s') × Filled s pc k s'
  unfolding predecode
  predecode_done zero pc k s end = (
    s,
    ground arith,
    record {
      same_base = refl;
      same_limit = refl;
      before = λ j lt. refl;
      walked = λ q. Walk-end s pc q end;
    },
  )
  predecode_done (suc fuel) pc k s end = (
    s,
    ground arith,
    record {
      same_base = refl;
      same_limit = refl;
      before = λ j lt. refl;
      walked = λ q. Walk-end s pc q end;
    },
  )

  predecode_step :
      (fuel pc k : ℕ) (s : InsnSpace)
      → pc ≡ s.base + 2 * k
      → pc < s.limit
      → predecode ops decoder image (suc fuel) pc s
        ≡ predecode ops decoder image fuel
            (pc + insn_bytes ops decoder image (decoded pc))
            (put s k (decoded pc))
  unfolding predecode
  predecode_step fuel pc k s e lt =
      let test : ltb pc s.limit ≡ true = ground arith in
      let pc' = pc + insn_bytes ops decoder image (decoded pc) in
      let go : InsnSpace → Option InsnSpace = predecode ops decoder image fuel pc' in
      ap (λ b. if b then (set_insn s pc (decoded pc) >>= go) else some s) test
      ∙ ap (λ r. r >>= go) (set_insn-parcel s pc k (decoded pc) e lt)

  Filled-put :
      (s s' : InsnSpace) (pc k n : ℕ)
      → pc ≡ s.base + 2 * k
      → 0 < n
      → Filled (put s k (decoded pc)) (pc + insn_bytes ops decoder image (decoded pc)) (k + n) s'
      → Filled s pc k s'
  Filled-put s s' pc k n e pos f = record {
    same_base = f.same_base;
    same_limit = f.same_limit;
    before = λ j lt. f.before j (omega arith) ∙ ground arith;
    walked = walk;
  }
    where
      walk : (q : ℕ) → Walk s.limit pc q → q < s.limit → at s' q ≡ some (decoded q)
      walk q here lt =
          at-parcel s' q k (e ∙ ap (λ b. b + 2 * k) (sym f.same_base)) (omega (arith, f.same_limit))
          ∙ ap some (f.before k (omega arith) ∙ ground arith)
      walk q (later below w) lt = f.walked q w lt

  predecode-Filled :
      (fuel pc k : ℕ) (s : InsnSpace)
      → pc ≡ s.base + 2 * k
      → s.limit ≤ pc + 2 * fuel
      → (s' : InsnSpace) × (predecode ops decoder image fuel pc s ≡ some s') × Filled s pc k s'
  predecode-Filled zero pc k s e enough = predecode_done zero pc k s (omega arith)
  predecode-Filled (suc fuel) pc k s e enough = elim (Bool-cases (ltb pc s.limit)) [
    | inr end ↦ predecode_done (suc fuel) pc k s (ground arith)
    | inl test ↦
        let lt : pc < s.limit = ground arith in
        let (n, bytes, pos) = insn_bytes-half (decoded pc) in
        let (s', ran, filled) =
          predecode-Filled fuel (pc + insn_bytes ops decoder image (decoded pc)) (k + n)
            (put s k (decoded pc)) (omega (arith, bytes)) (omega (arith, bytes)) in
        (s', predecode_step fuel pc k s e lt ∙ ran, Filled-put s s' pc k n e pos filled)
  ]

  -- From the base on, with as many rounds as the segment has parcels, the loop ends without a fault,
  -- and then the descriptor at every instruction of the walk through the text is its decoding.
  pub predecode-walked :
      (fuel : ℕ) (s : InsnSpace)
      → s.limit ≤ s.base + 2 * fuel
      → (s' : InsnSpace) × (predecode ops decoder image fuel s.base s ≡ some s')
        × ((q : ℕ) → Walk s.limit s.base q → q < s.limit → at s' q ≡ some (decoded q))
  predecode-walked fuel s enough =
      let (s', ran, filled) = predecode-Filled fuel s.base 0 s (omega arith) enough in
      (s', ran, filled.walked)
