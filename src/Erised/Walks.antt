-- ===== src/Erised/Walks.antt =====
-- A walk through the text, and one bin of `histo_compute`.
use cavatools.Prelude.{
  ℕ, zero, suc, ◌+◌, ◌-◌, ◌*◌, ◌/◌, ◌≤◌, ◌<◌, ◌≡◌, ◌⊎◌, refl, ap, subst, Option, some, ltb, arith,
  inl, inr, Bool-cases,
}
use cavatools.Perf.{count, index}
use cavatools.Insn.{Insn}
use cavatools.Insn.Space.{Opcodes, at, parcel, valid, insn_bytes, compressed}
use cavatools.Erised.{Viewed, bin_count}

-- The counters are those of the text.
pub record IsViewed (of : Viewed) : Type 0 where
  pub above : 0 < of.code.base
  pub same : of.seg.base ≡ of.code.base
  pub parcels : of.code.limit ≡ of.code.base + 2 * of.seg.parcels

module _ (ops : Opcodes) (decoder : ℕ → ℕ → Insn) (image : ℕ → ℕ) (of : Viewed) where
  -- A walk from one address to another, with the sum of the counts on it.
  pub data Counted : ℕ → ℕ → ℕ → Type 0 where
    here : {pc : ℕ} → Counted pc pc 0
    past :
        {pc q total k : ℕ} {i : Insn}
        → count of.seg of.perf pc ≡ some k
        → at of.code pc ≡ some i
        → Counted (pc + insn_bytes ops decoder image i) q total
        → Counted pc q (k + total)

  pub Counted-append : {p q r a b : ℕ} → Counted p q a → Counted q r b → Counted p r (a + b)
  Counted-append {p = p} {r = r} {b = b} here w = subst (Counted p r) (omega arith) w
  Counted-append {p = p} {r = r} {b = b} (past {pc = pc} {total = t} {k = k} e f v) w =
      subst (Counted p r) (omega arith) (past e f (Counted-append v w))

  insn_bytes_two :
      (i : Insn) → (insn_bytes ops decoder image i ≡ 2) ⊎ (insn_bytes ops decoder image i ≡ 4)
  unfolding insn_bytes
  insn_bytes_two i = elim (Bool-cases (compressed ops decoder image i)) [
    | inl e ↦ inl (rw e refl)
    | inr e ↦ inr (rw e refl)
  ]

  module _ (v : IsViewed of) where
    pub at_valid :
        (pc : ℕ) → of.code.base ≤ pc → pc < of.code.limit → (i : Insn) × (at of.code pc ≡ some i)
    unfolding at parcel valid
    at_valid pc lo hi = (of.code.predecoded ((pc - of.code.base) / 2), ground arith)

    pub count_valid :
        (pc : ℕ)
        → of.code.base ≤ pc
        → pc < of.code.limit
        → (k : ℕ) × (count of.seg of.perf pc ≡ some k)
    unfolding count index
    count_valid pc lo hi = (
      of.seg.arrays (of.perf.count + 16 * ((pc - of.seg.base) / 2)),
      ground (arith, v.same, v.parcels),
    )

    -- What the inner loop gives.
    pub record Bin (end pc mcount bound : ℕ) (r : Option (ℕ × ℕ)) : Type 0 where
      pub total : ℕ
      pub last : ℕ
      pub gives : r ≡ some (mcount + total, last)
      pub counted : Counted pc last total
      pub full : end ≤ last
      pub later : pc ≤ last
      pub near : last < bound + 4

    pub bin_count-Bin :
        (fuel end pc mcount bound : ℕ)
        → of.code.base ≤ pc
        → end ≤ of.code.limit
        → end ≤ bound
        → pc < bound + 4
        → end ≤ pc + fuel
        → Bin end pc mcount bound (bin_count ops decoder image of fuel end pc mcount)
    unfolding bin_count
    bin_count-Bin zero end pc mcount bound lo hi le near enough = record {
      total = 0;
      last = pc;
      gives = ground arith;
      counted = here;
      full = omega arith;
      later = omega arith;
      near = near;
    }
    bin_count-Bin (suc fuel) end pc mcount bound lo hi le near enough =
        elim (Bool-cases (ltb pc end)) [
          | inl below ↦
              let (k, counts) = count_valid pc lo (ground arith) in
              let (i, insn) = at_valid pc lo (ground arith) in
              let two = insn_bytes_two i in
              let next = pc + insn_bytes ops decoder image i in
              let r =
                bin_count-Bin fuel end next (mcount + k) bound (ground arith) hi le (ground arith)
                  (ground arith) in
              record {
                total = k + r.total;
                last = r.last;
                gives =
                    rw (below, counts, insn, r.gives) (ap (λ n. some (n, r.last)) (omega arith));
                counted = past counts insn r.counted;
                full = r.full;
                later = ground (arith, r.later);
                near = r.near;
              }
          | inr end_reached ↦ record {
            total = 0;
            last = pc;
            gives = ground arith;
            counted = here;
            full = ground arith;
            later = omega arith;
            near = near;
          }
        ]
