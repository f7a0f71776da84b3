-- ===== src/Erised/Windows.antt =====
-- The windows of the viewer from event to event.
use cavatools.Prelude.{
  ℕ, zero, suc, ◌+◌, ◌-◌, ◌/◌, ◌≤◌, ◌≡◌, ◌⊎◌, refl, sym, ap, ◌∙◌, subst, false, some, ltb, ◌==◌,
  if◌then◌else◌, arith, inl, inr, Bool-cases,
}
use cavatools.Prelude.Sums.{update}
use cavatools.Insn.{Insn}
use cavatools.Insn.Space.{Opcodes, insn_bytes}
use cavatools.Erised.{Histogram, Assembly, hot, Viewed, histo_compute}
use cavatools.Erised.Screen.{paint_rows, histo_paint, Viewer, paint_lines, assembly_paint, draw}
use cavatools.Erised.Walks.{IsViewed, at_valid, count_valid}
use cavatools.Erised.Bins.{histo_compute-IsComputed}

-- The window of a histogram, as the events see it.
pub record Spans (bins base bound : ℕ) (h : Histogram) : Type 0 where
  pub same_bins : h.bins ≡ bins
  pub same_base : h.base ≡ base
  pub same_bound : h.bound ≡ bound
  pub same_range : h.range ≡ (bound - base) / bins

paint_rows-Spans :
    (n y pc lo hi bins base bound : ℕ) (h : Histogram)
    → Spans bins base bound h
    → Spans bins base bound (paint_rows n y pc lo hi h).0
unfolding paint_rows
paint_rows-Spans zero y pc lo hi bins base bound h s = s
paint_rows-Spans (suc n) y pc lo hi bins base bound h s =
    paint_rows-Spans n (y + 1) (pc + h.range) lo hi bins base bound _ (record {
      same_bins = s.same_bins;
      same_base = s.same_base;
      same_bound = s.same_bound;
      same_range = s.same_range;
    })

module _ (ops : Opcodes) (op_zero : ℕ) (decoder : ℕ → ℕ → Insn) (image : ℕ → ℕ) (of : Viewed) where
  pub record IsViewer (bins : ℕ) (v : Viewer) : Type 0 where
    pub global : Spans bins of.code.base of.code.limit v.global
    pub local : Spans bins v.local.base v.local.bound v.local
    pub low : of.code.base ≤ v.local.base
    pub ordered : v.local.base ≤ v.local.bound
    pub high : v.local.bound ≤ of.code.limit
    pub listing : (v.assembly.base ≡ 0) ⊎ (of.code.base ≤ v.assembly.base)

  module _ (viewed : IsViewed of) (bins : ℕ) (many : 2 ≤ bins) where
    paint_lines_total :
        (n y pc : ℕ) (a : Assembly)
        → of.code.base ≤ pc
        → (a' : Assembly) × (paint_lines ops op_zero decoder image of n y pc a ≡ some a')
          × (a'.base ≡ a.base)
    unfolding paint_lines
    paint_lines_total zero y pc a lo = (record a { bound = pc }, refl, refl)
    paint_lines_total (suc n) y pc a lo = elim (Bool-cases (ltb pc of.code.limit)) [
      | inl below ↦
          let (k, counts) = count_valid ops decoder image of viewed pc lo (ground arith) in
          let (i, insn) = at_valid ops decoder image of viewed pc lo (ground arith) in
          let seen = if k == a.old y then a.decay y else hot in
          let next : Assembly = record a {
            old = update a.old y k;
            decay = update a.decay y (seen - 1);
          } in
          let (a', painted, same) =
            paint_lines_total n (y + 1) (pc + insn_bytes ops decoder image i) next (omega arith) in
          (a', rw (counts, insn, below) painted, same)
      | inr end ↦ (record a { bound = pc }, rw end refl, refl)
    ]

    assembly_paint_total :
        (a : Assembly)
        → (a.base ≡ 0) ⊎ (of.code.base ≤ a.base)
        → (a' : Assembly) × (assembly_paint ops op_zero decoder image of a ≡ some a')
          × (a'.base ≡ a.base)
    unfolding assembly_paint
    assembly_paint_total a (inl e) = (record a { bound = 0 }, ground (arith, e), refl)
    assembly_paint_total a (inr lo) =
        let shown : (a.base == 0) ≡ false = ground (arith, viewed.above) in
        rw shown (paint_lines_total (a.lines - 1) 1 a.base a lo)

    pub computed :
        (h : Histogram) (base bound : ℕ)
        → h.bins ≡ bins
        → of.code.base ≤ base
        → base ≤ bound
        → bound ≤ of.code.limit
        → (h' : Histogram) × (histo_compute ops decoder image of h base bound ≡ some h')
          × Spans bins base bound h'
    computed h base bound e lo le hi =
        let (h', gives, c) =
          histo_compute-IsComputed ops decoder image of viewed h base bound (omega (arith, e)) lo le
            hi in
        (
          h',
          gives,
          record {
            same_bins = c.same_bins ∙ e;
            same_base = c.same_base;
            same_bound = c.same_bound;
            same_range = c.same_range ∙ ap (λ b. (bound - base) / b) e;
          },
        )

    painted :
        (h : Histogram) (base bound lo hi : ℕ)
        → Spans bins base bound h
        → Spans bins base bound (histo_paint h lo hi).0
    unfolding histo_paint
    painted h base bound lo hi s = paint_rows-Spans h.bins 0 h.base lo hi bins base bound h s

    own_span :
        (h : Histogram) (base bound : ℕ) → Spans bins base bound h → Spans bins h.base h.bound h
    own_span h base bound s = record {
      same_bins = s.same_bins;
      same_base = refl;
      same_bound = refl;
      same_range = rw (s.same_base, s.same_bound) s.same_range;
    }

    ordered_at : {a b c d : ℕ} → a ≡ b → c ≡ d → a ≤ c → b ≤ d
    ordered_at e f le = omega (arith, e, f, le)

    pub draw-IsViewer :
        (v : Viewer)
        → of.code.base ≤ of.code.limit
        → IsViewer bins v
        → (v' : Viewer) × (draw ops op_zero decoder image of v ≡ some v') × IsViewer bins v'
    unfolding draw
    draw-IsViewer v le s =
        let (g, global, gs) =
          computed v.global of.code.base of.code.limit s.global.same_bins (omega arith) le
            (omega arith) in
        let (l, local, ls) =
          computed v.local v.local.base v.local.bound s.local.same_bins s.low s.ordered s.high in
        let (a, listed, same) = assembly_paint_total v.assembly s.listing in
        let gp = painted g of.code.base of.code.limit l.base l.bound gs in
        let lp = painted l v.local.base v.local.bound v.assembly.base v.assembly.bound ls in
        let drawn : Viewer = record {
          global = (histo_paint g l.base l.bound).0;
          local = (histo_paint l v.assembly.base v.assembly.bound).0;
          assembly = a;
        } in
        (
          drawn,
          rw (global, local, listed) refl,
          record {
            global = gp;
            local = own_span _ v.local.base v.local.bound lp;
            low = subst (λ b. of.code.base ≤ b) (sym lp.same_base) s.low;
            ordered = ordered_at (sym lp.same_base) (sym lp.same_bound) s.ordered;
            high = subst (λ b. b ≤ of.code.limit) (sym lp.same_bound) s.high;
            listing = subst (λ b. (b ≡ 0) ⊎ (of.code.base ≤ b)) (sym same) s.listing;
          },
        )
