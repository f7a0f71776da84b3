-- ===== src/Erised/Clicks.antt =====
-- The handlers of mouse events, and the clamps behind them.
use cavatools.Prelude.{
  ℕ, ◌+◌, ◌-◌, ◌*◌, ◌/◌, ◌≤◌, ◌≡◌, refl, sym, ap, subst, Bool, true, false, ◌&&◌, some, ltb, ◌==◌,
  if◌then◌else◌, arith, inl, inr, Bool-cases,
}
use native.Mathlib.Nat.{mod-add-div, mul-le-mul_right}
use cavatools.Insn.{Insn}
use cavatools.Insn.Space.{Opcodes}
use cavatools.Erised.{larger, Viewed}
use cavatools.Erised.Screen.{
  Viewer, in_assembly, in_global, Mouse, Event, bad_mouse, mouse, click_global, click_local,
  window_at, clamp,
}
use cavatools.Erised.Walks.{IsViewed}
use cavatools.Erised.Windows.{Spans, IsViewer}

module _ (ops : Opcodes) (op_zero : ℕ) (decoder : ℕ → ℕ → Insn) (image : ℕ → ℕ) (of : Viewed) where
  abbrev Views : ℕ → Viewer → Type 0
  Views = IsViewer ops op_zero decoder image of

  -- The windows before `clamp`.
  pub record Fits (bins : ℕ) (v : Viewer) : Type 0 where
    pub global : Spans bins of.code.base of.code.limit v.global
    pub same_bins : v.local.bins ≡ bins
    pub ordered : v.local.base ≤ v.local.bound
    pub reaches : of.code.base ≤ v.local.bound
    pub inside : v.local.base ≤ of.code.limit

  -- The listing after `clamp`.
  abbrev pub Listed : Viewer → Type 0
  Listed v = (of.code.base ≤ v.assembly.base) × (v.assembly.bound ≤ of.code.limit)

  -- The mouse is in the window that encloses it.
  abbrev pub InWindow : ℕ → Event → Type 0
  InWindow bins (mouse m) = m.window ≡ in_global → m.y ≤ bins
  InWindow bins e = Unit

  -- No wheel in the listing.
  abbrev pub Harmless : Event → Type 0
  Harmless (mouse m) = m.window ≡ in_assembly → (m.button4 ≡ false) × (m.button5 ≡ false)
  Harmless bad_mouse = ⊥
  Harmless e = Unit

  module _ (viewed : IsViewed of) (bins : ℕ) (many : 2 ≤ bins) where
    part : (y n : ℕ) → y ≤ bins → y * (n / bins) ≤ n
    part y n le = omega (arith, mul-le-mul_right (n / bins) le, mod-add-div n bins)

    half : (n : ℕ) → n / bins * 2 ≤ n
    half n = omega (arith, part 2 n many)

    pub clamp-IsViewer :
        (v : Viewer)
        → of.code.base ≤ of.code.limit
        → Fits bins v
        → (v' : Viewer) × (clamp ops op_zero decoder image of v ≡ some v')
          × Views bins v'
          × Listed v'
    unfolding clamp
    clamp-IsViewer v le f =
        let some_bin : (v.local.bins == 0) ≡ false = ground (arith, f.same_bins, many) in
        let base = larger v.local.base of.code.base in
        let bound = if ltb of.code.limit v.local.bound then of.code.limit else v.local.bound in
        let clamped : Viewer = record v {
          local = record v.local {
            base = base;
            bound = bound;
            range = (bound - base) / v.local.bins;
          };
          assembly = record v.assembly {
            base = larger v.assembly.base of.code.base;
            bound = if ltb of.code.limit v.assembly.bound then of.code.limit else v.assembly.bound;
          };
        } in
        (
          clamped,
          rw some_bin refl,
          record {
            global = f.global;
            local = record {
              same_bins = f.same_bins;
              same_base = refl;
              same_bound = refl;
              same_range = ap (λ b. (bound - base) / b) f.same_bins;
            };
            low = ground arith;
            ordered = ground (arith, f.ordered, f.reaches, f.inside);
            high = ground arith;
            listing = inr (ground arith);
          },
          (ground arith, ground arith),
        )

    window_at-Fits :
        (v : Viewer) (base bound : ℕ)
        → Views bins v
        → base ≤ bound
        → of.code.base ≤ bound
        → base ≤ of.code.limit
        → Fits bins (window_at v base bound)
    window_at-Fits v base bound s le reaches inside = record {
      global = s.global;
      same_bins = s.local.same_bins;
      ordered = le;
      reaches = reaches;
      inside = inside;
    }

    pub IsViewer-Fits : (v : Viewer) → Views bins v → Fits bins v
    IsViewer-Fits v s = record {
      global = s.global;
      same_bins = s.local.same_bins;
      ordered = s.ordered;
      reaches = omega (arith, s.low, s.ordered);
      inside = omega (arith, s.high, s.ordered);
    }

    pub click_global-Fits :
        (v : Viewer) (m : Mouse) → Views bins v → m.y ≤ bins → Fits bins (click_global v m)
    unfolding click_global
    click_global-Fits v m s small = elim (Bool-cases m.button1) [
      | inl e ↦
          let range = v.global.range in
          let left : v.global.base ≡ of.code.base = s.global.same_base in
          let fits : m.y * range ≤ of.code.limit - of.code.base =
            subst (λ r. m.y * r ≤ of.code.limit - of.code.base) (sym s.global.same_range)
              (part m.y (of.code.limit - of.code.base) small) in
          let low : of.code.base ≤ of.code.limit = omega (arith, s.low, s.ordered, s.high) in
          rw e (
            window_at-Fits v (v.global.base + m.y * range - range) (v.global.base + m.y * range) s
              (omega arith) (omega (arith, left)) (omega (arith, left, fits, low)))
      | inr e ↦ rw e (IsViewer-Fits v s)
    ]

    if-Fits : (b : Bool) {v w : Viewer} → Fits bins v → Fits bins w → Fits bins (if b then v else w)
    if-Fits true f g = f
    if-Fits false f g = g

    pub click_local-Fits : (v : Viewer) (m : Mouse) → Views bins v → Fits bins (click_local v m)
    unfolding click_local
    click_local-Fits v m s =
        let scroll = v.local.range in
        let fits : scroll * 2 ≤ v.local.bound - v.local.base =
          subst (λ r. r * 2 ≤ v.local.bound - v.local.base) (sym s.local.same_range)
            (half (v.local.bound - v.local.base)) in
        let listed : Fits bins (record v {
          assembly = record v.assembly {
            base = v.local.base + m.y * v.local.range - v.local.range;
          };
        }) =
          let f = IsViewer-Fits v s in
          record {
            global = f.global;
            same_bins = f.same_bins;
            ordered = f.ordered;
            reaches = f.reaches;
            inside = f.inside;
          } in
        let moved : (base bound : ℕ)
            → base ≤ bound
            → of.code.base ≤ bound
            → base ≤ of.code.limit
            → Fits bins (window_at v base bound) =
          λ base bound. window_at-Fits v base bound s in
        let smaller =
          moved (v.local.base + scroll) (v.local.bound - scroll) (omega (arith, s.ordered, fits))
            (omega (arith, s.low, s.ordered, fits)) (omega (arith, s.high, s.ordered, fits)) in
        let larger =
          moved (v.local.base - scroll) (v.local.bound + scroll) (omega (arith, s.ordered, fits))
            (omega (arith, s.low, s.ordered, fits)) (omega (arith, s.high, s.ordered, fits)) in
        let earlier =
          moved (v.local.base - scroll) (v.local.bound - scroll) (omega (arith, s.ordered, fits))
            (omega (arith, s.low, s.ordered, fits)) (omega (arith, s.high, s.ordered, fits)) in
        let later =
          moved (v.local.base + scroll) (v.local.bound + scroll) (omega (arith, s.ordered, fits))
            (omega (arith, s.low, s.ordered, fits)) (omega (arith, s.high, s.ordered, fits)) in
        if-Fits m.button1 listed (
          if-Fits (m.button4 && m.shift) smaller (
            if-Fits (m.button5 && m.shift) larger
              (if-Fits m.button4 earlier (if-Fits m.button5 later (IsViewer-Fits v s)))))
