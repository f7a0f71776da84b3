-- ===== src/Erised/Rounds.antt =====
-- Rounds of the loop of `interactive`.
use cavatools.Prelude.{
  WhenSome, ℕ, ◌-◌, ◌≤◌, ◌≡◌, refl, sym, subst, false, Option, none, some, ◌>>=◌, arith, inl,
}
use cavatools.Insn.{Insn}
use cavatools.Insn.Space.{Opcodes}
use cavatools.Erised.{Assembly, histo_create, assembly_create, Viewed}
use cavatools.Erised.Screen.{
  Viewer, Window, in_assembly, in_global, in_local, elsewhere, Mouse, Event, nothing, quit,
  bad_mouse, mouse, click_global, click_local, resize_histos, scroll_assembly, on_mouse, clamp,
  Round, goes_on, ends, handle, round,
}
use cavatools.Erised.Walks.{IsViewed}
use cavatools.Erised.Windows.{computed, IsViewer, draw-IsViewer}
use cavatools.Erised.Clicks.{
  Listed, InWindow, Harmless, Fits, clamp-IsViewer, IsViewer-Fits, click_global-Fits,
  click_local-Fits,
}

module _ (ops : Opcodes) (op_zero : ℕ) (decoder : ℕ → ℕ → Insn) (image : ℕ → ℕ) (of : Viewed) where
  abbrev pub the_round : Viewer → Event → Option (Round ops op_zero decoder image of)
  the_round = round ops op_zero decoder image of

  abbrev on : Viewer → Mouse → Window → Option Viewer
  on = on_mouse ops op_zero decoder image of

  -- The states of the viewer at the start of a round.
  pub data Shown (lines : ℕ) : Viewer → Type 0 where
    start : {v : Viewer} → resize_histos ops op_zero decoder image of lines ≡ some v → Shown lines v
    later :
        {v v' : Viewer} (e : Event)
        → Shown lines v
        → InWindow ops op_zero decoder image of (lines - 1) e
        → the_round v e ≡ some (goes_on v')
        → Shown lines v'

  -- How a round may end.
  abbrev pub RoundIs : ℕ → Round ops op_zero decoder image of → Type 0
  RoundIs bins (goes_on v) =
      IsViewer ops op_zero decoder image of bins v × Listed ops op_zero decoder image of v
  RoundIs bins (ends v) = IsViewer ops op_zero decoder image of bins v

  module _ (viewed : IsViewed of) (bins : ℕ) (many : 2 ≤ bins) where
    limits : of.code.base ≤ of.code.limit
    limits = omega (arith, viewed.parcels)

    abbrev ViewerAt : Viewer → Type 0
    ViewerAt = IsViewer ops op_zero decoder image of bins

    abbrev FitsAt : Viewer → Type 0
    FitsAt = Fits ops op_zero decoder image of bins

    relisted :
        (v : Viewer) (r : Option Assembly)
        → ViewerAt v
        → WhenSome FitsAt (do a ← r; some (record v { assembly = a }))
    relisted v none s = tt
    relisted v (some a) s =
        let f = IsViewer-Fits ops op_zero decoder image of viewed bins many v s in
        record {
          global = f.global;
          same_bins = f.same_bins;
          ordered = f.ordered;
          reaches = f.reaches;
          inside = f.inside;
        }

    on_mouse-Fits :
        (v : Viewer) (m : Mouse) (w : Window)
        → ViewerAt v
        → (w ≡ in_global → m.y ≤ bins)
        → WhenSome FitsAt (on v m w)
    unfolding on_mouse
    on_mouse-Fits v m in_assembly s inside =
        relisted v (scroll_assembly ops op_zero decoder image of v.assembly m) s
    on_mouse-Fits v m in_global s inside =
        click_global-Fits ops op_zero decoder image of viewed bins many v m s (inside refl)
    on_mouse-Fits v m in_local s inside =
        click_local-Fits ops op_zero decoder image of viewed bins many v m s
    on_mouse-Fits v m elsewhere s inside =
        IsViewer-Fits ops op_zero decoder image of viewed bins many v s

    -- The listing without its wheel.
    on_mouse_total :
        (v : Viewer) (m : Mouse) (w : Window)
        → (w ≡ in_assembly → (m.button4 ≡ false) × (m.button5 ≡ false))
        → (v' : Viewer) × (on v m w ≡ some v')
    unfolding on_mouse scroll_assembly
    on_mouse_total v m in_assembly quiet = let (b4, b5) = quiet refl in (v, rw (b4, b5) refl)
    on_mouse_total v m in_global quiet = (click_global v m, refl)
    on_mouse_total v m in_local quiet = (click_local v m, refl)
    on_mouse_total v m elsewhere quiet = (v, refl)

    clamped :
        (r : Option Viewer)
        → WhenSome FitsAt r
        → WhenSome
            (RoundIs bins)
            (do v ← r; v' ← clamp ops op_zero decoder image of v; some (goes_on v'))
    clamped none f = tt
    clamped (some v) f =
        let (v', gives, s, listed) =
          clamp-IsViewer ops op_zero decoder image of viewed bins many v limits f in
        rw gives (s, listed)

    handle-RoundIs :
        (v : Viewer) (e : Event)
        → ViewerAt v
        → InWindow ops op_zero decoder image of bins e
        → WhenSome (RoundIs bins) (handle ops op_zero decoder image of v e)
    unfolding handle
    handle-RoundIs v nothing s inside =
        clamped (some v) (IsViewer-Fits ops op_zero decoder image of viewed bins many v s)
    handle-RoundIs v quit s inside = s
    handle-RoundIs v bad_mouse s inside = tt
    handle-RoundIs v (mouse m) s inside =
        clamped (on v m m.window) (on_mouse-Fits v m m.window s inside)

    round-RoundIs :
        (v : Viewer) (e : Event)
        → ViewerAt v
        → InWindow ops op_zero decoder image of bins e
        → WhenSome (RoundIs bins) (the_round v e)
    unfolding round
    round-RoundIs v e s inside =
        let (drawn, gives, d) =
          draw-IsViewer ops op_zero decoder image of viewed bins many v limits s in
        rw gives (handle-RoundIs drawn e d inside)

    clamped_total :
        (r : Option Viewer) (v : Viewer)
        → r ≡ some v
        → FitsAt v
        → (x : Round ops op_zero decoder image of) × ((do
          v ← r
          v' ← clamp ops op_zero decoder image of v
          some (goes_on v'))
            ≡ some x)
    clamped_total r v e f =
        let (v', gives, s, listed) =
          clamp-IsViewer ops op_zero decoder image of viewed bins many v limits f in
        (goes_on v', rw (e, gives) refl)

    handle_total :
        (v : Viewer) (e : Event)
        → ViewerAt v
        → InWindow ops op_zero decoder image of bins e
        → Harmless ops op_zero decoder image of e
        → (r : Round ops op_zero decoder image of) × (handle ops op_zero decoder image of v e
            ≡ some r)
    unfolding handle
    handle_total v nothing s inside quiet =
        clamped_total (some v) v refl
          (IsViewer-Fits ops op_zero decoder image of viewed bins many v s)
    handle_total v quit s inside quiet = (ends v, refl)
    handle_total v bad_mouse s inside quiet = absurd quiet
    handle_total v (mouse m) s inside quiet =
        let (v', gives) = on_mouse_total v m m.window quiet in
        clamped_total (on v m m.window) v' gives
          (subst (WhenSome FitsAt) gives (on_mouse-Fits v m m.window s inside))

    resize_histos-IsViewer :
        (lines : ℕ)
        → lines - 1 ≡ bins
        → (v : Viewer) × (resize_histos ops op_zero decoder image of lines ≡ some v) × ViewerAt v
    unfolding resize_histos
    resize_histos-IsViewer lines e =
        let (h, gives, spans) =
          computed ops op_zero decoder image of viewed bins many (histo_create lines) of.code.base
            of.code.limit e (omega arith) limits (omega arith) in
        let v : Viewer = record { global = h; local = h; assembly = assembly_create lines } in
        let low : of.code.base ≤ h.base =
          subst (λ b. of.code.base ≤ b) (sym spans.same_base) (omega arith) in
        let high : h.bound ≤ of.code.limit =
          subst (λ b. b ≤ of.code.limit) (sym spans.same_bound) (omega arith) in
        let ordered : h.base ≤ h.bound = omega (arith, spans.same_base, spans.same_bound, limits) in
        (
          v,
          rw gives refl,
          record {
            global = spans;
            local = record {
              same_bins = spans.same_bins;
              same_base = refl;
              same_bound = refl;
              same_range = rw (spans.same_base, spans.same_bound) spans.same_range;
            };
            low = low;
            ordered = ordered;
            high = high;
            listing = inl refl;
          },
        )

  module _ (viewed : IsViewed of) (lines : ℕ) (many : 3 ≤ lines) where
    -- On a text whose counters are its own, on a screen of at least three lines, and with any events
    -- whose mouse is in the window that encloses it: at the start of every round the local window lies
    -- within the text with its base not behind its bound, the global window is the text, the ranges
    -- are the lengths of the windows divided by the number of bins, and the listing has no base yet
    -- or one that is not before the text.
    pub Shown-IsViewer :
        (v : Viewer) → Shown lines v → IsViewer ops op_zero decoder image of (lines - 1) v
    Shown-IsViewer v (start e) =
        let (v', gives, s) = resize_histos-IsViewer viewed (lines - 1) (omega arith) lines refl in
        let s' : WhenSome (IsViewer ops op_zero decoder image of (lines - 1))
            (resize_histos ops op_zero decoder image of lines) =
          rw gives s in
        subst (WhenSome (IsViewer ops op_zero decoder image of (lines - 1))) e s'
    Shown-IsViewer v (later {v = before} event r inside e) =
        let all =
          round-RoundIs viewed (lines - 1) (omega arith) before event (Shown-IsViewer before r)
            inside in
        (subst (WhenSome (RoundIs (lines - 1))) e all).0

    -- Under the same conditions the viewer starts, and no round faults whose event is neither a bad
    -- mouse event nor a wheel in the listing.
    pub resize_histos-rounds :
        ((v : Viewer) × (resize_histos ops op_zero decoder image of lines ≡ some v))
        × ((v : Viewer) (e : Event)
            → Shown lines v
            → InWindow ops op_zero decoder image of (lines - 1) e
            → Harmless ops op_zero decoder image of e
            → (r : Round ops op_zero decoder image of) × (the_round v e ≡ some r))
    unfolding round
    resize_histos-rounds =
        let (v, gives, s) = resize_histos-IsViewer viewed (lines - 1) (omega arith) lines refl in
        (
          (v, gives),
          λ w e shown inside quiet.
              let (drawn, draws, d) =
                draw-IsViewer ops op_zero decoder image of viewed (lines - 1) (omega arith) w
                  (limits viewed (lines - 1) (omega arith)) (Shown-IsViewer w shown) in
              rw draws (handle_total viewed (lines - 1) (omega arith) drawn e d inside quiet),
        )
