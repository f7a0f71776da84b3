-- ===== src/Tests/Viewers.antt =====
-- The viewer on a short text.
use cavatools.Prelude.{ℕ, ◌≡◌, refl, Option, some, ◌>>=◌, true, false, arith}
use cavatools.Perf.{index, create, add_at}
use cavatools.Erised.{Histogram, Viewed, histo_create, histo_compute}
use cavatools.Erised.Screen.{
  Viewer, in_global, Mouse, Event, mouse, resize_histos, Round, goes_on, round,
}
use cavatools.Erised.Walks.{IsViewed}
use cavatools.Erised.Bins.{IsComputed, histo_compute-IsComputed}
use cavatools.Erised.Windows.{IsViewer}
use cavatools.Erised.Clicks.{InWindow, Harmless}
use cavatools.Erised.Rounds.{Shown, start, Shown-IsViewer, resize_histos-rounds}
use cavatools.Tests.Descriptors.{ops, decoder, image}

-- Sixteen parcels, with a count of 7 for the second.
abbrev viewed : Viewed
viewed = record {
  code = record { base = 4096; limit = 4128; entry = 4096; predecoded = λ j. decoder 20 0 };
  seg = add_at (create 4096 4128 1) 16 7;
  perf = record { count = 0; imiss = 256; dmiss = 384 };
}

viewed-IsViewed : IsViewed viewed
unfolding create
viewed-IsViewed = record { above = omega arith; same = refl; parcels = refl }

histo_compute-IsComputed_example :
    (h' : Histogram) × (histo_compute ops decoder image viewed (histo_create 5) 4096 4128 ≡ some h')
    × IsComputed ops decoder image viewed viewed-IsViewed (histo_create 5) 4096 4128 h'
unfolding histo_create
histo_compute-IsComputed_example =
    histo_compute-IsComputed ops decoder image viewed viewed-IsViewed (histo_create 5) 4096 4128
      (omega arith) (omega arith) (omega arith) (omega arith)

-- A click on the second bin of the global window moves the local window there.
abbrev click : Mouse
click = record {
  window = in_global;
  y = 2;
  button1 = true;
  button4 = false;
  button5 = false;
  shift = false;
}

abbrev local_after : Option (Round ops 0 decoder image viewed) → ℕ × ℕ
local_after (some (goes_on v)) = (v.local.base, v.local.bound)
local_after r = (0, 0)

click_local_window :
    local_after (do
      v ← resize_histos ops 0 decoder image viewed 5
      round ops 0 decoder image viewed v (mouse click))
    ≡ (4104, 4112)
unfolding resize_histos round index create
click_local_window = refl

shown : (v : Viewer) × Shown ops 0 decoder image viewed 5 v
shown =
    let ((v, gives), rounds) =
      resize_histos-rounds ops 0 decoder image viewed viewed-IsViewed 5 (omega arith) in
    (v, start gives)

Shown-IsViewer_example : IsViewer ops 0 decoder image viewed 4 shown.0
Shown-IsViewer_example =
    Shown-IsViewer ops 0 decoder image viewed viewed-IsViewed 5 (omega arith) shown.0 shown.1

resize_histos-rounds_example :
    ((v : Viewer) × (resize_histos ops 0 decoder image viewed 5 ≡ some v))
    × ((v : Viewer) (e : Event)
        → Shown ops 0 decoder image viewed 5 v
        → InWindow ops 0 decoder image viewed 4 e
        → Harmless ops 0 decoder image viewed e
        → (r : Round ops 0 decoder image viewed) × (round ops 0 decoder image viewed v e ≡ some r))
resize_histos-rounds_example =
    resize_histos-rounds ops 0 decoder image viewed viewed-IsViewed 5 (omega arith)
