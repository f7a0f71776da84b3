-- ===== src/Erised/Screen.antt =====
-- erised/erised.cc: painting, and the loop over events. ncurses is a parameter in the events: which
-- window encloses the mouse, and its buttons.
use cavatools.Prelude.{
  ℕ, zero, suc, ◌+◌, ◌-◌, ◌*◌, ◌/◌, Bool, ◌&&◌, ◌||◌, Option, none, some, ◌>>=◌, List, [], ◌∷◌, ltb,
  leb, ◌==◌, if◌then◌else◌,
}
use cavatools.Prelude.Sums.{update}
use cavatools.Perf.{count}
use cavatools.Insn.{Insn}
use cavatools.Insn.Space.{Opcodes, at, insn_bytes}
use cavatools.Erised.{
  Histogram, Assembly, hot, larger, histo_create, assembly_create, Viewed, histo_compute,
}

-- A line of a histogram: a count, its decay, and whether it is highlighted.
pub record Row : Type 0 where
  pub count : ℕ
  pub decay : ℕ
  pub highlight : Bool

unfoldable pub paint_rows : ℕ → ℕ → ℕ → ℕ → ℕ → Histogram → Histogram × List Row
paint_rows zero y pc base bound h = (h, [])
paint_rows (suc n) y pc base bound h =
    let highlight = (leb base pc && ltb pc bound) || (leb pc base && ltb bound (pc + h.range)) in
    let row : Row = record { count = h.bin y; decay = h.decay y; highlight = highlight } in
    let painted = record h {
      decay = if ltb 0 (h.decay y) then update h.decay y (h.decay y - 1) else h.decay;
    } in
    let (h', rows) = paint_rows n (y + 1) (pc + h.range) base bound painted in (h', row ∷ rows)

-- `histo_paint`; the window has a line for the title and one for each bin.
unfoldable pub histo_paint : Histogram → ℕ → ℕ → Histogram × List Row
unfolding paint_rows
histo_paint h base bound = paint_rows h.bins 0 h.base base bound h

pub record Viewer : Type 0 where
  pub global : Histogram
  pub local : Histogram
  pub assembly : Assembly

-- The results of `wenclose` in their order, the line, and the bits of `bstate`.
pub data Window : Type 0 where
  in_assembly in_global in_local elsewhere : Window

pub record Mouse : Type 0 where
  pub window : Window
  pub y : ℕ
  pub button1 : Bool
  pub button4 : Bool
  pub button5 : Bool
  pub shift : Bool

-- What `getch` returns; ERR and other keys are `nothing`.
pub data Event : Type 0 where
  nothing quit bad_mouse : Event
  mouse : Mouse → Event

unfoldable pub click_global : Viewer → Mouse → Viewer
click_global v m =
    if m.button1
    then record v {
      local = record v.local {
        base = v.global.base + m.y * v.global.range - v.global.range;
        bound = v.global.base + m.y * v.global.range;
      };
    }
    else v

abbrev pub window_at : Viewer → ℕ → ℕ → Viewer
window_at v base bound = record v { local = record v.local { base = base; bound = bound } }

-- A `base` below 0 is raised by `clamp` like a 0.
unfoldable pub click_local : Viewer → Mouse → Viewer
click_local v m =
    let scroll = v.local.range in
    if m.button1
    then record v {
      assembly = record v.assembly { base = v.local.base + m.y * v.local.range - v.local.range };
    }
    else if m.button4 && m.shift
    then window_at v (v.local.base + scroll) (v.local.bound - scroll)
    else if m.button5 && m.shift
    then window_at v (v.local.base - scroll) (v.local.bound + scroll)
    else if m.button4
    then window_at v (v.local.base - scroll) (v.local.bound - scroll)
    else if m.button5
    then window_at v (v.local.base + scroll) (v.local.bound + scroll)
    else v

module _ (ops : Opcodes) (op_zero : ℕ) (decoder : ℕ → ℕ → Insn) (image : ℕ → ℕ) (of : Viewed) where
  -- The loop of `assembly_paint` with the lines to go.
  unfoldable pub paint_lines : ℕ → ℕ → ℕ → Assembly → Option Assembly
  unfolding count at insn_bytes
  paint_lines zero y pc a = some (record a { bound = pc })
  paint_lines (suc n) y pc a =
      let rest : Option Assembly = do
        k ← count of.seg of.perf pc
        let seen = if k == a.old y then a.decay y else hot
        let decay = update a.decay y (seen - 1)
        i ← at of.code pc
        paint_lines n (y + 1) (pc + insn_bytes ops decoder image i)
            (record a { old = update a.old y k; decay = decay })
      in if ltb pc of.code.limit then rest else some (record a { bound = pc })

  unfoldable pub assembly_paint : Assembly → Option Assembly
  unfolding paint_lines
  assembly_paint a =
      if a.base == 0 then some (record a { bound = 0 }) else paint_lines (a.lines - 1) 1 a.base a

  unfoldable pub resize_histos : ℕ → Option Viewer
  unfolding histo_create histo_compute assembly_create
  resize_histos lines = do
    global ← histo_compute ops decoder image of (histo_create lines) of.code.base of.code.limit
    local ← histo_compute ops decoder image of (histo_create lines) of.code.base of.code.limit
    some (record { global = global; local = local; assembly = assembly_create lines })

  -- The length of the instruction before an address: the second half of a long one is `Op_ZERO`.
  unfoldable pub before : ℕ → Option ℕ
  unfolding at
  before pc =
      if ltb pc 2
      then none
      else (do i ← at of.code (pc - 2); some (if i.op_code == op_zero then 4 else 2))

  unfoldable pub scroll_assembly : Assembly → Mouse → Option Assembly
  unfolding before at insn_bytes
  scroll_assembly a m =
      let up : Option Assembly = do
        m ← before a.base
        n ← before a.bound
        let base = if ltb (a.base - m) of.code.base then of.code.base else a.base - m
        some (record a { base = base; bound = a.bound - n })
      in let down : Option Assembly = do
        i ← at of.code a.bound
        let after = a.bound + insn_bytes ops decoder image i
        let bound = if ltb of.code.limit after then of.code.limit else after
        j ← at of.code a.base
        some (record a { base = a.base + insn_bytes ops decoder image j; bound = bound })
        in if m.button4 then up else if m.button5 then down else some a

  unfoldable pub on_mouse : Viewer → Mouse → Window → Option Viewer
  unfolding scroll_assembly click_global click_local
  on_mouse v m in_assembly = do a ← scroll_assembly v.assembly m; some (record v { assembly = a })
  on_mouse v m in_global = some (click_global v m)
  on_mouse v m in_local = some (click_local v m)
  on_mouse v m elsewhere = some v

  -- The end of the loop of `interactive`.
  unfoldable pub clamp : Viewer → Option Viewer
  clamp v =
      let base = larger v.local.base of.code.base in
      let bound = if ltb of.code.limit v.local.bound then of.code.limit else v.local.bound in
      let a = v.assembly in
      let fitted = record a {
        base = larger a.base of.code.base;
        bound = if ltb of.code.limit a.bound then of.code.limit else a.bound;
      } in
      if v.local.bins == 0
      then none
      else some (record v {
        local = record v.local {
          base = base;
          bound = bound;
          range = (bound - base) / v.local.bins;
        };
        assembly = fitted;
      })

  -- The start of the loop.
  unfoldable pub draw : Viewer → Option Viewer
  unfolding histo_compute histo_paint assembly_paint
  draw v = do
    global ← histo_compute ops decoder image of v.global of.code.base of.code.limit
    local ← histo_compute ops decoder image of v.local v.local.base v.local.bound
    let (global', _) = histo_paint global local.base local.bound
    let (local', _) = histo_paint local v.assembly.base v.assembly.bound
    assembly ← assembly_paint v.assembly
    some (record { global = global'; local = local'; assembly = assembly })

  -- How a round of `interactive` ends.
  pub data Round : Type 0 where
    goes_on ends : Viewer → Round

  unfoldable pub handle : Viewer → Event → Option Round
  unfolding on_mouse clamp
  handle v nothing = do v' ← clamp v; some (goes_on v')
  handle v quit = some (ends v)
  handle v bad_mouse = none
  handle v (mouse m) = do v' ← on_mouse v m m.window; v'' ← clamp v'; some (goes_on v'')

  unfoldable pub round : Viewer → Event → Option Round
  unfolding draw handle
  round v e = do v' ← draw v; handle v' e
