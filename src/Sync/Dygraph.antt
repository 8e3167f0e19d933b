-- ===== src/Sync/Dygraph.antt =====
-- The handlers of a chart that dygraph draws (portal/dashboard.js): `NETDATA.dygraphToolboxPanAndZoom` and
-- the callbacks and the interaction model in `NETDATA.dygraphChartCreate`. What dygraph itself does and
-- computes is not state of the model: the ranges that it answers with are arguments. Times of ranges
-- are in half-milliseconds.
pub mod Hand
pub mod Moves
pub mod Follows
pub mod Refines
pub mod Within
mod Tests
use lmiced.Prelude.{
  ℕ, ◌-◌, Bool, true, false, not, ◌&&◌, ◌||◌, List, [], ◌∷◌, Option, none, some, leb, nat_beq,
  get_elem?, modify, if◌then◌else◌,
}
use lmiced.Prelude.Int.{ℤ, pos, ◌+ℤ◌, ◌-ℤ◌, ◌*ℤ◌, ltb_ℤ, leb_ℤ, eqb_ℤ, scale, round_div}
use lmiced.Chart.{Mode, auto, pan, zoom, Range, Chart, Env}
use lmiced.Chart.Life.{set_mode}
use lmiced.Sync.{Dashboard}
use lmiced.Sync.Selection.{selection_delay, selection_sync, selection_stop}
use lmiced.Sync.Master.{set_master, pan_or_zoom, reset_all_charts}
use lmiced.Sync.Requests.{pause_chart}

-- What the handlers keep in the chart's state for dygraph: `tmp.dygraph_user_action`,
-- `tmp.dygraph_force_zoom` and the times of the last touches.
pub record Touch : Type 0 where
  pub user_action : Bool
  pub force_zoom : Bool
  pub last_start : ℕ
  pub last_move : ℕ
  pub page_x : ℤ
  pub last_end : Option ℕ

pub record Drawn : Type 0 where
  pub dashboard : Dashboard
  pub touch : Touch

-- The buttons and keys of an event of the mouse
pub record Pressed : Type 0 where
  pub button : ℕ
  pub alt_or_shift : Bool

-- `if(before > last)` and `if(after < first)`
cut_range : (first last after before : ℤ) → ℤ × ℤ
cut_range first last after before =
    let a = (if ltb_ℤ last before then after -ℤ (before -ℤ last) else after) in
    (if ltb_ℤ a first then first else a, if ltb_ℤ last before then last else before)

-- `interactionModel.wheel` from `new_x_range` on: the range is cut to the data.
unfoldable pub wheel_range : Chart → ℤ → ℤ → ℤ × ℤ
unfolding cut_range
wheel_range c after before =
    let every = pos c.range.data_update_every in
    cut_range (scale 2 (c.range.netdata_first +ℤ every)) (scale 2 (c.range.netdata_last +ℤ every))
      after before

-- The methods of the chart `i`, and a write to its state for dygraph
module _ (e : Env) (i : ℕ) where
  abbrev pub on_page : (Dashboard → Dashboard) → Drawn → Drawn
  on_page f p = record p { dashboard = f p.dashboard }

  abbrev pub stop_sync : Drawn → Drawn
  stop_sync = on_page (selection_stop i)

  abbrev pub delay_sync : Drawn → Drawn
  delay_sync = on_page (selection_delay e none)

  abbrev pub enter_mode : Mode → Drawn → Drawn
  enter_mode m = on_page (λ d. record d { targets = modify (set_mode e m) i d.targets })

  abbrev pub pause_drawn : Bool → Drawn → Drawn
  pause_drawn b = on_page (λ d. record d { targets = modify (pause_chart b) i d.targets })

  abbrev pub user_acts : Drawn → Drawn
  user_acts p = record p { touch = record (p.touch) { user_action = true } }

  abbrev pub user_zooms : Drawn → Drawn
  user_zooms p = record p { touch = record (p.touch) { user_action = true; force_zoom = true } }

  -- `state.updateChartPanOrZoom(after, before)`: its answer, `none` where it throws
  unfoldable pub pan_chart : ℤ → ℤ → Drawn → Drawn × Option Bool
  pan_chart after before p = elim (pan_or_zoom e i after before p.dashboard) [
    | none ↦ (p, none)
    | some (d, exact) ↦ (record p { dashboard = d }, some exact)
  ]

  -- `NETDATA.dygraphToolboxPanAndZoom(state, after, before)`
  unfoldable pub toolbox_pan_and_zoom : ℤ → ℤ → Drawn → Drawn
  toolbox_pan_and_zoom after before p = elim (get_elem? p.dashboard.targets i) [
    | none ↦ p
    | some c ↦
        let first = scale 2 c.range.netdata_first in
        let last = scale 2 c.range.netdata_last in
        let a = (if ltb_ℤ after first then first else after) in
        let b = (if ltb_ℤ last before then last else before) in
        let (q, answer) = pan_chart a b (user_zooms (delay_sync (stop_sync (enter_mode zoom p)))) in
        elim answer [ none ↦ q | some _ ↦ on_page (set_master e i a b) q ]
  ]

  -- `current.name !== 'auto'`
  is_auto : Chart → Bool
  is_auto c = elim c.current [ auto ↦ true | _ ↦ false ]

  -- `drawCallback`; the range is dygraph's `xAxisRange()`, rounded to milliseconds.
  unfoldable pub draw_callback : ℤ → ℤ → Drawn → Drawn
  unfolding is_auto
  draw_callback after before p = elim (get_elem? p.dashboard.targets i) [
    | none ↦ p
    | some c ↦
        if not (is_auto c) && p.touch.user_action
        then (let q = record p { touch = record (p.touch) { user_action = false } } in
            if leb_ℤ before c.range.netdata_last && leb_ℤ c.range.netdata_first after
            then (pan_chart (scale 2 after) (scale 2 before) q).0
            else q)
        else p
  ]

  -- `zoomCallback(minDate, maxDate)`
  unfoldable pub zoom_callback : ℤ → ℤ → Drawn → Drawn
  zoom_callback after before p =
      (pan_chart after before (user_zooms (enter_mode zoom (delay_sync (stop_sync p))))).0

  -- `highlightCallback(event, x)`
  unfoldable pub highlight_callback : ℤ → Drawn → Drawn
  highlight_callback x p = on_page (selection_sync e x i) (pause_drawn true p)

  -- `unhighlightCallback()`
  unfoldable pub unhighlight_callback : Drawn → Drawn
  unhighlight_callback p = stop_sync (pause_drawn false p)

  -- `interactionModel.mousedown`: the middle button and the others pan and zoom the other way round.
  unfoldable pub mousedown : Pressed → Drawn → Drawn
  mousedown x p =
      let q = stop_sync (user_acts p) in
      if nat_beq x.button 2
      then q
      else if nat_beq x.button 1
      then delay_sync (enter_mode (if x.alt_or_shift then pan else zoom) q)
      else delay_sync (enter_mode (if x.alt_or_shift then zoom else pan) q)

  -- `interactionModel.mousemove`
  unfoldable pub mousemove : (is_panning is_zooming : Bool) → Drawn → Drawn
  mousemove is_panning is_zooming p =
      if is_panning
      then enter_mode pan (delay_sync (stop_sync (user_acts p)))
      else if is_zooming
      then enter_mode zoom (delay_sync (stop_sync (user_acts p)))
      else p

  -- `interactionModel.mouseup`
  unfoldable pub mouseup : (is_panning is_zooming : Bool) → Drawn → Drawn
  mouseup is_panning is_zooming p = if is_panning || is_zooming then delay_sync (user_acts p) else p

  -- `interactionModel.dblclick`
  unfoldable pub dblclick : Drawn → Drawn
  dblclick p = on_page (reset_all_charts e i) p

  -- `interactionModel.wheel`, where `alt_or_shift` is pressed
  unfoldable pub wheel : Pressed → ℤ → ℤ → Drawn → Drawn
  wheel x after before p = elim (get_elem? p.dashboard.targets i) [
    | none ↦ p
    | some c ↦
        if not x.alt_or_shift
        then p
        else let (a, b) = wheel_range c after before in
          (pan_chart a b (enter_mode zoom (delay_sync (stop_sync (user_acts p))))).0
  ]

  -- `interactionModel.touchstart`; the page's coordinate is 0 where it is no number.
  unfoldable pub touchstart : (page_x : ℤ) → Drawn → Drawn
  touchstart page_x p =
      let q = pause_drawn true (enter_mode zoom (user_acts p)) in
      record q { touch = record (q.touch) { last_start = e.now; last_move = 0; page_x = page_x } }

  -- `interactionModel.touchmove`
  unfoldable pub touchmove : Drawn → Drawn
  touchmove p = let q = user_acts p in record q { touch = record (q.touch) { last_move = e.now } }

  -- The time of a touch on a drawing area that starts at `left` and is `w` wide
  unfoldable pub touched_time : Chart → (left : ℤ) → (w : ℕ) → ℤ → ℤ
  touched_time c left w x =
      c.range.data_after +ℤ round_div ((c.range.data_before -ℤ c.range.data_after) *ℤ (x -ℤ left)) w

  -- "if it didn't move, it is a selection"
  select_touched : (left : ℤ) → (w : ℕ) → Drawn → Drawn
  select_touched left w p = elim (get_elem? p.dashboard.targets i) [
    | none ↦ p
    | some c ↦
        if nat_beq p.touch.last_move 0 && not (eqb_ℤ p.touch.page_x (pos 0))
        then on_page (selection_sync e (touched_time c left w p.touch.page_x) i) p
        else p
  ]

  -- "if it was double tap within double click time"
  reset_tapped : (double_click_speed : ℕ) → Drawn → Drawn
  reset_tapped speed p = elim p.touch.last_end [
    | none ↦ p
    | some t ↦
        if nat_beq p.touch.last_move 0 && leb (e.now - t) speed
        then on_page (reset_all_charts e i) p
        else p
  ]

  -- `interactionModel.touchend`
  unfoldable pub touchend : (double_click_speed : ℕ) → (left : ℤ) → (w : ℕ) → Drawn → Drawn
  unfolding select_touched reset_tapped
  touchend speed left w p =
      let q = reset_tapped speed (select_touched left w (user_acts p)) in
      record q { touch = record (q.touch) { last_end = some e.now } }

-- What may happen to the drawing of a chart, with what dygraph says of it
pub data Gesture : Type 0 where
  toolbox draws zooms : (after before : ℤ) → Gesture
  highlights : (x : ℤ) → Gesture
  unhighlights double_clicks touch_moves : Gesture
  presses : Pressed → Gesture
  moves releases : (is_panning is_zooming : Bool) → Gesture
  wheels : Pressed → (after before : ℤ) → Gesture
  touch_starts : (page_x : ℤ) → Gesture
  touch_ends : (double_click_speed : ℕ) → (left : ℤ) → (w : ℕ) → Gesture

unfoldable pub handle : Env → ℕ → Gesture → Drawn → Drawn
handle e i (toolbox a b) p = toolbox_pan_and_zoom e i a b p
handle e i (draws a b) p = draw_callback e i a b p
handle e i (zooms a b) p = zoom_callback e i a b p
handle e i (highlights x) p = highlight_callback e i x p
handle e i unhighlights p = unhighlight_callback e i p
handle e i double_clicks p = dblclick e i p
handle e i touch_moves p = touchmove e i p
handle e i (presses x) p = mousedown e i x p
handle e i (moves a b) p = mousemove e i a b p
handle e i (releases a b) p = mouseup e i a b p
handle e i (wheels x a b) p = wheel e i x a b p
handle e i (touch_starts x) p = touchstart e i x p
handle e i (touch_ends s l w) p = touchend e i s l w p

-- A gesture on a chart, at a time
pub record Made : Type 0 where
  pub env : Env
  pub chart : ℕ
  pub gesture : Gesture

unfoldable pub handle_all : List Made → Drawn → Drawn
handle_all [] p = p
handle_all (x ∷ xs) p = handle_all xs (handle x.env x.chart x.gesture p)
