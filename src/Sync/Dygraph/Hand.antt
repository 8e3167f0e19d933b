-- ===== src/Sync/Dygraph/Hand.antt =====
-- What the gestures of the user mean to the chart under the hand (portal/dashboard.js, `dygraphChartCreate` and
-- `dygraphToolboxPanAndZoom`), apart from how the handlers bring it about.
use lmiced.Prelude.{
  ℕ, ◌+◌, ◌≡◌, Bool, true, false, not, ◌&&◌, ◌||◌, List, [], ◌∷◌, some, nat_beq, get_elem?,
  if◌then◌else◌,
}
use lmiced.Chart.{Mode, auto, pan, zoom, Chart, Env}
use lmiced.Sync.Dygraph.{
  Drawn, Pressed, Made, Gesture, toolbox, draws, zooms, highlights, unhighlights, double_clicks,
  touch_moves, presses, moves, releases, wheels, touch_starts, touch_ends,
}

-- The mode of the chart and its pause, what the next drawing is to do, and until when no selection follows
pub record Hand : Type 0 where
  pub mode : Mode
  pub paused : Bool
  pub user_action : Bool
  pub force_zoom : Bool
  pub quiet_until : ℕ

-- The chart `i` of the page is as the hand says.
pub record IsHand (i : ℕ) (h : Hand) (p : Drawn) : Type 0 where
  pub chart : Chart
  pub there : get_elem? p.dashboard.targets i ≡ some chart
  pub mode : chart.current ≡ h.mode
  pub paused : chart.paused ≡ h.paused
  pub user_action : p.touch.user_action ≡ h.user_action
  pub force_zoom : p.touch.force_zoom ≡ h.force_zoom
  pub quiet : p.dashboard.selection.dont_sync_before ≡ h.quiet_until

-- No selection follows for a while.
unfoldable pub hush : Env → Hand → Hand
hush e h = record h {
  quiet_until = if e.sync_selection then e.now + e.sync_selection_delay else h.quiet_until;
}

-- The user pans or zooms: the next drawing is the user's.
unfoldable pub quiets : Env → Hand → Hand
unfolding hush
quiets e h = hush e (record h { user_action = true })

-- The left button pans; the middle button and the modifiers each swap pan and zoom.
unfoldable pub drag_mode : Pressed → Mode
drag_mode x =
    let swapped = (if x.alt_or_shift then not (nat_beq x.button 1) else nat_beq x.button 1) in
    if swapped then zoom else pan

unfoldable pub follows_time : Mode → Bool
follows_time auto = true
follows_time _ = false

unfoldable pub follow : Env → Gesture → Hand → Hand
follow e (toolbox a b) h = quiets e (record h { mode = zoom; force_zoom = true })
follow e (draws a b) h = record h { user_action = h.user_action && follows_time h.mode }
follow e (zooms a b) h = quiets e (record h { mode = zoom; force_zoom = true })
follow e (highlights x) h = record h { paused = true }
follow e unhighlights h = record h { paused = false }
follow e double_clicks h = h
follow e touch_moves h = record h { user_action = true }
follow e (presses x) h =
    if nat_beq x.button 2
    then record h { user_action = true }
    else quiets e (record h { mode = drag_mode x })
follow e (moves is_panning is_zooming) h =
    if is_panning || is_zooming
    then quiets e (record h { mode = if is_panning then pan else zoom })
    else h
follow e (releases is_panning is_zooming) h = if is_panning || is_zooming then quiets e h else h
follow e (wheels x a b) h = if x.alt_or_shift then quiets e (record h { mode = zoom }) else h
follow e (touch_starts x) h = record h { mode = zoom; paused = true; user_action = true }
follow e (touch_ends s l w) h = h

-- The gestures that may reset the charts
unfoldable pub may_reset : Gesture → Bool
may_reset double_clicks = true
may_reset (touch_ends s l w) = true
may_reset _ = false

unfoldable pub follow_all : List Made → Hand → Hand
follow_all [] h = h
follow_all (x ∷ xs) h = follow_all xs (follow x.env x.gesture h)
