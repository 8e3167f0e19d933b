-- ===== src/Chart/Pan.antt =====
-- `updateChartPanOrZoom` (portal/dashboard.js). The times that it is given may be fractional: they
-- are in half-milliseconds, and are rounded here as the code does.
pub mod Bounds
pub mod Steady
use lmiced.Prelude.{
  ℕ, ◌+◌, ◌*◌, Bool, true, false, not, ◌&&◌, Option, none, some, leb, if◌then◌else◌,
}
use lmiced.Prelude.Int.{ℤ, pos, ◌+ℤ◌, ◌-ℤ◌, ltb_ℤ, scale, round_div, rem, abs}
use lmiced.Chart.{Mode, auto, pan, zoom, Forced, Range, Chart, Env, forced, set_forced}
use lmiced.Chart.Life.{set_mode}

-- What a call of `updateChartPanOrZoom` ends with: `rejected` leaves the range alone; `moved`
-- forces a range (in half-milliseconds) and returns whether it is the one that was asked for.
pub data Outcome : Type 0 where
  rejected : Outcome
  moved : (after before : ℤ) (exact : Bool) → Outcome

-- `fixed_min_duration`, computed once: `update_every` is that of the chart's description.
abbrev min_duration_of : ℕ → Chart → ℤ
min_duration_of update_every c = elim c.range.fixed_min_duration [
  | some d ↦ d
  | none ↦ round_div (pos (c.width * update_every * 1000)) 30
]

-- "align them to update_every, stretching them further away", from half-milliseconds
unfoldable pub align_after : ℕ → ℤ → ℤ
align_after every half_ms = let after = round_div half_ms 2 in after -ℤ rem after every

unfoldable pub align_before : ℕ → ℤ → ℤ
align_before every half_ms =
    let before = round_div half_ms 2 in before +ℤ (pos every -ℤ rem before every)

-- "to allow panning, accept just a point below our minimum"
unfoldable pub allowed_duration : ℕ → ℤ → ℤ → ℤ
allowed_duration every fixed current =
    if ltb_ℤ (current -ℤ pos every) fixed then current -ℤ pos every else fixed

-- `Math.abs(current - wanted) <= tolerance && movement <= tolerance`
too_close : ℕ → ℤ → ℤ → ℤ → ℤ → Bool
too_close every current wanted before view_before =
    leb (abs (current -ℤ wanted)) (every * 2) && leb (abs (before -ℤ view_before)) (every * 2)

-- The range that is decided on, from the aligned one (milliseconds) to half-milliseconds.
decide_range : ℕ → ℤ → ℤ → ℤ → ℤ → ℤ → Outcome
unfolding too_close
decide_range every fixed current view_before after before =
    let wanted = before -ℤ after in
    if ltb_ℤ wanted current && ltb_ℤ wanted (allowed_duration every fixed current)
    then moved (scale 2 after -ℤ (fixed -ℤ wanted)) (scale 2 before +ℤ (fixed -ℤ wanted)) false
    else if too_close every current wanted before view_before
    then rejected
    else moved (scale 2 after) (scale 2 before) true

-- `this.setMode('pan')` if the mode is `auto`; then the range is forced through `current`.
force_range : Env → ℤ → ℤ → Chart → Chart
force_range e after before c =
    let d : Chart = elim c.current [ auto ↦ set_mode e pan c | _ ↦ c ] in
    set_forced
      (record {
        force_update_at = e.now + e.pan_and_zoom_delay;
        force_before = some before;
        force_after = some after;
      })
      d

apply_outcome : Env → Outcome → Chart → Chart
unfolding force_range
apply_outcome e rejected c = c
apply_outcome e (moved after before exact) c = force_range e after before c

pan_range : Env → ℕ → ℤ → ℤ → Chart → Outcome
unfolding decide_range
pan_range e update_every after before c =
    decide_range c.range.data_update_every (min_duration_of update_every c)
      (c.range.view_before -ℤ c.range.view_after) c.range.view_before
      (align_after c.range.data_update_every after) (align_before c.range.data_update_every before)

-- The method, up to its last call, `NETDATA.globalPanAndZoom.setMaster(this, after, before)`, which
-- the caller makes on `moved`.
unfoldable pub update_chart_pan_or_zoom : Env → ℕ → ℤ → ℤ → Chart → Chart × Outcome
unfolding pan_range apply_outcome
update_chart_pan_or_zoom e update_every after before c =
    if ltb_ℤ before after
    then (c, rejected)
    else let outcome = pan_range e update_every after before c in
      (
        apply_outcome e outcome (record c {
          range = record (c.range) { fixed_min_duration = some (min_duration_of update_every c) };
        }),
        outcome,
      )
