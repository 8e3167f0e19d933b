-- ===== src/Chart/Tests.antt =====
-- The methods of a chart (portal/dashboard.js) at the sample charts.
use lmiced.Chart.Life.{init, resize_chart, can_be_rendered}
use lmiced.Chart.Window.{calculate_row_for_time}
use lmiced.Prelude.Int.{floor_div}
use lmiced.Prelude.{
  ◌≡◌, refl, Bool, true, false, none, some, [], ◌∷◌, ◌+◌, ◌*◌, ◌/◌, ◌<◌, ◌≤◌, arith, ◌↔◌,
}
use lmiced.Prelude.Int.{pos, ◌≤ℤ◌, ◌-ℤ◌, ◌+ℤ◌, round_div, rem, abs}
use lmiced.Chart.{pan, Chart, Env}
use lmiced.Chart.Life.{on_screen, is_visible, is_visible_with}
use lmiced.Chart.Life.Depth.{is_visible_depth}
use lmiced.Chart.Life.Visible.{Agrees, is_visible-on_screen}
use lmiced.Chart.Window.{is_active, is_master, should_be_auto_refreshed, chart_url}
use lmiced.Chart.Window.Url.{Mirrors, chart_url-Mirrors}
use lmiced.Chart.Pan.{update_chart_pan_or_zoom, moved, align_after, align_before, allowed_duration}
use lmiced.Chart.Pan.Bounds.{IsFitting, IsWide, Leaves, Keeps, pan-IsFitting, pan-Leaves}
use lmiced.Chart.Fetch.{fail, store_reply, stamp_update}
use lmiced.Chart.Fetch.Retries.{fails, fails_give_up}
use lmiced.Chart.Fetch.View.{store_reply-view, stamp_update-aligned}
use lmiced.Chart.Refresh.{can_be_auto_refreshed}
use lmiced.Chart.Refresh.Conditions.{MayRefresh, can_be_auto_refreshed_iff}
use lmiced.Chart.Sample.{page, chart, below, no_pan, panned, reply}

is_visible_test : (is_visible false page chart).0 ≡ true
unfolding is_visible ◌+ℤ◌
is_visible_test = refl

abbrev always_seen : Bool → Env → Chart → Bool × Chart
always_seen nocache e c = (true, c)

is_visible_depth_example :
    (is_visible_with (is_visible_with always_seen) true page below
      ≡ is_visible_with (is_visible_with is_visible) true page below)
    × (is_visible true page below ≡ is_visible_with is_visible true page below)
is_visible_depth_example = is_visible_depth always_seen is_visible true page below

is_visible-on_screen_example :
    ((is_visible true page below).0 ≡ on_screen page below)
    × Agrees (on_screen page below) (is_visible true page below).1
is_visible-on_screen_example = is_visible-on_screen page below

can_be_auto_refreshed_iff_example : ((can_be_auto_refreshed page no_pan 0 chart).0 ≡ true) ↔ (
    (false ≡ false)
    × (true ≡ true)
    × (true ≡ true)
    × ((is_visible false page chart).0 ≡ true)
    × MayRefresh page no_pan 0 (is_visible false page chart).1)
can_be_auto_refreshed_iff_example = can_be_auto_refreshed_iff page no_pan 0 chart

can_be_auto_refreshed_test : (can_be_auto_refreshed page no_pan 0 chart).0 ≡ true
unfolding can_be_auto_refreshed is_visible ◌+ℤ◌ is_active
can_be_auto_refreshed_test = refl

-- 200.1 s to 300.3 s
pan-IsFitting_example :
    IsFitting 1000
      (pos 30000)
      (pos 400200)
      (pos 600600)
      (update_chart_pan_or_zoom page 1 (pos 400200) (pos 600600) chart).1
    × IsWide
        (pos 600000)
        (allowed_duration 1000 (pos 30000) (pos 600000))
        (update_chart_pan_or_zoom page 1 (pos 400200) (pos 600600) chart).1
unfolding round_div ◌-ℤ◌ ◌+ℤ◌
pan-IsFitting_example =
    pan-IsFitting page 1 (pos 400200) (pos 600600) chart (omega arith) (omega arith) (omega arith)

pan_test :
    (update_chart_pan_or_zoom page 1 (pos 400200) (pos 600600) chart).1
    ≡ moved (pos 400000) (pos 602000) true
unfolding update_chart_pan_or_zoom ◌+ℤ◌ ◌-ℤ◌ align_before align_after allowed_duration round_div rem
    abs
pan_test = refl

pan-Leaves_example :
    Leaves page chart (update_chart_pan_or_zoom page 1 (pos 400200) (pos 600600) chart)
    × Keeps chart (update_chart_pan_or_zoom page 1 (pos 400200) (pos 600600) chart).0
pan-Leaves_example = pan-Leaves page 1 (pos 400200) (pos 600600) chart

chart_url-Mirrors_example :
    Mirrors panned (pos 600400) (pos 801400) chart (chart_url page panned 1 chart)
    × (should_be_auto_refreshed panned (chart_url page panned 1 chart).0 ≡ false)
unfolding is_active is_master
chart_url-Mirrors_example = chart_url-Mirrors page panned 1 chart refl refl refl refl

-- The master of `panned`, which asks for its own range.
abbrev moving : Chart
moving = record chart {
  current = pan;
  pan_mode = record {
    force_update_at = 0;
    force_before = some (pos 801400);
    force_after = some (pos 600400);
  };
}

fails_give_up_example :
    let d = fails page (1000 ∷ 2000 ∷ []) chart in
    let g = fail (record page { now = 3000 }) false d in
    (d.enabled ≡ true)
    × (d.retries_on_data_failures ≡ 2)
    × (g.enabled ≡ false)
    × (g.retries_on_data_failures ≡ 0)
fails_give_up_example = fails_give_up page (1000 ∷ 2000 ∷ []) 3000 chart refl refl refl refl

-- A reply of the chart `chart`
shows_within_data :
    let d = store_reply page reply chart in
    (d.range.data_after ≤ℤ d.range.view_after)
    × (d.range.view_before ≤ℤ d.range.data_before)
    × (chart.range.requested_padding ≡ none
        → (d.range.view_after ≡ d.range.data_after) × (d.range.view_before ≡ d.range.data_before))
shows_within_data = store_reply-view page reply chart

-- Two refreshes within the second 700.
stamp_update-aligned_example :
    let last = (stamp_update page no_pan chart).tm.last_autorefreshed in
    let last' = (stamp_update (record page { now = 700900 }) no_pan below).tm.last_autorefreshed in
    (last ≤ 700250) × (700250 < last + 1000) × (last ≡ 1000 * (700250 / 1000)) × (last' ≡ last)
unfolding is_active
stamp_update-aligned_example =
    stamp_update-aligned page (record page { now = 700900 }) no_pan chart below refl refl refl
      (omega arith) refl refl

-- A chart on the screen gets its DOM at once.
init_test : (init false false page chart).dom_created ≡ true
unfolding init is_visible ◌+ℤ◌
init_test = refl

can_be_rendered_test : (can_be_rendered page below).0 ≡ false
unfolding can_be_rendered is_visible ◌+ℤ◌
can_be_rendered_test = refl

-- The chart was resized after the last resize of the page.
resize_chart_test : (resize_chart page chart).tm.last_resized ≡ 4
unfolding resize_chart is_visible ◌+ℤ◌
resize_chart_test = refl

calculate_row_for_time_test : calculate_row_for_time (pos 250500) chart ≡ some (pos 150)
unfolding calculate_row_for_time ◌-ℤ◌ ◌+ℤ◌ floor_div
calculate_row_for_time_test = refl
