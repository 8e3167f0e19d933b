-- ===== src/Chart/Fetch.antt =====
-- The refreshes of a chart (portal/dashboard.js): `error`, `clearSelection`, `setSelection`,
-- `updateChart` up to its request, the handlers of the request's end, and `updateChartWithData`.
pub mod Retries
pub mod View
use lmiced.Prelude.{
  ℕ, suc, ◌+◌, ◌-◌, ◌*◌, ◌%◌, Bool, true, false, not, ◌&&◌, ◌||◌, Option, none, some, ltb, leb,
  nat_beq, is_some, max, if◌then◌else◌,
}
use lmiced.Prelude.Int.{ℤ, pos, ltb_ℤ, scale, round_div, pos_part}
use lmiced.Chart.{Mode, auto, pan, zoom, Tm, Range, Library, Chart, Env}
use lmiced.Chart.Life.{create_dom, init, resize_chart, can_be_rendered}
use lmiced.Chart.Window.{PanAndZoom, Query, is_active, chart_url}

-- the private `error(msg)`: `current` is pointed to `pan`, whose fields stay as they are
unfoldable pub show_error : Env → Chart → Chart
show_error e c = if e.error_shown then record c { enabled = false; current = pan } else c

-- `clearSelection()`, which answers `selected`
unfoldable pub clear_selection : Chart → Chart
clear_selection c =
    if c.selected
    then record c { selected = elim c.library.clear_selection [ none ↦ false | some b ↦ not b ] }
    else c

unfoldable pub set_selection : ℤ → Chart → Chart
set_selection t c = record c {
  selected = elim c.library.set_selection [ none ↦ true | some f ↦ f t ];
}

-- `NETDATA.statistics`
pub record Statistics : Type 0 where
  pub refreshes_total : ℕ
  pub refreshes_active : ℕ
  pub refreshes_active_max : ℕ

unfoldable pub count_request : Statistics → Statistics
count_request s =
    let active = s.refreshes_active + 1 in
    record {
      refreshes_total = s.refreshes_total + 1;
      refreshes_active = active;
      refreshes_active_max =
          if ltb s.refreshes_active_max active then active else s.refreshes_active_max;
    }

unfoldable pub count_end : Statistics → Statistics
count_end s = record s { refreshes_active = s.refreshes_active - 1 }

-- How a call of `updateChart` ends: it calls back at once, it waits for the chart's description or
-- for its library and is then called again, or it has asked for data.
pub data Started : Type 0 where
  called_back asked_chart asked_library : Started
  asked_data : Query → Started

-- "the chart can be rendered": from `if(that.dom_created !== true)` on
start_rendered : Env → PanAndZoom → ℕ → Chart → Chart × Started
start_rendered e p i c =
    let d = (if c.dom_created then c else create_dom e c) in
    if not (is_some d.chart_update_every)
    then (d, asked_chart)
    else if not d.library.initialized
    then if d.library.enabled then (d, asked_library) else (show_error e d, called_back)
    else let (u, q) = chart_url e p i (clear_selection d) in
      (record u { fetching_data = true }, asked_data q)

unfoldable pub update_chart : Env → PanAndZoom → ℕ → Chart → Chart × Started
unfolding start_rendered
update_chart e p i c =
    if c.fetching_data || not c.enabled
    then (c, called_back)
    else let (shown, d) = can_be_rendered e c in
      if shown then start_rendered e p i d else (d, called_back)

-- `__defaultsFromDownloadedChart(chart)` for a description with this `update_every` (seconds)
unfoldable pub describe : Env → ℕ → ℕ → Chart → Chart
describe e update_every pixels_per_point c = record c {
  chart_update_every = some update_every;
  range = record (c.range) {
    data_update_every = update_every * 1000;
    data_points = pos_part (round_div (pos c.width) pixels_per_point);
  };
  tm = record (c.tm) { last_info_downloaded = e.now };
}

-- `.fail(msg)`; `aborted` is `msg.statusText === 'abort'`
unfoldable pub fail : Env → Bool → Chart → Chart
unfolding show_error
fail e aborted c =
    if aborted
    then c
    else let n = c.retries_on_data_failures + 1 in
      if ltb e.retries_limit n
      then show_error e (record c { retries_on_data_failures = 0 })
      else record c {
        retries_on_data_failures = n;
        tm = record (c.tm) { last_autorefreshed = e.now };
      }

-- `.always()`, before its callback
unfoldable pub always : Chart → Chart
always c = record c { fetching_data = false }

-- What the server sent, times in seconds.
pub record Reply : Type 0 where
  pub view_update_every : ℕ
  pub after : ℤ
  pub before : ℤ
  pub first_entry : ℤ
  pub last_entry : ℤ
  pub points : ℕ

abbrev from_reply : Reply → Range → Range
from_reply r g = record g {
  data_update_every = r.view_update_every * 1000;
  data_after = scale 1000 r.after;
  data_before = scale 1000 r.before;
  netdata_first = scale 1000 r.first_entry;
  netdata_last = scale 1000 r.last_entry;
  data_points = r.points;
}

-- The range that is shown is cut to the data, or is that of the data.
adjust_view : Env → Range → Range
adjust_view e g =
    if e.pan_and_zoom_data_padding && is_some g.requested_padding
    then record g {
      view_after = if ltb_ℤ g.view_after g.data_after then g.data_after else g.view_after;
      view_before = if ltb_ℤ g.data_before g.view_before then g.data_before else g.view_before;
    }
    else record g { view_after = g.data_after; view_before = g.data_before }

-- The first lines of `updateChartWithData`, up to the data's range.
pub store_reply : Env → Reply → Chart → Chart
unfolding adjust_view
store_reply e r c = record c {
  has_data = true;
  updates_counter = c.updates_counter + 1;
  updates_since_last_unhide = c.updates_since_last_unhide + 1;
  updates_since_last_creation = c.updates_since_last_creation + 1;
  range = adjust_view e (from_reply r c.range);
}

-- `callChartLibraryUpdateSafely` and `callChartLibraryCreateSafely`; `drawn` is what the library
-- answers, false if it throws.
draw : Env → Bool → Chart → Bool × Chart
draw e drawn c =
    let update = c.chart_created && c.library.has_update in
    let (shown, d) = can_be_rendered e c in
    if not shown
    then (false, d)
    else if not drawn
    then (false, show_error e d)
    else if update
    then (true, d)
    else (true, record d { chart_created = true; updates_since_last_creation = 0 })

-- The last lines: the times of the refresh.
pub stamp_update : Env → PanAndZoom → Chart → Chart
stamp_update e p c = record c {
  tm = record (c.tm) {
    last_updated = e.now;
    last_autorefreshed =
        if is_active p
        then 0
        else if e.parallel_refresher && e.concurrent_refreshes
        then e.now - e.now % c.range.data_update_every
        else e.now;
  };
}

-- `updateChartWithData(data)`, with whether it calls `NETDATA.globalSelectionSync.stop()`.
unfoldable pub update_chart_with_data : Env → PanAndZoom → Reply → Bool → Chart → Chart × Bool
unfolding store_reply draw stamp_update
update_chart_with_data e p r drawn c =
    let d = store_reply e r (resize_chart e c) in
    if nat_beq r.points 0
    then (record d { tm = record (d.tm) { last_autorefreshed = e.now } }, false)
    else if leb d.library.max_updates_to_recreate d.updates_since_last_creation
    then (init true false e d, false)
    else let (done, u) = draw e drawn d in
      if done then (stamp_update e p u, u.selected) else (u, false)

-- `.done(data)`
unfoldable pub done : Env → PanAndZoom → Reply → Bool → Chart → Chart × Bool
unfolding update_chart_with_data
done e p r drawn c = update_chart_with_data e p r drawn (record c { retries_on_data_failures = 0 })
