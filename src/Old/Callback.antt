-- ===== src/Old/Callback.antt =====
-- `renderChartCallback` of the older dashboard (portal/old/index.js), which takes the thread from one chart to
-- the next, and what starts it: `playGraphs` and `checkRefreshThread`.
use lmiced.Prelude.{
  ℕ, suc, ◌-◌, Bool, true, false, not, ◌&&◌, List, [], ◌∷◌, map, none, some, ltb, leb, nat_beq,
  is_some, get_elem?, modify, if◌then◌else◌,
}
use mathlib.Core.Option
use lmiced.Old.{
  OldChart, View, unset, thumbs, main, group_thumbs, is_main, Call, trigger_refresh,
  render_chart_callback, thumb_charts_refresh_next, group_charts_refresh_next, main_chart_refresh,
  hidden_chart_refresh, timeout, OldPage, wait, refresh_idle, check_no_focus, trigger,
  refresh_hidden, refresh_main, refresh_thumbs, refresh_group,
}

-- `cleanupCharts()` at one chart: it goes if it is to be disabled.
unfoldable pub cleanup_chart : OldChart → OldChart
cleanup_chart c =
    if c.disable_please && c.enabled
    then record c { drawn = false; disable_please = false; enabled = false }
    else c

unfoldable pub is_group_thumbs : View → Bool
is_group_thumbs group_thumbs = true
is_group_thumbs _ = false

-- `cleanupCharts()`, with `clearGroupGraphs()`, which leaves no group
unfoldable pub cleanup_charts : OldPage → OldPage
unfolding is_group_thumbs
cleanup_charts p = record p {
  main_chart = if is_main p.mode then p.main_chart else none;
  all_charts = map cleanup_chart p.all_charts;
  group_charts =
      if is_group_thumbs p.mode then Option.map (map cleanup_chart) p.group_charts else none;
}

-- `resizeCharts()` at a chart of the thumbs or of the group: it is cleaned, and to be drawn anew.
unfoldable pub resize_chart : OldChart → OldChart
resize_chart c =
    if c.enabled then record c { drawn = false; group = c.grouping; last_updated = 0 } else c

-- `resizeCharts()` throws at `mainchart.hidden_wrapper.setOption`.
unfoldable pub resize_throws : OldPage → Bool
resize_throws p = is_some p.main_chart && not p.hidden_shown

-- `resizeCharts()` at the main chart
unfoldable pub expire : OldChart → OldChart
expire c = record c { last_updated = 0 }

-- `resizeCharts()`, up to the exception if it throws, without the sizes
unfoldable pub resize_charts : OldPage → OldPage
resize_charts p =
    let q = record p { main_chart = Option.map expire p.main_chart } in
    if resize_throws p then q else record q {
      hidden_updated = if is_some p.main_chart then 0 else p.hidden_updated;
      all_charts = map resize_chart p.all_charts;
      group_charts = Option.map (map resize_chart) p.group_charts;
    }

-- The timeouts at the end of `renderChartCallback`
unfoldable pub callback_loop : OldPage → OldPage
callback_loop p = elim p.mode [
  | thumbs ↦ wait (timeout thumb_charts_refresh_next p.refresh_loop) p
  | group_thumbs ↦ wait (timeout group_charts_refresh_next p.refresh_loop) p
  | main ↦ wait (timeout main_chart_refresh p.refresh_loop) p
  | unset ↦ wait (timeout trigger_refresh refresh_idle) p
]

-- Its tests of a pause: `mainchart.last_updated` throws if there is no main chart.
unfoldable pub callback_resumed : (now : ℕ) → OldPage → OldPage
callback_resumed now p =
    if not p.paused
    then callback_loop p
    else if not (is_main p.mode)
    then wait (timeout trigger_refresh refresh_idle) p
    else elim p.main_chart [
      | none ↦ p
      | some c ↦ if nat_beq c.last_updated 0 then refresh_main now p else callback_loop p
    ]

-- Its test of the scrolling; the clock does not go back before `last_user_scroll`.
unfoldable pub callback_scrolled : (now : ℕ) → OldPage → OldPage
callback_scrolled now p =
    if nat_beq p.last_user_scroll 0
    then callback_resumed now p
    else if leb p.scroll_idle (now - p.last_user_scroll)
    then callback_resumed now (record p { last_user_scroll = 0 })
    else wait (timeout trigger_refresh (p.scroll_idle - (now - p.last_user_scroll))) p

-- The charts after a resize request that did not throw
unfoldable pub resized : OldPage → OldPage
resized p = record (resize_charts (cleanup_charts p)) { resize_request = false }

-- Its resize request
unfoldable pub callback_resize : (now : ℕ) → OldPage → OldPage
callback_resize now p =
    if resize_throws (cleanup_charts p)
    then resize_charts (cleanup_charts p)
    else callback_scrolled now (resized p)

-- `renderChartCallback()`. An exception ends it, with no timeout or request made.
unfoldable pub callback : (now : ℕ) → OldPage → OldPage
callback now p =
    let q = record p { last_refresh = now } in
    if not p.page_is_visible
    then wait (timeout trigger_refresh check_no_focus) q
    else if p.resize_request
    then callback_resize now q
    else callback_scrolled now q

-- The last refresh is more than a minute ago.
unfoldable pub is_silent : (now : ℕ) → OldPage → Bool
is_silent now p = ltb 60000 (now - p.last_refresh)

-- `playGraphs()`
unfoldable pub play_graphs : (now : ℕ) → OldPage → OldPage
play_graphs now p =
    if not p.paused
    then p
    else if is_silent now p
    then callback now (record p { paused = false })
    else record p { paused = false }

-- `pauseGraphs()`
unfoldable pub pause_graphs : OldPage → OldPage
pause_graphs p = record p { paused = true }

-- `checkRefreshThread()`, from its second call on
unfoldable pub check_refresh_thread : (now : ℕ) → OldPage → OldPage
check_refresh_thread now p = if is_silent now p then callback now p else p

-- What the timeout or the request calls
unfoldable pub resume : (now : ℕ) → Call → OldPage → OldPage
resume now trigger_refresh p = trigger now p
resume now render_chart_callback p = callback now p
resume now thumb_charts_refresh_next p = refresh_thumbs now p
resume now group_charts_refresh_next p = refresh_group now p
resume now main_chart_refresh p = refresh_main now p
resume now hidden_chart_refresh p = refresh_hidden now p

abbrev pub mark : OldChart → OldChart
mark c = record c { disable_please = true }

unfoldable pub count_enabled : List OldChart → ℕ
count_enabled [] = 0
count_enabled (c ∷ cs) = let n = count_enabled cs in if c.enabled then suc n else n

-- The charts that `disableChart` counts, and where it looks for its chart
unfoldable pub shown_charts : OldPage → List OldChart
shown_charts p = elim p.mode [
  | group_thumbs ↦ elim p.group_charts [ none ↦ [] | some charts ↦ charts ]
  | thumbs ↦ p.all_charts
  | _ ↦ []
]

-- `chart.disablethisplease = true` at the place `i` of the charts shown
unfoldable pub mark_chart : (i : ℕ) → OldPage → OldPage
mark_chart i p = elim p.mode [
  | group_thumbs ↦ record p {
    group_charts = Option.map (modify mark i) p.group_charts;
    resize_request = true;
  }
  | _ ↦ record p { all_charts = modify mark i p.all_charts; resize_request = true }
]

-- `disableChart(i)`: the last chart that is enabled stays.
unfoldable pub disable_chart : (i : ℕ) → OldPage → OldPage
disable_chart i p = elim (get_elem? (shown_charts p) i) [
  | none ↦ p
  | some c ↦ if leb (count_enabled (shown_charts p)) 1 then p else mark_chart i p
]
