-- ===== src/Old.antt =====
-- The refresh thread of the older dashboard (portal/old/index.js and portal/old/netdata.js): its timeouts
-- and requests, one of which carries the thread from one refresh to the next. Times are in milliseconds,
-- the data's periods in seconds.
pub mod Callback
pub mod Points
pub mod Thread
pub mod Runs
pub mod Views
mod Tests
use lmiced.Prelude.{
  ℕ, zero, suc, ◌+◌, ◌-◌, ◌*◌, Bool, true, false, not, ◌&&◌, ◌||◌, List, [], ◌∷◌, map, Option, none,
  some, length, get_elem?, modify, ltb, leb, nat_beq, is_some, if◌then◌else◌,
}

-- What the thread reads of a chart: `getSelection()[0]` is there, its `div` is in the visible area.
pub record OldChart : Type 0 where
  pub enabled : Bool
  pub disable_please : Bool
  pub selected : Bool
  pub in_view : Bool
  pub last_updated : ℕ
  pub group : ℕ
  pub update_every : ℕ
  pub drawn : Bool  -- `chart.chart` is not null.
  pub refresh_count : ℕ
  pub grouping : ℕ  -- The `group` that `calculateChartPointsToShow` gives it.

-- `canChartBeRefreshed(chart)`
unfoldable pub can_chart_be_refreshed : (now : ℕ) → OldChart → Bool
can_chart_be_refreshed now c =
    if not c.enabled
    then false
    else if c.drawn && c.selected
    then false
    else if ltb (now - c.last_updated) (c.group * c.update_every * 1000)
    then false
    else c.in_view

-- `.done(jsondata)` of `renderChart`: `got` if there are data, `made` if the library draws.
unfoldable pub render_done : (now : ℕ) → (got made : Bool) → OldChart → OldChart
render_done now got made c =
    if not got
    then c
    else let d =
        (if c.drawn && ltb 50 c.refresh_count
          then record c { drawn = false; refresh_count = 0 }
          else c) in
      if d.drawn || made
      then record d { drawn = true; refresh_count = d.refresh_count + 1; last_updated = now }
      else d

-- `.fail()` of `renderChart`
unfoldable pub render_fail : (now : ℕ) → OldChart → OldChart
render_fail now c = record c { drawn = false; refresh_count = 0; last_updated = now }

-- `mode`
pub data View : Type 0 where
  unset thumbs main group_thumbs : View

-- The functions that the thread goes on with
pub data Call : Type 0 where
  trigger_refresh render_chart_callback thumb_charts_refresh_next group_charts_refresh_next : Call
  main_chart_refresh hidden_chart_refresh : Call

-- A timeout with its delay, or the callback of a request
pub data Wait : Type 0 where
  timeout : Call → (ms : ℕ) → Wait
  request : Call → Wait

-- The variables of the page, with the timeouts and requests that are to call the thread
pub record OldPage : Type 0 where
  pub page_is_visible : Bool
  pub resize_request : Bool
  pub last_user_scroll : ℕ  -- 0 if the page was not scrolled
  pub paused : Bool  -- `refresh_mode == REFRESH_PAUSED`
  pub mode : View
  pub last_refresh : ℕ
  pub main_chart : Option OldChart
  pub hidden_updated : ℕ
  pub hidden_group : ℕ
  pub hidden_grouping : ℕ  -- The group that `calculateChartPointsToShow` gives the hidden chart.
  pub hidden_shown : Bool  -- `mainchart.dashboard` and the wrappers are there.
  pub hidden_count : ℕ
  pub all_charts : List OldChart
  pub group_charts : Option (List OldChart)
  pub last_thumb_updated : ℕ
  pub last_group_updated : ℕ
  pub refresh_loop : ℕ  -- `CHARTS_REFRESH_LOOP`
  pub scroll_idle : ℕ  -- `CHARTS_SCROLL_IDLE`
  pub pending : List Wait

abbrev pub wait : Wait → OldPage → OldPage
wait w p = record p { pending = w ∷ p.pending }

-- `CHARTS_REFRESH_IDLE`, `CHARTS_CHECK_NO_FOCUS`
abbrev pub refresh_idle : ℕ
refresh_idle = 500

abbrev pub check_no_focus : ℕ
check_no_focus = 500

unfoldable pub is_main : View → Bool
is_main main = true
is_main _ = false

unfoldable pub is_thumbs : View → Bool
is_thumbs thumbs = true
is_thumbs _ = false

unfoldable pub is_group : View → Bool
is_group group_thumbs = true
is_group _ = false

-- `triggerRefresh()`
unfoldable pub trigger : (now : ℕ) → OldPage → OldPage
unfolding is_main
trigger now p =
    if not p.page_is_visible || (p.paused && not (is_main p.mode))
    then wait (timeout trigger_refresh refresh_idle) (record p { last_refresh = now })
    else elim p.mode [
      | unset ↦ wait (timeout trigger_refresh refresh_idle) p
      | _ ↦ wait (timeout render_chart_callback refresh_idle) p
    ]

-- `renderChart(chart, doNext)`: whether it asks for the chart, and the page then
unfoldable pub render_chart : (now : ℕ) → Call → OldChart → OldPage → Bool × OldPage
render_chart now next c p =
    if can_chart_be_refreshed now c then (true, wait (request next) p) else (false, p)

-- `hiddenChartRefresh()`, with `refreshHiddenChart(triggerRefresh)`, which throws if there is no main chart. The
-- hidden chart is a copy of the main chart, with its `update_every`.
unfoldable pub refresh_hidden : (now : ℕ) → OldPage → OldPage
refresh_hidden now p = elim p.main_chart [
  | none ↦ p
  | some c ↦
      let dt = now - p.hidden_updated in
      if p.paused && not (nat_beq p.hidden_updated 0)
      then trigger now p
      else if ltb dt (c.update_every * 10 * 1000) || ltb dt (p.hidden_group * c.update_every * 1000)
      then trigger now p
      else let again = p.hidden_shown && ltb 50 p.hidden_count in
        wait (request trigger_refresh) (record p {
          hidden_updated = if again then 0 else p.hidden_updated;
          hidden_count = if again || not p.hidden_shown then 0 else p.hidden_count;
          hidden_shown = true;
          hidden_group = p.hidden_grouping;
        })
]

-- `mainChartRefresh()`
unfoldable pub refresh_main : (now : ℕ) → OldPage → OldPage
unfolding is_main
refresh_main now p = elim p.main_chart [
  | none ↦ trigger now p
  | some c ↦
      if not (is_main p.mode)
      then trigger now p
      else if p.paused && not (nat_beq c.last_updated 0)
      then refresh_hidden now p
      else let (asked, q) = render_chart now hidden_chart_refresh c p in
        if asked then q else refresh_hidden now p
]

-- What the loop of `roundRobinRenderChart` does at one chart
unfoldable pub render_enabled : (now : ℕ) → OldChart → OldPage → Bool × OldPage
render_enabled now c p =
    if c.enabled then render_chart now render_chart_callback c p else (false, p)

-- The loop of `roundRobinRenderChart`, for so many charts from the place `cur` on: the place where it stops, and
-- whether a chart is asked for.
unfoldable pub round_robin_from :
    (now rounds : ℕ) → List OldChart → (cur : ℕ) → OldPage → ℕ × Bool × OldPage
round_robin_from now zero charts cur p = (cur, false, p)
round_robin_from now (suc rounds) charts cur p =
    let place = (if leb (length charts) cur then 0 else cur) in
    elim (get_elem? charts place) [
      | none ↦ (place, false, p)
      | some c ↦
          let (asked, q) = render_enabled now c p in
          elim asked [
            | true ↦ (place, true, q)
            | false ↦ round_robin_from now rounds charts (place + 1) p
          ]
    ]

-- `roundRobinRenderChart(charts, startat)`
unfoldable pub round_robin : (now : ℕ) → List OldChart → (start_at : ℕ) → OldPage → ℕ × OldPage
round_robin now charts start_at p =
    let (cur, refreshed, q) = round_robin_from now (length charts) charts (start_at + 1) p in
    (cur, if refreshed then q else trigger now q)

-- `thumbChartsRefreshNext()`
unfoldable pub refresh_thumbs : (now : ℕ) → OldPage → OldPage
unfolding is_thumbs
refresh_thumbs now p =
    if nat_beq (length p.all_charts) 0 || not (is_thumbs p.mode)
    then trigger now p
    else let (cur, q) = round_robin now p.all_charts p.last_thumb_updated p in
      record q { last_thumb_updated = cur }

-- `groupChartsRefreshNext()`
unfoldable pub refresh_group : (now : ℕ) → OldPage → OldPage
unfolding is_group
refresh_group now p = elim p.group_charts [
  | none ↦ trigger now p
  | some charts ↦
      if nat_beq (length charts) 0 || not (is_group p.mode)
      then trigger now p
      else let (cur, q) = round_robin now charts p.last_group_updated p in
        record q { last_group_updated = cur }
]
