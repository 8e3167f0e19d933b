-- ===== src/Sync/Refresher.antt =====
-- One iteration of the parallel refresher (portal/dashboard.js, `NETDATA.chartRefresher`) with
-- `NETDATA.pause` and `NETDATA.unpause`. The timers that start the next one are left out.
pub mod Collected
use lmiced.Prelude.{
  ℕ, zero, suc, Bool, true, false, not, ◌&&◌, ◌||◌, List, [], ◌∷◌, ◌++◌, Option, none, some, length,
  get_elem?, set, if◌then◌else◌,
}
use lmiced.Chart.{Chart, Env}
use lmiced.Chart.Life.{is_visible}
use lmiced.Chart.Fetch.{show_error}
use lmiced.Sync.{Dashboard}
use lmiced.Sync.Requests.{auto_refresh_at}

-- What the loop over the targets does at a chart: go on, return because a library is initialised,
-- or add the chart to `parallel`.
pub data Visit : Type 0 where
  skip stop take : Visit

unfoldable pub visit : Env → ℕ → Dashboard → Visit × Dashboard
visit e k d = elim (get_elem? d.targets k) [
  | none ↦ (skip, d)
  | some c ↦
      let (shown, u) = is_visible false e c in
      let d' = record d { targets = set d.targets k u } in
      if not shown || u.running
      then (skip, d')
      else if u.library.initialized
      then (take, d')
      else if u.library.enabled
      then (stop, d')
      else (take, record d { targets = set d.targets k (show_error e u) })
]

-- `parallel.unshift(state)` when the page was scrolled up, `parallel.push(state)` otherwise
abbrev pub push : (scroll_up : Bool) → ℕ → List ℕ → List ℕ
push true k ks = k ∷ ks
push false k ks = ks ++ k ∷ []

-- `while(len--)`: the charts to refresh, `none` if the loop returns for a library.
unfoldable pub collect :
    Env → (scroll_up : Bool) → ℕ → Dashboard → List ℕ → Option (List ℕ) × Dashboard
collect e up zero d parallel = (some parallel, d)
collect e up (suc k) d parallel =
    let (v, d') = visit e k d in
    elim v [
      | skip ↦ collect e up k d' parallel
      | stop ↦ (none, d')
      | take ↦ collect e up k d' (push up k parallel)
    ]

-- `$(parallel).each(function() { this.autoRefresh(); })`
refresh_each : Env → List ℕ → Dashboard → Dashboard
refresh_each e [] d = d
refresh_each e (k ∷ ks) d = refresh_each e ks (auto_refresh_at e k d)

-- The loop over the targets and the refreshes that follow.
pub refresh_parallel : Env → (scroll_up : Bool) → Dashboard → Dashboard
unfolding collect refresh_each
refresh_parallel e up d =
    let (parallel, d') = collect e up (length d.targets) d [] in
    elim parallel [ none ↦ d' | some ks ↦ refresh_each e ks d' ]

-- `NETDATA.options.pause`, whether `pauseCallback` is a function, and `updated_dom`
pub record Loop : Type 0 where
  pub pause : Bool
  pub pause_callback : Bool
  pub updated_dom : Bool

-- How an iteration goes on: it waits, calls the page's callback and starts again, or leaves the rest to
-- `chartRefresherNoParallel(0)` or `parseDom(NETDATA.chartRefresher)`, or has refreshed in parallel.
pub data Turn : Type 0 where
  waits calls_back sequential parses_dom parallel : Turn

pub refresh_turn : Env → Loop → Loop × Turn
refresh_turn e l =
    if l.pause
    then (l, waits)
    else if l.pause_callback
    then (record l { pause = true }, calls_back)
    else if not e.parallel_refresher
    then (l, sequential)
    else if l.updated_dom
    then (l, parses_dom)
    else (l, parallel)

-- `NETDATA.chartRefresher()`; the page's own callback is not run.
unfoldable pub chart_refresher :
    Env → (scroll_up : Bool) → Loop × Dashboard → Loop × Dashboard × Turn
unfolding refresh_turn refresh_parallel
chart_refresher e up (l, d) =
    let (m, t) = refresh_turn e l in (m, elim t [ parallel ↦ refresh_parallel e up d | _ ↦ d ], t)

-- `NETDATA.unpause()`
unfoldable pub unpause : Loop → Loop
unpause l = record { pause = false; pause_callback = false; updated_dom = true }

-- `NETDATA.pause(callback)`, and whether the callback is called at once
unfoldable pub request_pause : Loop → Loop × Bool
request_pause l = if l.pause then (l, true) else (record l { pause_callback = true }, false)
