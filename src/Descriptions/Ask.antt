-- ===== src/Descriptions/Ask.antt =====
-- `getChart` of a chart (portal/dashboard.js): the description is taken from `chartRegistry`, or
-- downloaded and added to it.
pub mod Again
mod Tests
use lmiced.Prelude.{ℕ, Bool, true, false, List, [], ◌∷◌, Option, none, some}
use lmiced.Chart.{Chart, Env}
use lmiced.Chart.Window.{PanAndZoom}
use lmiced.Chart.Fetch.{Started, update_chart, show_error, describe}
use lmiced.Descriptions.{Text, Charts, add, get}

-- What the charts read of a description: `chart.update_every`, in seconds.
pub record Description : Type 0 where
  pub update_every : ℕ

-- `__defaultsFromDownloadedChart(chart)`, with the library's `pixels_per_point`
abbrev pub take_description : Env → Description → Chart → Chart
take_description e x c = describe e x.update_every c.library.pixels_per_point c

-- `getChart(callback)`, and whether the callback is called at once; otherwise it is called after the
-- download. `host` and `id` are the chart's.
unfoldable pub get_chart : Env → Text → Text → Charts Description → Chart → Chart × Bool
get_chart e host id charts c = elim (get host id charts) [
  | some x ↦ (take_description e x c, true)
  | none ↦ (record c { chart_update_every = none }, false)
]

-- `.done(chart)`
unfoldable pub get_chart_done :
    Env → Text → Text → Description → Charts Description × Chart → Charts Description × Chart
get_chart_done e host id x (charts, c) = (add host id x charts, take_description e x c)

-- `.fail()`; `NETDATA.error` only reports.
unfoldable pub get_chart_fail : Env → Chart → Chart
get_chart_fail e c = show_error e c

-- `.fail()` with the callback of `.always()`, which is `updateChart` of the chart `i`
unfoldable pub ask_again : Env → PanAndZoom → ℕ → Chart → Chart × Started
ask_again e p i c = update_chart e p i (get_chart_fail e c)

-- Downloads that fail one after the other, each at its time: what each callback ends with, and the chart
unfoldable pub ask_all : PanAndZoom → ℕ → List Env → Chart → List Started × Chart
ask_all p i [] c = ([], c)
ask_all p i (e ∷ es) c =
    let (d, started) = ask_again e p i c in let (more, f) = ask_all p i es d in (started ∷ more, f)
