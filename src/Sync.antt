-- ===== src/Sync.antt =====
-- The charts of a page and what they share (portal/dashboard.js): `NETDATA.options.targets`,
-- `NETDATA.globalPanAndZoom`, `NETDATA.globalSelectionSync` and `NETDATA.statistics`. A chart is named
-- by its place in `targets`, which stands for the reference to it.
pub mod Ledger
pub mod Selection
pub mod Master
pub mod Elements
pub mod Requests
pub mod Refresher
pub mod Round
pub mod Dygraph
pub mod Tests
use lmiced.Prelude.{Bool, false, ℕ, List, [], ◌∷◌, Option, none, some, get_elem?, set}
use lmiced.Prelude.Int.{ℤ}
use lmiced.Chart.{Chart, Env}
use lmiced.Chart.Window.{PanAndZoom}
use lmiced.Chart.Fetch.{
  Statistics, Started, called_back, asked_chart, asked_library, asked_data, update_chart,
  count_request,
}

-- `NETDATA.globalSelectionSync`: `state` is the chart under the mouse, `none` for `null`.
pub record SelectionSync : Type 0 where
  pub state : Option ℕ
  pub dont_sync_before : ℕ
  pub last_t : ℤ
  pub slaves : List ℕ

-- A request for a chart's data; `refreshing` if its callback is the one that `autoRefresh` gives.
pub record Request : Type 0 where
  pub chart : ℕ
  pub refreshing : Bool

pub record Dashboard : Type 0 where
  pub targets : List Chart
  pub pan : PanAndZoom
  pub selection : SelectionSync
  pub statistics : Statistics
  pub stop_until : ℕ  -- `auto_refresher_stop_until`
  pub requests : List Request  -- the requests that are under way, the latest first

-- What `updateChart` adds to the page when it asks for data.
abbrev pub note_request : ℕ → Bool → Started → Dashboard → Dashboard
note_request i b (asked_data q) d = record d {
  statistics = count_request d.statistics;
  requests = record { chart = i; refreshing = b } ∷ d.requests;
}
note_request i b _ d = d

-- `state.updateChart()` for the chart `i`
unfoldable pub update_at : Env → ℕ → Dashboard → Dashboard
update_at e i d = elim (get_elem? d.targets i) [
  | none ↦ d
  | some c ↦
      let (u, s) = update_chart e d.pan i c in
      note_request i false s (record d { targets = set d.targets i u })
]
