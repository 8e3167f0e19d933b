-- ===== src/Sync/Elements.antt =====
-- `NETDATA.parseDom` and `NETDATA.chartState` (portal/dashboard.js): the charts of the elements of
-- the page. A chart is named by its place in the list of all charts that were ever made.
pub mod Parsed
mod Tests
use lmiced.Prelude.{ℕ, Bool, true, false, List, [], ◌∷◌, ◌++◌, Option, none, some, length}
use lmiced.Chart.{Chart, Env}
use lmiced.Chart.Life.{init}

-- A `div[data-netdata]`: its data `netdata-state-object`, and the state that `new chartState(element)`
-- has before its first `init`, from the attributes.
pub record Element : Type 0 where
  pub object : Option ℕ
  pub attributes : Chart

pub record Elements : Type 0 where
  pub charts : List Chart
  pub elements : List Element
  pub targets : List ℕ
  pub updated_dom : Bool
  pub last_page_scroll : ℕ

-- `NETDATA.chartState(element)`
unfoldable pub chart_state : Env → Element → List Chart → ℕ × Element × List Chart
chart_state e x charts = elim x.object [
  | some i ↦ (i, x, charts)
  | none ↦
      let i = length charts in
      (i, record x { object = some i }, charts ++ init false true e x.attributes ∷ [])
]

-- `while(len--)`, from the last element to the first: the references that are pushed, the elements and
-- the charts.
unfoldable pub chart_states : Env → List Element → List Chart → List ℕ × List Element × List Chart
chart_states e [] charts = ([], [], charts)
chart_states e (x ∷ xs) charts =
    let (ks, ys, later) = chart_states e xs charts in
    let (k, y, all) = chart_state e x later in (ks ++ k ∷ [], y ∷ ys, all)

-- `NETDATA.parseDom(callback)`, before its callback
unfoldable pub parse_dom : Env → Elements → Elements
unfolding chart_states
parse_dom e p =
    let (ks, ys, charts) = chart_states e p.elements p.charts in
    record {
      charts = charts;
      elements = ys;
      targets = ks;
      updated_dom = false;
      last_page_scroll = e.now;
    }
