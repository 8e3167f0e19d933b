-- ===== src/Sync/Master.antt =====
-- The pan or zoom that all charts follow (portal/dashboard.js): `NETDATA.globalPanAndZoom.setMaster`
-- and `.clearMaster`, a chart's `resetChart` and `updateChartPanOrZoom`, `NETDATA.resetAllCharts`.
pub mod Ledger
pub mod Clear
pub mod Take
pub mod Keeps
use lmiced.Prelude.{
  ℕ, ◌+◌, Bool, true, false, not, ◌&&◌, ◌||◌, Option, none, some, nat_beq, get_elem?, set,
  if◌then◌else◌,
}
use lmiced.Prelude.Int.{ℤ, ltb_ℤ}
use lmiced.Chart.{Tm, Chart, Env, auto, unforced, set_forced}
use lmiced.Chart.Life.{set_mode, is_visible}
use lmiced.Chart.Window.{PanAndZoom, is_master}
use lmiced.Chart.Pan.{Outcome, rejected, moved, update_chart_pan_or_zoom}
use lmiced.Chart.Fetch.{clear_selection}
use lmiced.Sync.{Dashboard, update_at}
use lmiced.Sync.Selection.{selection_stop}

-- The lines of `resetChart` that write the chart's own state.
pub reset_local : Env → Chart → Chart
reset_local e c =
    let d = clear_selection c in
    let s = set_mode e auto (record d { tm = record (d.tm) { pan_and_zoom_seq = 0 } }) in
    let u = set_forced unforced s in
    record u {
      tm = record (u.tm) { last_autorefreshed = 0 };
      paused = false;
      selected = false;
      enabled = true;
    }

-- `if(dont_update !== true && this.isVisible() === true) this.updateChart();`
update_if_visible : Env → ℕ → Dashboard → Dashboard
update_if_visible e i d = elim (get_elem? d.targets i) [
  | none ↦ d
  | some c ↦
      let (shown, u) = is_visible false e c in
      let d' = record d { targets = set d.targets i u } in if shown then update_at e i d' else d'
]

-- `resetChart` of the chart `i` after the master is dealt with
pub reset_rest : Env → (dont_update : Bool) → ℕ → Dashboard → Dashboard
unfolding reset_local update_if_visible
reset_rest e dont_update i d = elim (get_elem? d.targets i) [
  | none ↦ d
  | some c ↦
      let d' = record d { targets = set d.targets i (reset_local e c) } in
      if dont_update then d' else update_if_visible e i d'
]

-- `resetChart(dont_clear_master, dont_update)`, where `clear` stands for the call of `clearMaster`.
reset_with :
    (Env → Dashboard → Dashboard)
    → Env
    → (dont_clear_master dont_update : Bool) → ℕ
    → Dashboard
    → Dashboard
unfolding reset_rest
reset_with clear e dont_clear_master dont_update i d =
    if not dont_clear_master && is_master i d.pan then clear e d else reset_rest e dont_update i d

forget_master : Dashboard → Dashboard
forget_master d = record d { pan = record (d.pan) { master = none } }

-- The lines after the master's reset
end_pan : Dashboard → Dashboard
end_pan d = record d {
  pan = record { seq = 0; master = none; force_before = none; force_after = none };
  stop_until = 0;
}

-- `clearMaster()`; the master is forgotten first, so that its reset does not come back here.
pub clear_with : (Env → Dashboard → Dashboard) → Env → Dashboard → Dashboard
unfolding reset_with forget_master end_pan
clear_with clear e d = elim d.pan.master [
  | none ↦ end_pan d
  | some m ↦ end_pan (reset_with clear e false false m (forget_master d))
]

pub clear_master : Env → Dashboard → Dashboard
unfolding clear_with
clear_master = clear_with (λ e d. d)

pub reset_chart : Env → (dont_clear_master dont_update : Bool) → ℕ → Dashboard → Dashboard
unfolding reset_with clear_master
reset_chart = reset_with clear_master

-- `if(this.master !== null && this.master !== state) this.master.resetChart(true, true);`
pub displace : Env → ℕ → Dashboard → Dashboard
unfolding reset_chart
displace e i d = elim d.pan.master [
  | none ↦ d
  | some m ↦ if nat_beq m i then d else reset_chart e true true m d
]

-- `setMaster(state, after, before)` for the chart `i`, times in half-milliseconds
pub set_master : Env → ℕ → ℤ → ℤ → Dashboard → Dashboard
unfolding displace
set_master e i after before d = if not e.sync_pan_and_zoom then d else record (displace e i d) {
  pan = record {
    seq = e.now;
    master = some i;
    force_before = some before;
    force_after = some after;
  };
  stop_until = e.now + e.global_pan_sync_time;
}

-- `updateChartPanOrZoom` of the chart `i`, and its answer. A chart whose description is not there
-- has no `fixed_min_duration` either: `none` stands for the exception that reading it throws.
pub pan_or_zoom : Env → ℕ → ℤ → ℤ → Dashboard → Option (Dashboard × Bool)
unfolding set_master
pan_or_zoom e i after before d = elim (get_elem? d.targets i) [
  | none ↦ none
  | some c ↦ elim c.chart_update_every [
    | none ↦ if ltb_ℤ before after then some (d, false) else none
    | some every ↦
        let (u, outcome) = update_chart_pan_or_zoom e every after before c in
        let d' = record d { targets = set d.targets i u } in
        some (elim outcome [
          | rejected ↦ (d', false)
          | moved a b exact ↦ (set_master e i a b d', exact)
        ])
  ]
]

-- `NETDATA.resetAllCharts(state)`
pub reset_all_charts : Env → ℕ → Dashboard → Dashboard
unfolding clear_master reset_chart
reset_all_charts e i d =
    let s = selection_stop i d in
    let was_master = is_master i s.pan in
    let m = clear_master e s in
    elim (get_elem? m.targets i) [
      | none ↦ m
      | some c ↦
          if not was_master && (c.paused || c.selected) then reset_chart e false false i m else m
    ]
