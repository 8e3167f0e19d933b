-- ===== src/Gauges/Pies.antt =====
-- The selection of a pie and its timer (portal/dashboard.js): `easypiechartSetSelection`,
-- `easypiechartClearSelection`, `easypiechartChartUpdate` and what `easypiechartChartCreate` draws.
pub mod Drawn
use lmiced.Prelude.{
  ℕ, suc, ◌-◌, Bool, true, false, not, ◌&&◌, ◌||◌, List, [], ◌∷◌, Option, none, some, get_elem?,
  nat_beq, if◌then◌else◌,
}
use lmiced.Prelude.Int.{ℤ, pos}
use lmiced.Chart.Window.{is_active}
use lmiced.Chart.Refresh.{is_auto_refreshable}
use lmiced.Gauges.{pie_percent}
use lmiced.Gauges.Events.{Source, user_or, selected_value}

-- `state.tmp.easyPieChartEvent`: `timer` tells whether `timer !== undefined`.
pub record PieEvent : Type 0 where
  pub timer : Bool
  pub value : Option ℤ
  pub pcent : Option ℤ

-- `state.tmp` of a pie, with its library's percentage in tenths, and the number of timeouts left for it
pub record Pie : Type 0 where
  pub pie_min : Option ℤ
  pub pie_max : Option ℤ
  pub event : Option PieEvent
  pub label : Option ℤ
  pub percent : Option ℤ
  pub animated : Bool
  pub timeouts : ℕ

-- The percentage of a value on the range of the pie
unfoldable pub percent_of : Source → Option ℤ → Pie → Option ℤ
percent_of s value p =
    pie_percent p.pie_min p.pie_max value (some (user_or p.pie_min s.common_min))
      (some (user_or p.pie_max s.common_max))

abbrev pub show_pie : (value pcent : Option ℤ) → Pie → Pie
show_pie value pcent p = record p { label = value; percent = pcent }

-- `NETDATA.easypiechartChartUpdate(state, data)`
unfoldable pub pie_chart_update : Source → Pie → Pie
pie_chart_update s p =
    if is_active s.pan || not (is_auto_refreshable s.chart)
    then show_pie none (some (pos 0)) p
    else let value = get_elem? s.result 0 in show_pie value (percent_of s value p) p

-- `clearTimeout(timer)` and `timer = undefined`
unfoldable pub stop_pie_timer : Pie → Pie
stop_pie_timer p = elim p.event [
  | none ↦ p
  | some v ↦ record p {
    event = some (record v { timer = false });
    timeouts = if v.timer then p.timeouts - 1 else p.timeouts;
  }
]

-- `NETDATA.easypiechartClearSelection(state)`, which answers true
unfoldable pub pie_clear_selection : Source → Pie → Pie
pie_clear_selection s p =
    let q = stop_pie_timer p in
    let r =
      (if is_auto_refreshable s.chart && s.chart.has_data
        then pie_chart_update s q
        else show_pie none (some (pos 0)) q) in
    record r { animated = true }

-- `state.tmp.easyPieChartEvent.timer !== undefined`
abbrev pub pie_timer_runs : Option PieEvent → Bool
pie_timer_runs none = false
pie_timer_runs (some v) = v.timer

-- The timer is set if none runs.
unfoldable pub arm_pie : (value pcent : Option ℤ) → Pie → Pie
arm_pie value pcent p = record p {
  label = value;
  event = some (record { timer = true; value = value; pcent = pcent });
  animated = if pie_timer_runs p.event then p.animated else false;
  timeouts = if pie_timer_runs p.event then p.timeouts else suc p.timeouts;
}

-- `NETDATA.easypiechartSetSelection(state, t)`, which answers true
unfoldable pub pie_set_selection : Source → ℤ → Pie → Pie
pie_set_selection s t p = elim (selected_value s t) [
  | none ↦ pie_clear_selection s p
  | some v ↦ arm_pie (some v) (percent_of s (some v) p) p
]

-- The function of a timeout of the pie
unfoldable pub pie_timeout : Pie → Pie
pie_timeout p = elim p.event [
  | none ↦ p
  | some v ↦ record p {
    event = some (record v { timer = false });
    percent = v.pcent;
    timeouts = p.timeouts - 1;
  }
]

-- `NETDATA.easypiechartChartCreate(state, data)`, with the ends of the range that the user gives
unfoldable pub pie_chart_create : Source → (user_min user_max : Option ℤ) → Pie
pie_chart_create s user_min user_max =
    let value = get_elem? s.result 0 in
    record {
      pie_min = user_min;
      pie_max = user_max;
      event = none;
      label = value;
      percent =
          pie_percent user_min user_max value (some (user_or user_min s.common_min))
            (some (user_or user_max s.common_max));
      animated = true;
      timeouts = 0;
    }

-- What happens to a pie. A timeout runs only if one is left.
pub data PieAct : Type 0 where
  selects : Source → ℤ → PieAct
  clears updates : Source → PieAct
  times_out : PieAct

unfoldable pub pie_act : PieAct → Pie → Pie
pie_act (selects s t) p = pie_set_selection s t p
pie_act (clears s) p = pie_clear_selection s p
pie_act (updates s) p = pie_chart_update s p
pie_act times_out p = if nat_beq p.timeouts 0 then p else pie_timeout p

unfoldable pub pie_act_all : List PieAct → Pie → Pie
pie_act_all [] p = p
pie_act_all (a ∷ more) p = pie_act_all more (pie_act a p)
