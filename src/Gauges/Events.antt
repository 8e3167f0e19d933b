-- ===== src/Gauges/Events.antt =====
-- The selection of a gauge and its timer (portal/dashboard.js): `gaugeSetSelection`,
-- `gaugeClearSelection`, `gaugeChartUpdate`, `gaugeSetLabels` and `gaugeAnimation`.
pub mod Timed
use lmiced.Prelude.{
  ℕ, suc, ◌-◌, Bool, true, false, not, ◌&&◌, ◌||◌, List, [], ◌∷◌, Option, none, some, length,
  get_elem?, is_some, nat_beq, if◌then◌else◌,
}
use lmiced.Prelude.Int.{ℤ, pos, pos_part, ltb_ℤ}
use lmiced.Chart.{Chart}
use lmiced.Chart.Window.{PanAndZoom, is_active, calculate_row_for_time}
use lmiced.Chart.Refresh.{is_auto_refreshable}
use lmiced.Gauges.{Set, gauge_set}

-- `state.tmp.gaugeEvent`: `timer` tells whether `timer !== undefined`.
pub record Event : Type 0 where
  pub timer : Bool
  pub value : Option ℤ
  pub min : Option ℤ
  pub max : Option ℤ

-- `state.tmp.___gaugeOld__.valueLabel`, `minLabel` and `maxLabel`
pub record Labels : Type 0 where
  pub value_label : Option ℤ
  pub min_label : Option ℤ
  pub max_label : Option ℤ

-- `state.tmp` of a gauge; `timeouts` is the number of timeouts that the page still has to run for it.
pub record Gauge : Type 0 where
  pub gauge_min : Option ℤ
  pub gauge_max : Option ℤ
  pub event : Option Event
  pub labels : Labels
  pub speed : ℕ
  pub shown : Set
  pub timeouts : ℕ

-- What an operation of the gauge reads: the unit, the chart, `state.data.result`, where there is data, and
-- what `NETDATA.commonMin.get(state)` and `NETDATA.commonMax.get(state)` answer.
pub record Source : Type 0 where
  pub one : ℕ
  pub pan : PanAndZoom
  pub chart : Chart
  pub result : List ℤ
  pub common_min : ℤ
  pub common_max : ℤ

-- `NETDATA.gaugeAnimation(state, status)` for a Boolean
abbrev pub gauge_animation : Bool → Gauge → Gauge
gauge_animation status g = record g { speed = if status then 32 else 1_000_000_000 }

-- `NETDATA.gaugeSetLabels(state, value, min, max)`: a label that is the same is not written again.
abbrev pub gauge_set_labels : Option ℤ → Option ℤ → Option ℤ → Gauge → Gauge
gauge_set_labels value min max g = record g {
  labels = record { value_label = value; min_label = min; max_label = max };
}

abbrev pub show_gauge : Source → Option ℤ → Option ℤ → Option ℤ → Gauge → Gauge
show_gauge s value min max g = record g { shown = gauge_set s.one value min max }

abbrev pub user_or : Option ℤ → ℤ → ℤ
user_or none common = common
user_or (some a) common = a

-- "make sure it is zero based"
unfoldable pub zero_based : Gauge → (min max : ℤ) → ℤ × ℤ
zero_based g min max = (
  if not (is_some g.gauge_min) && ltb_ℤ (pos 0) min then pos 0 else min,
  if not (is_some g.gauge_max) && ltb_ℤ max (pos 0) then pos 0 else max,
)

-- The first_value value of the data; without one, the code compares with `undefined`.
abbrev first_value : List ℤ → Option ℤ
first_value xs = get_elem? xs 0

-- `if(value < min) min = value`
lower : Option ℤ → ℤ → ℤ
lower none min = min
lower (some v) min = if ltb_ℤ v min then v else min

-- `if(value > max) max = value`
higher : Option ℤ → ℤ → ℤ
higher none max = max
higher (some v) max = if ltb_ℤ max v then v else max

-- `NETDATA.gaugeChartUpdate(state, data)`
unfoldable pub gauge_chart_update : Source → Gauge → Gauge
unfolding zero_based lower higher
gauge_chart_update s g =
    if is_active s.pan || not (is_auto_refreshable s.chart)
    then show_gauge s (some (pos 0)) (some (pos 0)) (some (pos s.one))
        (gauge_set_labels none none none g)
    else let value = first_value s.result in
      let a = user_or g.gauge_min s.common_min in
      let b = user_or g.gauge_max s.common_max in
      let (min, max) = zero_based g (lower value a) (higher value b) in
      show_gauge s value (some min) (some max) (gauge_set_labels value (some min) (some max) g)

-- `clearTimeout(timer)` and `timer = undefined`
unfoldable pub stop_timer : Gauge → Gauge
stop_timer g = elim g.event [
  | none ↦ g
  | some v ↦ record g {
    event = some (record v { timer = false });
    timeouts = if v.timer then g.timeouts - 1 else g.timeouts;
  }
]

-- `NETDATA.gaugeClearSelection(state)`, which answers true
unfoldable pub gauge_clear_selection : Source → Gauge → Gauge
unfolding stop_timer
gauge_clear_selection s g =
    let h = stop_timer g in
    gauge_animation true (
      if is_auto_refreshable s.chart && s.chart.has_data
      then gauge_chart_update s h
      else gauge_set_labels none none none (show_gauge s none none none (gauge_animation false h)))

-- `state.data.result[state.data.result.length - 1 - slot]`, `none` where the selection is cleared
-- instead
unfoldable pub selected_value : Source → ℤ → Option ℤ
selected_value s t = elim (calculate_row_for_time t s.chart) [
  | none ↦ none
  | some slot ↦
      if ltb_ℤ slot (pos 0) || not (ltb_ℤ slot (pos (length s.result)))
      then none
      else get_elem? s.result (length s.result - 1 - pos_part slot)
]

-- `state.tmp.gaugeEvent.timer !== undefined`
abbrev pub timer_runs : Option Event → Bool
timer_runs none = false
timer_runs (some v) = v.timer

-- The timer is set if none runs.
arm : Gauge → Option ℤ → Option ℤ → Option ℤ → Gauge
arm g value min max =
    let h = gauge_set_labels value min max g in
    record (if timer_runs g.event
      then h
      else gauge_animation false (record h { timeouts = suc g.timeouts })) {
        event = some (record { timer = true; value = value; min = min; max = max });
      }

-- `NETDATA.gaugeSetSelection(state, t)`, which answers true
unfoldable pub gauge_set_selection : Source → ℤ → Gauge → Gauge
unfolding selected_value arm zero_based
gauge_set_selection s t g = elim (selected_value s t) [
  | none ↦ gauge_clear_selection s g
  | some v ↦
      let (min, max) =
        zero_based g (user_or g.gauge_min s.common_min) (user_or g.gauge_max s.common_max) in
      arm g (some v) (some min) (some max)
]

-- The function of a timeout of the gauge
unfoldable pub gauge_timeout : Source → Gauge → Gauge
gauge_timeout s g = elim g.event [
  | none ↦ g
  | some v ↦
      show_gauge s v.value v.min v.max
        (record g { event = some (record v { timer = false }); timeouts = g.timeouts - 1 })
]

-- What happens to a gauge. A timeout runs only if one is left.
pub data Act : Type 0 where
  selects : Source → ℤ → Act
  clears updates times_out : Source → Act

unfoldable pub act : Act → Gauge → Gauge
act (selects s t) g = gauge_set_selection s t g
act (clears s) g = gauge_clear_selection s g
act (updates s) g = gauge_chart_update s g
act (times_out s) g = if nat_beq g.timeouts 0 then g else gauge_timeout s g

unfoldable pub act_all : List Act → Gauge → Gauge
act_all [] g = g
act_all (a ∷ more) g = act_all more (act a g)
