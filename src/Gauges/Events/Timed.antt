-- ===== src/Gauges/Events/Timed.antt =====
-- The timer of a gauge's selection (portal/dashboard.js, `gaugeSetSelection`).
use lmiced.Prelude.{
  nat_beq, ◌≡◌, refl, ◌∙◌, true, not, ◌&&◌, ◌||◌, List, [], ◌∷◌, Option, some, arith, if◌then◌else◌,
  Bool-cases, Option-cases, inl, inr,
}
use lmiced.Prelude.Int.{ℤ}
use lmiced.Chart.Window.{is_active}
use lmiced.Chart.Refresh.{is_auto_refreshable}
use lmiced.Gauges.{gauge_set}
use lmiced.Gauges.Events.{
  Event, Gauge, Source, user_or, zero_based, timer_runs, gauge_chart_update, gauge_clear_selection,
  stop_timer, selected_value, arm, gauge_set_selection, gauge_timeout, Act, selects, clears,
  updates, times_out, act, act_all,
}

-- A timeout is left exactly while the timer of the gauge's event is set, and only one.
abbrev pub IsTimed : Gauge → Type 0
IsTimed g = g.timeouts ≡ (if timer_runs g.event then 1 else 0)

update-IsTimed : (s : Source) (g : Gauge) → IsTimed g → IsTimed (gauge_chart_update s g)
unfolding gauge_chart_update
update-IsTimed s g h = elim (Bool-cases (is_active s.pan || not (is_auto_refreshable s.chart))) [
  | inl e ↦ rw (e, gauge_chart_update) h
  | inr e ↦ rw (e, gauge_chart_update) h
]

stop-IsTimed : (g : Gauge) → IsTimed g → IsTimed (stop_timer g)
unfolding stop_timer
stop-IsTimed g h = elim (Option-cases g.event) [
  | inl n ↦ rw (n, stop_timer) h
  | inr (v, n) ↦
      let i : g.timeouts ≡ (if v.timer then 1 else 0) = rw n at h in
      rw (n, stop_timer) (ground (arith, i))
]

clear-IsTimed : (s : Source) (g : Gauge) → IsTimed g → IsTimed (gauge_clear_selection s g)
unfolding gauge_clear_selection
clear-IsTimed s g h =
    let i = stop-IsTimed g h in
    elim (Bool-cases (is_auto_refreshable s.chart && s.chart.has_data)) [
      | inl e ↦ rw (e, gauge_clear_selection) (update-IsTimed s (stop_timer g) i)
      | inr e ↦ rw (e, gauge_clear_selection) i
    ]

arm-IsTimed :
    (g : Gauge) (value min max : Option ℤ) → IsTimed g → (arm g value min max).timeouts ≡ 1
unfolding arm
arm-IsTimed g value min max h = elim (Bool-cases (timer_runs g.event)) [
  | inl e ↦ rw (e, arm) (h ∙ rw e refl)
  | inr e ↦ rw (e, arm) (ground (arith, h, e))
]

arm-event :
    (g : Gauge) (value min max : Option ℤ)
    → (arm g value min max).event
      ≡ some (record { timer = true; value = value; min = min; max = max })
unfolding arm
arm-event g value min max = refl

armed : (g : Gauge) (v : Event) → g.timeouts ≡ 1 → v.timer ≡ true → g.event ≡ some v → IsTimed g
armed g v a b c = a ∙ rw (c, timer_runs, b) refl

select-IsTimed : (s : Source) (t : ℤ) (g : Gauge) → IsTimed g → IsTimed (gauge_set_selection s t g)
unfolding gauge_set_selection
select-IsTimed s t g h = elim (Option-cases (selected_value s t)) [
  | inl n ↦ rw (n, gauge_set_selection) (clear-IsTimed s g h)
  | inr (v, n) ↦
      let (lo, hi) =
        zero_based g (user_or g.gauge_min s.common_min) (user_or g.gauge_max s.common_max) in
      rw (n, gauge_set_selection)
        (armed (arm g (some v) (some lo) (some hi)) _ (arm-IsTimed g (some v) (some lo) (some hi) h)
          refl (arm-event g (some v) (some lo) (some hi)))
]

timeout-IsTimed : (s : Source) (g : Gauge) → IsTimed g → IsTimed (act (times_out s) g)
unfolding act gauge_timeout
timeout-IsTimed s g h = elim (Bool-cases (nat_beq g.timeouts 0)) [
  | inl e ↦ rw (e, act) h
  | inr e ↦ elim (Option-cases g.event) [
    | inl n ↦ rw (e, act, n, gauge_timeout) h
    | inr (v, n) ↦
        let i : g.timeouts ≡ (if v.timer then 1 else 0) = rw n at h in
        rw (e, act, n, gauge_timeout) (ground (arith, i, e))
  ]
]

act_all-IsTimed : (acts : List Act) (g : Gauge) → IsTimed g → IsTimed (act_all acts g)
unfolding act_all act
act_all-IsTimed [] g h = h
act_all-IsTimed (selects s t ∷ acts) g h = act_all-IsTimed acts _ (select-IsTimed s t g h)
act_all-IsTimed (clears s ∷ acts) g h = act_all-IsTimed acts _ (clear-IsTimed s g h)
act_all-IsTimed (updates s ∷ acts) g h = act_all-IsTimed acts _ (update-IsTimed s g h)
act_all-IsTimed (times_out s ∷ acts) g h = act_all-IsTimed acts _ (timeout-IsTimed s g h)

-- Whatever happened to a gauge before, after a selection of a time that the data has exactly one timeout is left,
-- and when it runs, the gauge shows the value of that time, on the range of the gauge made to hold zero
-- where the user did not set its ends, and no timeout is left.
pub gauge_timeout-selected :
    (acts : List Act) (s u : Source) (t v : ℤ) (g : Gauge)
    → IsTimed g
    → selected_value s t ≡ some v
    → (let before = act_all acts g in
        let (lo, hi) =
          zero_based before
            (user_or before.gauge_min s.common_min)
            (user_or before.gauge_max s.common_max) in
        let after = gauge_set_selection s t before in
        (after.timeouts ≡ 1)
        × (((gauge_timeout u after).shown ≡ gauge_set u.one (some v) (some lo) (some hi))
            × ((gauge_timeout u after).timeouts ≡ 0)))
unfolding gauge_set_selection gauge_timeout arm
gauge_timeout-selected acts s u t v g h n =
    let b = act_all acts g in
    let (lo, hi) =
      zero_based b (user_or b.gauge_min s.common_min) (user_or b.gauge_max s.common_max) in
    let i = arm-IsTimed b (some v) (some lo) (some hi) (act_all-IsTimed acts g h) in
    rw (n, gauge_set_selection) (i, (refl, omega (arith, i)))
