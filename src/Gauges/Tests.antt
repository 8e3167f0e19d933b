-- ===== src/Gauges/Tests.antt =====
-- A gauge of whole numbers over the data of a chart, and pies that are given little.
use lmiced.Prelude.{◌≡◌, refl, ◌↔◌, none, some, [], ◌∷◌, arith}
use lmiced.Prelude.Int.{pos, ◌+ℤ◌, ◌-ℤ◌, scale, round_div, floor_div}
use lmiced.Chart.Sample.{chart, no_pan}
use lmiced.Chart.Window.{calculate_row_for_time}
use lmiced.Gauges.{gauge_set, pie_percent}
use lmiced.Gauges.Needle.{IsInside, gauge_set-IsInside}
use lmiced.Gauges.Arc.{IsArc, pie_percent-IsArc}
use lmiced.Gauges.Events.{
  Gauge, Source, user_or, zero_based, selected_value, gauge_set_selection, gauge_timeout, Act,
  act_all,
}
use lmiced.Gauges.Events.Timed.{gauge_timeout-selected}
use lmiced.Gauges.Pies.{
  Pie, percent_of, pie_chart_create, pie_set_selection, arm_pie, pie_timeout, pie_act_all, selects,
  clears, updates, times_out,
}
use lmiced.Gauges.Pies.Drawn.{IsDrawn, pie_act_all-IsDrawn}

gauge_set-IsInside_example : IsInside (gauge_set 1 (some (pos 7)) (some (pos 10)) (some (pos 5)))
gauge_set-IsInside_example =
    gauge_set-IsInside 1 (some (pos 7)) (some (pos 10)) (some (pos 5)) (omega arith)

-- Both ends give way to the value.
gives_way : (gauge_set 1 (some (pos 7)) (some (pos 10)) (some (pos 5))).max ≡ pos 8
unfolding gauge_set ◌+ℤ◌ ◌-ℤ◌ scale
gives_way = refl

-- 3 of 4 is a percentage.
three_of_four :
    IsArc (pie_percent none none (some (pos 3)) none (some (pos 4)))
    × ((pie_percent none none (some (pos 3)) none (some (pos 4)) ≡ none)
        ↔ ((pos 3 ≡ pos 0) × ((pos 0 ≡ pos 0) × (pos 4 ≡ pos 0))))
three_of_four = pie_percent-IsArc none none (some (pos 3)) none (some (pos 4))

three_quarters : pie_percent none none (some (pos 3)) none (some (pos 4)) ≡ some (pos 750)
unfolding pie_percent ◌-ℤ◌ ◌+ℤ◌ scale round_div floor_div
three_quarters = refl

no_number : pie_percent none none none none none ≡ none
unfolding pie_percent ◌-ℤ◌
no_number = refl

-- Three rows, the last one first
abbrev source : Source
source = record {
  one = 1;
  pan = no_pan;
  chart = chart;
  result = pos 30 ∷ pos 20 ∷ pos 10 ∷ [];
  common_min = pos 5;
  common_max = pos 40;
}

abbrev gauge : Gauge
gauge = record {
  gauge_min = none;
  gauge_max = none;
  event = none;
  labels = record { value_label = none; min_label = none; max_label = none };
  speed = 32;
  shown = gauge_set 1 none none none;
  timeouts = 0;
}

second_row : selected_value source (pos 101_500) ≡ some (pos 20)
unfolding selected_value calculate_row_for_time ◌-ℤ◌ floor_div
second_row = refl

abbrev busy : Gauge
busy =
    act_all
      (Act.selects source (pos 100_000) ∷ Act.clears source ∷ Act.selects source (pos 102_000) ∷ [])
      gauge

gauge_timeout-selected_example :
    ((gauge_set_selection source (pos 101_500) busy).timeouts ≡ 1)
    × (((gauge_timeout source (gauge_set_selection source (pos 101_500) busy)).shown
          ≡ gauge_set 1
              (some (pos 20))
              (some
                (zero_based busy
                  (user_or busy.gauge_min (pos 5))
                  (user_or busy.gauge_max (pos 40))).0)
              (some
                (zero_based busy
                  (user_or busy.gauge_min (pos 5))
                  (user_or busy.gauge_max (pos 40))).1))
        × ((gauge_timeout source (gauge_set_selection source (pos 101_500) busy)).timeouts ≡ 0))
gauge_timeout-selected_example =
    gauge_timeout-selected
      (Act.selects source (pos 100_000) ∷ Act.clears source ∷ Act.selects source (pos 102_000) ∷ [])
      source source (pos 101_500) (pos 20) gauge refl second_row

abbrev pie : Pie
pie = pie_chart_create source none none

pie_act_all-IsDrawn_example : IsDrawn (
    pie_act_all
      (selects source (pos 101_500) ∷ updates source ∷ times_out ∷ clears source ∷ [])
      pie)
pie_act_all-IsDrawn_example =
    pie_act_all-IsDrawn source none none
      (selects source (pos 101_500) ∷ updates source ∷ times_out ∷ clears source ∷ [])

-- The timeout shows the row under the mouse.
shows_half : (pie_timeout (pie_set_selection source (pos 101_500) pie)).percent ≡ some (pos 500)
unfolding selected_value calculate_row_for_time ◌-ℤ◌ ◌+ℤ◌ floor_div scale round_div
    pie_set_selection arm_pie pie_timeout pie_chart_create percent_of pie_percent
shows_half = refl
