-- ===== src/Gauges/Pies/Drawn.antt =====
-- What a pie shows over time (portal/dashboard.js, `easypiechartSetSelection` and the like).
use lmiced.Prelude.{
  ◌≡◌, refl, not, ◌&&◌, ◌||◌, List, [], ◌∷◌, Option, none, some, arith, get_elem?, nat_beq,
  if◌then◌else◌, Bool-cases, Option-cases, inl, inr,
}
use lmiced.Prelude.Int.{ℤ}
use lmiced.Chart.Window.{is_active}
use lmiced.Chart.Refresh.{is_auto_refreshable}
use lmiced.Gauges.Arc.{IsArc, pie_percent-IsArc}
use lmiced.Gauges.Events.{Source, selected_value}
use lmiced.Gauges.Pies.{
  PieEvent, Pie, percent_of, pie_chart_update, stop_pie_timer, pie_clear_selection, pie_timer_runs,
  arm_pie, pie_set_selection, pie_timeout, pie_chart_create, PieAct, selects, clears, updates,
  times_out, pie_act, pie_act_all,
}

-- The percentage of the event
abbrev pub NextIsArc : Option PieEvent → Type 0
NextIsArc none = Unit {0}
NextIsArc (some v) = IsArc v.pcent

-- The pie shows a percentage between -100 and 100 or none, and so will its timeout; one timeout is left exactly while
-- the timer of the event is set.
pub record IsDrawn (p : Pie) : Type 0 where
  pub arc : IsArc p.percent
  pub next : NextIsArc p.event
  pub timed : p.timeouts ≡ (if pie_timer_runs p.event then 1 else 0)

percent_of-IsArc : (s : Source) (value : Option ℤ) (p : Pie) → IsArc (percent_of s value p)
unfolding percent_of
percent_of-IsArc s value p = (pie_percent-IsArc p.pie_min p.pie_max value _ _).0

update-IsDrawn : (s : Source) (p : Pie) → IsDrawn p → IsDrawn (pie_chart_update s p)
unfolding pie_chart_update
update-IsDrawn s p h = elim (Bool-cases (is_active s.pan || not (is_auto_refreshable s.chart))) [
  | inl e ↦
      rw (e, pie_chart_update)
        record { arc = (omega arith, omega arith); next = h.next; timed = h.timed }
  | inr e ↦
      rw (e, pie_chart_update)
        record { arc = percent_of-IsArc s (get_elem? s.result 0) p; next = h.next; timed = h.timed }
]

stop-IsDrawn : (p : Pie) → IsDrawn p → IsDrawn (stop_pie_timer p)
unfolding stop_pie_timer
stop-IsDrawn p h = elim (Option-cases p.event) [
  | inl n ↦ rw (n, stop_pie_timer) h
  | inr (v, n) ↦
      let i : p.timeouts ≡ (if v.timer then 1 else 0) = rw n at h.timed in
      let j : IsArc v.pcent = rw n at h.next in
      rw (n, stop_pie_timer) record { arc = h.arc; next = j; timed = ground (arith, i) }
]

clear-IsDrawn : (s : Source) (p : Pie) → IsDrawn p → IsDrawn (pie_clear_selection s p)
unfolding pie_clear_selection
clear-IsDrawn s p h =
    let i = stop-IsDrawn p h in
    let u = update-IsDrawn s (stop_pie_timer p) i in
    elim (Bool-cases (is_auto_refreshable s.chart && s.chart.has_data)) [
      | inl e ↦ rw (e, pie_clear_selection) record { arc = u.arc; next = u.next; timed = u.timed }
      | inr e ↦
          rw (e, pie_clear_selection)
            record { arc = (omega arith, omega arith); next = i.next; timed = i.timed }
    ]

arm-IsDrawn :
    (value pcent : Option ℤ) (p : Pie) → IsArc pcent → IsDrawn p → IsDrawn (arm_pie value pcent p)
unfolding arm_pie
arm-IsDrawn value pcent p a h = record { arc = h.arc; next = a; timed = ground (arith, h.timed) }

select-IsDrawn : (s : Source) (t : ℤ) (p : Pie) → IsDrawn p → IsDrawn (pie_set_selection s t p)
unfolding pie_set_selection
select-IsDrawn s t p h = elim (Option-cases (selected_value s t)) [
  | inl n ↦ rw (n, pie_set_selection) (clear-IsDrawn s p h)
  | inr (v, n) ↦
      rw (n, pie_set_selection) (arm-IsDrawn (some v) _ p (percent_of-IsArc s (some v) p) h)
]

timeout-IsDrawn : (p : Pie) → IsDrawn p → IsDrawn (pie_act times_out p)
unfolding pie_act pie_timeout
timeout-IsDrawn p h = elim (Bool-cases (nat_beq p.timeouts 0)) [
  | inl e ↦ rw (e, pie_act) h
  | inr e ↦ elim (Option-cases p.event) [
    | inl n ↦ rw (e, pie_act, n, pie_timeout) h
    | inr (v, n) ↦
        let i : p.timeouts ≡ (if v.timer then 1 else 0) = rw n at h.timed in
        let j : IsArc v.pcent = rw n at h.next in
        rw (e, pie_act, n, pie_timeout) record { arc = j; next = j; timed = ground (arith, i, e) }
  ]
]

acts-IsDrawn : (acts : List PieAct) (p : Pie) → IsDrawn p → IsDrawn (pie_act_all acts p)
unfolding pie_act_all pie_act
acts-IsDrawn [] p h = h
acts-IsDrawn (selects s t ∷ acts) p h = acts-IsDrawn acts _ (select-IsDrawn s t p h)
acts-IsDrawn (clears s ∷ acts) p h = acts-IsDrawn acts _ (clear-IsDrawn s p h)
acts-IsDrawn (updates s ∷ acts) p h = acts-IsDrawn acts _ (update-IsDrawn s p h)
acts-IsDrawn (times_out ∷ acts) p h = acts-IsDrawn acts _ (timeout-IsDrawn p h)

-- Whatever selections, updates and timeouts a pie has seen since it was created, it shows a percentage between -100
-- and 100 or none (the percentage is no number), and so does what its timeout will show; one timeout is left exactly
-- while the timer of its event is set.
pub pie_act_all-IsDrawn :
    (s : Source) (user_min user_max : Option ℤ) (acts : List PieAct)
    → IsDrawn (pie_act_all acts (pie_chart_create s user_min user_max))
unfolding pie_chart_create
pie_act_all-IsDrawn s user_min user_max acts =
    acts-IsDrawn acts (pie_chart_create s user_min user_max)
      record { arc = (pie_percent-IsArc user_min user_max _ _ _).0; next = tt; timed = refl }
