-- ===== src/Chart/Pan/Steady.antt =====
-- `updateChartPanOrZoom` (portal/dashboard.js) of a chart that is panned or zoomed already.
use lmiced.Prelude.{ℕ, ◌≡◌, refl, ◌≢◌, some, arith, Bool-cases, inl, inr}
use lmiced.Prelude.Int.{ℤ, ltb_ℤ}
use lmiced.Chart.{auto, Chart, Env}
use lmiced.Chart.Pan.{
  Outcome, rejected, moved, min_duration_of, force_range, apply_outcome, pan_range,
  update_chart_pan_or_zoom,
}

abbrev pub Steady : Chart → Chart → Type 0
Steady c d = (d.current ≡ c.current) × (d.paused ≡ c.paused)

force_range-Steady :
    (e : Env) (a b : ℤ) (c : Chart) → c.current ≢ auto → Steady c (force_range e a b c)
unfolding force_range
force_range-Steady e a b c n = ground arith

apply_outcome-Steady :
    (e : Env) (r : Outcome) (c : Chart) → c.current ≢ auto → Steady c (apply_outcome e r c)
unfolding apply_outcome
apply_outcome-Steady e rejected c n = (refl, refl)
apply_outcome-Steady e (moved a b exact) c n = force_range-Steady e a b c n

-- Its mode and its pause stay.
pub update_chart_pan_or_zoom-Steady :
    (e : Env) (every : ℕ) (after before : ℤ) (c : Chart)
    → c.current ≢ auto
    → Steady c (update_chart_pan_or_zoom e every after before c).0
unfolding update_chart_pan_or_zoom
update_chart_pan_or_zoom-Steady e every after before c n = elim (Bool-cases (ltb_ℤ before after)) [
  | inl h ↦ rw (h, update_chart_pan_or_zoom) (refl, refl)
  | inr h ↦
      rw (h, update_chart_pan_or_zoom)
        (apply_outcome-Steady e (pan_range e every after before c)
          (record c {
            range = record (c.range) { fixed_min_duration = some (min_duration_of every c) };
          })
          n)
]
