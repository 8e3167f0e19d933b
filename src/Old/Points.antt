-- ===== src/Old/Points.antt =====
-- How much of a chart the older dashboard asks for and how it draws it (portal/old/netdata.js,
-- `calculateChartPointsToShow`), in whole seconds and pixels.
use native.Mathlib.Nat.{div-add-mod, mod-lt}
use lmiced.Prelude.{
  ℕ, zero, suc, ◌+◌, ◌*◌, ◌/◌, ◌≤◌, ◌<◌, Bool, not, ◌&&◌, ltb, arith, if◌then◌else◌, Bool-cases,
  inl, inr,
}

pub data ChartType : Type 0 where
  line_chart area_chart other_chart : ChartType

-- What `calculateChartPointsToShow` reads of a chart, and what it writes
pub record Drawing : Type 0 where
  pub entries : ℕ
  pub update_every : ℕ
  pub width : ℕ
  pub chart_type : ChartType
  pub group : ℕ
  pub points_to_show : ℕ
  pub line_width : ℕ
  pub curved : Bool  -- `curveType` is `default_curveType`, not 'none'.
  pub gridlines : ℕ

-- `Math.round(a / b)` for `b` above 0
abbrev pub round : ℕ → ℕ → ℕ
round a b = (2 * a + b) / (2 * b)

-- `if(!x) x = other`
abbrev pub or_else : ℕ → ℕ → ℕ
or_else zero other = other
or_else (suc n) other = suc n

-- The groups of points that the server is asked for
unfoldable pub even_group : ℕ → ℕ
even_group g =
    if ltb 60 g
    then 90
    else if ltb 45 g
    then 60
    else if ltb 30 g
    then 45
    else if ltb 20 g
    then 30
    else if ltb 15 g
    then 20
    else if ltb 10 g
    then 15
    else if ltb 5 g
    then 10
    else if ltb 4 g
    then 5
    else if ltb 3 g
    then 4
    else if ltb 2 g
    then 3
    else if ltb 1 g
    then 2
    else 1

-- The group and the points; no group asked for, or one not above zero, is 0.
unfoldable pub points_of : (group data_points screen_points : ℕ) → ℕ × ℕ
points_of zero data_points screen_points =
    if ltb data_points screen_points
    then (1, data_points)
    else let g = even_group (round data_points screen_points) in (g, round data_points g)
points_of (suc n) data_points screen_points = (suc n, round data_points (suc n))

-- `chartOptions.lineWidth`: a third or half of the width is compared without rounding.
unfoldable pub line_width_of : ChartType → (points width now : ℕ) → ℕ
line_width_of line_chart points width now = if ltb width (3 * points) then 1 else 2
line_width_of area_chart points width now = if ltb width (2 * points) then 0 else 1
line_width_of other_chart points width now = now

-- `calculateChartPointsToShow(c, divisor, maxtime, group, enable_curve)`, for `update_every` above 0. What it computes
-- of `before` and `after` it overwrites.
unfoldable pub calculate_points_to_show :
    (divisor maxtime group : ℕ) → (enable_curve : Bool) → Drawing → Drawing
calculate_points_to_show divisor maxtime group enable_curve c =
    let time = or_else maxtime (c.entries * c.update_every) in
    let data_points = or_else (round time c.update_every) 100 in
    let screen_points = or_else (round c.width (or_else divisor 2)) 100 in
    let (g, points) = points_of group data_points screen_points in
    let line = line_width_of c.chart_type points c.width c.line_width in
    let hpoints = round time 30 in
    record c {
      group = g;
      points_to_show = points;
      line_width = line;
      curved = enable_curve && not (ltb (c.width * line) (2 * points));
      gridlines = if ltb 10 hpoints then 10 else hpoints;
    }

-- A group that is chosen is at most 90, and none is empty.
even_group-range :
    (g : ℕ) → (0 < even_group g) × ((even_group g ≤ 90) × (g ≤ 60 → g ≤ even_group g))
unfolding even_group
even_group-range g = ground arith

-- Rounding is off by half a unit at most.
round-near :
    (a b : ℕ) → 0 < b → (2 * (b * round a b) ≤ 2 * a + b) × (2 * a < 2 * (b * round a b) + b)
round-near a b h =
    let e = div-add-mod (2 * a + b) (2 * b) in
    let l = mod-lt (2 * a + b) {m = 2 * b} (omega arith) in
    (omega (arith, e, l), omega (arith, e, l))

-- The points stand for the data up to half a group, and the group is not empty.
pub points_of-covers :
    (group data_points screen_points : ℕ)
    → let (g, points) = points_of group data_points screen_points in
      (0 < g)
      × ((2 * (g * points) ≤ 2 * data_points + g) × (2 * data_points < 2 * (g * points) + g))
unfolding points_of
points_of-covers zero d s =
    let g = even_group (round d s) in
    let h = (even_group-range (round d s)).0 in
    let (a, b) = round-near d g h in
    elim (Bool-cases (ltb d s)) [
      | inl e ↦ rw e (omega arith, (omega arith, omega arith))
      | inr e ↦ rw e (h, (a, b))
    ]
points_of-covers (suc n) d s =
    let (a, b) = round-near d (suc n) (omega arith) in (omega arith, (a, b))
