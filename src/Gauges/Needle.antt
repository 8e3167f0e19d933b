-- ===== src/Gauges/Needle.antt =====
-- Where the needle of a gauge stands (portal/dashboard.js, `gaugeSet`).
use lmiced.Prelude.{ℕ, ◌*◌, ◌<◌, Option, if◌then◌else◌}
use lmiced.Prelude.Int.{ℤ, pos, pos_part, ◌-ℤ◌, ltb_ℤ, ◌≤ℤ◌, ◌<ℤ◌, scale, int_laws, scale_laws}
use lmiced.Gauges.{Fraction, or_zero, Set, keep_inside, order_range, gauge_set}

pub record IsInside (s : Set) : Type 0 where
  pub holds : (s.min ≤ℤ s.value) × (s.value ≤ℤ s.max)
  pub ranges : s.min <ℤ s.max
  pub least : pos s.percent.den ≤ℤ scale 1_000 s.percent.num
  pub most : scale 1_000 s.percent.num ≤ℤ pos (99_999 * s.percent.den)

keep_inside-bounds :
    (p : Fraction)
    → (pos (keep_inside p).den ≤ℤ scale 1_000 (keep_inside p).num)
      × (scale 1_000 (keep_inside p).num ≤ℤ pos (99_999 * (keep_inside p).den))
unfolding keep_inside
keep_inside-bounds p = grind scale_laws

order_range-holds :
    (one : ℕ) (v lo hi : ℤ)
    → 0 < one
    → lo ≤ℤ v
    → v ≤ℤ hi
    → ((order_range one lo hi).0 ≤ℤ v)
      × (v ≤ℤ (order_range one lo hi).1)
      × ((order_range one lo hi).0 <ℤ (order_range one lo hi).1)
unfolding order_range
order_range-holds one v lo hi o a b = grind scale_laws

stretched :
    (v lo hi : ℤ) → ((if ltb_ℤ v lo then v else lo) ≤ℤ v) × (v ≤ℤ (if ltb_ℤ hi v then v else hi))
stretched v lo hi = grind int_laws

-- Whatever a gauge is given, numbers in any order or none, its needle stands between 0.001 and 99.999 percent of
-- a range that is not empty and holds the value.
pub gauge_set-IsInside :
    (one : ℕ) (value min max : Option ℤ) → 0 < one → IsInside (gauge_set one value min max)
unfolding gauge_set
gauge_set-IsInside one value min max o =
    let v = or_zero value in
    let hi = (if ltb_ℤ (or_zero max) v then v else or_zero max) in
    let lo = (if ltb_ℤ v (or_zero min) then v else or_zero min) in
    let (a, b) = order_range one lo hi in
    let (l, h) = stretched v (or_zero min) (or_zero max) in
    let (p, q, r) = order_range-holds one v lo hi o l h in
    let (least, most) =
      keep_inside-bounds (record { num = scale 100 (v -ℤ a); den = pos_part (b -ℤ a) }) in
    record { holds = (p, q); ranges = r; least = least; most = most }
