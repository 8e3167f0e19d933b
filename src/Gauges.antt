-- ===== src/Gauges.antt =====
-- The needle of a gauge and the arc of a pie (portal/dashboard.js): `gaugeSet` and
-- `easypiechartPercentFromValueMinMax`. Values are whole numbers of a unit, `one` of which make 1.
pub mod Needle
pub mod Arc
pub mod Events
pub mod Pies
mod Tests
use lmiced.Prelude.{
  ℕ, ◌*◌, Bool, true, false, not, ◌&&◌, Option, none, some, nat_beq, is_some, if◌then◌else◌,
}
use lmiced.Prelude.Int.{ℤ, pos, negsuc, pos_part, ◌+ℤ◌, ◌-ℤ◌, ltb_ℤ, leb_ℤ, eqb_ℤ, scale, round_div}

-- `if(typeof value !== 'number') value = 0`
abbrev pub or_zero : Option ℤ → ℤ
or_zero none = pos 0
or_zero (some a) = a

-- A quotient that is not rounded
pub record Fraction : Type 0 where
  pub num : ℤ
  pub den : ℕ

-- `pcent < 0.001` and `pcent > 99.999`
keep_inside : Fraction → Fraction
keep_inside p =
    if ltb_ℤ (scale 1_000 p.num) (pos p.den)
    then record { num = pos 1; den = 1_000 }
    else if ltb_ℤ (pos (99_999 * p.den)) (scale 1_000 p.num)
    then record { num = pos 99_999; den = 1_000 }
    else p

-- What `gaugeSet` gives to the drawing library, and `state.tmp.___gaugeOld__`.
pub record Set : Type 0 where
  pub percent : Fraction
  pub value : ℤ
  pub min : ℤ
  pub max : ℤ

-- `if(min > max)` and `else if(min === max)`
order_range : (one : ℕ) → ℤ → ℤ → ℤ × ℤ
order_range one min max =
    if ltb_ℤ max min
    then (max, min)
    else if eqb_ℤ min max
    then (min, min +ℤ pos one)
    else (min, max)

-- `NETDATA.gaugeSet(state, value, min, max)`
unfoldable pub gauge_set : (one : ℕ) → Option ℤ → Option ℤ → Option ℤ → Set
unfolding keep_inside order_range
gauge_set one value min max =
    let v = or_zero value in
    let hi = (if ltb_ℤ (or_zero max) v then v else or_zero max) in
    let lo = (if ltb_ℤ v (or_zero min) then v else or_zero min) in
    let (a, b) = order_range one lo hi in
    record {
      percent = keep_inside (record { num = scale 100 (v -ℤ a); den = pos_part (b -ℤ a) });
      value = v;
      min = a;
      max = b;
    }

-- The range of the values, made to hold the value and, where the user did not set them, zero
pie_range : (user_min user_max : Option ℤ) → (value min max : ℤ) → ℤ × ℤ
pie_range user_min user_max value min max =
    let (a, b) = (if ltb_ℤ max min then (max, min) else (min, max)) in
    let lo = (if ltb_ℤ value a then value else a) in
    let hi = (if ltb_ℤ b value then value else b) in
    (
      if not (is_some user_min) && ltb_ℤ (pos 0) lo then pos 0 else lo,
      if not (is_some user_max) && ltb_ℤ hi (pos 0) then pos 0 else hi,
    )

-- `Math.round(a / d)` in tenths of a percent; `other` replaces 0. `none` is NaN, for 0 / 0.
whole_percent : ℤ → ℕ → (other : ℤ) → Option ℤ
whole_percent a d other =
    if nat_beq d 0
    then none
    else let p = round_div (scale 100 a) d in some (if eqb_ℤ p (pos 0) then other else scale 10 p)

-- `NETDATA.easypiechartPercentFromValueMinMax(state, value, min, max)`, in tenths of a percent
unfoldable pub pie_percent :
    (user_min user_max : Option ℤ) → Option ℤ → Option ℤ → Option ℤ → Option ℤ
unfolding pie_range whole_percent
pie_percent user_min user_max value min max =
    let v = or_zero value in
    let (lo, hi) = pie_range user_min user_max v (or_zero min) (or_zero max) in
    if ltb_ℤ lo (pos 0) && ltb_ℤ (pos 0) hi
    then (let m = (if ltb_ℤ hi (pos 0 -ℤ lo) then pos 0 -ℤ lo else hi) in
        whole_percent v (pos_part m) (pos 0))
    else if leb_ℤ (pos 0) v && leb_ℤ (pos 0) lo && leb_ℤ (pos 0) hi
    then whole_percent (v -ℤ lo) (pos_part (hi -ℤ lo)) (pos 1)
    else whole_percent (v -ℤ hi) (pos_part (hi -ℤ lo)) (negsuc 0)
