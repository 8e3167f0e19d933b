-- ===== src/Chart/Pan/Bounds.antt =====
-- The range that `updateChartPanOrZoom` makes of the one that it is asked for
-- (portal/dashboard.js).
use lmiced.Prelude.{
  ap, ℕ, ◌+◌, ◌*◌, ◌/◌, ◌%◌, ◌-◌, ◌<◌, ◌≡◌, refl, ◌≢◌, ◌∙◌, ◌⊎◌, Bool, true, false, some, arith,
  Bool-cases, ◌&&◌, &&_false, inl, inr,
}
use lmiced.Prelude.Int.{
  ℤ, pos, ◌+ℤ◌, ◌-ℤ◌, ◌≤ℤ◌, ◌<ℤ◌, scale, round_div, rem, ltb_ℤ, ltb_ℤ_false→le, nonneg-pos,
  round_half_pos, -ℤ_parts, -ℤ_pos, int_laws, scale_laws,
}
use native.Mathlib.Nat.{mul-mod_right, add-mod_right, mod-lt, div-add-mod}
use lmiced.Chart.{Chart, Env, auto, forced}
use lmiced.Chart.Life.{set_mode}
use lmiced.Chart.Pan.{
  force_range, apply_outcome, Outcome, rejected, moved, align_after, align_before, allowed_duration,
  decide_range, too_close, pan_range, update_chart_pan_or_zoom, min_duration_of,
}

mod_of_floor : (m d : ℕ) → 0 < d → (m - m % d) % d ≡ 0
mod_of_floor m d h =
    let e : m - m % d ≡ d * (m / d) = omega (arith, div-add-mod m d) in
    rw e (mul-mod_right d (m / d))

-- On times that are not negative the range is stretched outwards, to multiples of `every`, by at most
-- `every` on each side; an end that is aligned already is stretched on the right alone.
abbrev IsAfter : ℕ → ℤ → ℤ → Type 0
IsAfter every after aligned =
    (rem aligned every ≡ pos 0) × (aligned ≤ℤ after) × (after <ℤ aligned +ℤ pos every)

abbrev IsBefore : ℕ → ℤ → ℤ → Type 0
IsBefore every before aligned =
    (rem aligned every ≡ pos 0) × (before <ℤ aligned) × (aligned ≤ℤ before +ℤ pos every)

floor-IsAfter : (every m : ℕ) → 0 < every → IsAfter every (pos m) (pos m -ℤ rem (pos m) every)
unfolding rem
floor-IsAfter every m h =
    rw (-ℤ_pos m (m % every) (omega arith))
      (ap pos (mod_of_floor m every h), omega arith, omega (int_laws, mod-lt m h))

align_after_lem :
    (every : ℕ) (x : ℤ)
    → 0 < every
    → pos 0 ≤ℤ x
    → IsAfter every (round_div x 2) (align_after every x)
unfolding align_after
align_after_lem every x h p =
    let (n, e) = nonneg-pos x p in rw (e, round_half_pos n) (floor-IsAfter every ((n + 1) / 2) h)

ceil-IsBefore :
    (every m : ℕ) → 0 < every → IsBefore every (pos m) (pos m +ℤ (pos every -ℤ rem (pos m) every))
unfolding rem
ceil-IsBefore every m h =
    let k = m % every in
    let below : k < every = mod-lt m h in
    let e : pos m +ℤ (pos every -ℤ pos k) ≡ pos (m - k + every) = omega int_laws in
    rw e
      (ap pos (add-mod_right (m - k) every ∙ mod_of_floor m every h), omega arith, omega int_laws)

align_before_lem :
    (every : ℕ) (x : ℤ)
    → 0 < every
    → pos 0 ≤ℤ x
    → IsBefore every (round_div x 2) (align_before every x)
unfolding align_before
align_before_lem every x h p =
    let (n, e) = nonneg-pos x p in rw (e, round_half_pos n) (ceil-IsBefore every ((n + 1) / 2) h)

abbrev pub IsWide : ℤ → ℤ → Outcome → Type 0
IsWide current allowed rejected = Unit {0}
IsWide current allowed (moved a b exact) = (scale 2 current ≤ℤ b -ℤ a) ⊎ (scale 2 allowed ≤ℤ b -ℤ a)

allowed_le : (every : ℕ) (fixed current : ℤ) → allowed_duration every fixed current ≤ℤ fixed
unfolding allowed_duration
allowed_le every fixed current = ground (arith, -ℤ_parts current (pos every))

decide_duration :
    (every : ℕ) (fixed current view_before after before : ℤ)
    → IsWide current
        (allowed_duration every fixed current)
        (decide_range every fixed current view_before after before)
unfolding decide_range
decide_duration every fixed current view_before after before =
    let wanted = before -ℤ after in
    let allowed = allowed_duration every fixed current in
    elim (Bool-cases (ltb_ℤ wanted current && ltb_ℤ wanted allowed)) [
      | inl h ↦ rw h (inr (omega (scale_laws, allowed_le every fixed current)))
      | inr h ↦ rw h (elim (Bool-cases (too_close every current wanted before view_before)) [
        | inl t ↦ rw t tt
        | inr t ↦ rw t (elim (&&_false (ltb_ℤ wanted current) (ltb_ℤ wanted allowed) h) [
          | inl n ↦ inl (omega (scale_laws, ltb_ℤ_false→le wanted current n))
          | inr n ↦ inr (omega (scale_laws, ltb_ℤ_false→le wanted allowed n))
        ])
      ])
    ]

-- What a forced range must be, against the range asked for: an exact one is the aligned range, which
-- contains the one asked for; another is centred where the aligned range is and is the chart's fixed
-- minimum wide.
abbrev pub IsFitting : ℕ → ℤ → ℤ → ℤ → Outcome → Type 0
IsFitting every fixed after before rejected = Unit {0}
IsFitting every fixed after before (moved a b true) =
    (a ≡ scale 2 (align_after every after))
    × (b ≡ scale 2 (align_before every before))
    × IsAfter every (round_div after 2) (align_after every after)
    × IsBefore every (round_div before 2) (align_before every before)
IsFitting every fixed after before (moved a b false) =
    (a +ℤ b ≡ scale 2 (align_after every after +ℤ align_before every before))
    × (b -ℤ a ≡ scale 2 fixed)

decide-IsFitting :
    (every : ℕ) (fixed current view_before after before : ℤ)
    → 0 < every
    → pos 0 ≤ℤ after
    → pos 0 ≤ℤ before
    → IsFitting every fixed after before (
        decide_range every fixed current view_before
          (align_after every after)
          (align_before every before))
unfolding decide_range
decide-IsFitting every fixed current view_before after before h p q =
    let a = align_after every after in
    let b = align_before every before in
    let wanted = b -ℤ a in
    elim (Bool-cases
      (ltb_ℤ wanted current && ltb_ℤ wanted (allowed_duration every fixed current))) [
        | inl n ↦ rw n (omega scale_laws, omega scale_laws)
        | inr n ↦ rw n (elim (Bool-cases (too_close every current wanted b view_before)) [
          | inl t ↦ rw t tt
          | inr t ↦
              rw t (refl, refl, align_after_lem every after h p, align_before_lem every before h q)
        ])
      ]

module _ (e : Env) (update_every : ℕ) (after before : ℤ) (c : Chart) where
  -- A request whose ends are not negative, on a chart with data, is rejected or answered by a range
  -- that fits: the range asked for, stretched outwards to multiples of `data_update_every` by less
  -- than one multiple on the left and at most one on the right, or one of exactly the fixed minimum
  -- duration around the middle of that. No accepted range is narrower than both the range shown and
  -- the least duration allowed.
  pub pan-IsFitting :
      0 < c.range.data_update_every
      → pos 0 ≤ℤ after
      → pos 0 ≤ℤ before
      → IsFitting c.range.data_update_every
          (min_duration_of update_every c)
          after
          before
          (update_chart_pan_or_zoom e update_every after before c).1
        × IsWide
            (c.range.view_before -ℤ c.range.view_after)
            (allowed_duration c.range.data_update_every
              (min_duration_of update_every c)
              (c.range.view_before -ℤ c.range.view_after))
            (update_chart_pan_or_zoom e update_every after before c).1
  unfolding update_chart_pan_or_zoom
  pan-IsFitting h p q = elim (Bool-cases (ltb_ℤ before after)) [
    | inl n ↦ rw n (tt, tt)
    | inr n ↦ rw n (
      decide-IsFitting c.range.data_update_every (min_duration_of update_every c) _ _ after before h
          p q,
      decide_duration c.range.data_update_every (min_duration_of update_every c) _ _ _ _,
    )
  ]

abbrev pub Leaves : Env → Chart → Chart × Outcome → Type 0
Leaves e c (d, rejected) = (d.current ≡ c.current) × (forced d ≡ forced c)
Leaves e c (d, moved a b exact) =
    (d.current ≢ auto)
    × (forced d ≡ record {
      force_update_at = e.now + e.pan_and_zoom_delay;
      force_before = some b;
      force_after = some a;
    })
    × (d.auto_mode ≡ c.auto_mode)

abbrev pub Keeps : Chart → Chart → Type 0
Keeps c d = (d.range.view_after ≡ c.range.view_after) × (d.range.view_before ≡ c.range.view_before)

force_range_lem :
    (e : Env) (a b : ℤ) (exact : Bool) (c : Chart)
    → Leaves e c (force_range e a b c, moved a b exact) × Keeps c (force_range e a b c)
unfolding force_range set_mode
force_range_lem e a b exact c = ground arith

apply_outcome_lem :
    (e : Env) (r : Outcome) (c : Chart)
    → Leaves e c (apply_outcome e r c, r) × Keeps c (apply_outcome e r c)
unfolding apply_outcome
apply_outcome_lem e rejected c = ((refl, refl), (refl, refl))
apply_outcome_lem e (moved a b exact) c = force_range_lem e a b exact c

-- What the call leaves of the chart: a rejected request changes neither its mode nor what is
-- forced; an accepted one leaves the mode `pan` or `zoom`, with the range and the time of the next
-- update forced there and not on the mode `auto`. The range that is shown stays as it is either way.
pub pan-Leaves :
    (e : Env) (update_every : ℕ) (after before : ℤ) (c : Chart)
    → Leaves e c (update_chart_pan_or_zoom e update_every after before c)
      × Keeps c (update_chart_pan_or_zoom e update_every after before c).0
unfolding update_chart_pan_or_zoom
pan-Leaves e update_every after before c = elim (Bool-cases (ltb_ℤ before after)) [
  | inl n ↦ rw n ((refl, refl), (refl, refl))
  | inr n ↦ rw n (apply_outcome_lem e (pan_range e update_every after before c) _)
]
