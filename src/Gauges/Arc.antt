-- ===== src/Gauges/Arc.antt =====
-- The arc of a pie (portal/dashboard.js, `easypiechartPercentFromValueMinMax`).
use native.Mathlib.Nat.{div-lt_iff_lt-mul}
use lmiced.Prelude.{
  ℕ, ◌*◌, ◌/◌, ◌≤◌, ◌<◌, ◌≡◌, refl, ◌↔◌, ◌&&◌, Option, none, some, arith, nat_beq, nat_beq_iff,
  &&_true, sym, subst, if◌then◌else◌, Bool-cases, inl, inr,
}
use lmiced.Prelude.Int.{
  ℤ, pos, negsuc, pos_part, neg_part, ◌+ℤ◌, ◌-ℤ◌, ltb_ℤ, ltb_ℤ→lt, leb_ℤ, eqb_ℤ, ◌≤ℤ◌, ◌<ℤ◌, scale,
  round_div, floor_div, int_laws,
}
use lmiced.Gauges.{or_zero, pie_range, whole_percent, pie_percent}

-- Between -100 and 100 percent, counted in tenths
abbrev pub IsArc : Option ℤ → Type 0
IsArc none = Unit {0}
IsArc (some p) = (pos_part p ≤ 1_000) × (neg_part p ≤ 1_000)

floor_within :
    (y : ℤ) (k : ℕ)
    → 0 < k
    → pos_part y < 101 * k
    → neg_part y ≤ 100 * k
    → (pos_part (floor_div y k) ≤ 100) × (neg_part (floor_div y k) ≤ 100)
unfolding floor_div
floor_within (pos n) k h a b =
    let l : n / k < 101 = (div-lt_iff_lt-mul h).1 a in (omega arith, omega arith)
floor_within (negsuc n) k h a b =
    let l : n / k < 100 = (div-lt_iff_lt-mul h).1 (omega arith) in (omega arith, omega arith)

widened :
    (a : ℤ) (d : ℕ)
    → pos_part a ≤ d
    → neg_part a ≤ d
    → (pos_part (scale 2 (scale 100 a) +ℤ pos d) ≤ 201 * d)
      × (neg_part (scale 2 (scale 100 a) +ℤ pos d) ≤ 200 * d)
unfolding scale ◌+ℤ◌
widened (pos n) d p q = ground arith
widened (negsuc n) d p q = ground arith

round_within :
    (a : ℤ) (d : ℕ)
    → 0 < d
    → pos_part a ≤ d
    → neg_part a ≤ d
    → (pos_part (round_div (scale 100 a) d) ≤ 100) × (neg_part (round_div (scale 100 a) d) ≤ 100)
unfolding round_div
round_within a d h p n =
    let (p', n') = widened a d p n in
    floor_within (scale 2 (scale 100 a) +ℤ pos d) (2 * d) (omega arith) (omega arith) (omega arith)

tenths : (p : ℤ) → pos_part p ≤ 100 → neg_part p ≤ 100 → IsArc (some (scale 10 p))
unfolding scale
tenths p a b = ground arith

whole_percent-IsArc :
    (a : ℤ) (d : ℕ) (other : ℤ)
    → pos_part a ≤ d
    → neg_part a ≤ d
    → IsArc (some other)
    → IsArc (whole_percent a d other) × ((whole_percent a d other ≡ none) ↔ (d ≡ 0))
unfolding whole_percent
whole_percent-IsArc a d other p n o = elim (Bool-cases (nat_beq d 0)) [
  | inl e ↦ rw (e, whole_percent) (tt, ((λ h. (nat_beq_iff d 0).0 e), λ h. refl))
  | inr e ↦
      let (x, y) = round_within a d (ground (arith, e)) p n in
      rw (e, whole_percent)
        (elim (Bool-cases (eqb_ℤ (round_div (scale 100 a) d) (pos 0))) [
          | inl z ↦ rw z (o, ((λ h. absurd (grind arith)), λ h. absurd (grind arith)))
          | inr z ↦ rw z (tenths _ x y, ((λ h. absurd (grind arith)), λ h. absurd (grind arith)))
        ])
]

pie_range-holds :
    (user_min user_max : Option ℤ) (v min max : ℤ)
    → ((pie_range user_min user_max v min max).0 ≤ℤ v)
      × (v ≤ℤ (pie_range user_min user_max v min max).1)
unfolding pie_range
pie_range-holds user_min user_max v min max = grind int_laws

pie_range-empty :
    (v min max : ℤ)
    → ((pie_range none none v min max).0 ≡ (pie_range none none v min max).1)
      ↔ ((v ≡ pos 0) × ((min ≡ pos 0) × (max ≡ pos 0)))
unfolding pie_range
pie_range-empty v min max = grind int_laws

-- A distance and an end of a range that holds the value
distances :
    (v lo hi : ℤ)
    → lo ≤ℤ v
    → v ≤ℤ hi
    → ((pos_part (v -ℤ lo) ≤ pos_part (hi -ℤ lo)) × (neg_part (v -ℤ lo) ≤ pos_part (hi -ℤ lo)))
      × (((pos_part (v -ℤ hi) ≤ pos_part (hi -ℤ lo)) × (neg_part (v -ℤ hi) ≤ pos_part (hi -ℤ lo)))
          × ((pos_part (hi -ℤ lo) ≡ 0) ↔ (lo ≡ hi)))
unfolding ◌-ℤ◌
distances (pos v) (pos lo) (pos hi) a b = grind int_laws
distances (pos v) (negsuc lo) (pos hi) a b = grind int_laws
distances (negsuc v) (negsuc lo) (pos hi) a b = grind int_laws
distances (negsuc v) (negsuc lo) (negsuc hi) a b = grind int_laws
distances (pos v) lo (negsuc hi) a b = absurd (omega arith)
distances (negsuc v) (pos lo) hi a b = absurd (omega arith)

-- With a range on both sides of zero, the larger side counts.
sides :
    (v lo hi : ℤ)
    → lo ≤ℤ v
    → v ≤ℤ hi
    → lo <ℤ pos 0
    → pos 0 <ℤ hi
    → (let m = pos_part (if ltb_ℤ hi (pos 0 -ℤ lo) then pos 0 -ℤ lo else hi) in
        (pos_part v ≤ m) × ((neg_part v ≤ m) × (0 < m)))
unfolding ◌-ℤ◌
sides v lo hi a b c d = ground arith

ends_apart : (lo hi : ℤ) → lo ≡ hi → lo <ℤ pos 0 → pos 0 <ℤ hi → ⊥
ends_apart lo hi e a b =
    let c : lo <ℤ lo = subst (λ x. lo <ℤ x) (sym e) (omega arith) in omega arith

-- The percentage for a range that holds the value
branches-IsArc :
    (v lo hi : ℤ)
    → lo ≤ℤ v
    → v ≤ℤ hi
    → (let p =
          (if ltb_ℤ lo (pos 0) && ltb_ℤ (pos 0) hi
            then whole_percent v
                (pos_part (if ltb_ℤ hi (pos 0 -ℤ lo) then pos 0 -ℤ lo else hi))
                (pos 0)
            else if leb_ℤ (pos 0) v && leb_ℤ (pos 0) lo && leb_ℤ (pos 0) hi
            then whole_percent (v -ℤ lo) (pos_part (hi -ℤ lo)) (pos 1)
            else whole_percent (v -ℤ hi) (pos_part (hi -ℤ lo)) (negsuc 0)) in
        IsArc p × ((p ≡ none) ↔ (lo ≡ hi)))
branches-IsArc v lo hi a b =
    let ((p, n), ((q, m), e)) = distances v lo hi a b in
    elim (Bool-cases (ltb_ℤ lo (pos 0) && ltb_ℤ (pos 0) hi)) [
      | inl s ↦
          let (x, y) = &&_true (ltb_ℤ lo (pos 0)) (ltb_ℤ (pos 0) hi) s in
          let (f, (g, k)) = sides v lo hi a b (ltb_ℤ→lt lo (pos 0) x) (ltb_ℤ→lt (pos 0) hi y) in
          let (r, z) =
            whole_percent-IsArc v (pos_part (if ltb_ℤ hi (pos 0 -ℤ lo) then pos 0 -ℤ lo else hi))
              (pos 0) f g (omega arith, omega arith) in
          rw s (
            r,
            (
              (λ h. absurd (omega (arith, z.0 h, k))),
              λ h. absurd (ends_apart lo hi h (ltb_ℤ→lt lo (pos 0) x) (ltb_ℤ→lt (pos 0) hi y)),
            ),
          )
      | inr s ↦ rw s (elim (Bool-cases (leb_ℤ (pos 0) v && leb_ℤ (pos 0) lo && leb_ℤ (pos 0) hi)) [
        | inl t ↦
            let (r, z) =
              whole_percent-IsArc (v -ℤ lo) (pos_part (hi -ℤ lo)) (pos 1) p n
                (omega arith, omega arith) in
            rw t (r, ((λ h. e.0 (z.0 h)), λ h. z.1 (e.1 h)))
        | inr t ↦
            let (r, z) =
              whole_percent-IsArc (v -ℤ hi) (pos_part (hi -ℤ lo)) (negsuc 0) q m
                (omega arith, omega arith) in
            rw t (r, ((λ h. e.0 (z.0 h)), λ h. z.1 (e.1 h)))
      ])
    ]

-- The percentage of a pie lies between -100 and 100, whatever it is given. Where the user set neither end
-- of the range, it is no number exactly if the value and both ends are zero or no numbers.
pub pie_percent-IsArc :
    (user_min user_max value min max : Option ℤ)
    → IsArc (pie_percent user_min user_max value min max)
      × ((pie_percent none none value min max ≡ none)
          ↔ ((or_zero value ≡ pos 0) × ((or_zero min ≡ pos 0) × (or_zero max ≡ pos 0))))
unfolding pie_percent
pie_percent-IsArc user_min user_max value min max =
    let v = or_zero value in
    let r = pie_range user_min user_max v (or_zero min) (or_zero max) in
    let (a, b) = pie_range-holds user_min user_max v (or_zero min) (or_zero max) in
    let s = pie_range none none v (or_zero min) (or_zero max) in
    let (c, d) = pie_range-holds none none v (or_zero min) (or_zero max) in
    let e = pie_range-empty v (or_zero min) (or_zero max) in
    let f = (branches-IsArc v s.0 s.1 c d).1 in
    ((branches-IsArc v r.0 r.1 a b).0, ((λ h. e.0 (f.0 h)), λ h. f.1 (e.1 h)))
