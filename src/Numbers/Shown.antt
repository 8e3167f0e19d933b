-- ===== src/Numbers/Shown.antt =====
-- The text of a value in the legend (portal/dashboard.js, `legendFormatValueDecimalsFromMinMax` with
-- `legendFormatValue`).
use lmiced.Prelude.{
  ℕ, ◌≡◌, refl, ◌∙◌, sym, ap, true, Option, none, some, nat_beq_iff, &&_true, arith, Bool-cases,
  Option-cases, inl, inr,
}
use lmiced.Prelude.Int.{ℤ, eqb_ℤ, eqb_ℤ_iff}
use lmiced.Numbers.{
  Browser, make, Formats, choose, value_decimals, Decimals, Detail, decide_decimals, same_range,
  same_decimals, choose_format, decimals_from_min_max, format_value,
}
use lmiced.Numbers.Cached.{IsKept, get-make}

same_decimals→≡ : (m n : Option ℕ) → same_decimals m n ≡ true → m ≡ n
unfolding same_decimals
same_decimals→≡ none none h = refl
same_decimals→≡ none (some n) h = absurd (grind arith)
same_decimals→≡ (some m) none h = absurd (grind arith)
same_decimals→≡ (some m) (some n) h = ap some ((nat_beq_iff m n).0 h)

same_range→≡ :
    (l : Option (ℤ × ℤ)) (min max : ℤ) → same_range l min max ≡ true → l ≡ some (min, max)
unfolding same_range
same_range→≡ none min max h = absurd (grind arith)
same_range→≡ (some (a, b)) min max h =
    let (p, q) = &&_true (eqb_ℤ min a) (eqb_ℤ max b) h in
    let e = (eqb_ℤ_iff min a).0 p in let f = (eqb_ℤ_iff max b).0 q in cc (e, f)

module _ {V T : Type 0} (b : Browser V T) (x : Detail) where
  -- The format for so many decimals, none where the value decides
  abbrev pub format_for : Option ℕ → Option (V → T)
  format_for none = none
  format_for (some n) = some (make b (choose b) n n)

  -- The legend's variables belong together, and were computed under this detail of the chart.
  pub record IsShown (d : Decimals V T) : Type 0 where
    pub formats : d.format ≡ format_for d.decimals
    pub decides : (min max : ℤ) → d.last ≡ some (min, max) → d.decimals ≡ decide_decimals x min max

  -- The text of a value, given the decimals for the range
  abbrev pub text_with : Option ℕ → (V → ℕ) → V → T
  text_with (some n) magnitude v = make b (choose b) n n v
  text_with none magnitude v =
      let (least, most) = value_decimals x.decimal_detail (magnitude v) in
      make b (choose b) least most v

  chosen_format :
      (old : Option ℕ) (d : Decimals V T) (s : Formats V T)
      → d.format ≡ format_for old
      → IsKept b s
      → ((choose_format b old d s).0.format ≡ format_for d.decimals)
        × ((choose_format b old d s).0.decimals ≡ d.decimals)
        × ((choose_format b old d s).0.last ≡ d.last)
        × IsKept b (choose_format b old d s).1
  unfolding choose_format
  chosen_format old d s f k = elim (Bool-cases (same_decimals d.decimals old)) [
    | inl e ↦
        rw (e, choose_format)
          (f ∙ ap format_for (sym (same_decimals→≡ d.decimals old e)), refl, refl, k)
    | inr e ↦ elim (Option-cases d.decimals) [
      | inl n ↦ rw (e, n, choose_format) (refl, n, refl, k)
      | inr (n, q) ↦
          let (g, k') = get-make b n n s k in rw (e, q, choose_format) (ap some g, q, refl, k')
    ]
  ]

  -- The legend's variables after a range was told, and that they belong to it
  ranged :
      (min max : ℤ) (d : Decimals V T) (s : Formats V T)
      → IsShown d
      → IsKept b s
      → IsShown (decimals_from_min_max b x min max (d, s)).0
        × ((decimals_from_min_max b x min max (d, s)).0.decimals ≡ decide_decimals x min max)
        × IsKept b (decimals_from_min_max b x min max (d, s)).1
  unfolding decimals_from_min_max
  ranged min max d s h k = elim (Bool-cases (same_range d.last min max)) [
    | inl e ↦
        rw (e, decimals_from_min_max) (h, h.decides min max (same_range→≡ d.last min max e), k)
    | inr e ↦
        let d' : Decimals V T = record d {
          last = some (min, max);
          decimals = decide_decimals x min max;
        } in
        let (f, n, l, k') = chosen_format d.decimals d' s h.formats k in
        rw (e, decimals_from_min_max)
          (
            record {
              formats = f ∙ ap format_for (sym n);
              decides = λ a c q.
                  let r : some (min, max) ≡ some (a, c) = sym l ∙ q in
                  n ∙ ap (λ o. elim o [ none ↦ none | some (i, j) ↦ decide_decimals x i j ]) r;
            },
            n,
            k',
          )
  ]

  formatted :
      (dash : T) (magnitude : V → ℕ) (v : V) (o : Option ℕ) (d : Decimals V T) (s : Formats V T)
      → d.format ≡ format_for o
      → IsKept b s
      → ((format_value b dash x magnitude (some v) (d, s)).0 ≡ text_with o magnitude v)
        × IsKept b (format_value b dash x magnitude (some v) (d, s)).1
  unfolding format_value
  formatted dash magnitude v (some m) d s f k = rw (f, format_value) (refl, k)
  formatted dash magnitude v none d s f k =
      let (least, most) = value_decimals x.decimal_detail (magnitude v) in
      let (g, k') = get-make b least most s k in rw (f, format_value) (ap (λ z. z v) g, k')

  -- Once the legend was told the range of the values, a value has the text that it would have without the
  -- decimals, the formatter and the formatters of the page that were kept from before, and all of
  -- these stay right. What is kept of the last range must stem from the same detail of the chart.
  pub format_value-text_with :
      (dash : T) (magnitude : V → ℕ) (v : V) (min max : ℤ) (d : Decimals V T) (s : Formats V T)
      → IsShown d
      → IsKept b s
      → (let told = decimals_from_min_max b x min max (d, s) in
          let shown = format_value b dash x magnitude (some v) told in
          (shown.0 ≡ text_with (decide_decimals x min max) magnitude v)
          × IsShown told.0
          × IsKept b shown.1)
  format_value-text_with dash magnitude v min max d s h k =
      let (i, n, k') = ranged min max d s h k in
      let (t, k'') = formatted dash magnitude v _ _ _ (i.formats ∙ ap format_for n) k' in
      (t, i, k'')
