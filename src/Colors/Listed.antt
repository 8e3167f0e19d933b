-- ===== src/Colors/Listed.antt =====
-- The list of the colours of a chart, and the colours of its dimensions (portal/dashboard.js,
-- `__chartDimensionColor` and `legendUpdateDOM`).
use mathlib.Core.List.{append-nil, append_assoc}
use lmiced.Prelude.{
  ℕ, zero, suc, ◌<◌, ◌≡◌, refl, ◌∙◌, sym, ap, subst, true, List, [], ◌∷◌, ◌++◌, map, none, some,
  length, get_elem?, All, arith, Option-cases, inl, inr,
}
use lmiced.Prelude.Dict.{Identity, lookup, lookup-insert_self}
use lmiced.Colors.{
  Palette, Theme, or_empty, prepare_color_palette, refill, assign, take_color, dimension_color,
  dimension_colors, legend_update_colors,
}
use lmiced.Colors.Assigned.{
  AreDifferent, prepared, prepare-custom, take_known, dimensions-keep, List-seen, first_colors,
}

get_elem?-some :
    {A : Type 0} (xs : List A) (i : ℕ) → i < length xs → (x : A) × (get_elem? xs i ≡ some x)
get_elem?-some [] i h = absurd (omega arith)
get_elem?-some (x ∷ xs) zero h = (x, refl)
get_elem?-some (x ∷ xs) (suc i) h = get_elem?-some xs i (omega arith)

module _ {K C : Type 0} ⦃e : Identity K⦄ (t : Theme C) (b : C) (bs : List C)
    (full : t.colors ≡ b ∷ bs) where
  refill-cons : (p : Palette K C) → (c : C) × (cs : List C) × (refill t p ≡ c ∷ cs)
  unfolding refill
  refill-cons p = elim (List-seen p.colors_available) [
    | inl z ↦ (
      b,
      bs ++ or_empty p.colors_custom,
      rw (z, refill) (ap (λ x. x ++ or_empty p.colors_custom) full),
    )
    | inr (c, cs, z) ↦ (c, cs, rw (z, refill) refl)
  ]

  -- What one call adds
  record IsListed (label : K) (q r : Palette K C) : Type 0 where
    color : C
    assigned : lookup label r.colors_assigned ≡ some color
    listed : or_empty r.colors ≡ or_empty q.colors ++ some color ∷ []
    custom : r.colors_custom ≡ q.colors_custom

  take-IsListed : (label : K) (q : Palette K C) → IsListed label q (take_color t label q).1
  unfolding take_color assign
  take-IsListed label q = elim (Option-cases (lookup label q.colors_assigned)) [
    | inr (c, n) ↦
        subst (λ x. IsListed label q x.1) (sym (take_known t label c q n))
          record { color = c; assigned = n; listed = refl; custom = refl }
    | inl n ↦
        let (c, cs, z) = refill-cons q in
        rw (n, take_color, z)
          record {
            color = c;
            assigned = lookup-insert_self label c q.colors_assigned;
            listed = refl;
            custom = refl;
          }
  ]

  -- Nothing is listed that the preparation would forget.
  abbrev Holds : Palette K C → Type 0
  Holds p = or_empty (prepare_color_palette t p).colors ≡ or_empty p.colors

  listed_colors :
      (labels : List K) (p : Palette K C)
      → Holds p
      → (let q = dimension_colors t labels p in
          or_empty q.colors ≡ or_empty p.colors ++ map (λ l. lookup l q.colors_assigned) labels)
  unfolding dimension_colors dimension_color
  listed_colors [] p h = sym (append-nil (or_empty p.colors))
  listed_colors (l ∷ ls) p h =
      let r = (dimension_color t l p).1 in
      let i : IsListed l (prepare_color_palette t p) r =
        take-IsListed l (prepare_color_palette t p) in
      let (u, k) = prepare-custom t p in
      let hold : Holds r = ap (λ x. or_empty x.colors) (prepared t r u (i.custom ∙ k)) in
      let kept = dimensions-keep t ls l i.color r i.assigned in
      listed_colors ls r hold
      ∙ ap (λ x. x ++ map (λ j. lookup j (dimension_colors t ls r).colors_assigned) ls)
          (i.listed ∙ ap (λ x. x ++ some i.color ∷ []) h)
      ∙ append_assoc (or_empty p.colors) (some i.color ∷ []) _
      ∙ ap
          (λ o.
            or_empty p.colors
            ++ o ∷ map (λ j. lookup j (dimension_colors t ls r).colors_assigned) ls)
          (sym kept)

  Holds-empty : (p : Palette K C) → or_empty p.colors ≡ [] → Holds p
  unfolding prepare_color_palette
  Holds-empty p h = elim (Option-cases p.colors_custom) [
    | inl n ↦ rw (n, prepare_color_palette) (sym h)
    | inr (u, n) ↦ ap (λ q. or_empty q.colors) (prepared t p u n)
  ]

  -- The palette of a chart that has no legend yet
  abbrev pub fresh_palette : Palette K C
  fresh_palette = record {
    colors = none;
    colors_assigned = [];
    colors_available = [];
    colors_custom = none;
  }

  all_none : (ls : List K) → All (λ l. lookup {V = C} l [] ≡ none) ls
  unfolding lookup
  all_none [] = tt
  all_none (l ∷ ls) = (refl, all_none ls)

  prepared_first :
      (l : K) (ls : List K) (p : Palette K C)
      → dimension_colors t (l ∷ ls) (prepare_color_palette t p) ≡ dimension_colors t (l ∷ ls) p
  unfolding dimension_colors dimension_color
  prepared_first l ls p =
      let (u, k) = prepare-custom t p in
      ap (λ x. dimension_colors t ls (take_color t l x).1)
        (prepared t (prepare_color_palette t p) u k)

  first_legend :
      (dimensions : List K) (i : ℕ) (l : K)
      → AreDifferent dimensions
      → get_elem? dimensions i ≡ some l
      → i < length (t.custom ++ t.colors)
      → lookup l (dimension_colors t dimensions fresh_palette).colors_assigned
        ≡ get_elem? (t.custom ++ t.colors) i
  unfolding prepare_color_palette
  first_legend [] i l d a lt = absurd (grind arith)
  first_legend (k ∷ ks) i l d a lt =
      sym (ap (λ q. lookup l q.colors_assigned) (prepared_first k ks fresh_palette))
      ∙ first_colors t (k ∷ ks) (prepare_color_palette t fresh_palette) t.custom refl d
          (all_none (k ∷ ks)) i l a lt

  -- The first legend of a chart gives its dimensions, in their order and whatever labels the data has, the colours
  -- of the user and then those of the theme, as far as there are enough; and the chart's colours
  -- are those of the labels of its data, in their order. The dimensions are different, the theme
  -- has a colour and the library tracks colours.
  pub legend_update_colors-dimensions :
      (dimensions labels : List K)
      → AreDifferent dimensions
      → (let q = legend_update_colors t true true dimensions labels fresh_palette in
          ((i : ℕ) (l : K)
            → get_elem? dimensions i ≡ some l
            → i < length (t.custom ++ t.colors)
            → lookup l q.colors_assigned ≡ get_elem? (t.custom ++ t.colors) i)
          × (or_empty q.colors ≡ map (λ l. lookup l q.colors_assigned) labels))
  unfolding legend_update_colors
  legend_update_colors-dimensions dimensions labels d =
      let q = dimension_colors t dimensions fresh_palette in
      (
        λ i l a lt.
            let h = first_legend dimensions i l d a lt in
            let (c, g) = get_elem?-some (t.custom ++ t.colors) i lt in
            dimensions-keep t labels l c (record q { colors = some [] }) (h ∙ g) ∙ sym g,
        listed_colors labels (record q { colors = some [] })
            (Holds-empty (record q { colors = some [] }) refl),
      )
