-- ===== src/Colors.antt =====
-- The colours of a chart's dimensions (portal/dashboard.js): `chartPrepareColorPalette`,
-- `__chartDimensionColor`, `chartCustomColors`, `chartColors`, and what `legendUpdateDOM` does to them.
-- Labels and colours are of any types.
pub mod Assigned
pub mod Listed
mod Tests
use lmiced.Prelude.{
  Bool, true, false, not, ◌&&◌, List, [], ◌∷◌, ◌++◌, map, Option, none, some, is_some,
  if◌then◌else◌,
}
use lmiced.Prelude.Dict.{Identity, Dict, lookup, insert}

-- `colors`, `colors_assigned`, `colors_available` and `colors_custom` of the chart. `undefined` is a
-- colour in `colors` only: where it is assigned, it reads as if nothing was.
pub record Palette (K C : Type 0) : Type 0 where
  pub colors : Option (List (Option C))
  pub colors_assigned : Dict K C
  pub colors_available : List C
  pub colors_custom : Option (List C)

-- `NETDATA.themes.current.colors`, and the attribute `data-colors`, empty where there is none
pub record Theme (C : Type 0) : Type 0 where
  pub colors : List C
  pub custom : List C

abbrev pub or_empty : {A : Type 0} → Option (List A) → List A
or_empty none = []
or_empty (some xs) = xs

module _ {K C : Type 0} where
  -- `chartPrepareColorPalette()`
  unfoldable pub prepare_color_palette : Theme C → Palette K C → Palette K C
  prepare_color_palette t p = elim p.colors_custom [
    | some c ↦ p
    | none ↦ record p {
      colors = some [];
      colors_available = t.custom ++ t.colors;
      colors_custom = some t.custom;
    }
  ]

  -- `if(this.colors_available.length === 0)`: the custom colours are put there, and the colours of the
  -- theme before them.
  unfoldable pub refill : Theme C → Palette K C → List C
  refill t p = elim p.colors_available [
    | [] ↦ t.colors ++ or_empty p.colors_custom
    | c ∷ cs ↦ c ∷ cs
  ]

  -- `this.colors.push(color)`
  abbrev pub push_color : Option C → Palette K C → Palette K C
  push_color c p = record p { colors = some (or_empty p.colors ++ c ∷ []) }

  module _ ⦃e : Identity K⦄ where
    -- `colors_assigned[label] = colors_available.shift()`
    unfoldable pub assign : K → List C → Palette K C → Option C × Palette K C
    assign label [] p = (none, record p { colors_available = [] })
    assign label (c ∷ cs) p = (
      some c,
      record p { colors_available = cs; colors_assigned = insert label c p.colors_assigned },
    )

    -- `__chartDimensionColor(label)` after the palette is prepared
    unfoldable pub take_color : Theme C → K → Palette K C → Option C × Palette K C
    take_color t label q = elim (lookup label q.colors_assigned) [
      | some c ↦ (some c, push_color (some c) q)
      | none ↦ let (c, r) = assign label (refill t q) q in (c, push_color c r)
    ]

    -- `__chartDimensionColor(label)`
    unfoldable pub dimension_color : Theme C → K → Palette K C → Option C × Palette K C
    dimension_color t label p = take_color t label (prepare_color_palette t p)

    unfoldable pub dimension_colors : Theme C → List K → Palette K C → Palette K C
    dimension_colors t [] p = p
    dimension_colors t (label ∷ labels) p = dimension_colors t labels (dimension_color t label p).1

    -- `legendUpdateDOM()` for the dimensions of the chart and the labels of its data, where the legend is made
    -- anew (`needed`).
    unfoldable pub legend_update_colors :
        Theme C
        → (needed track_colors : Bool) → (dimensions labels : List K) → Palette K C
        → Palette K C
    legend_update_colors t needed track dimensions labels p =
        if not needed
        then prepare_color_palette t p
        else let q =
            (if not (is_some p.colors) && track then dimension_colors t dimensions p else p) in
          dimension_colors t labels (record q { colors = some [] })

  -- `chartCustomColors()`
  unfoldable pub custom_colors : Theme C → Palette K C → List (Option C) × Palette K C
  unfolding prepare_color_palette
  custom_colors t p =
      let q = prepare_color_palette t p in
      elim (or_empty q.colors_custom) [
        | [] ↦ (or_empty q.colors, q)
        | c ∷ cs ↦ (some c ∷ map some cs, q)
      ]

  -- `chartColors()`
  unfoldable pub chart_colors : Theme C → Palette K C → List (Option C) × Palette K C
  unfolding prepare_color_palette
  chart_colors t p = let q = prepare_color_palette t p in (or_empty q.colors, q)
