-- ===== src/Colors/Tests.antt =====
-- Two colours of the user, a theme of three, and a chart of four dimensions, two of them in the data.
use lmiced.Prelude.{
  ℕ, ◌<◌, ◌≡◌, refl, true, some, [], ◌∷◌, ◌++◌, map, List, length, get_elem?, arith,
}
use lmiced.Prelude.Dict.{nat_identity, lookup, insert}
use lmiced.Colors.{
  Palette, Theme, or_empty, prepare_color_palette, refill, assign, take_color, dimension_color,
  dimension_colors, legend_update_colors, custom_colors, chart_colors,
}
use lmiced.Colors.Assigned.{AreDifferent}
use lmiced.Colors.Listed.{fresh_palette, legend_update_colors-dimensions}

abbrev theme : Theme ℕ
theme = record { colors = 11 ∷ 12 ∷ 13 ∷ []; custom = 1 ∷ 2 ∷ [] }

abbrev empty_palette : Palette ℕ ℕ
empty_palette = fresh_palette theme 11 (12 ∷ 13 ∷ []) refl

abbrev dimensions : List ℕ
dimensions = 5 ∷ 6 ∷ 7 ∷ 8 ∷ []

are_different : AreDifferent dimensions
are_different = (
  ((λ h. omega (arith, h)), ((λ h. omega (arith, h)), ((λ h. omega (arith, h)), tt))),
  (
    ((λ h. omega (arith, h)), ((λ h. omega (arith, h)), tt)),
    (((λ h. omega (arith, h)), tt), (tt, tt)),
  ),
)

legend_update_colors-dimensions_example :
    ((i : ℕ) (l : ℕ)
      → get_elem? dimensions i ≡ some l
      → i < length (theme.custom ++ theme.colors)
      → lookup l
          (legend_update_colors theme true true dimensions
            (8 ∷ 6 ∷ [])
            empty_palette).colors_assigned
        ≡ get_elem? (theme.custom ++ theme.colors) i)
    × (or_empty (legend_update_colors theme true true dimensions (8 ∷ 6 ∷ []) empty_palette).colors
        ≡ map
            (λ l.
              lookup l
                (legend_update_colors theme true true dimensions
                  (8 ∷ 6 ∷ [])
                  empty_palette).colors_assigned)
            (8 ∷ 6 ∷ []))
legend_update_colors-dimensions_example =
    legend_update_colors-dimensions theme 11 (12 ∷ 13 ∷ []) refl dimensions (8 ∷ 6 ∷ [])
      are_different

last_and_second :
    (chart_colors theme
      (legend_update_colors theme true true dimensions (8 ∷ 6 ∷ []) empty_palette)).0
    ≡ some 12 ∷ some 2 ∷ []
unfolding chart_colors legend_update_colors dimension_colors dimension_color take_color
    prepare_color_palette refill assign lookup insert
last_and_second = refl

-- When the colours are used up, those of the theme come before the user's.
theme_first :
    (dimension_color theme 5 (record empty_palette { colors_custom = some (1 ∷ []) })).0 ≡ some 11
unfolding dimension_color take_color prepare_color_palette refill assign lookup
theme_first = refl

users_colors : (custom_colors theme empty_palette).0 ≡ some 1 ∷ some 2 ∷ []
unfolding custom_colors prepare_color_palette
users_colors = refl
