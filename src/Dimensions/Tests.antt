-- ===== src/Dimensions/Tests.antt =====
-- A chart of three dimensions: the first is hidden by the user, the third is no longer in the data.
use lmiced.Dimensions.{dimension_add, invalidate_all}
use lmiced.Prelude.{ℕ, ◌<◌, ◌≡◌, refl, ◌⊎◌, All, true, false, [], ◌∷◌, map, none, some, arith}
use lmiced.Prelude.Dict.{insert, Dict, nat_identity, lookup}
use lmiced.Dimensions.{
  DimensionStatus, DimensionsVisibility, click, count_selected, selected_to_boolean_array, each,
  select, tally,
}
use lmiced.Dimensions.Click.{click-counted}
use lmiced.Dimensions.Shown.{
  shows, count_shown, selected_to_boolean_array-shows, selected_to_boolean_array-endless,
}

abbrev dimensions : Dict ℕ DimensionStatus
dimensions =
    (7, record { enabled = true; selected = false })
    ∷ (8, record { enabled = true; selected = true })
    ∷ (9, record { enabled = false; selected = true })
    ∷ []

abbrev visibility : DimensionsVisibility ℕ
visibility = record { len = 3; dimensions = dimensions; selected_count = 0; unselected_count = 0 }

-- The dimension 8 is the only one that is shown.
click-counted_example : 0 < count_selected (click true 8 dimensions)
unfolding lookup
click-counted_example =
    click-counted true 8 dimensions (record { enabled = true; selected = true }, refl, refl)

-- Only the hidden dimension and an unknown one are asked for.
selected_to_boolean_array-shows_example :
    (v' : DimensionsVisibility ℕ) × (selected_to_boolean_array 2 (7 ∷ 5 ∷ []) visibility
      ≡ some (map (shows v'.dimensions) (7 ∷ 5 ∷ []), v'))
    × (0 < count_shown (map (shows v'.dimensions) (7 ∷ 5 ∷ [])))
    × (v'.selected_count ≡ count_shown (map (shows v'.dimensions) (7 ∷ 5 ∷ [])))
    × ((v'.dimensions ≡ dimensions)
        ⊎ (All (λ k. shows dimensions k ≡ false) (7 ∷ 5 ∷ [])
            × (v'.dimensions ≡ each select dimensions)))
unfolding lookup
selected_to_boolean_array-shows_example =
    selected_to_boolean_array-shows 0 (7 ∷ 5 ∷ []) visibility refl

selected_to_boolean_array-endless_example : selected_to_boolean_array 100 (9 ∷ []) visibility ≡ none
unfolding lookup tally
selected_to_boolean_array-endless_example =
    selected_to_boolean_array-endless 100 (9 ∷ []) visibility refl (omega arith)

dimension_add_test : (dimension_add 5 (invalidate_all visibility)).len ≡ 4
unfolding dimension_add invalidate_all lookup insert each
dimension_add_test = refl
