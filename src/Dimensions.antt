-- ===== src/Dimensions.antt =====
-- The dimensions of a chart that its legend shows or hides (portal/dashboard.js): `dimensionStatus`
-- and `dimensionsVisibility`. The elements of the legend are not state of the model; a label is a
-- value of any type with a decided equality.
pub mod Click
pub mod Shown
pub mod Tests
use lmiced.Prelude.{
  ℕ, zero, suc, ◌+◌, Bool, true, false, not, ◌&&◌, ◌||◌, List, [], ◌∷◌, Option, none, some, nat_beq,
  if◌then◌else◌,
}
use lmiced.Prelude.Dict.{Dict, Identity, ◌===◌, lookup, insert}

pub record DimensionStatus : Type 0 where
  pub enabled : Bool
  pub selected : Bool

-- `select()` and `unselect()`
unfoldable pub select : DimensionStatus → DimensionStatus
select x = if not x.enabled then x else record x { selected = true }

unfoldable pub unselect : DimensionStatus → DimensionStatus
unselect x = if not x.enabled then x else record x { selected = false }

unfoldable pub is_selected : DimensionStatus → Bool
is_selected x = x.enabled && x.selected

unfoldable pub invalidate : DimensionStatus → DimensionStatus
invalidate x = record x { enabled = false }

unfoldable pub set_options : DimensionStatus → DimensionStatus
set_options x = record x { enabled = true }

pub record DimensionsVisibility (K : Type 0) : Type 0 where
  pub len : ℕ
  pub dimensions : Dict K DimensionStatus
  pub selected_count : ℕ
  pub unselected_count : ℕ

module _ {K : Type 0} ⦃i : Identity K⦄ where
  -- A call of a method of `dimensions[label]`, and of every dimension.
  unfoldable pub at :
      (DimensionStatus → DimensionStatus) → K → Dict K DimensionStatus → Dict K DimensionStatus
  at f k [] = []
  at f k ((j, x) ∷ d) = if j === k then (j, f x) ∷ d else (j, x) ∷ at f k d

  unfoldable pub each :
      (DimensionStatus → DimensionStatus) → Dict K DimensionStatus → Dict K DimensionStatus
  each f [] = []
  each f ((j, x) ∷ d) = (j, f x) ∷ each f d

  -- `dimensionAdd(label, …)`
  unfoldable pub dimension_add : K → DimensionsVisibility K → DimensionsVisibility K
  unfolding at set_options
  dimension_add k v = elim (lookup k v.dimensions) [
    | none ↦ record v {
      len = v.len + 1;
      dimensions =
          insert k
            (set_options (record { enabled = false; selected = nat_beq v.unselected_count 0 }))
            v.dimensions;
    }
    | some x ↦ record v { dimensions = at set_options k v.dimensions }
  ]

  unfoldable pub invalidate_all : DimensionsVisibility K → DimensionsVisibility K
  unfolding each invalidate
  invalidate_all v = record v { dimensions = each invalidate v.dimensions }

  -- `countSelected()`
  unfoldable pub count_selected : Dict K DimensionStatus → ℕ
  unfolding is_selected
  count_selected [] = 0
  count_selected ((j, x) ∷ d) = if is_selected x then suc (count_selected d) else count_selected d

  -- A click on a dimension `x` that is selected, with shift or control or without.
  click_selected : (modified : Bool) → K → Dict K DimensionStatus → Dict K DimensionStatus
  unfolding at each count_selected select unselect
  click_selected true k d =
      let u = at unselect k d in if nat_beq (count_selected u) 0 then each select u else u
  click_selected false k d =
      if nat_beq (count_selected d) 1 then each select d else at select k (each unselect d)

  click_unselected : (modified : Bool) → K → Dict K DimensionStatus → Dict K DimensionStatus
  unfolding at each select unselect
  click_unselected true k d = at select k d
  click_unselected false k d = at select k (each unselect d)

  -- The handler of `onclick` of the dimension `k`, before the chart is drawn again.
  pub click : (modified : Bool) → K → Dict K DimensionStatus → Dict K DimensionStatus
  unfolding click_selected click_unselected
  click modified k d = elim (lookup k d) [
    | none ↦ d
    | some x ↦ if is_selected x then click_selected modified k d else click_unselected modified k d
  ]

  -- The loop of `selected2BooleanArray`: the array, `selected_count` and `unselected_count`.
  unfoldable pub tally : List K → Dict K DimensionStatus → List Bool × ℕ × ℕ
  unfolding is_selected
  tally [] d = ([], 0, 0)
  tally (k ∷ ks) d =
      let (bs, s, u) = tally ks d in
      elim (lookup k d) [
        | none ↦ (false ∷ bs, s, u)
        | some x ↦ if is_selected x then (true ∷ bs, s + 1, u) else (false ∷ bs, s, u + 1)
      ]

  -- `selected2BooleanArray(array)`, which calls itself after `selectAll()`: `none` if `n` calls are
  -- not enough.
  pub selected_to_boolean_array :
      ℕ → List K → DimensionsVisibility K → Option (List Bool × DimensionsVisibility K)
  unfolding tally each select
  selected_to_boolean_array zero ks v = none
  selected_to_boolean_array (suc n) ks v =
      let (bs, s, u) = tally ks v.dimensions in
      let again = selected_to_boolean_array n ks (record v {
        selected_count = s;
        unselected_count = u;
        dimensions = each select v.dimensions;
      }) in
      if nat_beq s 0 && not (nat_beq u 0)
      then again
      else some (bs, record v { selected_count = s; unselected_count = u })
