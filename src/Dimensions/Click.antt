-- ===== src/Dimensions/Click.antt =====
-- The handler of a click on the legend (portal/dashboard.js, `setHandler`).
use lmiced.Prelude.{
  ◌<◌, ◌≡◌, refl, ◌∙◌, ap, Bool, true, false, [], ◌∷◌, some, nat_beq, arith, Bool-cases, inl, inr,
}
use mathlib.Core.Option
use lmiced.Prelude.Dict.{Dict, Identity, ◌===◌, lookup}
use lmiced.Dimensions.{
  DimensionStatus, select, unselect, is_selected, at, each, count_selected, click_selected,
  click_unselected, click,
}

module _ {K : Type 0} ⦃i : Identity K⦄ where
  lookup-at :
      (f : DimensionStatus → DimensionStatus) (k : K) (d : Dict K DimensionStatus)
      → lookup k (at f k d) ≡ Option.map f (lookup k d)
  unfolding at lookup
  lookup-at f k [] = refl
  lookup-at f k ((j, x) ∷ d) = ground (arith, lookup-at f k d)

  pub lookup-each :
      (f : DimensionStatus → DimensionStatus) (k : K) (d : Dict K DimensionStatus)
      → lookup k (each f d) ≡ Option.map f (lookup k d)
  unfolding each lookup
  lookup-each f k [] = refl
  lookup-each f k ((j, x) ∷ d) = elim (Bool-cases (j === k)) [
    | inl e ↦ rw e refl
    | inr e ↦ rw e (lookup-each f k d)
  ]

  lookup-counted :
      (k : K) (x : DimensionStatus) (d : Dict K DimensionStatus)
      → lookup k d ≡ some x
      → is_selected x ≡ true
      → 0 < count_selected d
  unfolding lookup count_selected
  lookup-counted k x [] h s = absurd (cc)
  lookup-counted k x ((j, y) ∷ d) h s = ground (arith, lookup-counted k x d)

  -- The dimension `k` is there, and is enabled.
  abbrev pub IsEnabled : K → Dict K DimensionStatus → Type 0
  IsEnabled k d = (x : DimensionStatus) × (lookup k d ≡ some x) × (x.enabled ≡ true)

  select-counted :
      (k : K) (d : Dict K DimensionStatus) → IsEnabled k d → 0 < count_selected (at select k d)
  unfolding select is_selected
  select-counted k d (x, h, e) =
      lookup-counted k (select x) (at select k d) (lookup-at select k d ∙ ap (Option.map select) h)
        (ground arith)

  select_all-counted :
      (k : K) (d : Dict K DimensionStatus) → IsEnabled k d → 0 < count_selected (each select d)
  unfolding select is_selected
  select_all-counted k d (x, h, e) =
      lookup-counted k (select x) (each select d)
        (lookup-each select k d ∙ ap (Option.map select) h) (ground arith)

  select_only-counted :
      (k : K) (d : Dict K DimensionStatus)
      → IsEnabled k d
      → 0 < count_selected (at select k (each unselect d))
  unfolding unselect
  select_only-counted k d (x, h, e) =
      select-counted k (each unselect d)
        (unselect x, lookup-each unselect k d ∙ ap (Option.map unselect) h, ground arith)

  unselect-IsEnabled :
      (k : K) (d : Dict K DimensionStatus) → IsEnabled k d → IsEnabled k (at unselect k d)
  unfolding unselect
  unselect-IsEnabled k d (x, h, e) =
      (unselect x, lookup-at unselect k d ∙ ap (Option.map unselect) h, ground arith)

  click_selected-counted :
      (modified : Bool) (k : K) (d : Dict K DimensionStatus)
      → IsEnabled k d
      → 0 < count_selected (click_selected modified k d)
  unfolding click_selected
  click_selected-counted true k d h =
      elim (Bool-cases (nat_beq (count_selected (at unselect k d)) 0)) [
        | inl e ↦ rw e (select_all-counted k (at unselect k d) (unselect-IsEnabled k d h))
        | inr e ↦ rw e (ground arith)
      ]
  click_selected-counted false k d h = elim (Bool-cases (nat_beq (count_selected d) 1)) [
    | inl e ↦ rw e (select_all-counted k d h)
    | inr e ↦ rw e (select_only-counted k d h)
  ]

  click_unselected-counted :
      (modified : Bool) (k : K) (d : Dict K DimensionStatus)
      → IsEnabled k d
      → 0 < count_selected (click_unselected modified k d)
  unfolding click_unselected
  click_unselected-counted true k d h = select-counted k d h
  click_unselected-counted false k d h = select_only-counted k d h

  -- Whatever is selected before, and with shift or control or without, a click on a dimension that is
  -- enabled leaves at least one dimension selected.
  pub click-counted :
      (modified : Bool) (k : K) (d : Dict K DimensionStatus)
      → IsEnabled k d
      → 0 < count_selected (click modified k d)
  unfolding click
  click-counted modified k d (x, h, e) = elim (Bool-cases (is_selected x)) [
    | inl s ↦ rw (h, click, s) (click_selected-counted modified k d (x, h, e))
    | inr s ↦ rw (h, click, s) (click_unselected-counted modified k d (x, h, e))
  ]
