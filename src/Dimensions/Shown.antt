-- ===== src/Dimensions/Shown.antt =====
-- `selected2BooleanArray` (portal/dashboard.js), which calls itself.
use lmiced.Prelude.{
  ℕ, zero, suc, ◌+◌, ◌<◌, ◌≡◌, refl, ◌∙◌, ap, All, ◌⊎◌, Bool, true, false, not, ◌&&◌, ◌||◌, List,
  [], ◌∷◌, map, none, some, nat_beq, arith, if◌then◌else◌, Bool-cases, inl, inr,
}
use lmiced.Prelude.Dict.{Dict, Identity, lookup}
use lmiced.Dimensions.{
  DimensionStatus, DimensionsVisibility, select, is_selected, each, tally,
  selected_to_boolean_array,
}
use lmiced.Dimensions.Click.{lookup-each}

-- How many elements of the array are true
unfoldable pub count_shown : List Bool → ℕ
count_shown [] = 0
count_shown (b ∷ bs) = let n = count_shown bs in if b then suc n else n

module _ {K : Type 0} ⦃i : Identity K⦄ where
  -- Is the label one of a dimension that is enabled and selected?
  abbrev pub shows : Dict K DimensionStatus → K → Bool
  shows d k = elim (lookup k d) [ none ↦ false | some x ↦ x.enabled && x.selected ]

  -- Is one of the labels that of an enabled dimension?
  abbrev pub any_enabled : List K → Dict K DimensionStatus → Bool
  any_enabled [] d = false
  any_enabled (k ∷ ks) d = elim (lookup k d) [
    | none ↦ any_enabled ks d
    | some x ↦ x.enabled || any_enabled ks d
  ]

  tally-count :
      (ks : List K) (d : Dict K DimensionStatus) → (tally ks d).1 ≡ count_shown (map (shows d) ks)
  unfolding tally is_selected count_shown
  tally-count [] d = refl
  tally-count (k ∷ ks) d = ground (arith, tally-count ks d)

  tally-shows : (ks : List K) (d : Dict K DimensionStatus) → (tally ks d).0 ≡ map (shows d) ks
  unfolding tally is_selected
  tally-shows [] d = refl
  tally-shows (k ∷ ks) d = ground (arith, tally-shows ks d)

  -- The loop counts a selected dimension exactly if it shows one.
  tally-any :
      (ks : List K) (d : Dict K DimensionStatus)
      → any_enabled ks d ≡ true
      → 0 < (tally ks (each select d)).1
  unfolding tally is_selected select
  tally-any [] d h = absurd (cc)
  tally-any (k ∷ ks) d h = ground (arith, tally-any ks d, lookup-each select k d)

  tally-enabled :
      (ks : List K) (d : Dict K DimensionStatus)
      → any_enabled ks d ≡ true
      → 0 < (tally ks d).1 + (tally ks d).2
  unfolding tally is_selected
  tally-enabled [] d h = absurd (cc)
  tally-enabled (k ∷ ks) d h = ground (arith, tally-enabled ks d)

  tally-none :
      (ks : List K) (d : Dict K DimensionStatus)
      → (tally ks d).1 ≡ 0
      → All (λ k. shows d k ≡ false) ks
  unfolding tally is_selected
  tally-none [] d h = tt
  tally-none (k ∷ ks) d h = ground (arith, tally-none ks d)

  -- After a round: the counts, and what `selectAll()` leaves of the dimensions.
  abbrev counted : List K → DimensionsVisibility K → DimensionsVisibility K
  counted ks v = record v {
    selected_count = (tally ks v.dimensions).1;
    unselected_count = (tally ks v.dimensions).2;
  }

  abbrev all_selected : DimensionsVisibility K → DimensionsVisibility K
  all_selected v = record v { dimensions = each select v.dimensions }

  abbrev nothing_shown : List K → Dict K DimensionStatus → Bool
  nothing_shown ks d = nat_beq (tally ks d).1 0 && not (nat_beq (tally ks d).2 0)

  last_round :
      (n : ℕ) (ks : List K) (v : DimensionsVisibility K)
      → nothing_shown ks v.dimensions ≡ false
      → selected_to_boolean_array (suc n) ks v ≡ some ((tally ks v.dimensions).0, counted ks v)
  unfolding selected_to_boolean_array
  last_round n ks v h = simp h

  first_round :
      (n : ℕ) (ks : List K) (v : DimensionsVisibility K)
      → nothing_shown ks v.dimensions ≡ true
      → selected_to_boolean_array (suc n) ks v
        ≡ selected_to_boolean_array n ks (all_selected (counted ks v))
  unfolding selected_to_boolean_array
  first_round n ks v h = simp h

  -- If one of the labels is that of an enabled dimension, two calls of `selected2BooleanArray` are
  -- enough; the array says of each label whether its dimension is shown then, at least one is, and
  -- `selected_count` is their number. The dimensions stay as they are, unless none of the labels was shown: then all are selected first.
  pub selected_to_boolean_array-shows :
      (n : ℕ) (ks : List K) (v : DimensionsVisibility K)
      → any_enabled ks v.dimensions ≡ true
      → (v' : DimensionsVisibility K) × (selected_to_boolean_array (suc (suc n)) ks v
          ≡ some (map (shows v'.dimensions) ks, v'))
        × (0 < count_shown (map (shows v'.dimensions) ks))
        × (v'.selected_count ≡ count_shown (map (shows v'.dimensions) ks))
        × ((v'.dimensions ≡ v.dimensions)
            ⊎ (All (λ k. shows v.dimensions k ≡ false) ks
                × (v'.dimensions ≡ each select v.dimensions)))
  selected_to_boolean_array-shows n ks v h = elim (Bool-cases (nothing_shown ks v.dimensions)) [
    | inl e ↦
        let w = all_selected (counted ks v) in
        let a = tally-any ks v.dimensions h in
        (
          counted ks w,
          first_round (suc n) ks v e
              ∙ last_round n ks w (ground (arith, a))
              ∙ ap (λ bs. some (bs, counted ks w)) (tally-shows ks w.dimensions),
          rw (← tally-count ks w.dimensions) a,
          tally-count ks w.dimensions,
          inr (tally-none ks v.dimensions (ground (arith, e)), refl),
        )
    | inr e ↦ (
      counted ks v,
      last_round (suc n) ks v e ∙ ap (λ bs. some (bs, counted ks v)) (tally-shows ks v.dimensions),
      ground (arith, e, tally-enabled ks v.dimensions h, tally-count ks v.dimensions),
      tally-count ks v.dimensions,
      inl refl,
    )
  ]

  -- Selecting all dimensions does nothing to those that are not enabled.
  tally-disabled :
      (ks : List K) (d : Dict K DimensionStatus)
      → any_enabled ks d ≡ false
      → ((tally ks d).1 ≡ 0)
        × ((tally ks (each select d)).2 ≡ (tally ks d).2)
        × (any_enabled ks (each select d) ≡ false)
  unfolding tally is_selected select
  tally-disabled [] d h = (refl, refl, refl)
  tally-disabled (k ∷ ks) d h = ground (arith, tally-disabled ks d, lookup-each select k d)

  -- If none of the labels is that of an enabled dimension, but one of them is known, no number of calls
  -- of `selected2BooleanArray` is enough: it calls itself for ever.
  pub selected_to_boolean_array-endless :
      (n : ℕ) (ks : List K) (v : DimensionsVisibility K)
      → any_enabled ks v.dimensions ≡ false
      → 0 < (tally ks v.dimensions).2
      → selected_to_boolean_array n ks v ≡ none
  unfolding selected_to_boolean_array
  selected_to_boolean_array-endless zero ks v h u = refl
  selected_to_boolean_array-endless (suc n) ks v h u =
      let (z, same, off) = tally-disabled ks v.dimensions h in
      first_round n ks v (ground (arith, z, u))
      ∙ selected_to_boolean_array-endless n ks (all_selected (counted ks v)) off
          (omega (arith, same, u))
