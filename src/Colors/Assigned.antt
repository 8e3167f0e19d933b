-- ===== src/Colors/Assigned.antt =====
-- Which colours the dimensions get (portal/dashboard.js, `__chartDimensionColor` and `legendUpdateDOM`).
use lmiced.Prelude.{
  ℕ, zero, suc, ◌<◌, ◌≡◌, refl, ◌≢◌, ◌⊎◌, ◌∙◌, sym, ap, subst, List, [], ◌∷◌, none, some, length,
  get_elem?, All, arith, Option-cases, inl, inr,
}
use lmiced.Prelude.Dict.{Dict, Identity, lookup, insert, lookup-insert_self, lookup-insert_ne}
use lmiced.Colors.{
  Palette, Theme, prepare_color_palette, refill, push_color, assign, take_color, dimension_color,
  dimension_colors,
}

abbrev pub AreDifferent : {K : Type 0} → List K → Type 0
AreDifferent [] = Unit {0}
AreDifferent (k ∷ ks) = All (λ j. k ≢ j) ks × AreDifferent ks

pub List-seen : {A : Type 0} (xs : List A) → (xs ≡ []) ⊎ ((x : A) × (y : List A) × (xs ≡ x ∷ y))
List-seen [] = inl refl
List-seen (x ∷ xs) = inr (x, xs, refl)

module _ {K C : Type 0} ⦃e : Identity K⦄ (t : Theme C) where
  pub prepared :
      (p : Palette K C) (u : List C) → p.colors_custom ≡ some u → prepare_color_palette t p ≡ p
  unfolding prepare_color_palette
  prepared p u h = simp (h, prepare_color_palette)

  pub prepare-custom :
      (p : Palette K C) → (u : List C) × ((prepare_color_palette t p).colors_custom ≡ some u)
  unfolding prepare_color_palette
  prepare-custom p = elim (Option-cases p.colors_custom) [
    | inl n ↦ rw (n, prepare_color_palette) (t.custom, refl)
    | inr (u, n) ↦ (u, ap (λ q. q.colors_custom) (prepared p u n) ∙ n)
  ]

  pub prepare-assigned :
      (p : Palette K C) → (prepare_color_palette t p).colors_assigned ≡ p.colors_assigned
  unfolding prepare_color_palette
  prepare-assigned p = ground arith

  pub take_known :
      (label : K) (c : C) (q : Palette K C)
      → lookup label q.colors_assigned ≡ some c
      → take_color t label q ≡ (some c, push_color (some c) q)
  unfolding take_color
  take_known label c q h = rw (h, take_color) refl

  take_first :
      (label : K) (c : C) (cs : List C) (q : Palette K C)
      → lookup label q.colors_assigned ≡ none
      → q.colors_available ≡ c ∷ cs
      → take_color t label q ≡ (
        some c,
        push_color (some c) (record q {
          colors_available = cs;
          colors_assigned = insert label c q.colors_assigned;
        }),
      )
  unfolding take_color assign refill
  take_first label c cs q h a = rw (h, take_color, a, refill) refl

  assign-keeps :
      (label other : K) (c : C) (cs : List C) (q : Palette K C)
      → lookup label q.colors_assigned ≡ none
      → lookup other q.colors_assigned ≡ some c
      → lookup other (assign label cs q).1.colors_assigned ≡ some c
  unfolding assign
  assign-keeps label other c [] q n h = h
  assign-keeps label other c (d ∷ cs) q n h =
      lookup-insert_ne label other d q.colors_assigned
        (λ i. cc (n, h, ap (λ k. lookup k q.colors_assigned) i))
      ∙ h

  -- A colour that was assigned stays.
  take-keeps :
      (label other : K) (c : C) (q : Palette K C)
      → lookup other q.colors_assigned ≡ some c
      → lookup other (take_color t label q).1.colors_assigned ≡ some c
  unfolding take_color
  take-keeps label other c q h = elim (Option-cases (lookup label q.colors_assigned)) [
    | inr (d, n) ↦ rw (n, take_color) h
    | inl n ↦ rw (n, take_color) (assign-keeps label other c (refill t q) q n h)
  ]

  dimension-keeps :
      (label other : K) (c : C) (p : Palette K C)
      → lookup other p.colors_assigned ≡ some c
      → lookup other (dimension_color t label p).1.colors_assigned ≡ some c
  unfolding dimension_color
  dimension-keeps label other c p h =
      take-keeps label other c (prepare_color_palette t p)
        (ap (lookup other) (prepare-assigned p) ∙ h)

  pub dimensions-keep :
      (labels : List K) (other : K) (c : C) (p : Palette K C)
      → lookup other p.colors_assigned ≡ some c
      → lookup other (dimension_colors t labels p).colors_assigned ≡ some c
  unfolding dimension_colors
  dimensions-keep [] other c p h = h
  dimensions-keep (l ∷ ls) other c p h =
      dimensions-keep ls other c (dimension_color t l p).1 (dimension-keeps l other c p h)

  still_none :
      (l : K) (c : C) (d : Dict K C) (ls : List K)
      → All (λ j. l ≢ j) ls
      → All (λ j. lookup j d ≡ none) ls
      → All (λ j. lookup j (insert l c d) ≡ none) ls
  still_none l c d [] a b = tt
  still_none l c d (j ∷ js) (n, a) (m, b) =
      (lookup-insert_ne l j c d n ∙ m, still_none l c d js a b)

  first_step :
      (l : K) (c : C) (cs : List C) (ls : List K) (q : Palette K C) (all : List C) (i : ℕ) (m : K)
      → all ≡ c ∷ cs
      → get_elem? (l ∷ ls) i ≡ some m
      → i < length all
      → lookup l q.colors_assigned ≡ some c
      → ((j : ℕ) (k : K)
          → get_elem? ls j ≡ some k
          → j < length cs
          → lookup k (dimension_colors t ls q).colors_assigned ≡ get_elem? cs j)
      → lookup m (dimension_colors t ls q).colors_assigned ≡ get_elem? all i
  first_step l c cs ls q all zero m z a b h r =
      let k : l ≡ m = cc in
      subst (λ x. lookup m (dimension_colors t ls q).colors_assigned ≡ get_elem? x 0) (sym z)
        (subst (λ x. lookup x (dimension_colors t ls q).colors_assigned ≡ some c) k
          (dimensions-keep ls l c q h))
  first_step l c cs ls q all (suc i) m z a b h r =
      subst (λ x. lookup m (dimension_colors t ls q).colors_assigned ≡ get_elem? x (suc i)) (sym z)
        (r i m a (omega (arith, ap length z)))

  pub first_colors :
      (labels : List K) (p : Palette K C) (u : List C)
      → p.colors_custom ≡ some u
      → AreDifferent labels
      → All (λ l. lookup l p.colors_assigned ≡ none) labels
      → (i : ℕ) (l : K) → get_elem? labels i ≡ some l
      → i < length p.colors_available
      → lookup l (dimension_colors t labels p).colors_assigned ≡ get_elem? p.colors_available i
  unfolding dimension_colors dimension_color
  first_colors [] p u h d n i l a b = absurd (grind arith)
  first_colors (l ∷ ls) p u h (d, ds) (n, ns) i m a b = elim (List-seen p.colors_available) [
    | inl z ↦ absurd (omega (arith, ap length z))
    | inr (c, cs, z) ↦
        let q : Palette K C =
          push_color (some c)
            (record p { colors_available = cs; colors_assigned = insert l c p.colors_assigned }) in
        let step : (dimension_color t l p).1 ≡ q =
          ap (λ x. (take_color t l x).1) (prepared p u h)
          ∙ ap (λ x. x.1) (take_first l c cs p n z) in
        subst
          (λ x. lookup m (dimension_colors t ls x).colors_assigned ≡ get_elem? p.colors_available i)
          (sym step)
          (first_step l c cs ls q p.colors_available i m z a b
            (lookup-insert_self l c p.colors_assigned)
            (first_colors ls q u h ds (still_none l c p.colors_assigned ls d ns)))
  ]
