-- ===== src/Options/Reset.antt =====
-- `resetOptions` (portal/dashboard.js), option by option.
use lmiced.Prelude.{
  ◌≡◌, refl, ◌∙◌, sym, subst, ap, Bool, true, false, ◌||◌, [], ◌∷◌, Option, none, some, is_some,
  arith, Bool-cases, Option-cases, inl, inr, if◌then◌else◌,
}
use lmiced.Prelude.Dict.{Dict, Identity, ◌===◌, lookup, lookup-insert}
use lmiced.Options.{
  Name, options, chart_heights, single, name_identity, Json, Storage, storage_set, has_value,
  set_option, reset_name, reset_names, reset_options,
}

abbrev pub or_current : {V : Type 0} → Option V → Option V → Option V
or_current none current = current
or_current (some v) current = some v

two_rounds :
    {V : Type 0} (d x y z : Option V) (b c : Bool)
    → y ≡ (if b then or_current d x else x)
    → z ≡ (if c then or_current d y else y)
    → z ≡ (if c || b then or_current d x else x)
two_rounds none x y z b c h k = ground arith
two_rounds (some v) x y z b c h k = ground arith

is_some-either :
    {V : Type 0} (c : Bool) (x : V) (o : Option V)
    → is_some (if c then some x else o) ≡ (c || is_some o)
is_some-either true x o = refl
is_some-either false x o = refl

known : {V : Type 0} (d x : Option V) → (if is_some d then or_current d x else x) ≡ or_current d x
known none x = refl
known (some v) x = refl

module _ {K V S : Type 0} ⦃i : Identity K⦄ (w : Identity V) (j : Json V S) where
  held :
      (k : K) (v : V) (s : Storage K V S) → has_value w j k v s ≡ true → lookup k s.options ≡ some v
  unfolding has_value
  held k v s h = elim (Option-cases (lookup k s.options)) [
    | inl n ↦ absurd (grind (arith, n))
    | inr (u, n) ↦ n ∙ ap some ((w.same_iff u v).0 (rw (n, has_value) at h))
  ]

  had_value :
      (k l : K) (v : V) (s : Storage K V S)
      → has_value w j k v s ≡ true
      → lookup l s.options ≡ (if k === l then some v else lookup l s.options)
  unfolding has_value
  had_value k l v s h = elim (Bool-cases (k === l)) [
    | inr e ↦ rw e refl
    | inl e ↦ rw e (subst (λ m. lookup m s.options ≡ some v) ((i.same_iff k l).0 e) (held k v s h))
  ]

  -- Setting an option that has a default changes that option alone, and no default.
  set_option-lookup :
      (k l : K) (v def : V) (s : Storage K V S)
      → lookup (options k) s.default ≡ some def
      → (lookup l (set_option w j k v s).options ≡ (if k === l then some v else lookup l s.options))
        × ((set_option w j k v s).default ≡ s.default)
  unfolding set_option storage_set
  set_option-lookup k l v def s h = elim (Bool-cases (has_value w j k v s)) [
    | inl e ↦ rw e (had_value k l v s e, refl)
    | inr e ↦ rw (e, h) (lookup-insert k l v s.options, refl)
  ]

  -- What an option is to be after a reset.
  abbrev pub default_or_current : K → Storage K V S → Option V
  default_or_current l s = or_current (lookup (options l) s.default) (lookup l s.options)

  default_or_current-none :
      (k l : K) (s : Storage K V S)
      → lookup (options k) s.default ≡ none
      → lookup l s.options ≡ (if k === l then default_or_current l s else lookup l s.options)
  default_or_current-none k l s h = elim (Bool-cases (k === l)) [
    | inr e ↦ rw e refl
    | inl e ↦
        let same = (i.same_iff k l).0 e in
        rw e (subst (λ m. lookup m s.options ≡ default_or_current m s) same (rw h refl))
  ]

  default_or_current-some :
      (k l : K) (v : V) (s : Storage K V S)
      → lookup (options k) s.default ≡ some v
      → (if k === l then some v else lookup l s.options)
        ≡ (if k === l then default_or_current l s else lookup l s.options)
  default_or_current-some k l v s h = elim (Bool-cases (k === l)) [
    | inr e ↦ rw e refl
    | inl e ↦
        let same = (i.same_iff k l).0 e in
        rw e (subst (λ m. some v ≡ default_or_current m s) same (rw h refl))
  ]

  -- One round: an option that is named becomes its default, all else stays.
  reset_name-lookup :
      (l : K) (n : Name K) (s : Storage K V S)
      → let t = reset_name w j n s in
        (lookup l t.options
          ≡ (if n === options l then default_or_current l s else lookup l s.options))
        × (t.default ≡ s.default)
  unfolding reset_name
  reset_name-lookup l (single k) s = (refl, refl)
  reset_name-lookup l (chart_heights k) s = ground arith
  reset_name-lookup l (options k) s = elim (Option-cases (lookup (options k) s.default)) [
    | inl h ↦ rw (h, reset_name) (default_or_current-none k l s h, refl)
    | inr (v, h) ↦
        let (o, d) = set_option-lookup k l v v s h in
        rw (h, reset_name) (o ∙ default_or_current-some k l v s h, d)
  ]

  reset_names-lookup :
      (l : K) (d : Dict (Name K) V) (s : Storage K V S)
      → let t = reset_names w j d s in
        (lookup l t.options
          ≡ (if is_some (lookup (options l) d) then default_or_current l s else lookup l s.options))
        × (t.default ≡ s.default)
  unfolding reset_names lookup
  reset_names-lookup l [] s = (refl, refl)
  reset_names-lookup l ((n, x) ∷ d) s =
      let t = reset_names w j d s in
      let (o, e) = reset_names-lookup l d s in
      let (p, q) = reset_name-lookup l n t in
      let k : lookup l (reset_name w j n t).options ≡ (
          if n === options l
          then or_current (lookup (options l) s.default) (lookup l t.options)
          else lookup l t.options) =
        subst
          (λ f. lookup l (reset_name w j n t).options ≡ (
            if n === options l
            then or_current (lookup (options l) f) (lookup l t.options)
            else lookup l t.options))
          e p in
      (
        two_rounds (lookup (options l) s.default) (lookup l s.options) (lookup l t.options)
              (lookup l (reset_name w j n t).options) (is_some (lookup (options l) d))
              (n === options l) o k
            ∙ ap (λ b. if b then default_or_current l s else lookup l s.options)
                (sym (is_some-either (n === options l) x (lookup (options l) d))),
        q ∙ e,
      )

  -- `resetOptions` gives every option that has a default this default, leaves every other option as
  -- it is, and changes no default.
  pub reset_options-lookup :
      (l : K) (s : Storage K V S)
      → (lookup l (reset_options w j s).options ≡ default_or_current l s)
        × ((reset_options w j s).default ≡ s.default)
  unfolding reset_options
  reset_options-lookup l s =
      let (o, d) = reset_names-lookup l s.default s in
      (o ∙ known (lookup (options l) s.default) (lookup l s.options), d)
