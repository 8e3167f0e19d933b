-- ===== src/Extremes.antt =====
-- `NETDATA.commonMin` and `NETDATA.commonMax` (portal/dashboard.js): charts that carry one
-- `data-common-min` (or `-max`) name share the extreme of their values. Names and the charts' uuids
-- are only compared, so they are numbers. The values are of any type with a strict order.
pub mod Extreme
pub mod Invariant
mod Tests
use lmiced.Prelude.{ℕ, ◌≡◌, Bool, true, false, Option, none, some, List, [], ◌∷◌, if◌then◌else◌}
use lmiced.Prelude.Int.{ℤ, ltb_ℤ, int_identity, ltb_ℤ_irrefl, ltb_ℤ_le, ltb_ℤ_trans}
use lmiced.Prelude.Dict.{Dict, Identity, ◌===◌, lookup, insert, nat_identity}

-- `lt a b`: `a` is more extreme than `b`.
pub record StrictOrder (A : Type 0) : Type 0 where
  pub identity : Identity A
  pub lt : A → A → Bool
  pub irrefl : (a : A) → lt a a ≡ false
  pub lt_le : (a b : A) → lt a b ≡ true → lt b a ≡ false
  pub le_trans : (a b c : A) → lt b a ≡ false → lt c b ≡ false → lt c a ≡ false

pub record Common (A : Type 0) : Type 0 where
  pub keys : Dict ℕ (Dict ℕ A)
  pub latest : Dict ℕ A

-- The dictionary of a name, `{}` where there is none yet.
unfoldable pub bucket : {A : Type 0} → ℕ → Common A → Dict ℕ A
bucket name c = elim (lookup name c.keys) [ none ↦ [] | some t ↦ t ]

module _ {A : Type 0} (o : StrictOrder A) where
  -- `for(var i in t) if(t[i] < m) m = t[i];`
  pub most_extreme : A → Dict ℕ A → A
  most_extreme m [] = m
  most_extreme m ((_, x) ∷ t) = most_extreme (if o.lt x m then x else m) t

  -- "add our min": `t` is the dictionary of the name, which the code mutates in place.
  add_ours : ℕ → ℕ → A → Dict ℕ A → Common A → Option A × Common A
  unfolding most_extreme
  add_ours name uuid v t c =
      let t' = insert uuid v t in
      let m = most_extreme v t' in
      (some m, record { keys = insert name t' c.keys; latest = insert name m c.latest })

  -- `min < this.latest[name]`, false where `latest` has no such name
  beats_latest : A → Option A → Bool
  beats_latest v none = false
  beats_latest v (some m) = o.lt v m

  get_known : ℕ → ℕ → A → A → Dict ℕ A → Common A → Option A × Common A
  unfolding add_ours beats_latest
  get_known name uuid v old t c =
      if o.identity.same old v
      then (lookup name c.latest, record c { keys = insert name t c.keys })
      else if beats_latest v (lookup name c.latest)
      then (
        some v,
        record { keys = insert name (insert uuid v t) c.keys; latest = insert name v c.latest },
      )
      else add_ours name uuid v t c

  -- `get` from `var uuid = state.uuid` on
  get_in : ℕ → ℕ → A → Dict ℕ A → Common A → Option A × Common A
  unfolding get_known
  get_in name uuid v t c = elim (lookup uuid t) [
    | none ↦ add_ours name uuid v t c
    | some old ↦ get_known name uuid v old t c
  ]

  -- `get(state)`: `name` is the attribute's value, `none` for `null`; `v` is the chart's own extreme.
  pub get : Option ℕ → ℕ → A → Common A → Option A × Common A
  unfolding get_in
  get none uuid v c = (some v, c)
  get (some name) uuid v c = get_in name uuid v (bucket name c) c

abbrev pub empty : {A : Type 0} → Common A
empty = record { keys = []; latest = [] }

-- `NETDATA.commonMin` keeps the smallest value, `NETDATA.commonMax` the largest.
abbrev pub min_order : StrictOrder ℤ
min_order = record {
  identity = int_identity;
  lt = ltb_ℤ;
  irrefl = ltb_ℤ_irrefl;
  lt_le = ltb_ℤ_le;
  le_trans = ltb_ℤ_trans;
}

abbrev pub max_order : StrictOrder ℤ
max_order = record {
  identity = int_identity;
  lt = λ a b. ltb_ℤ b a;
  irrefl = ltb_ℤ_irrefl;
  lt_le = λ a b. ltb_ℤ_le b a;
  le_trans = λ a b c h k. ltb_ℤ_trans c b a k h;
}

unfoldable pub common_min : Option ℕ → ℕ → ℤ → Common ℤ → Option ℤ × Common ℤ
unfolding get
common_min = get min_order

unfoldable pub common_max : Option ℕ → ℕ → ℤ → Common ℤ → Option ℤ × Common ℤ
unfolding get
common_max = get max_order
