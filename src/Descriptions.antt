-- ===== src/Descriptions.antt =====
-- The charts' descriptions that were downloaded (portal/dashboard.js): `NETDATA.chartRegistry` and
-- `NETDATA.fixHost`. A text is the list of its characters' codes.
pub mod Ask
pub mod Get
pub mod Tests
use lmiced.Prelude.{
  ℕ, ◌≡◌, refl, ap, ◌↔◌, Bool, true, false, ◌&&◌, ◌||◌, List, [], ◌∷◌, map, Option, none, some,
  nat_beq, nat_beq_iff, arith, if◌then◌else◌,
}
use lmiced.Prelude.Dict.{Dict, Identity, ◌===◌, lookup, insert}

abbrev pub Text : Type 0
Text = List ℕ

abbrev pub same_text : Text → Text → Bool
same_text [] [] = true
same_text (c ∷ s) (d ∷ t) = nat_beq c d && same_text s t
same_text _ _ = false

pub same_text_iff : (s t : Text) → (same_text s t ≡ true) ↔ (s ≡ t)
same_text_iff [] [] = grind arith
same_text_iff [] (d ∷ t) = grind arith
same_text_iff (c ∷ s) [] = grind arith
same_text_iff (c ∷ s) (d ∷ t) = grind (arith, nat_beq_iff c d, same_text_iff s t)

instance abbrev pub text_identity : Identity Text
text_identity = record { same = same_text; same_iff = same_text_iff }

-- `/` is 47, `:` is 58, `_` is 95.
unfoldable pub fixid : Text → Text
fixid = map (λ c. if nat_beq c 58 || nat_beq c 47 then 95 else c)

-- `fixHost(host)`: the slashes at the end go, the last one first.
unfoldable pub fix_host : Text → Text
fix_host [] = []
fix_host (c ∷ s) = let t = fix_host s in if nat_beq c 47 && same_text t [] then [] else c ∷ t

-- `charts`, by host and by chart
abbrev pub Charts : Type 0 → Type 0
Charts D = Dict Text (Dict Text D)

module _ {D : Type 0} where
  abbrev pub or_empty : Option (Dict Text D) → Dict Text D
  or_empty none = []
  or_empty (some t) = t

  -- `charts[host]`, `{}` where there is none
  abbrev pub charts_of : Text → Charts D → Dict Text D
  charts_of host charts = or_empty (lookup host charts)

  unfoldable pub add : Text → Text → D → Charts D → Charts D
  add host id chart charts =
      insert (fixid host) (insert (fixid id) chart (charts_of (fixid host) charts)) charts

  unfoldable pub get : Text → Text → Charts D → Option D
  get host id charts = elim (lookup (fixid host) charts) [
    | none ↦ none
    | some t ↦ lookup (fixid id) t
  ]

  -- The `done` of `downloadAll(host)`: `none` for `null`. The keys of the reply are the server's ids.
  unfoldable pub download_all : Text → Option (Dict Text D) → Charts D → Charts D
  download_all host none charts = charts
  download_all host (some reply) charts = insert (fixid (fix_host host)) reply charts
