-- ===== src/Scripts/Tests.antt =====
-- The scripts of the page: one that loads in order, then one that does not.
use lmiced.Prelude.{◌≡◌, refl, true, false, none, some, [], ◌∷◌, List}
use lmiced.Scripts.{Script, Loader, load_required_js, ends_loading}

abbrev scripts : List Script
scripts =
    record { already_loaded = false; in_order = true }
    ∷ record { already_loaded = false; in_order = false }
    ∷ []

abbrev begun : Loader
begun =
    load_required_js 0 scripts (record { loaded = 0; requested = []; under_way = []; called = 0 })

waits_for_first : begun.requested ≡ 0 ∷ []
unfolding load_required_js
waits_for_first = refl

-- The callback comes before the second script is there.
starts_early :
    ends_loading
      (record { index = 0; rest = some (record { already_loaded = false; in_order = false } ∷ []) })
      (record begun { under_way = [] })
    ≡ record {
      loaded = 1;
      requested = 0 ∷ 1 ∷ [];
      under_way = record { index = 1; rest = none } ∷ [];
      called = 1;
    }
unfolding load_required_js ends_loading
starts_early = refl
