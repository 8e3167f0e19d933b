-- ===== src/Scripts.antt =====
-- The scripts that the page loads before it starts (portal/dashboard.js): `NETDATA.loadRequiredJs`.
pub mod Loaded
mod Tests
use lmiced.Prelude.{
  ℕ, zero, suc, ◌+◌, ◌≡◌, Bool, true, false, List, [], ◌∷◌, ◌++◌, Option, none, some, if◌then◌else◌,
}

-- An entry of `NETDATA.requiredJs`: what `isAlreadyLoaded()` answers, and whether `async === false`
pub record Script : Type 0 where
  pub already_loaded : Bool
  pub in_order : Bool

-- A request under way: the scripts that its `always` goes on with, if it is in order
pub record Loading : Type 0 where
  pub index : ℕ
  pub rest : Option (List Script)

pub record Loader : Type 0 where
  pub loaded : ℕ  -- `NETDATA.loadedRequiredJs`
  pub requested : List ℕ
  pub under_way : List Loading
  pub called : ℕ  -- The calls of the callback

-- `NETDATA.loadRequiredJs(index, callback)`, with the entries from `index` on
unfoldable pub load_required_js : (index : ℕ) → List Script → Loader → Loader
load_required_js index [] s = record s { called = suc s.called }
load_required_js index (x ∷ xs) s =
    if x.already_loaded
    then load_required_js (suc index) xs (record s { loaded = suc s.loaded })
    else if x.in_order
    then record s {
      requested = s.requested ++ index ∷ [];
      under_way = record { index = index; rest = some xs } ∷ s.under_way;
    }
    else load_required_js (suc index) xs (record s {
      requested = s.requested ++ index ∷ [];
      under_way = record { index = index; rest = none } ∷ s.under_way;
    })

-- `.always()`, whether the request was done or failed
unfoldable pub ends_loading : Loading → Loader → Loader
ends_loading k s =
    let t = record s { loaded = suc s.loaded } in
    elim k.rest [ none ↦ t | some xs ↦ load_required_js (suc k.index) xs t ]

-- The requests of the scripts end in any order.
pub data Loads (scripts : List Script) : Loader → Type 0 where
  begins : Loads scripts (
      load_required_js 0 scripts
        (record { loaded = 0; requested = []; under_way = []; called = 0 }))
  ends :
      {s : Loader} (k : Loading) (ks js : List Loading)
      → Loads scripts s
      → s.under_way ≡ ks ++ k ∷ js
      → Loads scripts (ends_loading k (record s { under_way = ks ++ js }))
