-- ===== src/Sync/Round.antt =====
-- The sequential refresher, `NETDATA.chartRefresherNoParallel` (portal/dashboard.js), with the
-- timers and the callbacks that carry it from one chart to the next.
pub mod Ends
mod Tests
use lmiced.Prelude.{
  ℕ, suc, ◌≡◌, Bool, ◌||◌, List, [], ◌∷◌, ◌++◌, Option, none, some, length, get_elem?, ltb, leb,
  if◌then◌else◌,
}
use lmiced.Chart.{Env}
use lmiced.Chart.Fetch.{Started, called_back}
use lmiced.Chart.Refresh.{auto_refresh}
use lmiced.Sync.{Dashboard}
use lmiced.Sync.Requests.{auto_refresh_at}

-- The options of `NETDATA.options.current` that pace the refresher, in milliseconds.
pub record Idle : Type 0 where
  pub between_charts : ℕ
  pub between_loops : ℕ
  pub fast_render_timeframe : ℕ

-- What goes on next: a timer refreshes the chart `index` or restarts `chartRefresher`, the callback of
-- the chart `index` comes, or `parseDom(NETDATA.chartRefresher)` is called.
pub data Next : Type 0 where
  refreshes : (index delay : ℕ) → Next
  calls : (index : ℕ) → Next
  restarts : (delay : ℕ) → Next
  parses : Next

pub record Round : Type 0 where
  pub dashboard : Dashboard
  pub updated_dom : Bool
  pub fast_weight : ℕ  -- `auto_refresher_fast_weight`
  pub next : Next

-- `NETDATA.chartRefresherNoParallel(index)`
unfoldable pub refresh_no_parallel : Idle → ℕ → Round → Round
refresh_no_parallel o index r =
    if r.updated_dom
    then record r { next = parses }
    else if leb (length r.dashboard.targets) index
    then record r { fast_weight = 0; next = restarts o.between_loops }
    else if ltb r.fast_weight o.fast_render_timeframe
    then record r { next = refreshes index 0 }
    else record r { fast_weight = 0; next = refreshes index o.between_charts }

-- What `autoRefresh` of the chart `index` waits for.
unfoldable pub started_at : Env → ℕ → Dashboard → Started
started_at e index d = elim (get_elem? d.targets index) [
  | none ↦ called_back
  | some c ↦ (auto_refresh e d.pan d.stop_until index c).1
]

-- The function of the timer: `state.autoRefresh(...)`, whose callback is called at once where there is
-- nothing to wait for.
unfoldable pub timer_fires : Idle → Env → ℕ → Round → Round
timer_fires o e index r =
    let r' = record r { dashboard = auto_refresh_at e index r.dashboard } in
    elim (started_at e index r.dashboard) [
      | called_back ↦ refresh_no_parallel o (suc index) r'
      | _ ↦ record r' { next = calls index }
    ]

-- What happens between two calls of `chartRefresher` or of `parseDom`, which alone makes the list of the charts
-- anew: the refresher's timer, its callback, or anything else that may happen to the charts, to the
-- weight and to `updated_dom`, which only `parseDom` takes back. The number counts the timers and callbacks.
pub data Run (o : Idle) (r : Round) : ℕ → List ℕ → Round → Type 0 where
  begins : Run o r 0 [] r
  fires :
      {n : ℕ} {ks : List ℕ} {s : Round} (e : Env) (index delay : ℕ)
      → Run o r n ks s
      → s.next ≡ refreshes index delay
      → Run o r (suc n) (ks ++ index ∷ []) (timer_fires o e index s)
  comes :
      {n : ℕ} {ks : List ℕ} {s : Round} (index : ℕ)
      → Run o r n ks s
      → s.next ≡ calls index
      → Run o r (suc n) ks (refresh_no_parallel o (suc index) s)
  meanwhile :
      {n : ℕ} {ks : List ℕ} {s : Round} (d : Dashboard) (weight : ℕ) (reported : Bool)
      → Run o r n ks s
      → length d.targets ≡ length s.dashboard.targets
      → Run o r n ks (record s {
        dashboard = d;
        fast_weight = weight;
        updated_dom = s.updated_dom || reported;
      })
