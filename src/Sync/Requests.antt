-- ===== src/Sync/Requests.antt =====
-- The requests for data that are under way, and what may happen on a page (portal/dashboard.js): a
-- chart refreshes itself, a request ends, the user hovers, pans, zooms or resets.
pub mod Counts
use lmiced.Prelude.{
  ◌≡◌, ◌++◌, ℕ, ◌+◌, Bool, true, false, not, ◌&&◌, List, [], ◌∷◌, Option, none, some, nat_beq,
  get_elem?, set, modify, if◌then◌else◌,
}
use lmiced.Prelude.Int.{ℤ}
use lmiced.Chart.{Mode, Chart, Env}
use lmiced.Chart.Life.{set_mode}
use lmiced.Chart.Fetch.{
  Reply, Started, called_back, update_chart, describe, done, fail, always, count_end,
}
use lmiced.Chart.Refresh.{auto_refresh}
use lmiced.Sync.{Dashboard, Request, note_request, update_at}
use lmiced.Sync.Selection.{selection_delay, selection_sync, selection_stop, global_stop}
use lmiced.Sync.Master.{set_master, pan_or_zoom, reset_all_charts}

-- `state.autoRefresh()` for the chart `i`
unfoldable pub auto_refresh_at : Env → ℕ → Dashboard → Dashboard
auto_refresh_at e i d = elim (get_elem? d.targets i) [
  | none ↦ d
  | some c ↦
      let (u, s) = auto_refresh e d.pan d.stop_until i c in
      note_request i true s (record d { targets = set d.targets i u })
]

-- `updateChart(callback)` of the chart `i` when what it waited for has come; the callback that
-- `autoRefresh` gave is called at once where `updateChart` calls back at once.
pub continue_at : Env → (refreshing : Bool) → ℕ → Dashboard → Dashboard
continue_at e refreshing i d = elim (get_elem? d.targets i) [
  | none ↦ d
  | some c ↦
      let (u, s) = update_chart e d.pan i c in
      let v =
        (if refreshing
          then (elim s [ called_back ↦ record u { running = false } | _ ↦ u ])
          else u) in
      note_request i refreshing s (record d { targets = set d.targets i v })
]

-- `pauseChart()` and `unpauseChart()`
abbrev pub pause_chart : (paused : Bool) → Chart → Chart
pause_chart b c = record c { paused = b }

-- `library.initialize` is done.
abbrev pub initialized : Chart → Chart
initialized c = record c { library = record (c.library) { initialized = true } }

-- `.always()` of a request that has ended; its callback ends an automatic refresh.
pub end_request : Request → List Request → Dashboard → Dashboard
end_request r others d = record d {
  statistics = count_end d.statistics;
  requests = others;
  targets =
      modify (λ c. if r.refreshing then record (always c) { running = false } else always c) r.chart
        d.targets;
}

-- `.done(data)`, and `NETDATA.globalSelectionSync.stop()` where the chart that was drawn is selected.
pub done_at : Env → Reply → Bool → ℕ → Dashboard → Dashboard
done_at e reply drawn i d = elim (get_elem? d.targets i) [
  | none ↦ d
  | some c ↦
      let (u, stop) = done e d.pan reply drawn c in
      let d' = record d { targets = set d.targets i u } in if stop then global_stop d' else d'
]

-- `.fail(msg)`
pub fail_at : Env → Bool → ℕ → Dashboard → Dashboard
fail_at e aborted i d = record d { targets = modify (fail e aborted) i d.targets }

-- What may happen on the page: charts refresh, what they wait for comes, the user acts. Any of the requests under way may end first: it stands between
-- `newer` and `older`.
pub data Step : Dashboard → Dashboard → Type 0 where
  refreshed : (e : Env) (i : ℕ) (d : Dashboard) → Step d (auto_refresh_at e i d)
  updated : (e : Env) (i : ℕ) (d : Dashboard) → Step d (update_at e i d)
  described :
      (e : Env) (refreshing : Bool) (update_every pixels_per_point i : ℕ) (d : Dashboard)
      → Step d (
          continue_at e refreshing i
            (record d { targets = modify (describe e update_every pixels_per_point) i d.targets }))
  library_ready :
      (e : Env) (refreshing : Bool) (i : ℕ) (d : Dashboard)
      → Step d (continue_at e refreshing i (record d { targets = modify initialized i d.targets }))
  replied :
      (e : Env) (reply : Reply) (drawn : Bool) (newer older : List Request) (r : Request)
      (d : Dashboard)
      → d.requests ≡ newer ++ r ∷ older
      → Step d (end_request r (newer ++ older) (done_at e reply drawn r.chart d))
  failed :
      (e : Env) (aborted : Bool) (newer older : List Request) (r : Request) (d : Dashboard)
      → d.requests ≡ newer ++ r ∷ older
      → Step d (end_request r (newer ++ older) (fail_at e aborted r.chart d))
  hovered : (e : Env) (t : ℤ) (i : ℕ) (d : Dashboard) → Step d (selection_sync e t i d)
  left : (i : ℕ) (d : Dashboard) → Step d (selection_stop i d)
  panned :
      (e : Env) (i : ℕ) (after before : ℤ) (d d' : Dashboard) (exact : Bool)
      → pan_or_zoom e i after before d ≡ some (d', exact)
      → Step d d'
  reset : (e : Env) (i : ℕ) (d : Dashboard) → Step d (reset_all_charts e i d)
  switched :
      (e : Env) (m : Mode) (i : ℕ) (d : Dashboard)
      → Step d (record d { targets = modify (set_mode e m) i d.targets })
  held :
      (paused : Bool) (i : ℕ) (d : Dashboard)
      → Step d (record d { targets = modify (pause_chart paused) i d.targets })
  delayed : (e : Env) (ms : Option ℕ) (d : Dashboard) → Step d (selection_delay e ms d)
  mastered :
      (e : Env) (i : ℕ) (after before : ℤ) (d : Dashboard) → Step d (set_master e i after before d)

-- The states that the page can reach from `d`.
pub data Reachable (d : Dashboard) : Dashboard → Type 0 where
  loaded : Reachable d d
  later : (m n : Dashboard) → Reachable d m → Step m n → Reachable d n
