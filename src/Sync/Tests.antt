-- ===== src/Sync/Tests.antt =====
-- The selection and the pan or zoom of all charts on a page of three charts.
use lmiced.Sync.Selection.{selection_delay, global_delay}
use lmiced.Sync.Refresher.{Loop, waits, chart_refresher, unpause, request_pause}
use lmiced.Prelude.{
  ◌++◌, ℕ, ◌≡◌, refl, ◌≢◌, ◌↔◌, true, false, ◌||◌, none, some, [], ◌∷◌, arith, nat_beq, get_elem?,
}
use lmiced.Prelude.Int.{pos, ◌+ℤ◌}
use lmiced.Chart.{Chart, Env}
use lmiced.Chart.Sample.{page, chart, below, panned, reply}
use lmiced.Chart.Window.{is_active, should_be_auto_refreshed}
use lmiced.Sync.{Dashboard, Request}
use lmiced.Sync.Selection.{selection_stop, selection_sync, selection_ability}
use lmiced.Sync.Selection.Stop.{elem, cleared_if, get_elem?-selection_stop}
use lmiced.Sync.Selection.Valid.{IsValid, selection_sync-IsValid}
use lmiced.Chart.Life.{is_visible}
use lmiced.Sync.Refresher.{collect, visit}
use lmiced.Sync.Refresher.Collected.{wants, collect-elem}
use lmiced.Sync.Ledger.{IsCounted}
use lmiced.Sync.Requests.{
  end_request, done_at, auto_refresh_at, Reachable, loaded, later, replied, refreshed,
}
use lmiced.Sync.Requests.Counts.{Reachable-IsCounted}
use lmiced.Sync.Master.{clear_with, clear_master, set_master}
use lmiced.Sync.Master.Clear.{clear_master-ends}
use lmiced.Sync.Master.Take.{TakesOver, set_master-TakesOver}

abbrev selected : Chart
selected = record chart { selected = true }

-- The mouse is over the chart 1, the chart 0 follows it, the chart 2 is off the screen.
abbrev dashboard : Dashboard
dashboard = record {
  targets = selected ∷ selected ∷ below ∷ [];
  pan = panned;
  selection = record { state = some 1; dont_sync_before = 0; last_t = pos 300000; slaves = 0 ∷ [] };
  statistics = record { refreshes_total = 9; refreshes_active = 0; refreshes_active_max = 3 };
  stop_until = 0;
  requests = [];
}

dashboard-IsValid : IsValid dashboard
dashboard-IsValid = record {
  idle = λ h. cc;
  others = (λ h. grind arith, tt);
  descending = (omega arith, tt);
}

get_elem?-selection_stop_example :
    get_elem? (selection_stop 2 dashboard).targets 0
    ≡ cleared_if (nat_beq 2 0 || elem 0 (0 ∷ [])) (some selected)
get_elem?-selection_stop_example = get_elem?-selection_stop 2 dashboard 0

selection_sync-IsValid_example :
    IsValid (selection_sync page (pos 400000) 0 dashboard)
    × (selection_ability page dashboard ≡ true
        → (selection_sync page (pos 400000) 0 dashboard).selection.state ≡ some 0)
selection_sync-IsValid_example =
    selection_sync-IsValid page (pos 400000) 0 dashboard dashboard-IsValid

abbrev undone : Env → Dashboard → Dashboard
undone e d = record d { targets = [] }

clear_master-ends_example :
    let c = clear_master page dashboard in
    (clear_with undone page dashboard ≡ c)
    × (c.pan.master ≡ none)
    × (is_active c.pan ≡ false)
    × (c.stop_until ≡ 0)
    × ((j : ℕ) → panned.master ≢ some j → get_elem? c.targets j ≡ get_elem? dashboard.targets j)
clear_master-ends_example = clear_master-ends undone page dashboard

set_master-TakesOver_example :
    let t = set_master page 1 (pos 200000) (pos 600000) dashboard in
    TakesOver page 1 0 selected dashboard t
    × (is_active t.pan ≡ true)
    × ((u : Chart) → (should_be_auto_refreshed t.pan u ≡ true) ↔ (u.tm.pan_and_zoom_seq ≢ 700250))
set_master-TakesOver_example =
    set_master-TakesOver page 1 0 (pos 200000) (pos 600000) selected dashboard refl
      (λ h. omega arith) refl (λ h. omega arith) refl

-- The chart 0 waits for its data, with the callback of its automatic refresh.
abbrev waiting : Request
waiting = record { chart = 0; refreshing = true }

abbrev busy : Dashboard
busy = record dashboard {
  statistics = record { refreshes_total = 9; refreshes_active = 1; refreshes_active_max = 3 };
  requests = waiting ∷ [];
}

abbrev replied_busy : Dashboard
replied_busy = end_request waiting ([] ++ []) (done_at page reply true 0 busy)

busy-IsCounted : IsCounted busy
busy-IsCounted = record { active = refl; most = omega arith; total = omega arith }

-- The data come, and then the chart 1 refreshes itself.
busy-Reachable : Reachable busy (auto_refresh_at page 1 replied_busy)
busy-Reachable =
    later replied_busy (auto_refresh_at page 1 replied_busy)
      (later busy replied_busy loaded (replied page reply true [] [] waiting busy refl))
      (refreshed page 1 replied_busy)

Reachable-IsCounted_example : IsCounted (auto_refresh_at page 1 replied_busy)
Reachable-IsCounted_example =
    Reachable-IsCounted busy (auto_refresh_at page 1 replied_busy) busy-Reachable busy-IsCounted

-- The charts 0 and 1 are on the screen, the chart 2 is below it.
collected : (collect page false 3 dashboard []).0 ≡ some (1 ∷ 0 ∷ [])
unfolding collect visit is_visible ◌+ℤ◌
collected = refl

collect-elem_example : elem 2 (1 ∷ 0 ∷ []) ≡ wants page (some below)
collect-elem_example = collect-elem page false dashboard (1 ∷ 0 ∷ []) 2 collected (omega arith)

global_delay_test : (global_delay page dashboard).selection.dont_sync_before ≡ 701750
unfolding global_delay selection_delay
global_delay_test = refl

-- A pause takes effect in two iterations, and then lasts.
abbrev running : Loop
running = record { pause = false; pause_callback = false; updated_dom = false }

paused_test :
    let (m, d, t) = chart_refresher page false ((request_pause running).0, dashboard) in
    (chart_refresher page false (m, d)).2 ≡ waits
unfolding chart_refresher request_pause
paused_test = refl

unpause_test : (unpause running).updated_dom ≡ true
unfolding unpause
unpause_test = refl
