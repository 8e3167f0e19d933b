-- ===== src/Sync/Round/Tests.antt =====
-- A round over two charts: one on the screen, whose data is asked for, and one below it.
use lmiced.Prelude.{ℕ, ◌*◌, ◌≤◌, ◌≡◌, refl, ◌⊎◌, false, none, [], ◌∷◌, List}
use lmiced.Prelude.Int.{pos}
use lmiced.Prelude.Int.{◌+ℤ◌}
use lmiced.Chart.Life.{is_visible, can_be_rendered}
use lmiced.Chart.Window.{is_active}
use lmiced.Chart.Fetch.{update_chart}
use lmiced.Chart.Sample.{page, chart, below, no_pan}
use lmiced.Chart.Refresh.{auto_refresh}
use lmiced.Sync.{Dashboard}
use lmiced.Sync.Requests.{auto_refresh_at}
use lmiced.Sync.Round.{
  Idle, refreshes, calls, restarts, Round, refresh_no_parallel, started_at, timer_fires, Run,
  begins, fires,
}
use lmiced.Sync.Round.Ends.{Ended, refresh_no_parallel_ends}

abbrev idle : Idle
idle = record { between_charts = 100; between_loops = 500; fast_render_timeframe = 200 }

abbrev two_charts : Dashboard
two_charts = record {
  targets = chart ∷ below ∷ [];
  pan = no_pan;
  selection = record { state = none; dont_sync_before = 0; last_t = pos 0; slaves = [] };
  statistics = record { refreshes_total = 0; refreshes_active = 0; refreshes_active_max = 0 };
  stop_until = 0;
  requests = [];
}

abbrev at_start : Round
at_start = record {
  dashboard = two_charts;
  updated_dom = false;
  fast_weight = 0;
  next = restarts 500;
}

abbrev begun : Round
begun = refresh_no_parallel idle 0 at_start

fires_first : begun.next ≡ refreshes 0 0
unfolding refresh_no_parallel
fires_first = refl

refresh_no_parallel_ends_example :
    (1 ≤ 2 * 2)
    × (Ended idle 2 (0 ∷ []) (timer_fires idle page 0 begun)
        ⊎ ((ks : List ℕ) × ((s : Round) × Run idle begun 2 ks s)))
refresh_no_parallel_ends_example =
    refresh_no_parallel_ends idle page 2 1 (0 ∷ []) at_start (timer_fires idle page 0 begun) refl
      (fires page 0 0 begins fires_first)

-- The first chart waits for its data; the second is off the screen, so that the round is over at once.
waits_for_first : (timer_fires idle page 0 begun).next ≡ calls 0
unfolding timer_fires refresh_no_parallel started_at auto_refresh is_visible ◌+ℤ◌ is_active
    update_chart can_be_rendered
waits_for_first = refl

passes_second :
    (timer_fires idle page 1 (record at_start { next = refreshes 1 0 })).next ≡ restarts 500
unfolding timer_fires refresh_no_parallel started_at auto_refresh auto_refresh_at is_visible ◌+ℤ◌
passes_second = refl
