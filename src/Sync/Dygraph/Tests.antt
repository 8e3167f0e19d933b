-- ===== src/Sync/Dygraph/Tests.antt =====
-- A page of two charts: the first is panned with the mouse, then zoomed with the wheel.
use lmiced.Prelude.{◌≡◌, refl, true, false, none, [], ◌∷◌, List}
use lmiced.Prelude.Int.{pos, ◌+ℤ◌, ◌-ℤ◌, ◌≤ℤ◌, scale}
use lmiced.Chart.Sample.{page, chart, below, no_pan}
use lmiced.Sync.{Dashboard}
use lmiced.Sync.Requests.{Reachable, loaded}
use lmiced.Sync.Dygraph.{
  Drawn, Made, presses, moves, releases, draws, wheels, wheel_range, handle_all,
}
use lmiced.Chart.{zoom}
use lmiced.Sync.Dygraph.Hand.{
  Hand, IsHand, hush, quiets, drag_mode, follows_time, follow, follow_all, may_reset,
}
use lmiced.Sync.Dygraph.Follows.{handle_all-IsHand}
use lmiced.Sync.Dygraph.Refines.{handle_all-Reachable}
use lmiced.Sync.Dygraph.Within.{wheel_range-IsWithin}

abbrev two_charts : Dashboard
two_charts = record {
  targets = chart ∷ below ∷ [];
  pan = no_pan;
  selection = record { state = none; dont_sync_before = 0; last_t = pos 0; slaves = [] };
  statistics = record { refreshes_total = 0; refreshes_active = 0; refreshes_active_max = 0 };
  stop_until = 0;
  requests = [];
}

abbrev drawn : Drawn
drawn = record {
  dashboard = two_charts;
  touch = record {
    user_action = false;
    force_zoom = false;
    last_start = 0;
    last_move = 0;
    page_x = pos 0;
    last_end = none;
  };
}

abbrev gestures : List Made
gestures =
    record {
      env = page;
      chart = 0;
      gesture = presses (record { button = 0; alt_or_shift = false });
    }
    ∷ record { env = page; chart = 0; gesture = moves true false }
    ∷ record { env = page; chart = 0; gesture = draws (pos 200_000) (pos 600_000) }
    ∷ record { env = page; chart = 0; gesture = releases true false }
    ∷ record {
      env = page;
      chart = 0;
      gesture = wheels (record { button = 0; alt_or_shift = true }) (pos 500_000) (pos 900_000);
    }
    ∷ []

reaches : Reachable two_charts (handle_all gestures drawn).dashboard
reaches = handle_all-Reachable two_charts gestures drawn loaded

-- Nobody has touched the chart yet.
abbrev at_rest : Hand
at_rest = record {
  mode = chart.current;
  paused = chart.paused;
  user_action = false;
  force_zoom = false;
  quiet_until = 0;
}

drawn-IsHand : IsHand 0 at_rest drawn
drawn-IsHand = record {
  chart = chart;
  there = refl;
  mode = refl;
  paused = refl;
  user_action = refl;
  force_zoom = refl;
  quiet = refl;
}

handle_all-IsHand_example : IsHand 0 (follow_all gestures at_rest) (handle_all gestures drawn)
unfolding may_reset
handle_all-IsHand_example =
    handle_all-IsHand 0 gestures at_rest drawn
      ((refl, refl), ((refl, refl), ((refl, refl), ((refl, refl), ((refl, refl), tt)))))
      drawn-IsHand

-- After the wheel the chart zooms.
zooms_last : (follow_all gestures at_rest).mode ≡ zoom
unfolding follow_all follow quiets hush drag_mode follows_time
zooms_last = refl

wheel_range-IsWithin_example :
    let first = scale 2 (pos 0 +ℤ pos 1_000) in
    let last = scale 2 (pos 700_000 +ℤ pos 1_000) in
    let r = wheel_range chart (pos 900_000) (pos 1_500_000) in
    (r.1 ≤ℤ last)
    × (first ≤ℤ r.0)
    × (first ≤ℤ pos 900_000
        → pos 1_500_000 -ℤ pos 900_000 ≤ℤ last -ℤ first
        → r.1 -ℤ r.0 ≡ pos 1_500_000 -ℤ pos 900_000)
wheel_range-IsWithin_example = wheel_range-IsWithin chart (pos 900_000) (pos 1_500_000)

-- The range is moved back to the data.
moved_back : wheel_range chart (pos 900_000) (pos 1_500_000) ≡ (pos 802_000, pos 1_402_000)
unfolding wheel_range scale ◌+ℤ◌ ◌-ℤ◌
moved_back = refl
