-- ===== src/Scroll/Tests.antt =====
-- Two scrolls with the asynchronous handler, and a slow browser.
use lmiced.Prelude.{◌≤◌, ◌≡◌, refl, true, false, some, [], ◌∷◌, arith}
use lmiced.Chart.Sample.{page, chart, below}
use lmiced.Scroll.{Page, Clock, onscroll_updater, onscroll, Leads, opened, goes_on, scrolls}
use lmiced.Scroll.Kept.{IsKept, scroll-IsKept}

abbrev still : Page
still = record {
  targets = some (chart ∷ below ∷ []);
  last_page_resize = 3;
  last_page_scroll = 5;
  stop_until = 0;
  scroll_up = false;
  scroll_y = 0;
  async_on_scroll = true;
  updater_count = 7;
  updater_running = false;
  updater_last_run = 5;
  max_duration = 0;
  above_threshold = 2;
  timeouts = 0;
  watchdog = false;
  page_is_visible = true;
}

abbrev clock : Clock
clock = record { env = page; finished = 700290; threshold = 30 }

still-IsKept : IsKept still
still-IsKept = record { runs = refl; waits = λ h. refl; looked = λ h w. omega arith }

abbrev scrolled : Page
scrolled = onscroll clock (onscroll clock still)

-- The first scroll sets the timeout, the second the watchdog.
both_wait : scrolled.watchdog ≡ true
unfolding onscroll
both_wait = refl

once-Leads : Leads still (onscroll clock still)
once-Leads = goes_on opened (scrolls clock (chart ∷ below ∷ []) refl (omega arith))

scroll-IsKept_example :
    ((onscroll clock still).timeouts ≤ 1)
    × (((onscroll clock still).timeouts ≡ 0
          → (onscroll clock still).watchdog ≡ false
          → (onscroll clock still).last_page_scroll ≤ (onscroll clock still).updater_last_run)
        × IsKept (onscroll clock still))
scroll-IsKept_example = scroll-IsKept still (onscroll clock still) still-IsKept once-Leads

-- A third slow scroll of eight switches to the asynchronous handler.
slow : (onscroll clock (record still { async_on_scroll = false })).async_on_scroll ≡ true
unfolding onscroll onscroll_updater
slow = refl
