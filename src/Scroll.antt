-- ===== src/Scroll.antt =====
-- The events of the page (portal/dashboard.js): `NETDATA.onresize`, `NETDATA.onscroll`,
-- `NETDATA.onscroll_updater` with its timeout and its watchdog, and the focus of the window in `NETDATA.start`.
-- The option `abort_ajax_on_scroll` is read where it is not defined, so that no request is aborted.
pub mod Kept
mod Tests
use lmiced.Prelude.{
  ℕ, ◌+◌, ◌-◌, ◌*◌, ◌≤◌, ◌<◌, ◌≡◌, Bool, true, false, not, ◌&&◌, List, [], ◌∷◌, map, Option, none,
  some, ltb, if◌then◌else◌,
}
use lmiced.Chart.{Chart, Env}
use lmiced.Chart.Life.{is_visible}

-- `NETDATA.onscroll_updater_*`, and what the handlers write of `NETDATA.options`. `timeouts` and `watchdog`
-- are the timeouts of the updater and of the watchdog that are still to run.
pub record Page : Type 0 where
  pub targets : Option (List Chart)
  pub last_page_resize : ℕ
  pub last_page_scroll : ℕ
  pub stop_until : ℕ
  pub scroll_up : Bool
  pub scroll_y : ℕ
  pub async_on_scroll : Bool
  pub updater_count : ℕ
  pub updater_running : Bool
  pub updater_last_run : ℕ
  pub max_duration : ℕ
  pub above_threshold : ℕ
  pub timeouts : ℕ
  pub watchdog : Bool
  pub page_is_visible : Bool

-- What a handler reads: the clock when it begins and when it has looked at the charts, and the option
-- `onscroll_worker_duration_threshold`.
pub record Clock : Type 0 where
  pub env : Env
  pub finished : ℕ
  pub threshold : ℕ

-- What the charts' methods read of the page
abbrev page_env : Page → Env → Env
page_env p e = record e {
  last_page_scroll = p.last_page_scroll;
  last_page_resize = p.last_page_resize;
}

-- `while(len--) targets[len].isVisible();`
unfoldable pub look : Env → List Chart → List Chart
look e = map (λ c. (is_visible false e c).1)

-- `if(NETDATA.options.current.async_on_scroll === false)`: a slow browser gets the asynchronous handler.
judge : Clock → Page → Page
judge k p =
    if p.async_on_scroll
    then p
    else let dt = k.finished - k.env.now in
      let q = record p { max_duration = if ltb p.max_duration dt then dt else p.max_duration } in
      if ltb k.threshold dt
      then (let n = q.above_threshold + 1 in
          record q {
            above_threshold = n;
            async_on_scroll = ltb 2 n && ltb (2 * q.updater_count) (n * 100);
          })
      else q

-- `NETDATA.onscroll_updater()`
unfoldable pub onscroll_updater : Clock → Page → Page
unfolding judge
onscroll_updater k p =
    let q = record p {
      updater_count = p.updater_count + 1;
      targets = elim p.targets [ none ↦ none | some cs ↦ some (look (page_env p k.env) cs) ];
    } in
    record (judge k q) { updater_last_run = k.env.now; updater_running = false }

-- `NETDATA.onscroll()`
unfoldable pub onscroll : Clock → Page → Page
onscroll k p =
    let q = record p {
      scroll_up = ltb p.scroll_y k.env.scroll_y;
      scroll_y = k.env.scroll_y;
      last_page_scroll = k.env.now;
      stop_until = 0;
    } in
    elim q.targets [
      | none ↦ q
      | some cs ↦
          if q.async_on_scroll
          then if not q.updater_running
            then record q { updater_running = true; timeouts = q.timeouts + 1 }
            else record q { watchdog = true }
          else onscroll_updater k q
    ]

-- `NETDATA.onresize()`; the page's own callback is left out.
unfoldable pub onresize : Clock → Page → Page
onresize k p = onscroll k (record p { last_page_resize = k.env.now })

-- The timeout of the updater
unfoldable pub timeout_runs : Clock → Page → Page
timeout_runs k p = onscroll_updater k (record p { timeouts = p.timeouts - 1 })

-- The function of the watchdog
unfoldable pub watchdog_runs : Clock → Page → Page
watchdog_runs k p =
    record (if not p.updater_running && ltb p.updater_last_run p.last_page_scroll
      then onscroll_updater k p
      else p) { watchdog = false }

-- `blur` and `focus` of the window, under the option `stop_updates_when_focus_is_lost`
unfoldable pub focus_changes : (stop_updates focused : Bool) → Page → Page
focus_changes stop_updates focused p =
    if stop_updates then record p { page_is_visible = focused } else p

-- What may happen to a page whose charts are known. The clock does not go back behind the last scroll.
pub data Happens (p : Page) : Page → Type 0 where
  scrolls :
      (k : Clock) (cs : List Chart)
      → p.targets ≡ some cs
      → p.last_page_scroll ≤ k.env.now
      → Happens p (onscroll k p)
  resizes :
      (k : Clock) (cs : List Chart)
      → p.targets ≡ some cs
      → p.last_page_scroll ≤ k.env.now
      → Happens p (onresize k p)
  updates :
      (k : Clock) → 0 < p.timeouts → p.last_page_scroll ≤ k.env.now → Happens p (timeout_runs k p)
  watches :
      (k : Clock)
      → p.watchdog ≡ true
      → p.last_page_scroll ≤ k.env.now
      → Happens p (watchdog_runs k p)
  focuses : (stop_updates focused : Bool) → Happens p (focus_changes stop_updates focused p)

pub data Leads (p : Page) : Page → Type 0 where
  opened : Leads p p
  goes_on : {q r : Page} → Leads p q → Happens q r → Leads p r
