-- ===== src/Chart/Refresh.antt =====
-- `canBeAutoRefreshed` and `autoRefresh` (portal/dashboard.js).
pub mod Conditions
use lmiced.Prelude.{
  ℕ, ◌+◌, Bool, true, false, not, ◌&&◌, ◌||◌, Option, none, some, ltb, leb, nat_beq, if◌then◌else◌,
}
use lmiced.Chart.{Mode, auto, pan, zoom, Forced, Tm, Library, Chart, Env, forced, set_forced}
use lmiced.Chart.Life.{is_visible, needs_recreation}
use lmiced.Chart.Window.{PanAndZoom, is_active, should_be_auto_refreshed}
use lmiced.Chart.Fetch.{show_error, update_chart, Started, called_back}

-- `current.autorefresh`
abbrev pub is_auto_refreshable : Chart → Bool
is_auto_refreshable c = elim c.current [ auto ↦ true | _ ↦ false ]

-- "options valid only for autoRefresh()": `stop_until` is `auto_refresher_stop_until`.
due : Env → PanAndZoom → ℕ → Chart → Bool
due e p stop_until c =
    if nat_beq stop_until 0 || ltb stop_until e.now
    then if is_active p
      then should_be_auto_refreshed p c
      else if c.selected || c.paused
      then false
      else leb (c.tm.last_autorefreshed + c.range.data_update_every) e.now
    else false

-- `if(this.isAutoRefreshable() === true)`
auto_due : Env → PanAndZoom → ℕ → Chart → Bool
unfolding due
auto_due e p stop_until c =
    if is_auto_refreshable c
    then if not (nat_beq c.updates_counter 0)
        && not (nat_beq c.updates_since_last_unhide 0)
        && not e.page_is_visible
      then false
      else if needs_recreation e c
      then true
      else due e p stop_until c
    else false

-- A chart that is found visible. A timed forced update is used up.
visible_refreshed : Env → PanAndZoom → ℕ → Chart → Bool × Chart
unfolding auto_due
visible_refreshed e p stop_until c =
    let f = forced c in
    if not (nat_beq f.force_update_at 0) && ltb f.force_update_at e.now
    then (true, set_forced (record f { force_update_at = 0 }) c)
    else (auto_due e p stop_until c, c)

unfoldable pub can_be_auto_refreshed : Env → PanAndZoom → ℕ → Chart → Bool × Chart
unfolding visible_refreshed
can_be_auto_refreshed e p stop_until c =
    if c.running || not c.enabled
    then (false, c)
    else if not c.library.enabled
    then (false, show_error e c)
    else let (shown, d) = is_visible false e c in
      if shown then visible_refreshed e p stop_until d else (false, d)

-- `autoRefresh()`: `running` is set for the time of the update, and cleared at once where
-- `updateChart` calls back at once.
unfoldable pub auto_refresh : Env → PanAndZoom → ℕ → ℕ → Chart → Chart × Started
unfolding can_be_auto_refreshed
auto_refresh e p stop_until i c =
    let (allowed, d) = can_be_auto_refreshed e p stop_until c in
    if allowed && not d.running
    then (let (u, s) = update_chart e p i (record d { running = true }) in
        (elim s [ called_back ↦ record u { running = false } | _ ↦ u ], s))
    else (d, called_back)
