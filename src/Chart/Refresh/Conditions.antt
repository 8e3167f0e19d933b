-- ===== src/Chart/Refresh/Conditions.antt =====
-- The conditions of `canBeAutoRefreshed` (portal/dashboard.js).
use lmiced.Prelude.{ℕ, ◌+◌, ◌≤◌, ◌<◌, ◌≡◌, ◌≢◌, ◌⊎◌, ◌↔◌, true, false, arith}
use lmiced.Chart.{Chart, Env, auto, forced}
use lmiced.Chart.Life.{is_visible, needs_recreation}
use lmiced.Chart.Window.{PanAndZoom, is_active, should_be_auto_refreshed}
use lmiced.Chart.Refresh.{due, auto_due, visible_refreshed, can_be_auto_refreshed}

-- The background refresher is not held back.
abbrev pub IsAwake : Env → ℕ → Type 0
IsAwake e stop_until = (stop_until ≡ 0) ⊎ (stop_until < e.now)

-- The chart is behind: of the range that a pan or zoom has forced on all charts, or of the time.
abbrev pub IsBehind : Env → PanAndZoom → Chart → Type 0
IsBehind e p c =
    ((is_active p ≡ true) × (should_be_auto_refreshed p c ≡ true))
    ⊎ ((is_active p ≡ false)
        × (c.selected ≡ false)
        × (c.paused ≡ false)
        × (c.tm.last_autorefreshed + c.range.data_update_every ≤ e.now))

-- The page has the focus, or the chart has not been updated since it was last shown.
abbrev pub IsSeen : Env → Chart → Type 0
IsSeen e c =
    (e.page_is_visible ≡ true) ⊎ (c.updates_counter ≡ 0) ⊎ (c.updates_since_last_unhide ≡ 0)

-- The time of a forced update has come.
abbrev pub IsForcedNow : Env → Chart → Type 0
IsForcedNow e c = ((forced c).force_update_at ≢ 0) × ((forced c).force_update_at < e.now)

abbrev pub MayRefresh : Env → PanAndZoom → ℕ → Chart → Type 0
MayRefresh e p stop_until c =
    IsForcedNow e c
    ⊎ ((c.current ≡ auto)
        × IsSeen e c
        × ((needs_recreation e c ≡ true) ⊎ (IsAwake e stop_until × IsBehind e p c)))

due_iff :
    (e : Env) (p : PanAndZoom) (s : ℕ) (c : Chart)
    → (due e p s c ≡ true) ↔ (IsAwake e s × IsBehind e p c)
unfolding due
due_iff e p s c = ground arith

auto_due_iff :
    (e : Env) (p : PanAndZoom) (s : ℕ) (c : Chart)
    → (auto_due e p s c ≡ true) ↔ (
        (c.current ≡ auto)
        × IsSeen e c
        × ((needs_recreation e c ≡ true) ⊎ (IsAwake e s × IsBehind e p c)))
unfolding auto_due
auto_due_iff e p s c = ground (arith, due_iff e p s c)

visible_refreshed_iff :
    (e : Env) (p : PanAndZoom) (s : ℕ) (c : Chart)
    → ((visible_refreshed e p s c).0 ≡ true) ↔ MayRefresh e p s c
unfolding visible_refreshed
visible_refreshed_iff e p s c = ground (arith, auto_due_iff e p s c)

-- A chart may be refreshed exactly when it is not being refreshed, is enabled with an enabled
-- library, is visible, and either the time of its forced update has come, or it is in the mode
-- `auto`, the page has the focus or the chart is new to the screen, and it must be drawn anew after
-- a resize or is behind while the background refresher is awake. The state after the check of
-- visibility is the one that counts.
pub can_be_auto_refreshed_iff :
    (e : Env) (p : PanAndZoom) (s : ℕ) (c : Chart)
    → ((can_be_auto_refreshed e p s c).0 ≡ true) ↔ (
        (c.running ≡ false)
        × (c.enabled ≡ true)
        × (c.library.enabled ≡ true)
        × ((is_visible false e c).0 ≡ true)
        × MayRefresh e p s (is_visible false e c).1)
unfolding can_be_auto_refreshed
can_be_auto_refreshed_iff e p s c =
    ground (arith, visible_refreshed_iff e p s (is_visible false e c).1)
