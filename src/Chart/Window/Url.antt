-- ===== src/Chart/Window/Url.antt =====
-- The range that `chartURL` asks for (portal/dashboard.js), and what it leaves of the chart.
use lmiced.Prelude.{ℕ, ◌≡◌, true, false, some, arith}
use lmiced.Prelude.Int.{ℤ, pos, ◌+ℤ◌, ◌-ℤ◌, ◌≤ℤ◌, scale}
use lmiced.Chart.{Chart, Env, forced}
use lmiced.Chart.Window.{
  PanAndZoom, is_master, is_active, should_be_auto_refreshed, Query, seconds, chart_url,
}

-- A chart that follows the master: it asks for the master's range in whole seconds, shows that
-- range, and is marked with the master's sequence number.
abbrev pub Mirrors : PanAndZoom → ℤ → ℤ → Chart → Chart × Query → Type 0
Mirrors p after before c (d, q) =
    (q ≡ record {
      query_after = seconds after;
      query_before = seconds before;
      points_multiplier = 1;
    })
    × (d.range.view_after ≡ scale 1000 (seconds after))
    × (d.range.view_before ≡ scale 1000 (seconds before))
    × (d.tm.pan_and_zoom_seq ≡ p.seq)
    × (forced d ≡ forced c)

-- While a pan or zoom is in force, a chart that is not its master mirrors the master's range, keeps
-- its own forced range, and then needs no refresh until the master moves again.
pub chart_url-Mirrors :
    (e : Env) (p : PanAndZoom) (i : ℕ) (c : Chart) {after before : ℤ}
    → is_active p ≡ true
    → is_master i p ≡ false
    → p.force_after ≡ some after
    → p.force_before ≡ some before
    → Mirrors p after before c (chart_url e p i c)
      × (should_be_auto_refreshed p (chart_url e p i c).0 ≡ false)
unfolding chart_url should_be_auto_refreshed
chart_url-Mirrors e p i c h k a b = ground arith

-- What a request is for the range that the chart shows from then on: it asks for that range, stretched
-- equally far on both sides, and is as many times as wide as it asks for more points, up to
-- one second.
abbrev pub IsEven : Chart × Query → Type 0
IsEven (d, q) =
    let width = d.range.view_before -ℤ d.range.view_after in
    let asked = scale 1000 q.query_before -ℤ scale 1000 q.query_after in
    (d.range.requested_after ≡ some (scale 1000 q.query_after))
    × (d.range.requested_before ≡ some (scale 1000 q.query_before))
    × (d.range.view_after -ℤ scale 1000 q.query_after
        ≡ scale 1000 q.query_before -ℤ d.range.view_before)
    × (scale q.points_multiplier width ≤ℤ asked)
    × (asked ≤ℤ scale q.points_multiplier width +ℤ pos 1000)
