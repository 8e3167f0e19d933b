-- ===== src/Old/Views.antt =====
-- The views and presentations of the older dashboard (portal/old/index.js): `switchToMainGraph`,
-- `switchToThumbGraphs`, `switchToGroupGraphs`, `setPresentationNormal` and its like. Each is a run of the page.
use lmiced.Prelude.{ℕ, ◌+◌, true, false, is_some, if◌then◌else◌}
use lmiced.Old.{View, thumbs, main, group_thumbs, OldPage}
use lmiced.Old.Callback.{play_graphs}
use lmiced.Old.Runs.{ThreadRun, changes, plays, restarts}

-- `mode = …` and `playGraphs()`
unfoldable pub switch_to : (now : ℕ) → View → OldPage → OldPage
switch_to now v p = play_graphs now (record p { mode = v })

-- `switchToMainGraph()`
unfoldable pub switch_to_main_graph : (now : ℕ) → OldPage → OldPage
switch_to_main_graph now p = if is_some p.main_chart then switch_to now main p else p

-- `switchToThumbGraphs()`
unfoldable pub switch_to_thumb_graphs : (now : ℕ) → OldPage → OldPage
switch_to_thumb_graphs now p = switch_to now thumbs p

-- `switchToGroupGraphs()`
unfoldable pub switch_to_group_graphs : (now : ℕ) → OldPage → OldPage
switch_to_group_graphs now p = if is_some p.group_charts then switch_to now group_thumbs p else p

-- `setPresentationNormal()`, `setPresentationSpeedy()` and `setPresentationDetailed()`, with their
-- `CHARTS_REFRESH_LOOP` and `CHARTS_SCROLL_IDLE`; the divisors of the points are left out.
unfoldable pub set_presentation : (now loop idle : ℕ) → OldPage → OldPage
set_presentation now loop idle p =
    play_graphs now (record p { refresh_loop = loop; scroll_idle = idle; resize_request = true })

unfoldable pub set_presentation_normal : (now : ℕ) → OldPage → OldPage
set_presentation_normal now p = set_presentation now 50 50 p

unfoldable pub set_presentation_speedy : (now : ℕ) → OldPage → OldPage
set_presentation_speedy now p = set_presentation now 50 100 p

unfoldable pub set_presentation_detailed : (now : ℕ) → OldPage → OldPage
set_presentation_detailed now p = set_presentation now 50 50 p

-- How often the thread is restarted by `playGraphs` on this page
abbrev pub restarts_if_paused : (now : ℕ) → OldPage → ℕ
restarts_if_paused now q = if q.paused then restarts now (record q { paused = false }) else 0

switch_to-ThreadRun :
    (p : OldPage) {l r : ℕ} (q : OldPage) (now : ℕ) (v : View)
    → ThreadRun p l r q
    → ThreadRun p l (r + restarts_if_paused now (record q { mode = v })) (switch_to now v q)
unfolding switch_to
switch_to-ThreadRun p q now v h = plays now (changes (record q { mode = v }) h)

set_presentation-ThreadRun :
    (p : OldPage) {l r : ℕ} (q : OldPage) (now loop idle : ℕ)
    → ThreadRun p l r q
    → (let q' = record q { refresh_loop = loop; scroll_idle = idle; resize_request = true } in
        ThreadRun p l (r + restarts_if_paused now q') (set_presentation now loop idle q))
unfolding set_presentation
set_presentation-ThreadRun p q now loop idle h =
    plays now
      (changes (record q { refresh_loop = loop; scroll_idle = idle; resize_request = true }) h)
