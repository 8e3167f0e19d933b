-- ===== src/Sync/Dygraph/Moves.antt =====
-- What the methods that the handlers of a drawing call do to the chart under the hand (portal/dashboard.js).
use lmiced.Prelude.{
  ℕ, ◌≡◌, refl, ◌∙◌, ◌≢◌, ap, sym, Bool, true, some, get_elem?, get_elem?-modify_self, arith,
  Bool-cases, Option-cases, inl, inr,
}
use mathlib.Core.Option
use lmiced.Prelude.Int.{ℤ}
use lmiced.Chart.{Mode, auto, Chart, Env}
use lmiced.Chart.Life.{set_mode}
use lmiced.Sync.{Dashboard}
use lmiced.Sync.Selection.{selection_delay, selection_stop}
use lmiced.Sync.Selection.Keeps.{Keeps, selection_stop-Keeps}
use lmiced.Sync.Master.{pan_or_zoom}
use lmiced.Sync.Master.Keeps.{pan_or_zoom-Keeps}
use lmiced.Sync.Requests.{pause_chart}
use lmiced.Sync.Dygraph.{
  Drawn, stop_sync, delay_sync, enter_mode, pause_drawn, user_acts, user_zooms, pan_chart,
}
use lmiced.Sync.Dygraph.Hand.{Hand, IsHand, hush}

same_chart : (c d : Chart) → some c ≡ some d → c ≡ d
same_chart c d h = ground (arith, h)

module _ (e : Env) (i : ℕ) where
  pub keep-IsHand :
      (h : Hand) (p : Drawn) (d : Dashboard)
      → Keeps i p.dashboard d
      → IsHand i h p
      → IsHand i h (record p { dashboard = d })
  keep-IsHand h p d (f, q) r =
      let (u, (a, (m, n))) = f r.chart r.there in
      record {
        chart = u;
        there = a;
        mode = m ∙ r.mode;
        paused = n ∙ r.paused;
        user_action = r.user_action;
        force_zoom = r.force_zoom;
        quiet = q ∙ r.quiet;
      }

  pub stop-IsHand : (h : Hand) (p : Drawn) → IsHand i h p → IsHand i h (stop_sync e i p)
  stop-IsHand h p r =
      keep-IsHand h p (selection_stop i p.dashboard) (selection_stop-Keeps i i p.dashboard) r

  set_mode-current :
      (m : Mode) (c : Chart) → ((set_mode e m c).current ≡ m) × ((set_mode e m c).paused ≡ c.paused)
  unfolding set_mode
  set_mode-current m c = ground arith

  pub enter-IsHand :
      (m : Mode) (h : Hand) (p : Drawn)
      → IsHand i h p
      → IsHand i (record h { mode = m }) (enter_mode e i m p)
  enter-IsHand m h p r =
      let (a, b) = set_mode-current m r.chart in
      record {
        chart = set_mode e m r.chart;
        there =
            get_elem?-modify_self (set_mode e m) i p.dashboard.targets
            ∙ ap (Option.map (set_mode e m)) r.there;
        mode = a;
        paused = b ∙ r.paused;
        user_action = r.user_action;
        force_zoom = r.force_zoom;
        quiet = r.quiet;
      }

  pub pause-IsHand :
      (b : Bool) (h : Hand) (p : Drawn)
      → IsHand i h p
      → IsHand i (record h { paused = b }) (pause_drawn e i b p)
  pause-IsHand b h p r = record {
    chart = pause_chart b (r.chart);
    there =
        get_elem?-modify_self (pause_chart b) i p.dashboard.targets
        ∙ ap (Option.map (pause_chart b)) r.there;
    mode = r.mode;
    paused = refl;
    user_action = r.user_action;
    force_zoom = r.force_zoom;
    quiet = r.quiet;
  }

  pub act-IsHand :
      (h : Hand) (p : Drawn)
      → IsHand i h p
      → IsHand i (record h { user_action = true }) (user_acts e i p)
  act-IsHand h p r = record {
    chart = r.chart;
    there = r.there;
    mode = r.mode;
    paused = r.paused;
    user_action = refl;
    force_zoom = r.force_zoom;
    quiet = r.quiet;
  }

  pub zoom-IsHand :
      (h : Hand) (p : Drawn)
      → IsHand i h p
      → IsHand i (record h { user_action = true; force_zoom = true }) (user_zooms e i p)
  zoom-IsHand h p r = record {
    chart = r.chart;
    there = r.there;
    mode = r.mode;
    paused = r.paused;
    user_action = refl;
    force_zoom = refl;
    quiet = r.quiet;
  }

  pub delay-IsHand : (h : Hand) (p : Drawn) → IsHand i h p → IsHand i (hush e h) (delay_sync e i p)
  unfolding hush selection_delay
  delay-IsHand h p r = elim (Bool-cases e.sync_selection) [
    | inl b ↦ simp b record {
      chart = r.chart;
      there = r.there;
      mode = r.mode;
      paused = r.paused;
      user_action = r.user_action;
      force_zoom = r.force_zoom;
      quiet = refl;
    }
    | inr b ↦ simp b r
  ]

  pub pan-IsHand :
      (a b : ℤ) (h : Hand) (p : Drawn)
      → h.mode ≢ auto
      → IsHand i h p
      → IsHand i h (pan_chart e i a b p).0
  unfolding pan_chart
  pan-IsHand a b h p n r = elim (Option-cases (pan_or_zoom e i a b p.dashboard)) [
    | inl k ↦ rw (k, pan_chart) r
    | inr ((d, exact), k) ↦
        let own : (c : Chart) → get_elem? p.dashboard.targets i ≡ some c → c.current ≢ auto =
          λ c g q. n (sym r.mode ∙ ap Chart.current (same_chart r.chart c (sym r.there ∙ g)) ∙ q) in
        rw (k, pan_chart)
          (keep-IsHand h p d (pan_or_zoom-Keeps e i a b p.dashboard d exact k own) r)
  ]

  -- The selection stops and is delayed.
  pub let_go-IsHand :
      (h : Hand) (p : Drawn) → IsHand i h p → IsHand i (hush e h) (delay_sync e i (stop_sync e i p))
  let_go-IsHand h p r = delay-IsHand h (stop_sync e i p) (stop-IsHand h p r)
