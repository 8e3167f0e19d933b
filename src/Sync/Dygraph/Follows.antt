-- ===== src/Sync/Dygraph/Follows.antt =====
-- The handlers of a chart's drawing do what the gestures mean (portal/dashboard.js, `dygraphChartCreate`).
use lmiced.Prelude.{
  ℕ, ◌≡◌, refl, ◌≢◌, sym, subst, Bool, true, false, ◌&&◌, ◌||◌, List, [], ◌∷◌, All, nat_beq, arith,
  if◌then◌else◌, Bool-cases, Option-cases, inl, inr,
}
use lmiced.Prelude.Int.{ℤ, ltb_ℤ, leb_ℤ, scale}
use lmiced.Chart.{Mode, auto, pan, zoom, Chart, Env}
use lmiced.Sync.Selection.{selection_sync}
use lmiced.Sync.Selection.Keeps.{selection_sync-Keeps}
use lmiced.Sync.Master.{set_master}
use lmiced.Sync.Master.Keeps.{set_master-Keeps}
use lmiced.Sync.Dygraph.{
  Drawn, Pressed, stop_sync, delay_sync, enter_mode, pause_drawn, user_acts, user_zooms, pan_chart,
  toolbox_pan_and_zoom, is_auto, draw_callback, zoom_callback, highlight_callback,
  unhighlight_callback, mousedown, mousemove, mouseup, wheel_range, wheel, touchstart, touchmove,
  Gesture, toolbox, draws, zooms, highlights, unhighlights, double_clicks, touch_moves, presses,
  moves, releases, wheels, touch_starts, touch_ends, handle, Made, handle_all,
}
use lmiced.Sync.Dygraph.Hand.{
  Hand, IsHand, hush, quiets, drag_mode, follows_time, follow, follow_all, may_reset,
}
use lmiced.Sync.Dygraph.Moves.{
  keep-IsHand, stop-IsHand, enter-IsHand, pause-IsHand, act-IsHand, zoom-IsHand, delay-IsHand,
  pan-IsHand, let_go-IsHand,
}

zooming : zoom ≢ auto
zooming h = absurd (grind (arith, h))

and_true : (b : Bool) → (b && true) ≡ b
and_true true = refl
and_true false = refl

not_auto : (m : Mode) → follows_time m ≡ false → m ≢ auto
unfolding follows_time
not_auto auto h q = absurd (grind (arith, h))
not_auto pan h q = absurd (grind (arith, q))
not_auto zoom h q = absurd (grind (arith, q))

module _ (e : Env) (i : ℕ) where
  toolbox-IsHand :
      (a b : ℤ) (h : Hand) (p : Drawn)
      → IsHand i h p
      → IsHand i (follow e (toolbox a b) h) (toolbox_pan_and_zoom e i a b p)
  unfolding toolbox_pan_and_zoom follow quiets hush
  toolbox-IsHand a b h p r =
      let first = scale 2 r.chart.range.netdata_first in
      let last = scale 2 r.chart.range.netdata_last in
      let a' = (if ltb_ℤ a first then first else a) in
      let b' = (if ltb_ℤ last b then last else b) in
      let h1 : Hand = record h { mode = zoom } in
      let s = let_go-IsHand e i h1 (enter_mode e i zoom p) (enter-IsHand e i zoom h p r) in
      let q = user_zooms e i (delay_sync e i (stop_sync e i (enter_mode e i zoom p))) in
      let z =
        zoom-IsHand e i (hush e h1) (delay_sync e i (stop_sync e i (enter_mode e i zoom p))) s in
      let w = pan-IsHand e i a' b' _ q zooming z in
      elim (Option-cases (pan_chart e i a' b' q).1) [
        | inl m ↦ rw (r.there, toolbox_pan_and_zoom, m) w
        | inr (x, m) ↦
            let t = (pan_chart e i a' b' q).0 in
            rw (r.there, toolbox_pan_and_zoom, m)
              (keep-IsHand e i _ t (set_master e i a' b' t.dashboard)
                (set_master-Keeps e i a' b' t.dashboard) w)
      ]

  wheel-IsHand :
      (x : Pressed) (a b : ℤ) (h : Hand) (p : Drawn)
      → IsHand i h p
      → IsHand i (follow e (wheels x a b) h) (wheel e i x a b p)
  unfolding wheel follow quiets hush
  wheel-IsHand x a b h p r = elim (Bool-cases x.alt_or_shift) [
    | inr m ↦ rw (r.there, wheel, m) r
    | inl m ↦
        let q = delay_sync e i (stop_sync e i (user_acts e i p)) in
        let s =
          let_go-IsHand e i (record h { user_action = true }) (user_acts e i p)
            (act-IsHand e i h p r) in
        let (a', b') = wheel_range r.chart a b in
        rw (r.there, wheel, m)
          (pan-IsHand e i a' b' _ (enter_mode e i zoom q) zooming
            (enter-IsHand e i zoom (hush e (record h { user_action = true })) q s))
  ]

  zoom_callback-IsHand :
      (a b : ℤ) (h : Hand) (p : Drawn)
      → IsHand i h p
      → IsHand i (follow e (zooms a b) h) (zoom_callback e i a b p)
  unfolding zoom_callback follow quiets hush
  zoom_callback-IsHand a b h p r =
      let q = delay_sync e i (stop_sync e i p) in
      let s = enter-IsHand e i zoom (hush e h) q (let_go-IsHand e i h p r) in
      let z = zoom-IsHand e i (record (hush e h) { mode = zoom }) (enter_mode e i zoom q) s in
      pan-IsHand e i a b _ (user_zooms e i (enter_mode e i zoom q)) zooming z

  mousedown-IsHand :
      (x : Pressed) (h : Hand) (p : Drawn)
      → IsHand i h p
      → IsHand i (follow e (presses x) h) (mousedown e i x p)
  unfolding mousedown follow quiets hush drag_mode
  mousedown-IsHand x h p r =
      let h1 : Hand = record h { user_action = true } in
      let q = stop_sync e i (user_acts e i p) in
      let s = stop-IsHand e i h1 (user_acts e i p) (act-IsHand e i h p r) in
      let pressed : (m : Mode)
          → IsHand i (hush e (record h1 { mode = m })) (delay_sync e i (enter_mode e i m q)) =
        λ m.
          delay-IsHand e i (record h1 { mode = m }) (enter_mode e i m q)
            (enter-IsHand e i m h1 q s) in
      elim (Bool-cases (nat_beq x.button 2)) [
        | inl k ↦ rw (k, mousedown) s
        | inr k ↦ elim (Bool-cases (nat_beq x.button 1)) [
          | inl l ↦ elim (Bool-cases x.alt_or_shift) [
            | inl m ↦ rw (k, l, m, mousedown) (pressed pan)
            | inr m ↦ rw (k, l, m, mousedown) (pressed zoom)
          ]
          | inr l ↦ elim (Bool-cases x.alt_or_shift) [
            | inl m ↦ rw (k, l, m, mousedown) (pressed zoom)
            | inr m ↦ rw (k, l, m, mousedown) (pressed pan)
          ]
        ]
      ]

  is_auto-follows_time : (c : Chart) (m : Mode) → c.current ≡ m → is_auto e i c ≡ follows_time m
  unfolding is_auto follows_time
  is_auto-follows_time c auto h = rw h refl
  is_auto-follows_time c pan h = rw h refl
  is_auto-follows_time c zoom h = rw h refl

  drawn-IsHand :
      (h : Hand) (p : Drawn)
      → IsHand i h p
      → IsHand i
          (record h { user_action = false })
          (record p { touch = record (p.touch) { user_action = false } })
  drawn-IsHand h p r = record {
    chart = r.chart;
    there = r.there;
    mode = r.mode;
    paused = r.paused;
    user_action = refl;
    force_zoom = r.force_zoom;
    quiet = r.quiet;
  }

  draw-IsHand :
      (a b : ℤ) (h : Hand) (p : Drawn)
      → IsHand i h p
      → IsHand i (follow e (draws a b) h) (draw_callback e i a b p)
  unfolding draw_callback follow
  draw-IsHand a b h p r =
      let t = is_auto-follows_time r.chart h.mode r.mode in
      let q : Drawn = record p { touch = record (p.touch) { user_action = false } } in
      let z = drawn-IsHand h p r in
      elim (Bool-cases (follows_time h.mode)) [
        | inl f ↦
            rw (r.there, draw_callback, t, f)
              (subst (λ b. IsHand i (record h { user_action = b }) p) (sym (and_true h.user_action))
                r)
        | inr f ↦ elim (Bool-cases h.user_action) [
          | inr u ↦ rw (r.there, draw_callback, t, f, r.user_action, u) z
          | inl u ↦
              elim (Bool-cases
                (leb_ℤ b r.chart.range.netdata_last && leb_ℤ r.chart.range.netdata_first a)) [
                  | inl k ↦
                      rw (r.there, draw_callback, t, f, r.user_action, u, k)
                        (pan-IsHand e i (scale 2 a) (scale 2 b) _ q (not_auto h.mode f) z)
                  | inr k ↦ rw (r.there, draw_callback, t, f, r.user_action, u, k) z
                ]
        ]
      ]

  mousemove-IsHand :
      (b c : Bool) (h : Hand) (p : Drawn)
      → IsHand i h p
      → IsHand i (follow e (moves b c) h) (mousemove e i b c p)
  unfolding mousemove follow quiets hush
  mousemove-IsHand b c h p r =
      let h1 : Hand = record h { user_action = true } in
      let q = delay_sync e i (stop_sync e i (user_acts e i p)) in
      let s = let_go-IsHand e i h1 (user_acts e i p) (act-IsHand e i h p r) in
      elim (Bool-cases b) [
        | inl k ↦ rw k (enter-IsHand e i pan (hush e h1) q s)
        | inr k ↦ elim (Bool-cases c) [
          | inl l ↦ rw (k, l) (enter-IsHand e i zoom (hush e h1) q s)
          | inr l ↦ rw (k, l) r
        ]
      ]

  mouseup-IsHand :
      (b c : Bool) (h : Hand) (p : Drawn)
      → IsHand i h p
      → IsHand i (follow e (releases b c) h) (mouseup e i b c p)
  unfolding mouseup follow quiets hush
  mouseup-IsHand b c h p r =
      let s =
        delay-IsHand e i (record h { user_action = true }) (user_acts e i p)
          (act-IsHand e i h p r) in
      elim (Bool-cases (b || c)) [ inl k ↦ rw k s | inr k ↦ rw k r ]

  touchstart-IsHand :
      (x : ℤ) (h : Hand) (p : Drawn)
      → IsHand i h p
      → IsHand i (follow e (touch_starts x) h) (touchstart e i x p)
  unfolding touchstart follow
  touchstart-IsHand x h p r =
      let s =
        enter-IsHand e i zoom (record h { user_action = true }) (user_acts e i p)
          (act-IsHand e i h p r) in
      let t =
        pause-IsHand e i true (record h { user_action = true; mode = zoom })
          (enter_mode e i zoom (user_acts e i p)) s in
      record {
        chart = t.chart;
        there = t.there;
        mode = t.mode;
        paused = t.paused;
        user_action = t.user_action;
        force_zoom = t.force_zoom;
        quiet = t.quiet;
      }

  -- One gesture
  handle-IsHand :
      (g : Gesture) (h : Hand) (p : Drawn)
      → may_reset g ≡ false
      → IsHand i h p
      → IsHand i (follow e g h) (handle e i g p)
  unfolding handle follow may_reset highlight_callback unhighlight_callback touchmove
  handle-IsHand (toolbox a b) h p n r = toolbox-IsHand a b h p r
  handle-IsHand (draws a b) h p n r = draw-IsHand a b h p r
  handle-IsHand (zooms a b) h p n r = zoom_callback-IsHand a b h p r
  handle-IsHand (highlights x) h p n r =
      let q = pause_drawn e i true p in
      keep-IsHand e i _ q (selection_sync e x i q.dashboard)
        (selection_sync-Keeps e x i q.dashboard) (pause-IsHand e i true h p r)
  handle-IsHand unhighlights h p n r =
      stop-IsHand e i _ (pause_drawn e i false p) (pause-IsHand e i false h p r)
  handle-IsHand double_clicks h p n r = absurd (grind (arith, n))
  handle-IsHand touch_moves h p n r =
      let t = act-IsHand e i h p r in
      record {
        chart = t.chart;
        there = t.there;
        mode = t.mode;
        paused = t.paused;
        user_action = t.user_action;
        force_zoom = t.force_zoom;
        quiet = t.quiet;
      }
  handle-IsHand (presses x) h p n r = mousedown-IsHand x h p r
  handle-IsHand (moves a b) h p n r = mousemove-IsHand a b h p r
  handle-IsHand (releases a b) h p n r = mouseup-IsHand a b h p r
  handle-IsHand (wheels x a b) h p n r = wheel-IsHand x a b h p r
  handle-IsHand (touch_starts x) h p n r = touchstart-IsHand x h p r
  handle-IsHand (touch_ends s l w) h p n r = absurd (grind (arith, n))

-- A gesture on the chart `i` that does not reset
abbrev pub IsOn : ℕ → Made → Type 0
IsOn i x = (x.chart ≡ i) × (may_reset x.gesture ≡ false)

-- While the user pans, zooms, hovers and touches a chart, in any order and at whatever times, the mode of the
-- chart, its pause, whether the next drawing is the user's or a forced zoom, and the time until which no
-- selection follows are what the gestures mean; the double click and the end of a touch, which may reset
-- the charts, are left out.
pub handle_all-IsHand :
    (i : ℕ) (xs : List Made) (h : Hand) (p : Drawn)
    → All (IsOn i) xs
    → IsHand i h p
    → IsHand i (follow_all xs h) (handle_all xs p)
unfolding handle_all follow_all
handle_all-IsHand i [] h p a r = r
handle_all-IsHand i (x ∷ xs) h p ((k, n), a) r =
    let s : IsHand i (follow x.env x.gesture h) (handle x.env x.chart x.gesture p) =
      subst (λ j. IsHand i (follow x.env x.gesture h) (handle x.env j x.gesture p)) (sym k)
        (handle-IsHand x.env i x.gesture h p n r) in
    handle_all-IsHand i xs (follow x.env x.gesture h) (handle x.env x.chart x.gesture p) a s
