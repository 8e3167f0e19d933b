-- ===== src/Sync/Dygraph/Refines.antt =====
-- The handlers of a chart's drawing (portal/dashboard.js) as what may happen on a page.
use lmiced.Prelude.{
  ℕ, Bool, true, false, not, ◌&&◌, List, [], ◌∷◌, none, nat_beq, leb, ◌-◌, get_elem?, if◌then◌else◌,
  Bool-cases, Option-cases, inl, inr,
}
use lmiced.Prelude.Int.{ℤ, pos, eqb_ℤ, ltb_ℤ, leb_ℤ, scale}
use lmiced.Chart.{Mode, pan, zoom, Env}
use lmiced.Sync.{Dashboard}
use lmiced.Sync.Master.{pan_or_zoom}
use lmiced.Sync.Requests.{
  Reachable, later, hovered, left, panned, reset, switched, held, delayed, mastered,
}
use lmiced.Sync.Dygraph.{
  Drawn, Pressed, stop_sync, delay_sync, enter_mode, pause_drawn, user_acts, user_zooms, pan_chart,
  toolbox_pan_and_zoom, is_auto, draw_callback, zoom_callback, highlight_callback,
  unhighlight_callback, mousedown, mousemove, mouseup, dblclick, wheel_range, wheel, touchstart,
  touchmove, select_touched, reset_tapped, touchend, Gesture, toolbox, draws, zooms, highlights,
  unhighlights, double_clicks, touch_moves, presses, moves, releases, wheels, touch_starts,
  touch_ends, handle, Made, handle_all,
}

module _ (e : Env) (i : ℕ) (d : Dashboard) where
  -- The page of `p` can be reached from `d`.
  abbrev Reaches : Drawn → Type 0
  Reaches p = Reachable d p.dashboard

  stop_sync-Reaches : (p : Drawn) → Reaches p → Reaches (stop_sync e i p)
  stop_sync-Reaches p r = later _ _ r (left i p.dashboard)

  delay_sync-Reaches : (p : Drawn) → Reaches p → Reaches (delay_sync e i p)
  delay_sync-Reaches p r = later _ _ r (delayed e none p.dashboard)

  enter_mode-Reaches : (m : Mode) (p : Drawn) → Reaches p → Reaches (enter_mode e i m p)
  enter_mode-Reaches m p r = later _ _ r (switched e m i p.dashboard)

  pause_drawn-Reaches : (b : Bool) (p : Drawn) → Reaches p → Reaches (pause_drawn e i b p)
  pause_drawn-Reaches b p r = later _ _ r (held b i p.dashboard)

  pan-Reaches : (a b : ℤ) (p : Drawn) → Reaches p → Reaches (pan_chart e i a b p).0
  unfolding pan_chart
  pan-Reaches a b p r = elim (Option-cases (pan_or_zoom e i a b p.dashboard)) [
    | inl n ↦ rw (n, pan_chart) r
    | inr ((x, exact), n) ↦ rw (n, pan_chart) (later _ _ r (panned e i a b p.dashboard x exact n))
  ]

  -- The selection stops and is delayed.
  let_go : (p : Drawn) → Reaches p → Reaches (delay_sync e i (stop_sync e i p))
  let_go p r = delay_sync-Reaches (stop_sync e i p) (stop_sync-Reaches p r)

  toolbox-Reaches : (a b : ℤ) (p : Drawn) → Reaches p → Reaches (toolbox_pan_and_zoom e i a b p)
  unfolding toolbox_pan_and_zoom
  toolbox-Reaches a b p r = elim (Option-cases (get_elem? p.dashboard.targets i)) [
    | inl n ↦ rw (n, toolbox_pan_and_zoom) r
    | inr (c, n) ↦
        let first = scale 2 c.range.netdata_first in
        let last = scale 2 c.range.netdata_last in
        let a' = (if ltb_ℤ a first then first else a) in
        let b' = (if ltb_ℤ last b then last else b) in
        let q = user_zooms e i (delay_sync e i (stop_sync e i (enter_mode e i zoom p))) in
        let r' =
          pan-Reaches a' b' q (let_go (enter_mode e i zoom p) (enter_mode-Reaches zoom p r)) in
        elim (Option-cases (pan_chart e i a' b' q).1) [
          | inl m ↦ rw (n, toolbox_pan_and_zoom, m) r'
          | inr (x, m) ↦ rw (n, toolbox_pan_and_zoom, m) (later _ _ r' (mastered e i a' b' _))
        ]
  ]

  draw-Reaches : (a b : ℤ) (p : Drawn) → Reaches p → Reaches (draw_callback e i a b p)
  unfolding draw_callback
  draw-Reaches a b p r = elim (Option-cases (get_elem? p.dashboard.targets i)) [
    | inl n ↦ rw (n, draw_callback) r
    | inr (c, n) ↦ elim (Bool-cases (not (is_auto e i c) && p.touch.user_action)) [
      | inr m ↦ rw (n, draw_callback, m) r
      | inl m ↦
          let q : Drawn = record p { touch = record (p.touch) { user_action = false } } in
          elim (Bool-cases (leb_ℤ b c.range.netdata_last && leb_ℤ c.range.netdata_first a)) [
            | inl k ↦ rw (n, draw_callback, m, k) (pan-Reaches (scale 2 a) (scale 2 b) q r)
            | inr k ↦ rw (n, draw_callback, m, k) r
          ]
    ]
  ]

  mousedown-Reaches : (x : Pressed) (p : Drawn) → Reaches p → Reaches (mousedown e i x p)
  unfolding mousedown
  mousedown-Reaches x p r =
      let q = stop_sync e i (user_acts e i p) in
      let s = stop_sync-Reaches (user_acts e i p) r in
      let pressed : (m : Mode) → Reaches (delay_sync e i (enter_mode e i m q)) =
        λ m. delay_sync-Reaches (enter_mode e i m q) (enter_mode-Reaches m q s) in
      elim (Bool-cases (nat_beq x.button 2)) [
        | inl k ↦ rw (k, mousedown) s
        | inr k ↦ elim (Bool-cases (nat_beq x.button 1)) [
          | inl l ↦ rw (k, l, mousedown) (pressed _)
          | inr l ↦ rw (k, l, mousedown) (pressed _)
        ]
      ]

  mousemove-Reaches : (b c : Bool) (p : Drawn) → Reaches p → Reaches (mousemove e i b c p)
  unfolding mousemove
  mousemove-Reaches true c p r =
      enter_mode-Reaches pan (delay_sync e i (stop_sync e i (user_acts e i p)))
        (let_go (user_acts e i p) r)
  mousemove-Reaches false true p r =
      enter_mode-Reaches zoom (delay_sync e i (stop_sync e i (user_acts e i p)))
        (let_go (user_acts e i p) r)
  mousemove-Reaches false false p r = r

  mouseup-Reaches : (b c : Bool) (p : Drawn) → Reaches p → Reaches (mouseup e i b c p)
  unfolding mouseup
  mouseup-Reaches true c p r = delay_sync-Reaches (user_acts e i p) r
  mouseup-Reaches false true p r = delay_sync-Reaches (user_acts e i p) r
  mouseup-Reaches false false p r = r

  wheel-Reaches : (x : Pressed) (a b : ℤ) (p : Drawn) → Reaches p → Reaches (wheel e i x a b p)
  unfolding wheel
  wheel-Reaches x a b p r = elim (Option-cases (get_elem? p.dashboard.targets i)) [
    | inl n ↦ rw (n, wheel) r
    | inr (c, n) ↦ elim (Bool-cases x.alt_or_shift) [
      | inr m ↦ rw (n, wheel, m) r
      | inl m ↦
          let q = delay_sync e i (stop_sync e i (user_acts e i p)) in
          let (a', b') = wheel_range c a b in
          rw (n, wheel, m)
            (pan-Reaches a' b' (enter_mode e i zoom q)
              (enter_mode-Reaches zoom q (let_go (user_acts e i p) r)))
    ]
  ]

  select-Reaches : (l : ℤ) (w : ℕ) (p : Drawn) → Reaches p → Reaches (select_touched e i l w p)
  unfolding select_touched
  select-Reaches l w p r = elim (Option-cases (get_elem? p.dashboard.targets i)) [
    | inl n ↦ rw (n, select_touched) r
    | inr (c, n) ↦
        elim (Bool-cases (nat_beq p.touch.last_move 0 && not (eqb_ℤ p.touch.page_x (pos 0)))) [
          | inl m ↦ rw (n, select_touched, m) (later _ _ r (hovered e _ i p.dashboard))
          | inr m ↦ rw (n, select_touched, m) r
        ]
  ]

  tap-Reaches : (speed : ℕ) (p : Drawn) → Reaches p → Reaches (reset_tapped e i speed p)
  unfolding reset_tapped
  tap-Reaches speed p r = elim (Option-cases p.touch.last_end) [
    | inl n ↦ rw (n, reset_tapped) r
    | inr (t, n) ↦ elim (Bool-cases (nat_beq p.touch.last_move 0 && leb (e.now - t) speed)) [
      | inl m ↦ rw (n, reset_tapped, m) (later _ _ r (reset e i p.dashboard))
      | inr m ↦ rw (n, reset_tapped, m) r
    ]
  ]

  handle-Reaches : (g : Gesture) (p : Drawn) → Reaches p → Reaches (handle e i g p)
  unfolding handle zoom_callback highlight_callback unhighlight_callback dblclick touchstart
      touchmove touchend
  handle-Reaches (toolbox a b) p r = toolbox-Reaches a b p r
  handle-Reaches (draws a b) p r = draw-Reaches a b p r
  handle-Reaches (zooms a b) p r =
      pan-Reaches a b (user_zooms e i (enter_mode e i zoom (delay_sync e i (stop_sync e i p))))
        (enter_mode-Reaches zoom (delay_sync e i (stop_sync e i p)) (let_go p r))
  handle-Reaches (highlights x) p r = later _ _ (pause_drawn-Reaches true p r) (hovered e x i _)
  handle-Reaches unhighlights p r =
      stop_sync-Reaches (pause_drawn e i false p) (pause_drawn-Reaches false p r)
  handle-Reaches double_clicks p r = later _ _ r (reset e i p.dashboard)
  handle-Reaches touch_moves p r = r
  handle-Reaches (presses x) p r = mousedown-Reaches x p r
  handle-Reaches (moves a b) p r = mousemove-Reaches a b p r
  handle-Reaches (releases a b) p r = mouseup-Reaches a b p r
  handle-Reaches (wheels x a b) p r = wheel-Reaches x a b p r
  handle-Reaches (touch_starts x) p r =
      pause_drawn-Reaches true (enter_mode e i zoom (user_acts e i p))
        (enter_mode-Reaches zoom (user_acts e i p) r)
  handle-Reaches (touch_ends speed l w) p r =
      tap-Reaches speed (select_touched e i l w (user_acts e i p))
        (select-Reaches l w (user_acts e i p) r)

-- Whatever the user does to the drawings of the charts with the mouse, the wheel, the toolbox or a finger, at
-- whatever times and on whatever charts, the page comes into a state that the steps of a page reach.
pub handle_all-Reachable :
    (d : Dashboard) (xs : List Made) (p : Drawn)
    → Reachable d p.dashboard
    → Reachable d (handle_all xs p).dashboard
unfolding handle_all
handle_all-Reachable d [] p r = r
handle_all-Reachable d (x ∷ xs) p r =
    handle_all-Reachable d xs (handle x.env x.chart x.gesture p)
      (handle-Reaches x.env x.chart d x.gesture p r)
