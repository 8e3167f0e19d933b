-- ===== src/Chart/Life/Depth.antt =====
-- `isVisible`, `init`, `hideChart`, `unhideChart` and `resizeChart` call one
-- another (portal/dashboard.js).
use lmiced.Prelude.{◌≡◌, refl, ap, Bool, true, false, some, arith, Bool-cases, inl, inr}
use lmiced.Chart.{Chart, Env}
use lmiced.Chart.Life.{
  start, on_screen, init_with, hide_with, resize_with, unhide_with, answer, check_with,
  is_visible_with, unreached, is_visible,
}

abbrev Visit : Type 0
Visit = Bool → Env → Chart → Bool × Chart

-- A chart that is neither hidden nor created is hidden or shown with no further call.
check-fresh :
    (f g : Visit) (e : Env) (c : Chart)
    → c.tmp.hidden ≡ false
    → c.chart_created ≡ false
    → check_with f e c ≡ check_with g e c
unfolding check_with hide_with unhide_with
check-fresh f g e c h k = elim (Bool-cases (on_screen e c)) [
  | inl p ↦ simp (p, h, k)
  | inr p ↦ simp (p, h, k)
]

visible-of-check :
    (f g : Visit) (nocache : Bool) (e : Env) (c : Chart)
    → check_with f e c ≡ check_with g e c
    → is_visible_with f nocache e c ≡ is_visible_with g nocache e c
unfolding is_visible_with
visible-of-check f g nocache e c h = ground (arith, h)

visible-fresh :
    (f g : Visit) (nocache : Bool) (e : Env) (c : Chart)
    → c.tmp.hidden ≡ false
    → c.chart_created ≡ false
    → is_visible_with f nocache e c ≡ is_visible_with g nocache e c
visible-fresh f g nocache e c h k = visible-of-check f g nocache e c (check-fresh f g e c h k)

-- A chart that is on the screen and not hidden needs no further call either.
check-shown :
    (f g : Visit) (e : Env) (c : Chart)
    → c.tmp.hidden ≡ false
    → on_screen e c ≡ true
    → check_with f e c ≡ check_with g e c
unfolding check_with unhide_with
check-shown f g e c h k = simp (k, h)

visible-shown :
    (f g : Visit) (nocache : Bool) (e : Env) (c : Chart)
    → c.tmp.hidden ≡ false
    → on_screen e c ≡ true
    → is_visible_with f nocache e c ≡ is_visible_with g nocache e c
visible-shown f g nocache e c h k = visible-of-check f g nocache e c (check-shown f g e c h k)

start-fresh :
    (e : Env) (c : Chart) → ((start e c).tmp.hidden ≡ false) × ((start e c).chart_created ≡ false)
unfolding start
start-fresh e c = ground arith

init-depth :
    (f g : Visit) (force fast : Bool) (e : Env) (c : Chart)
    → init_with (is_visible_with f) force fast e c ≡ init_with (is_visible_with g) force fast e c
unfolding init_with
init-depth f g force fast e c =
    let (h, k) = start-fresh e c in simp (visible-fresh f g true e (start e c) h k)

hide-depth :
    (f g : Visit) (e : Env) (c : Chart)
    → hide_with (is_visible_with f) e c ≡ hide_with (is_visible_with g) e c
unfolding hide_with
hide-depth f g e c = simp (init-depth f g true false e c)

resize-depth :
    (f g : Visit) (e : Env) (c : Chart)
    → c.tmp.hidden ≡ false
    → on_screen e c ≡ true
    → resize_with (is_visible_with f) e c ≡ resize_with (is_visible_with g) e c
unfolding resize_with
resize-depth f g e c h k =
    simp
      (visible-shown f g false e c h k, init-depth f g true false e (is_visible_with g false e c).1)

unhide-depth :
    (f g : Visit) (e : Env) (c : Chart)
    → on_screen e c ≡ true
    → unhide_with (is_visible_with f) e c ≡ unhide_with (is_visible_with g) e c
unfolding unhide_with on_screen
unhide-depth f g e c k =
    let d = record c { tmp = record (c.tmp) { hidden = false }; updates_since_last_unhide = 0 } in
    let d' = record d { tm = record (d.tm) { last_unhidden = e.now } } in
    simp (init-depth f g true false e d, resize-depth f g e d' refl k)

abbrev stamped : Bool → Env → Chart → Chart
stamped shown e c = record c {
  tm = record (c.tm) { last_visible_check = e.now };
  tmp = record (c.tmp) { visible = some shown };
}

check-depth :
    (f g : Visit) (e : Env) (c : Chart)
    → check_with (is_visible_with f) e c ≡ check_with (is_visible_with g) e c
unfolding check_with on_screen
check-depth f g e c = elim (Bool-cases (on_screen e c)) [
  | inl p ↦ rw p (ap answer (unhide-depth f g e (stamped true e c) p))
  | inr p ↦ rw p (ap answer (hide-depth f g e (stamped false e c)))
]

-- The calls among `isVisible`, `init`, `hideChart`, `unhideChart` and `resizeChart` always end: two
-- rounds of them answer for every chart and page, since what the second round would call, `f` or
-- `g`, is never called. So `is_visible` satisfies the equation that the code states.
pub is_visible_depth :
    (f g : Visit) (nocache : Bool) (e : Env) (c : Chart)
    → (is_visible_with (is_visible_with f) nocache e c
        ≡ is_visible_with (is_visible_with g) nocache e c)
      × (is_visible nocache e c ≡ is_visible_with is_visible nocache e c)
unfolding is_visible
is_visible_depth f g nocache e c = (
  visible-of-check (is_visible_with f) (is_visible_with g) nocache e c (check-depth f g e c),
  visible-of-check (is_visible_with unreached) is_visible nocache e c
      (check-depth unreached (is_visible_with unreached) e c),
)
