-- ===== src/Chart/Life/Visible.antt =====
-- `isVisible(true)` (portal/dashboard.js): its answer, and the state of hiding that it leaves.
use lmiced.Prelude.{
  ◌≡◌, refl, ◌∙◌, subst, Bool, true, false, not, some, arith, Bool-cases, inl, inr, if◌then◌else◌,
}
use lmiced.Chart.{Chart, Env}
use lmiced.Chart.Life.{
  start, create_dom, on_screen, init_with, hide_with, resize_with, unhide_with, cached, answer,
  check_with, is_visible_with, is_visible, unreached, can_be_rendered,
}

abbrev Visit : Type 0
Visit = Bool → Env → Chart → Bool × Chart

-- What the check itself writes.
abbrev pub stamped : Bool → Env → Chart → Chart
stamped shown e c = record c {
  tm = record (c.tm) { last_visible_check = e.now };
  tmp = record (c.tmp) { visible = some shown };
}

-- The state agrees with what is on the screen.
abbrev pub Agrees : Bool → Chart → Type 0
Agrees shown d = (d.tmp.visible ≡ some shown) × (d.tmp.hidden ≡ not shown)

check-fresh-Agrees :
    (f : Visit) (e : Env) (c : Chart)
    → c.tmp.hidden ≡ false
    → c.chart_created ≡ false
    → Agrees (on_screen e c) (check_with f e c).1
unfolding check_with hide_with unhide_with answer
check-fresh-Agrees f e c h k = elim (Bool-cases (on_screen e c)) [
  | inl p ↦ simp (p, h, k) (refl, refl)
  | inr p ↦ simp (p, h, k) (refl, refl)
]

create_dom-tmp : (e : Env) (c : Chart) → (create_dom e c).tmp ≡ c.tmp
unfolding create_dom
create_dom-tmp e c = ground arith

start-fresh :
    (e : Env) (c : Chart)
    → (on_screen e (start e c) ≡ on_screen e c)
      × ((start e c).tmp.hidden ≡ false)
      × ((start e c).chart_created ≡ false)
unfolding on_screen start
start-fresh e c = ground arith

init-tmp :
    (f : Visit) (e : Env) (c : Chart)
    → c.enabled ≡ true
    → (init_with f true false e c).tmp ≡ (f true e (start e c)).1.tmp
unfolding init_with
init-tmp f e c h = simp h (ground (arith, create_dom-tmp e (f true e (start e c)).1))

visible-fresh-Agrees :
    (f : Visit) (e : Env) (c : Chart)
    → c.tmp.hidden ≡ false
    → c.chart_created ≡ false
    → Agrees (on_screen e c) (is_visible_with f true e c).1
unfolding is_visible_with cached
visible-fresh-Agrees f e c h k = check-fresh-Agrees f e c h k

init-Agrees :
    (f : Visit) (e : Env) (c : Chart)
    → c.enabled ≡ true
    → Agrees (on_screen e c) (init_with (is_visible_with f) true false e c)
init-Agrees f e c h =
    let (r, h', k) = start-fresh e c in
    rw (init-tmp (is_visible_with f) e c h, ← r) (visible-fresh-Agrees f e (start e c) h' k)

init-disabled :
    (f : Visit) (e : Env) (c : Chart) → c.enabled ≡ false → init_with f true false e c ≡ c
unfolding init_with
init-disabled f e c h = simp h

-- Hiding: the chart was found off the screen.
hide-Agrees :
    (f : Visit) (e : Env) (c : Chart)
    → on_screen e c ≡ false
    → c.tmp.visible ≡ some false
    → Agrees false (hide_with (is_visible_with f) e c)
unfolding hide_with
hide-Agrees f e c p v = elim (Bool-cases c.enabled) [
  | inl h ↦ let (a, b) = init-Agrees f e c h in ground (arith, p)
  | inr h ↦ ground (arith, init-disabled (is_visible_with f) e c h)
]

-- A chart that is on the screen and shown stays so through a check, cached or not.
check-shown-Agrees :
    (f : Visit) (e : Env) (c : Chart)
    → c.tmp.hidden ≡ false
    → on_screen e c ≡ true
    → Agrees true (check_with f e c).1 × ((check_with f e c).1.rect ≡ c.rect)
unfolding check_with unhide_with answer
check-shown-Agrees f e c h p = simp (p, h) ((refl, refl), refl)

visible-shown-Agrees :
    (f : Visit) (nocache : Bool) (e : Env) (c : Chart)
    → Agrees true c
    → on_screen e c ≡ true
    → Agrees true (is_visible_with f nocache e c).1
      × ((is_visible_with f nocache e c).1.rect ≡ c.rect)
unfolding is_visible_with
visible-shown-Agrees f nocache e c (v, h) p = ground (arith, check-shown-Agrees f e c h p)

on_screen-rect : (e : Env) (c d : Chart) → d.rect ≡ c.rect → on_screen e d ≡ on_screen e c
unfolding on_screen
on_screen-rect e c d h = simp h

init-keeps-Agrees :
    (f : Visit) (e : Env) (c : Chart)
    → Agrees true c
    → on_screen e c ≡ true
    → Agrees true (init_with (is_visible_with f) true false e c)
init-keeps-Agrees f e c a p = elim (Bool-cases c.enabled) [
  | inl h ↦
      subst (λ b. Agrees b (init_with (is_visible_with f) true false e c)) p (init-Agrees f e c h)
  | inr h ↦ rw (init-disabled (is_visible_with f) e c h) a
]

resize-Agrees :
    (f : Visit) (e : Env) (c : Chart)
    → Agrees true c
    → on_screen e c ≡ true
    → Agrees true (resize_with (is_visible_with f) e c)
unfolding resize_with
resize-Agrees f e c a p =
    let d = (is_visible_with f false e c).1 in
    let (b, r) = visible-shown-Agrees f false e c a p in
    let k : Agrees true (init_with (is_visible_with f) true false e d) =
      init-keeps-Agrees f e d b (on_screen-rect e c d r ∙ p) in
    ground (arith, b, k)

unhide-Agrees :
    (f : Visit) (e : Env) (c : Chart)
    → on_screen e c ≡ true
    → c.tmp.visible ≡ some true
    → Agrees true (unhide_with (is_visible_with f) e c)
unfolding unhide_with
unhide-Agrees f e c p v =
    let d = record c { tmp = record (c.tmp) { hidden = false }; updates_since_last_unhide = 0 } in
    let d' = record d { tm = record (d.tm) { last_unhidden = e.now } } in
    let i : Agrees true (init_with (is_visible_with f) true false e d) =
      init-keeps-Agrees f e d (v, refl) (on_screen-rect e c d refl ∙ p) in
    let r : Agrees true (resize_with (is_visible_with f) e d') =
      resize-Agrees f e d' (v, refl) (on_screen-rect e c d' refl ∙ p) in
    ground (arith, v, i, r)

check-on :
    (f : Visit) (e : Env) (c : Chart)
    → on_screen e c ≡ true
    → check_with f e c ≡ answer (unhide_with f e (stamped true e c))
unfolding check_with
check-on f e c p = simp p

check-off :
    (f : Visit) (e : Env) (c : Chart)
    → on_screen e c ≡ false
    → check_with f e c ≡ answer (hide_with f e (stamped false e c))
unfolding check_with
check-off f e c p = simp p

abbrev Answers : Bool → Bool × Chart → Type 0
Answers shown (b, d) = (b ≡ shown) × Agrees shown d

answer-Answers : (shown : Bool) (d : Chart) → Agrees shown d → Answers shown (answer d)
unfolding answer
answer-Answers shown d a = ground arith

check-Answers :
    (f : Visit) (e : Env) (c : Chart) → Answers (on_screen e c) (check_with (is_visible_with f) e c)
check-Answers f e c = elim (Bool-cases (on_screen e c)) [
  | inl p ↦
      let s = stamped true e c in
      let a = unhide-Agrees f e s (on_screen-rect e c s refl ∙ p) refl in
      rw (p, check-on (is_visible_with f) e c p) (answer-Answers true _ a)
  | inr p ↦
      let s = stamped false e c in
      let a = hide-Agrees f e s (on_screen-rect e c s refl ∙ p) refl in
      rw (p, check-off (is_visible_with f) e c p) (answer-Answers false _ a)
]

-- `isVisible(true)` answers whether the chart meets the screen now, and leaves the chart hidden
-- exactly when it does not, whatever the chart was before: hidden, shown, resized, destroyed on
-- hiding or disabled.
pub is_visible-on_screen :
    (e : Env) (c : Chart)
    → ((is_visible true e c).0 ≡ on_screen e c) × Agrees (on_screen e c) (is_visible true e c).1
unfolding is_visible
is_visible-on_screen e c = check-Answers unreached e c

check-shown :
    (f : Visit) (e : Env) (c : Chart)
    → c.tmp.hidden ≡ false
    → on_screen e c ≡ true
    → is_visible_with f true e c ≡ (true, stamped true e c)
unfolding is_visible_with cached unhide_with answer
check-shown f e c h p = check-on f e c p ∙ simp h

is_visible-shown :
    (e : Env) (c : Chart)
    → c.tmp.hidden ≡ false
    → on_screen e c ≡ true
    → is_visible true e c ≡ (true, stamped true e c)
unfolding is_visible
is_visible-shown = check-shown (is_visible_with unreached)

if_false : {A : Type 0} (b : Bool) (x y : A) → b ≡ false → (if b then x else y) ≡ y
if_false b x y h = rw h refl

-- A chart on the screen that is not hidden can be rendered, and only the check is noted.
pub can_be_rendered-shown :
    (e : Env) (c : Chart)
    → c.tmp.hidden ≡ false
    → on_screen e c ≡ true
    → can_be_rendered e c ≡ (true, stamped true e c)
unfolding can_be_rendered
can_be_rendered-shown e c h p =
    if_false c.tmp.hidden (false, c) (is_visible true e c) h ∙ is_visible-shown e c h p
