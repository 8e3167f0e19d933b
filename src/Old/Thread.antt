-- ===== src/Old/Thread.antt =====
-- The thread that refreshes the charts of the older dashboard (portal/old/index.js) is one: each of its steps leaves
-- one timeout or request for the next, except where it throws.
use lmiced.Prelude.{
  ℕ, zero, suc, ◌+◌, ◌-◌, ◌≡◌, refl, Bool, not, ◌&&◌, ◌||◌, List, length, get_elem?, leb, nat_beq,
  arith, is_some, if◌then◌else◌, Bool-cases, Option-cases, inl, inr,
}
use lmiced.Old.{
  OldChart, is_main, Call, render_chart_callback, hidden_chart_refresh, OldPage, trigger,
  render_chart, refresh_hidden, refresh_main, render_enabled, round_robin_from, round_robin,
  refresh_thumbs, refresh_group,
}
use lmiced.Old.Callback.{
  resize_throws, resize_charts, resized, callback_resize, cleanup_charts, callback_loop,
  callback_resumed, callback_scrolled, callback,
}

unfoldable pub one_if : Bool → ℕ
one_if b = if b then 1 else 0

-- How many timeouts and requests carry the thread on
abbrev pub threads : OldPage → ℕ
threads p = length p.pending

pub trigger-threads : (now : ℕ) (p : OldPage) → threads (trigger now p) ≡ suc (threads p)
unfolding trigger
trigger-threads now p = ground arith

render_chart-threads :
    (now : ℕ) (next : Call) (c : OldChart) (p : OldPage)
    → threads ((render_chart now next c p).1) ≡ threads p + one_if ((render_chart now next c p).0)
unfolding render_chart one_if
render_chart-threads now next c p = ground arith

callback_loop-threads : (p : OldPage) → threads (callback_loop p) ≡ suc (threads p)
unfolding callback_loop
callback_loop-threads p = ground arith

unfoldable pub hidden_throws : OldPage → Bool
hidden_throws p = not (is_some p.main_chart)

pub refresh_hidden-threads :
    (now : ℕ) (p : OldPage)
    → threads (refresh_hidden now p) + one_if (hidden_throws p) ≡ suc (threads p)
unfolding refresh_hidden hidden_throws one_if
refresh_hidden-threads now p = elim (Option-cases p.main_chart) [
  | inl n ↦ rw n (omega arith)
  | inr (c, s) ↦ rw (s, refresh_hidden) (ground (arith, trigger-threads now p))
]

pub refresh_main-threads : (now : ℕ) (p : OldPage) → threads (refresh_main now p) ≡ suc (threads p)
unfolding refresh_main hidden_throws one_if
refresh_main-threads now p = elim (Option-cases p.main_chart) [
  | inl n ↦ rw (n, refresh_main) (trigger-threads now p)
  | inr (c, s) ↦
      let h = refresh_hidden-threads now p in
      let r = render_chart-threads now hidden_chart_refresh c p in
      rw (s, refresh_main) (ground (arith, trigger-threads now p, h, r, s))
]

-- It goes on with a paused main chart that is not there.
unfoldable pub resumed_throws : OldPage → Bool
unfolding hidden_throws
resumed_throws p = p.paused && (is_main p.mode && hidden_throws p)

callback_resumed-threads :
    (now : ℕ) (p : OldPage)
    → threads (callback_resumed now p) + one_if (resumed_throws p) ≡ suc (threads p)
unfolding callback_resumed resumed_throws hidden_throws one_if
callback_resumed-threads now p = elim (Option-cases p.main_chart) [
  | inl n ↦ rw (n, callback_resumed) (ground (arith, callback_loop-threads p))
  | inr (c, s) ↦
      rw (s, callback_resumed) (ground (arith, callback_loop-threads p, refresh_main-threads now p))
]

render_enabled-threads :
    (now : ℕ) (c : OldChart) (p : OldPage)
    → threads ((render_enabled now c p).1) ≡ threads p + one_if ((render_enabled now c p).0)
unfolding render_enabled one_if
render_enabled-threads now c p = ground (arith, render_chart-threads now render_chart_callback c p)

round_robin_from-threads :
    (now rounds : ℕ) (charts : List OldChart) (cur : ℕ) (p : OldPage)
    → threads ((round_robin_from now rounds charts cur p).2)
      ≡ threads p + one_if ((round_robin_from now rounds charts cur p).1)
unfolding round_robin_from one_if
round_robin_from-threads now zero charts cur p = omega arith
round_robin_from-threads now (suc rounds) charts cur p =
    let place = (if leb (length charts) cur then 0 else cur) in
    elim (Option-cases (get_elem? charts place)) [
      | inl n ↦ rw (round_robin_from, n) (omega arith)
      | inr (c, s) ↦
          let e = render_enabled-threads now c p in
          elim (Bool-cases ((render_enabled now c p).0)) [
            | inl a ↦ rw (round_robin_from, s, a) (ground (arith, e, a))
            | inr a ↦
                rw (round_robin_from, s, a)
                  (round_robin_from-threads now rounds charts (place + 1) p)
          ]
    ]

round_robin-threads :
    (now : ℕ) (charts : List OldChart) (start_at : ℕ) (p : OldPage)
    → threads ((round_robin now charts start_at p).1) ≡ suc (threads p)
unfolding round_robin one_if
round_robin-threads now charts start_at p =
    let r = round_robin_from-threads now (length charts) charts (start_at + 1) p in
    let q = (round_robin_from now (length charts) charts (start_at + 1) p).2 in
    ground (arith, r, trigger-threads now q)

pub refresh_thumbs-threads :
    (now : ℕ) (p : OldPage) → threads (refresh_thumbs now p) ≡ suc (threads p)
unfolding refresh_thumbs
refresh_thumbs-threads now p =
    ground
      (arith, trigger-threads now p, round_robin-threads now p.all_charts p.last_thumb_updated p)

pub refresh_group-threads :
    (now : ℕ) (p : OldPage) → threads (refresh_group now p) ≡ suc (threads p)
unfolding refresh_group
refresh_group-threads now p = elim (Option-cases p.group_charts) [
  | inl n ↦ rw (n, refresh_group) (trigger-threads now p)
  | inr (cs, s) ↦
      rw (s, refresh_group)
        (ground (arith, trigger-threads now p, round_robin-threads now cs p.last_group_updated p))
]

same_resumed : (p : OldPage) → resumed_throws (record p { last_user_scroll = 0 }) ≡ resumed_throws p
unfolding resumed_throws hidden_throws
same_resumed p = refl

-- The page was scrolled a moment ago.
unfoldable pub is_scrolling : (now : ℕ) → OldPage → Bool
is_scrolling now p =
    not (nat_beq p.last_user_scroll 0) && not (leb p.scroll_idle (now - p.last_user_scroll))

callback_scrolled-threads :
    (now : ℕ) (p : OldPage)
    → threads (callback_scrolled now p) + one_if (not (is_scrolling now p) && resumed_throws p)
      ≡ suc (threads p)
unfolding callback_scrolled is_scrolling one_if
callback_scrolled-threads now p =
    let q : OldPage = record p { last_user_scroll = 0 } in
    let e : resumed_throws q ≡ resumed_throws p = same_resumed p in
    ground (arith, callback_resumed-threads now p, callback_resumed-threads now q, e)

-- The page is visible and `renderChartCallback` throws: it resizes a main chart with no hidden chart, or there is no
-- main chart where one is to be shown.
unfoldable pub callback_throws : (now : ℕ) → OldPage → Bool
callback_throws now p =
    p.page_is_visible
    && (p.resize_request && (is_main p.mode && resize_throws p)
        || not (is_scrolling now p) && resumed_throws p)

cleanup-resize_throws :
    (p : OldPage) → resize_throws (cleanup_charts p) ≡ (is_main p.mode && resize_throws p)
unfolding cleanup_charts resize_throws
cleanup-resize_throws p = ground arith

cleaned-threads : (p : OldPage) → threads (resize_charts (cleanup_charts p)) ≡ threads p
unfolding resize_charts cleanup_charts
cleaned-threads p = ground arith

-- What decides where the callback goes on after a resize request
resized-throws :
    (now : ℕ) (p : OldPage)
    → (not (is_scrolling now (resized p)) && resumed_throws (resized p))
      ≡ (not (is_scrolling now p) && resumed_throws p)
unfolding resized resize_charts cleanup_charts resumed_throws hidden_throws is_scrolling
resized-throws now p = elim (Option-cases p.main_chart) [
  | inl n ↦ rw n (ground arith)
  | inr (c, s) ↦ rw s (ground arith)
]

resized-threads : (p : OldPage) → threads (resized p) ≡ threads p
unfolding resized
resized-threads p = cleaned-threads p

callback_resize-threads :
    (now : ℕ) (p : OldPage)
    → threads (callback_resize now p)
        + one_if (is_main p.mode && resize_throws p || not (is_scrolling now p) && resumed_throws p)
      ≡ suc (threads p)
unfolding callback_resize one_if
callback_resize-threads now p =
    let s = callback_scrolled-threads now (resized p) in
    ground (
      arith,
      s,
      resized-throws now p,
      resized-threads p,
      cleaned-threads p,
      cleanup-resize_throws p,
    )

pub callback-threads :
    (now : ℕ) (p : OldPage)
    → threads (callback now p) + one_if (callback_throws now p) ≡ suc (threads p)
unfolding callback callback_throws one_if is_scrolling resumed_throws hidden_throws resize_throws
callback-threads now p =
    let q : OldPage = record p { last_refresh = now } in
    ground (arith, callback_scrolled-threads now q, callback_resize-threads now q)
