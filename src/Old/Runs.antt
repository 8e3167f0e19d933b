-- ===== src/Old/Runs.antt =====
-- What happens to the refresh thread of the older dashboard (portal/old/index.js) over time: it is lost only in an
-- exception, and doubled only by a restart after a minute of silence.
use lmiced.Prelude.{
  ℕ, suc, ◌+◌, ◌≡◌, refl, Bool, false, not, ◌&&◌, List, ◌∷◌, ◌++◌, length, arith, if◌then◌else◌,
}
use lmiced.Old.{
  Call, trigger_refresh, render_chart_callback, thumb_charts_refresh_next,
  group_charts_refresh_next, main_chart_refresh, hidden_chart_refresh, Wait, timeout, request,
  OldPage,
}
use lmiced.Old.Callback.{is_silent, play_graphs, pause_graphs, check_refresh_thread, resume}
use lmiced.Prelude.{length-append, ap}
use lmiced.Old.Thread.{
  one_if, threads, hidden_throws, callback_throws, trigger-threads, refresh_hidden-threads,
  refresh_main-threads, refresh_thumbs-threads, refresh_group-threads, callback-threads,
}

-- What the timeout or the request calls throws.
unfoldable pub resume_throws : (now : ℕ) → Call → OldPage → Bool
unfolding hidden_throws
resume_throws now render_chart_callback p = callback_throws now p
resume_throws now hidden_chart_refresh p = hidden_throws p
resume_throws _ _ _ = false

resume-threads :
    (now : ℕ) (c : Call) (p : OldPage)
    → threads (resume now c p) + one_if (resume_throws now c p) ≡ suc (threads p)
unfolding resume resume_throws one_if hidden_throws
resume-threads now trigger_refresh p = omega (arith, trigger-threads now p)
resume-threads now render_chart_callback p = callback-threads now p
resume-threads now thumb_charts_refresh_next p = omega (arith, refresh_thumbs-threads now p)
resume-threads now group_charts_refresh_next p = omega (arith, refresh_group-threads now p)
resume-threads now main_chart_refresh p = omega (arith, refresh_main-threads now p)
resume-threads now hidden_chart_refresh p = refresh_hidden-threads now p

abbrev pub next_of : Wait → Call
next_of (timeout c _) = c
next_of (request c) = c

-- The waits of the page without one of them, which is over
abbrev pub left : OldPage → List Wait → OldPage
left q ws = record q { pending = ws }

-- A restart of the thread that is lost again in the same call adds none.
unfoldable pub restarts : (now : ℕ) → OldPage → ℕ
restarts now p = if is_silent now p && not (callback_throws now p) then 1 else 0

-- What may happen on a page, in any order: a timeout is over or a request has ended and calls the thread; the user,
-- the browser or the reply of a request changes what the thread reads; the page plays or pauses; its
-- interval comes. The numbers count the waits that were lost in an exception and the restarts.
pub data ThreadRun (p : OldPage) : (lost restarted : ℕ) → OldPage → Type 0 where
  stays : ThreadRun p 0 0 p
  goes_on :
      {l r : ℕ} {q : OldPage} (now : ℕ) (w : Wait) (ws vs : List Wait)
      → ThreadRun p l r q
      → q.pending ≡ ws ++ w ∷ vs
      → ThreadRun p
          (l + one_if (resume_throws now (next_of w) (left q (ws ++ vs))))
          r
          (resume now (next_of w) (left q (ws ++ vs)))
  changes :
      {l r : ℕ} {q : OldPage} (c : OldPage) → ThreadRun p l r q → ThreadRun p l r (left c q.pending)
  plays :
      {l r : ℕ} {q : OldPage} (now : ℕ)
      → ThreadRun p l r q
      → ThreadRun p l
          (r + (if q.paused then restarts now (record q { paused = false }) else 0))
          (play_graphs now q)
  pauses : {l r : ℕ} {q : OldPage} → ThreadRun p l r q → ThreadRun p l r (pause_graphs q)
  checks :
      {l r : ℕ} {q : OldPage} (now : ℕ)
      → ThreadRun p l r q
      → ThreadRun p l (r + restarts now q) (check_refresh_thread now q)

play_graphs-threads :
    (now : ℕ) (p : OldPage)
    → threads (play_graphs now p)
      ≡ threads p + (if p.paused then restarts now (record p { paused = false }) else 0)
unfolding play_graphs restarts is_silent one_if
play_graphs-threads now p = ground (arith, callback-threads now (record p { paused = false }))

check-threads :
    (now : ℕ) (p : OldPage) → threads (check_refresh_thread now p) ≡ threads p + restarts now p
unfolding check_refresh_thread restarts one_if
check-threads now p = ground (arith, callback-threads now p)

-- One wait less
left-threads :
    (q : OldPage) (w : Wait) (ws vs : List Wait)
    → q.pending ≡ ws ++ w ∷ vs
    → threads q ≡ suc (threads (left q (ws ++ vs)))
left-threads q w ws vs h =
    omega (arith, ap length h, length-append ws (w ∷ vs), length-append ws vs)

-- However long a page runs, and in whatever order its timeouts, replies and the user's actions come, the timeouts and
-- requests that carry the thread are those at its beginning, less one for each call that threw, and one more for each
-- restart that did not throw, which comes only after a minute of silence.
pub ThreadRun-threads :
    (p : OldPage) {l r : ℕ} (q : OldPage) → ThreadRun p l r q → threads q + l ≡ threads p + r
unfolding pause_graphs
ThreadRun-threads p q stays = refl
ThreadRun-threads p q (goes_on {q = s} now w ws vs h e) = omega (
  arith,
  ThreadRun-threads p s h,
  left-threads s w ws vs e,
  resume-threads now (next_of w) (left s (ws ++ vs)),
)
ThreadRun-threads p q (changes {q = s} c h) = ThreadRun-threads p s h
ThreadRun-threads p q (plays {q = s} now h) =
    omega (arith, ThreadRun-threads p s h, play_graphs-threads now s)
ThreadRun-threads p q (pauses {q = s} h) = ThreadRun-threads p s h
ThreadRun-threads p q (checks {q = s} now h) =
    omega (arith, ThreadRun-threads p s h, check-threads now s)
