-- ===== src/Scroll/Kept.antt =====
-- No scroll of the page is forgotten (portal/dashboard.js, `NETDATA.onscroll`).
use lmiced.Prelude.{
  ℕ, ◌-◌, ◌≤◌, ◌≡◌, refl, true, false, not, ◌&&◌, List, some, ltb, arith, if◌then◌else◌, Bool-cases,
  inl, inr,
}
use lmiced.Chart.{Chart}
use lmiced.Scroll.{
  Page, Clock, onscroll_updater, onscroll, onresize, timeout_runs, watchdog_runs, focus_changes,
  Happens, scrolls, resizes, updates, watches, focuses, Leads, opened, goes_on,
}

-- The updater is running exactly while its timeout is left, and only with the asynchronous handler; where it is
-- not running and no watchdog is left, the charts were looked at since the last scroll.
pub record IsKept (p : Page) : Type 0 where
  pub runs : p.timeouts ≡ (if p.updater_running then 1 else 0)
  pub waits : p.async_on_scroll ≡ false → p.updater_running ≡ false
  pub looked :
      p.updater_running ≡ false → p.watchdog ≡ false → p.last_page_scroll ≤ p.updater_last_run

-- What the updater leaves
record IsRun (now : ℕ) (p q : Page) : Type 0 where
  stopped : q.updater_running ≡ false
  ran : q.updater_last_run ≡ now
  same :
      (q.timeouts ≡ p.timeouts)
      × ((q.watchdog ≡ p.watchdog) × (q.last_page_scroll ≡ p.last_page_scroll))

updater-IsRun : (k : Clock) (p : Page) → IsRun k.env.now p (onscroll_updater k p)
unfolding onscroll_updater
updater-IsRun k p = record { stopped = refl; ran = refl; same = ground arith }

-- Once no timeout is left, a run of the updater puts everything right.
run-IsKept :
    (k : Clock) (p : Page)
    → p.timeouts ≡ 0
    → p.last_page_scroll ≤ k.env.now
    → IsKept (onscroll_updater k p)
run-IsKept k p z t =
    let r = updater-IsRun k p in
    let (a, (b, c)) = r.same in
    let s = r.stopped in
    let l = r.ran in
    record { runs = ground (arith, a, z, s); waits = λ h. s; looked = λ h w. omega (arith, l, c) }

scrolled-IsKept :
    (k : Clock) (cs : List Chart) (p : Page)
    → p.targets ≡ some cs
    → p.last_page_scroll ≤ k.env.now
    → IsKept p
    → IsKept (onscroll k p)
unfolding onscroll
scrolled-IsKept k cs p n t h = elim (Bool-cases p.async_on_scroll) [
  | inr a ↦
      let z : p.timeouts ≡ 0 = ground (arith, h.runs, h.waits a) in
      rw (n, a, onscroll) (run-IsKept k _ z (omega arith))
  | inl a ↦ elim (Bool-cases p.updater_running) [
    | inr b ↦
        let r = h.runs in
        rw (n, a, b, onscroll)
          record {
            runs = ground (arith, r, b);
            waits = λ i. absurd (grind (arith, a));
            looked = λ i. absurd (grind arith);
          }
    | inl b ↦
        let r = h.runs in
        rw (n, a, b, onscroll)
          record {
            runs = ground (arith, r, b);
            waits = λ i. absurd (grind (arith, a));
            looked = λ i w. absurd (grind arith);
          }
  ]
]

watched-IsKept :
    (k : Clock) (p : Page) → p.last_page_scroll ≤ k.env.now → IsKept p → IsKept (watchdog_runs k p)
unfolding watchdog_runs
watched-IsKept k p t h =
    elim (Bool-cases (not p.updater_running && ltb p.updater_last_run p.last_page_scroll)) [
      | inl b ↦
          let z : p.timeouts ≡ 0 = ground (arith, h.runs, b) in
          let i = run-IsKept k p z t in
          let s = (updater-IsRun k p).stopped in
          let l = (updater-IsRun k p).ran in
          let c = (updater-IsRun k p).same in
          rw (b, watchdog_runs)
            record { runs = i.runs; waits = i.waits; looked = λ u w. omega (arith, l, c) }
      | inr b ↦
          rw (b, watchdog_runs)
            record { runs = h.runs; waits = h.waits; looked = λ u w. ground (arith, b, u) }
    ]

Happens-IsKept : (p q : Page) → Happens p q → IsKept p → IsKept q
unfolding onresize timeout_runs focus_changes
Happens-IsKept p _ (scrolls k cs n t) h = scrolled-IsKept k cs p n t h
Happens-IsKept p _ (resizes k cs n t) h =
    scrolled-IsKept k cs (record p { last_page_resize = k.env.now }) n t
      record { runs = h.runs; waits = h.waits; looked = h.looked }
Happens-IsKept p _ (updates k z t) h =
    let r = h.runs in run-IsKept k (record p { timeouts = p.timeouts - 1 }) (ground (arith, r)) t
Happens-IsKept p _ (watches k w t) h = watched-IsKept k p t h
Happens-IsKept p _ (focuses true f) h = record { runs = h.runs; waits = h.waits; looked = h.looked }
Happens-IsKept p _ (focuses false f) h = h

-- However the events of the page and its timeouts come, after a scroll the charts are looked at again: unless they
-- were looked at since the last scroll, a timeout of the updater or the watchdog is left. At most one timeout of
-- the updater is ever left.
pub scroll-IsKept :
    (p q : Page)
    → IsKept p
    → Leads p q
    → (q.timeouts ≤ 1)
      × ((q.timeouts ≡ 0 → q.watchdog ≡ false → q.last_page_scroll ≤ q.updater_last_run) × IsKept q)
scroll-IsKept p _ h opened =
    (ground (arith, h.runs), ((λ z w. h.looked (ground (arith, h.runs, z)) w), h))
scroll-IsKept p _ h (goes_on {q = q} {r = r} l s) =
    let (a, (b, i)) = scroll-IsKept p q h l in
    let j = Happens-IsKept q r s i in
    (ground (arith, j.runs), ((λ z w. j.looked (ground (arith, j.runs, z)) w), j))
