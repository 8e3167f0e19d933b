-- ===== src/Chart/Fetch/Retries.antt =====
-- Failed downloads in a row (portal/dashboard.js, the `fail` of `updateChart`).
use lmiced.Prelude.{ℕ, ◌+◌, ◌≤◌, ◌≡◌, refl, ◌∙◌, true, false, List, [], ◌∷◌, length, arith}
use lmiced.Chart.{Chart, Env}
use lmiced.Chart.Fetch.{fail}

-- One failure at each of the times.
unfoldable pub fails : Env → List ℕ → Chart → Chart
fails e [] c = c
fails e (t ∷ ts) c = fails e ts (fail (record e { now = t }) false c)

-- A failure below the limit is counted and changes nothing but the time of the refresh.
fail-counts :
    (e : Env) (c : Chart)
    → c.retries_on_data_failures + 1 ≤ e.retries_limit
    → let d = fail e false c in
      (d.retries_on_data_failures ≡ c.retries_on_data_failures + 1)
      × (d.enabled ≡ c.enabled)
      × (d.tm.last_autorefreshed ≡ e.now)
unfolding fail
fail-counts e c h = ground arith

fails-counts :
    (e : Env) (ts : List ℕ) (c : Chart)
    → c.retries_on_data_failures + length ts ≤ e.retries_limit
    → ((fails e ts c).retries_on_data_failures ≡ c.retries_on_data_failures + length ts)
      × ((fails e ts c).enabled ≡ c.enabled)
unfolding fails
fails-counts e [] c h = (omega arith, refl)
fails-counts e (t ∷ ts) c h =
    let (n, k, _) = fail-counts (record e { now = t }) c (omega arith) in
    let (m, l) = fails-counts e ts (fail (record e { now = t }) false c) (omega (arith, n)) in
    (omega (arith, m, n), l ∙ k)

-- With the count at 0 and `retries_limit` retries allowed, that many failed downloads in a row leave
-- an enabled chart enabled and counted; the next failure disables it and resets the count.
pub fails_give_up :
    (e : Env) (ts : List ℕ) (t : ℕ) (c : Chart)
    → c.retries_on_data_failures ≡ 0
    → c.enabled ≡ true
    → e.error_shown ≡ true
    → length ts ≡ e.retries_limit
    → let d = fails e ts c in
      let g = fail (record e { now = t }) false d in
      (d.enabled ≡ true)
      × (d.retries_on_data_failures ≡ e.retries_limit)
      × (g.enabled ≡ false)
      × (g.retries_on_data_failures ≡ 0)
unfolding fail
fails_give_up e ts t c z en sh len =
    let (m, l) = fails-counts e ts c (omega (arith, z, len)) in
    (l ∙ en, omega (arith, m, z, len), ground (arith, m, z, len), ground (arith, m, z, len))
