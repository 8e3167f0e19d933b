-- ===== src/Sync/Ledger.antt =====
-- The requests under way and their statistics (portal/dashboard.js, `NETDATA.statistics`).
use lmiced.Prelude.{
  ℕ, ◌≤◌, ◌≡◌, refl, ◌∙◌, sym, ap, subst, Bool, false, List, length, get_elem?, set, arith,
  Option-cases, inl, inr,
}
use lmiced.Chart.{Env}
use lmiced.Chart.Fetch.{
  Statistics, Started, called_back, asked_chart, asked_library, asked_data, update_chart,
  count_request,
}
use lmiced.Sync.{Dashboard, Request, note_request, update_at}

-- The active requests are those under way; there were never more than `refreshes_active_max`, nor
-- more than `refreshes_total` in all.
pub record IsCounted (d : Dashboard) : Type 0 where
  pub active : d.statistics.refreshes_active ≡ length d.requests
  pub most : d.statistics.refreshes_active ≤ d.statistics.refreshes_active_max
  pub total : d.statistics.refreshes_active_max ≤ d.statistics.refreshes_total

-- What the statistics are about. Most operations leave it alone.
abbrev pub ledger : Dashboard → Statistics × List Request
ledger d = (d.statistics, d.requests)

pub ledger-IsCounted : (d d' : Dashboard) → ledger d' ≡ ledger d → IsCounted d → IsCounted d'
ledger-IsCounted d d' h c = record {
  active = ap (λ x. x.0.refreshes_active) h ∙ c.active ∙ ap (λ x. length x.1) (sym h);
  most = subst (λ x. x.0.refreshes_active ≤ x.0.refreshes_active_max) (sym h) c.most;
  total = subst (λ x. x.0.refreshes_active_max ≤ x.0.refreshes_total) (sym h) c.total;
}

pub note_request-IsCounted :
    (i : ℕ) (b : Bool) (s : Started) (d : Dashboard)
    → IsCounted d
    → IsCounted (note_request i b s d)
unfolding count_request
note_request-IsCounted i b (asked_data q) d c =
    let h = c.active in
    let k = c.most in
    let l = c.total in
    record { active = omega (arith, h); most = ground arith; total = ground arith }
note_request-IsCounted i b called_back d c = c
note_request-IsCounted i b asked_chart d c = c
note_request-IsCounted i b asked_library d c = c

pub update_at-IsCounted :
    (e : Env) (i : ℕ) (d : Dashboard) → IsCounted d → IsCounted (update_at e i d)
unfolding update_at
update_at-IsCounted e i d c = elim (Option-cases (get_elem? d.targets i)) [
  | inl n ↦ rw (n, update_at) c
  | inr (x, n) ↦
      let (u, s) = update_chart e d.pan i x in
      let d' = record d { targets = set d.targets i u } in
      rw (n, update_at) (note_request-IsCounted i false s d' (ledger-IsCounted d d' refl c))
]
