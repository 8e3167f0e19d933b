-- ===== src/Sync/Requests/Counts.antt =====
-- `NETDATA.statistics` (portal/dashboard.js) in the states that a page can reach.
use lmiced.Prelude.{
  ℕ, ◌≡◌, refl, ◌∙◌, ap, Bool, true, List, ◌∷◌, ◌++◌, length, length-append, get_elem?, set, arith,
  Bool-cases, Option-cases, inl, inr, suc,
}
use lmiced.Chart.{Env}
use lmiced.Chart.Fetch.{update_chart, count_end, Reply, done}
use lmiced.Chart.Refresh.{auto_refresh}
use lmiced.Sync.{Dashboard, Request}
use lmiced.Sync.Ledger.{
  IsCounted, ledger, ledger-IsCounted, note_request-IsCounted, update_at-IsCounted,
}
use lmiced.Sync.Selection.Ledger.{
  selection_delay-ledger, selection_sync-ledger, selection_stop-ledger, global_stop-ledger,
}
use lmiced.Sync.Master.Ledger.{
  set_master-IsCounted, pan_or_zoom-IsCounted, reset_all_charts-IsCounted,
}
use lmiced.Sync.Requests.{
  auto_refresh_at, continue_at, end_request, done_at, fail_at, Step, refreshed, updated, described,
  library_ready, replied, failed, hovered, left, panned, reset, switched, held, delayed, mastered,
  Reachable, loaded, later,
}

auto_refresh_at-IsCounted :
    (e : Env) (i : ℕ) (d : Dashboard) → IsCounted d → IsCounted (auto_refresh_at e i d)
unfolding auto_refresh_at
auto_refresh_at-IsCounted e i d c = elim (Option-cases (get_elem? d.targets i)) [
  | inl n ↦ rw (n, auto_refresh_at) c
  | inr (x, n) ↦
      let (u, s) = auto_refresh e d.pan d.stop_until i x in
      let d' = record d { targets = set d.targets i u } in
      rw (n, auto_refresh_at) (note_request-IsCounted i true s d' (ledger-IsCounted d d' refl c))
]

continue_at-IsCounted :
    (e : Env) (refreshing : Bool) (i : ℕ) (d : Dashboard)
    → IsCounted d
    → IsCounted (continue_at e refreshing i d)
unfolding continue_at
continue_at-IsCounted e refreshing i d c = elim (Option-cases (get_elem? d.targets i)) [
  | inl n ↦ rw (n, continue_at) c
  | inr (x, n) ↦
      let (u, s) = update_chart e d.pan i x in
      rw (n, continue_at) (note_request-IsCounted i refreshing s _ (ledger-IsCounted d _ refl c))
]

done_at-ledger :
    (e : Env) (reply : Reply) (drawn : Bool) (i : ℕ) (d : Dashboard)
    → ledger (done_at e reply drawn i d) ≡ ledger d
unfolding done_at
done_at-ledger e reply drawn i d = elim (Option-cases (get_elem? d.targets i)) [
  | inl n ↦ rw (n, done_at) refl
  | inr (x, n) ↦
      let (u, stop) = done e d.pan reply drawn x in
      rw (n, done_at)
        (elim (Bool-cases stop) [
          | inl b ↦ rw b (global_stop-ledger (record d { targets = set d.targets i u }))
          | inr b ↦ rw b refl
        ])
]

length-remove :
    (newer older : List Request) (r : Request)
    → length (newer ++ r ∷ older) ≡ suc (length (newer ++ older))
length-remove newer older r =
    omega (arith, length-append newer (r ∷ older), length-append newer older)

-- A request that ends is one less, whatever its handler has done to the charts.
end_request-IsCounted :
    (r : Request) (newer older : List Request) (d d' : Dashboard)
    → ledger d' ≡ ledger d
    → d.requests ≡ newer ++ r ∷ older
    → IsCounted d
    → IsCounted (end_request r (newer ++ older) d')
unfolding end_request count_end
end_request-IsCounted r newer older d d' l h c =
    let c' = ledger-IsCounted d d' l c in
    let n : length d'.requests ≡ suc (length (newer ++ older)) =
      ap (λ x. length x.1) l ∙ ap length h ∙ length-remove newer older r in
    let a = c'.active in
    let m = c'.most in
    let t = c'.total in record { active = omega (arith, a, n); most = omega (arith, m); total = t }

Step-IsCounted : (m n : Dashboard) → Step m n → IsCounted m → IsCounted n
unfolding fail_at
Step-IsCounted _ _ (refreshed e i d) c = auto_refresh_at-IsCounted e i d c
Step-IsCounted _ _ (updated e i d) c = update_at-IsCounted e i d c
Step-IsCounted _ _ (described e b every pixels i d) c =
    continue_at-IsCounted e b i _ (ledger-IsCounted d _ refl c)
Step-IsCounted _ _ (library_ready e b i d) c =
    continue_at-IsCounted e b i _ (ledger-IsCounted d _ refl c)
Step-IsCounted _ _ (replied e reply drawn newer older r d h) c =
    end_request-IsCounted r newer older d _ (done_at-ledger e reply drawn r.chart d) h c
Step-IsCounted _ _ (failed e aborted newer older r d h) c =
    end_request-IsCounted r newer older d _ refl h c
Step-IsCounted _ _ (hovered e t i d) c = ledger-IsCounted d _ (selection_sync-ledger e t i d) c
Step-IsCounted _ _ (left i d) c = ledger-IsCounted d _ (selection_stop-ledger i d) c
Step-IsCounted _ _ (panned e i after before d d' exact h) c =
    pan_or_zoom-IsCounted e i after before d d' exact h c
Step-IsCounted _ _ (reset e i d) c = reset_all_charts-IsCounted e i d c
Step-IsCounted _ _ (switched e m i d) c = ledger-IsCounted d _ refl c
Step-IsCounted _ _ (held b i d) c = ledger-IsCounted d _ refl c
Step-IsCounted _ _ (delayed e ms d) c = ledger-IsCounted d _ (selection_delay-ledger e ms d) c
Step-IsCounted _ _ (mastered e i after before d) c = set_master-IsCounted e i after before d c

-- In every state that a page can reach from one that is counted, whatever its charts refresh, its user
-- does, and in whatever order its requests end: `refreshes_active` is the number of requests under
-- way, and it is at most `refreshes_active_max`, which is at most `refreshes_total`.
pub Reachable-IsCounted : (d n : Dashboard) → Reachable d n → IsCounted d → IsCounted n
Reachable-IsCounted d _ loaded c = c
Reachable-IsCounted d n (later m _ r s) c = Step-IsCounted m n s (Reachable-IsCounted d m r c)
