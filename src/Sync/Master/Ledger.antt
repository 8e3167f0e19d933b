-- ===== src/Sync/Master/Ledger.antt =====
-- The requests and their statistics under `setMaster`, `clearMaster` and the resets
-- (portal/dashboard.js).
use lmiced.Prelude.{
  ℕ, ◌≡◌, refl, sym, subst, Bool, true, false, not, ◌&&◌, ◌||◌, Option, none, some, nat_beq,
  get_elem?, set, Bool-cases, Option-cases, inl, inr, if◌then◌else◌,
}
use lmiced.Prelude.Int.{ℤ, ltb_ℤ}
use lmiced.Chart.{Env}
use lmiced.Chart.Life.{is_visible}
use lmiced.Chart.Window.{is_master}
use lmiced.Chart.Pan.{Outcome, rejected, moved, update_chart_pan_or_zoom}
use lmiced.Sync.{Dashboard}
use lmiced.Sync.Ledger.{IsCounted, ledger-IsCounted, update_at-IsCounted}
use lmiced.Sync.Selection.{selection_stop}
use lmiced.Sync.Selection.Ledger.{selection_stop-ledger}
use lmiced.Sync.Master.{
  reset_local, update_if_visible, reset_rest, reset_with, forget_master, end_pan, clear_with,
  clear_master, reset_chart, displace, set_master, pan_or_zoom, reset_all_charts,
}

update_if_visible-IsCounted :
    (e : Env) (i : ℕ) (d : Dashboard) → IsCounted d → IsCounted (update_if_visible e i d)
unfolding update_if_visible
update_if_visible-IsCounted e i d c = elim (Option-cases (get_elem? d.targets i)) [
  | inl n ↦ rw (n, update_if_visible) c
  | inr (x, n) ↦
      let (shown, u) = is_visible false e x in
      let d' = record d { targets = set d.targets i u } in
      let c' = ledger-IsCounted d d' refl c in
      rw (n, update_if_visible)
        (elim (Bool-cases shown) [ inl b ↦ rw b (update_at-IsCounted e i d' c') | inr b ↦ rw b c' ])
]

reset_rest-IsCounted :
    (e : Env) (dont_update : Bool) (i : ℕ) (d : Dashboard)
    → IsCounted d
    → IsCounted (reset_rest e dont_update i d)
unfolding reset_rest
reset_rest-IsCounted e dont_update i d c = elim (Option-cases (get_elem? d.targets i)) [
  | inl n ↦ rw (n, reset_rest) c
  | inr (x, n) ↦
      let d' = record d { targets = set d.targets i (reset_local e x) } in
      let c' = ledger-IsCounted d d' refl c in
      rw (n, reset_rest)
        (elim (Bool-cases dont_update) [
          | inl b ↦ rw b c'
          | inr b ↦ rw b (update_if_visible-IsCounted e i d' c')
        ])
]

reset_with-IsCounted :
    (clear : Env → Dashboard → Dashboard) (e : Env) (keep dont_update : Bool) (i : ℕ)
    (d : Dashboard)
    → ((d : Dashboard) → IsCounted d → IsCounted (clear e d))
    → IsCounted d
    → IsCounted (reset_with clear e keep dont_update i d)
unfolding reset_with
reset_with-IsCounted clear e keep dont_update i d f c =
    elim (Bool-cases (not keep && is_master i d.pan)) [
      | inl b ↦ simp b (f d c)
      | inr b ↦ simp b (reset_rest-IsCounted e dont_update i d c)
    ]

clear_with-none :
    (clear : Env → Dashboard → Dashboard) (e : Env) (d : Dashboard)
    → d.pan.master ≡ none
    → clear_with clear e d ≡ end_pan d
unfolding clear_with
clear_with-none clear e d n = rw n refl

clear_with-some :
    (clear : Env → Dashboard → Dashboard) (e : Env) (m : ℕ) (d : Dashboard)
    → d.pan.master ≡ some m
    → clear_with clear e d ≡ end_pan (reset_with clear e false false m (forget_master d))
unfolding clear_with
clear_with-some clear e m d n = rw n refl

clear_with-IsCounted :
    (clear : Env → Dashboard → Dashboard) (e : Env) (d : Dashboard)
    → ((d : Dashboard) → IsCounted d → IsCounted (clear e d))
    → IsCounted d
    → IsCounted (clear_with clear e d)
unfolding end_pan forget_master
clear_with-IsCounted clear e d f c = elim (Option-cases d.pan.master) [
  | inl n ↦
      subst IsCounted (sym (clear_with-none clear e d n)) (ledger-IsCounted d (end_pan d) refl c)
  | inr (m, n) ↦
      let k = forget_master d in
      let r = reset_with clear e false false m k in
      let c' = reset_with-IsCounted clear e false false m k f (ledger-IsCounted d k refl c) in
      subst IsCounted (sym (clear_with-some clear e m d n)) (ledger-IsCounted r (end_pan r) refl c')
]

pub clear_master-IsCounted : (e : Env) (d : Dashboard) → IsCounted d → IsCounted (clear_master e d)
unfolding clear_master
clear_master-IsCounted e d c = clear_with-IsCounted (λ e d. d) e d (λ d c. c) c

reset_chart-IsCounted :
    (e : Env) (keep dont_update : Bool) (i : ℕ) (d : Dashboard)
    → IsCounted d
    → IsCounted (reset_chart e keep dont_update i d)
unfolding reset_chart
reset_chart-IsCounted e keep dont_update i d c =
    reset_with-IsCounted clear_master e keep dont_update i d (clear_master-IsCounted e) c

displace-some :
    (e : Env) (i m : ℕ) (d : Dashboard)
    → d.pan.master ≡ some m
    → displace e i d ≡ (if nat_beq m i then d else reset_chart e true true m d)
unfolding displace
displace-some e i m d n = rw n refl

displace-none : (e : Env) (i : ℕ) (d : Dashboard) → d.pan.master ≡ none → displace e i d ≡ d
unfolding displace
displace-none e i d n = rw n refl

displace-IsCounted : (e : Env) (i : ℕ) (d : Dashboard) → IsCounted d → IsCounted (displace e i d)
unfolding displace
displace-IsCounted e i d c = elim (Option-cases d.pan.master) [
  | inl n ↦ subst IsCounted (sym (displace-none e i d n)) c
  | inr (m, n) ↦ subst IsCounted (sym (displace-some e i m d n)) (elim (Bool-cases (nat_beq m i)) [
    | inl b ↦ rw b c
    | inr b ↦ rw b (reset_chart-IsCounted e true true m d c)
  ])
]

pub set_master-IsCounted :
    (e : Env) (i : ℕ) (after before : ℤ) (d : Dashboard)
    → IsCounted d
    → IsCounted (set_master e i after before d)
unfolding set_master
set_master-IsCounted e i after before d c = elim (Bool-cases e.sync_pan_and_zoom) [
  | inr b ↦ simp b c
  | inl b ↦ simp b (ledger-IsCounted (displace e i d) _ refl (displace-IsCounted e i d c))
]

abbrev AllCounted : Option (Dashboard × Bool) → Type 0
AllCounted none = Unit {0}
AllCounted (some (d, exact)) = IsCounted d

answer-AllCounted :
    (e : Env) (i : ℕ) (outcome : Outcome) (d : Dashboard)
    → IsCounted d
    → AllCounted (
        some (elim outcome [
          | rejected ↦ (d, false)
          | moved a b exact ↦ (set_master e i a b d, exact)
        ]))
answer-AllCounted e i rejected d c = c
answer-AllCounted e i (moved a b exact) d c = set_master-IsCounted e i a b d c

pan_or_zoom-AllCounted :
    (e : Env) (i : ℕ) (after before : ℤ) (d : Dashboard)
    → IsCounted d
    → AllCounted (pan_or_zoom e i after before d)
unfolding pan_or_zoom
pan_or_zoom-AllCounted e i after before d c = elim (Option-cases (get_elem? d.targets i)) [
  | inl n ↦ rw (n, pan_or_zoom) tt
  | inr (x, n) ↦
      rw (n, pan_or_zoom)
        (elim (Option-cases x.chart_update_every) [
          | inl k ↦
              rw k (elim (Bool-cases (ltb_ℤ before after)) [ inl b ↦ rw b c | inr b ↦ rw b tt ])
          | inr (every, k) ↦
              let (u, outcome) = update_chart_pan_or_zoom e every after before x in
              let d' = record d { targets = set d.targets i u } in
              rw k (answer-AllCounted e i outcome d' (ledger-IsCounted d d' refl c))
        ])
]

pub pan_or_zoom-IsCounted :
    (e : Env) (i : ℕ) (after before : ℤ) (d d' : Dashboard) (exact : Bool)
    → pan_or_zoom e i after before d ≡ some (d', exact)
    → IsCounted d
    → IsCounted d'
pan_or_zoom-IsCounted e i after before d d' exact h c =
    subst AllCounted h (pan_or_zoom-AllCounted e i after before d c)

pub reset_all_charts-IsCounted :
    (e : Env) (i : ℕ) (d : Dashboard) → IsCounted d → IsCounted (reset_all_charts e i d)
unfolding reset_all_charts
reset_all_charts-IsCounted e i d c =
    let s = selection_stop i d in
    let m = clear_master e s in
    let c' = clear_master-IsCounted e s (ledger-IsCounted d s (selection_stop-ledger i d) c) in
    elim (Option-cases (get_elem? m.targets i)) [
      | inl n ↦ rw (n, reset_all_charts) c'
      | inr (x, n) ↦
          rw (n, reset_all_charts)
            (elim (Bool-cases (not (is_master i s.pan) && (x.paused || x.selected))) [
              | inl b ↦ rw b (reset_chart-IsCounted e false false i m c')
              | inr b ↦ rw b c'
            ])
    ]
