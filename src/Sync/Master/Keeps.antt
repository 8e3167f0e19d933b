-- ===== src/Sync/Master/Keeps.antt =====
-- What a pan or zoom of a chart keeps of it (portal/dashboard.js, `setMaster`, `updateChartPanOrZoom`): its mode, once
-- it has one of its own, and its pause, and the time of the delay.
use lmiced.Prelude.{
  ℕ, ◌≡◌, refl, ◌≢◌, subst, Bool, true, false, Option, none, some, nat_beq, nat_beq-false,
  get_elem?, set, get_elem?-set_self, arith, Bool-cases, Option-cases, inl, inr,
}
use lmiced.Prelude.Int.{ℤ, ltb_ℤ}
use lmiced.Chart.{Chart, Env, auto}
use lmiced.Chart.Pan.{Outcome, rejected, moved, update_chart_pan_or_zoom}
use lmiced.Chart.Pan.Steady.{update_chart_pan_or_zoom-Steady}
use lmiced.Sync.{Dashboard}
use lmiced.Sync.Selection.Keeps.{Alike, Keeps, trans-Keeps, refl-Keeps, set-KeepsAt}
use lmiced.Sync.Master.{reset_local, reset_rest, displace, set_master, pan_or_zoom}
use lmiced.Sync.Master.Take.{displace-other, get_elem?-some}

reset_rest-Keeps : (e : Env) (i m : ℕ) (d : Dashboard) → m ≢ i → Keeps i d (reset_rest e true m d)
unfolding reset_rest
reset_rest-Keeps e i m d n = elim (Option-cases (get_elem? d.targets m)) [
  | inl h ↦ rw (h, reset_rest) (refl-Keeps i d)
  | inr (c, h) ↦ rw (h, reset_rest) (set-KeepsAt m i (reset_local e c) d.targets n, refl)
]

displace-Keeps : (e : Env) (i : ℕ) (d : Dashboard) → Keeps i d (displace e i d)
unfolding displace
displace-Keeps e i d = elim (Option-cases d.pan.master) [
  | inl h ↦ rw (h, displace) (refl-Keeps i d)
  | inr (m, h) ↦ elim (Bool-cases (nat_beq m i)) [
    | inl b ↦ rw (h, b, displace) (refl-Keeps i d)
    | inr b ↦
        let n = nat_beq-false m i b in rw (displace-other e i m d h n) (reset_rest-Keeps e i m d n)
  ]
]

pub set_master-Keeps :
    (e : Env) (i : ℕ) (a b : ℤ) (d : Dashboard) → Keeps i d (set_master e i a b d)
unfolding set_master
set_master-Keeps e i a b d = elim (Bool-cases e.sync_pan_and_zoom) [
  | inr h ↦ simp (h, set_master) (refl-Keeps i d)
  | inl h ↦ let (k, q) = displace-Keeps e i d in simp (h, set_master) (k, q)
]

answer_of : Env → ℕ → Outcome → Dashboard → Dashboard × Bool
answer_of e i rejected d = (d, false)
answer_of e i (moved a b exact) d = (set_master e i a b d, exact)

answer_of-Keeps : (e : Env) (i : ℕ) (r : Outcome) (d : Dashboard) → Keeps i d (answer_of e i r d).0
unfolding answer_of
answer_of-Keeps e i rejected d = refl-Keeps i d
answer_of-Keeps e i (moved a b exact) d = set_master-Keeps e i a b d

-- The chart `i`, if it follows the time no more
abbrev pub IsOwn : ℕ → Dashboard → Type 0
IsOwn i d = (c : Chart) → get_elem? d.targets i ≡ some c → c.current ≢ auto

moved-KeepsAt :
    (e : Env) (i every : ℕ) (a b : ℤ) (c : Chart) (d : Dashboard)
    → get_elem? d.targets i ≡ some c
    → c.current ≢ auto
    → Keeps i d (record d { targets = set d.targets i (update_chart_pan_or_zoom e every a b c).0 })
moved-KeepsAt e i every a b c d h n =
    let u = (update_chart_pan_or_zoom e every a b c).0 in
    let (p, q) = update_chart_pan_or_zoom-Steady e every a b c n in
    (
      λ x k.
          let eq : c ≡ x = ground (arith, h, k) in
          (
            u,
            (
              get_elem?-set_self d.targets i u (get_elem?-some d.targets i c h),
              subst (λ y. Alike y u) eq (p, q),
            ),
          ),
      refl,
    )

abbrev AllKeep : ℕ → Dashboard → Option (Dashboard × Bool) → Type 0
AllKeep i d none = Unit {0}
AllKeep i d (some (d', exact)) = Keeps i d d'

answered :
    (e : Env) (i : ℕ) (r : Outcome) (d : Dashboard)
    → some (answer_of e i r d)
      ≡ some (elim r [ rejected ↦ (d, false) | moved a b exact ↦ (set_master e i a b d, exact) ])
unfolding answer_of
answered e i rejected d = refl
answered e i (moved a b exact) d = refl

pan_or_zoom-AllKeep :
    (e : Env) (i : ℕ) (a b : ℤ) (d : Dashboard) → IsOwn i d → AllKeep i d (pan_or_zoom e i a b d)
unfolding pan_or_zoom
pan_or_zoom-AllKeep e i a b d own = elim (Option-cases (get_elem? d.targets i)) [
  | inl n ↦ rw (n, pan_or_zoom) tt
  | inr (x, n) ↦
      rw (n, pan_or_zoom)
        (elim (Option-cases x.chart_update_every) [
          | inl k ↦
              rw k
                (elim (Bool-cases (ltb_ℤ b a)) [ inl t ↦ rw t (refl-Keeps i d) | inr t ↦ rw t tt ])
          | inr (every, k) ↦
              let (u, r) = update_chart_pan_or_zoom e every a b x in
              let m : Dashboard = record d { targets = set d.targets i u } in
              rw k (
                subst (AllKeep i d) (answered e i r m) (
                  trans-Keeps i d m (answer_of e i r m).0
                    (moved-KeepsAt e i every a b x d n (own x n)) (answer_of-Keeps e i r m)))
        ])
]

pub pan_or_zoom-Keeps :
    (e : Env) (i : ℕ) (a b : ℤ) (d d' : Dashboard) (exact : Bool)
    → pan_or_zoom e i a b d ≡ some (d', exact)
    → IsOwn i d
    → Keeps i d d'
pan_or_zoom-Keeps e i a b d d' exact h own =
    subst (AllKeep i d) h (pan_or_zoom-AllKeep e i a b d own)
