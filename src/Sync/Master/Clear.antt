-- ===== src/Sync/Master/Clear.antt =====
-- `clearMaster` and `resetChart`, which call one another (portal/dashboard.js).
use lmiced.Prelude.{
  ◌≢◌, ◌∙◌, Bool-cases, get_elem?-set_ne, ℕ, ◌≡◌, refl, ap, Bool, false, none, some, Option-cases,
  inl, inr, get_elem?, set,
}
use lmiced.Chart.{Env}
use lmiced.Chart.Window.{is_master, is_active}
use lmiced.Chart.Life.{is_visible}
use lmiced.Chart.Fetch.{Started, called_back, asked_chart, asked_library, asked_data, update_chart}
use lmiced.Sync.{Dashboard, note_request, update_at}
use lmiced.Sync.Master.{
  reset_local, update_if_visible, reset_with, reset_rest, forget_master, end_pan, clear_with,
  clear_master,
}

-- A chart that is not the master is reset without a call of `clearMaster`.
reset-forgotten :
    (f g : Env → Dashboard → Dashboard) (e : Env) (m : ℕ) (d : Dashboard)
    → reset_with f e false false m (forget_master d)
      ≡ reset_with g e false false m (forget_master d)
unfolding reset_with forget_master is_master
reset-forgotten f g e m d = refl

clear-of-clear :
    (f g : Env → Dashboard → Dashboard) (e : Env) (d : Dashboard)
    → clear_with f e d ≡ clear_with g e d
unfolding clear_with
clear-of-clear f g e d = elim (Option-cases d.pan.master) [
  | inl n ↦ rw n refl
  | inr (m, n) ↦ rw n (ap end_pan (reset-forgotten f g e m d))
]

clear_with-ends :
    (f : Env → Dashboard → Dashboard) (e : Env) (d : Dashboard)
    → let c = clear_with f e d in
      (c.pan.master ≡ none) × (is_active c.pan ≡ false) × (c.stop_until ≡ 0)
unfolding clear_with end_pan is_active
clear_with-ends f e d = elim (Option-cases d.pan.master) [
  | inl n ↦ rw n (refl, refl, refl)
  | inr (m, n) ↦ rw n (refl, refl, refl)
]

note_request-targets :
    (i : ℕ) (b : Bool) (s : Started) (d : Dashboard) → (note_request i b s d).targets ≡ d.targets
note_request-targets i b (asked_data q) d = refl
note_request-targets i b called_back d = refl
note_request-targets i b asked_chart d = refl
note_request-targets i b asked_library d = refl

update_at-frame :
    (e : Env) (i j : ℕ) (d : Dashboard)
    → i ≢ j
    → get_elem? (update_at e i d).targets j ≡ get_elem? d.targets j
unfolding update_at
update_at-frame e i j d ne = elim (Option-cases (get_elem? d.targets i)) [
  | inl n ↦ rw (n, get_elem?) refl
  | inr (c, n) ↦
      let (u, s) = update_chart e d.pan i c in
      rw (n, get_elem?)
        (ap (λ cs. get_elem? cs j)
            (note_request-targets i false s (record d { targets = set d.targets i u }))
          ∙ get_elem?-set_ne d.targets u ne)
]

update_if_visible-frame :
    (e : Env) (i j : ℕ) (d : Dashboard)
    → i ≢ j
    → get_elem? (update_if_visible e i d).targets j ≡ get_elem? d.targets j
unfolding update_if_visible
update_if_visible-frame e i j d ne = elim (Option-cases (get_elem? d.targets i)) [
  | inl n ↦ rw (n, get_elem?) refl
  | inr (c, n) ↦
      let (shown, u) = is_visible false e c in
      let d' = record d { targets = set d.targets i u } in
      let k = get_elem?-set_ne d.targets u ne in
      rw (n, get_elem?)
        (elim (Bool-cases shown) [
          | inl b ↦ rw b (update_at-frame e i j d' ne ∙ k)
          | inr b ↦ rw b k
        ])
]

reset_rest-frame :
    (e : Env) (dont_update : Bool) (i j : ℕ) (d : Dashboard)
    → i ≢ j
    → get_elem? (reset_rest e dont_update i d).targets j ≡ get_elem? d.targets j
unfolding reset_rest
reset_rest-frame e dont_update i j d ne = elim (Option-cases (get_elem? d.targets i)) [
  | inl n ↦ rw (n, get_elem?) refl
  | inr (c, n) ↦
      let d' = record d { targets = set d.targets i (reset_local e c) } in
      let k = get_elem?-set_ne d.targets (reset_local e c) ne in
      rw (n, get_elem?)
        (elim (Bool-cases dont_update) [
          | inl u ↦ rw u k
          | inr u ↦ rw u (update_if_visible-frame e i j d' ne ∙ k)
        ])
]

clear_with-frame :
    (f : Env → Dashboard → Dashboard) (e : Env) (j : ℕ) (d : Dashboard)
    → d.pan.master ≢ some j
    → get_elem? (clear_with f e d).targets j ≡ get_elem? d.targets j
unfolding clear_with reset_with forget_master end_pan is_master
clear_with-frame f e j d ne = elim (Option-cases d.pan.master) [
  | inl n ↦ rw n refl
  | inr (m, n) ↦
      let q : m ≢ j = λ p. ne (n ∙ ap some p) in
      rw (n, get_elem?) (reset_rest-frame e false m j (forget_master d) q)
]

-- The mutual calls of `clearMaster` and `resetChart` end: the call back from the reset of the former
-- master is never made, whatever `f` stands for it. Afterwards there is no master, no pan or zoom is
-- active, and the background refresher is not held back; every chart but the former master is as it
-- was.
pub clear_master-ends :
    (f : Env → Dashboard → Dashboard) (e : Env) (d : Dashboard)
    → let c = clear_master e d in
      (clear_with f e d ≡ c)
      × (c.pan.master ≡ none)
      × (is_active c.pan ≡ false)
      × (c.stop_until ≡ 0)
      × ((j : ℕ) → d.pan.master ≢ some j → get_elem? c.targets j ≡ get_elem? d.targets j)
unfolding clear_master
clear_master-ends f e d =
    let (n, a, s) = clear_with-ends (λ e d. d) e d in
    (clear-of-clear f (λ e d. d) e d, n, a, s, λ j ne. clear_with-frame (λ e d. d) e j d ne)
