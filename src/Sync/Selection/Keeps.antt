-- ===== src/Sync/Selection/Keeps.antt =====
-- What the synchronised selection keeps of the chart that calls it (portal/dashboard.js, `globalSelectionSync`,
-- `globalSelectionSyncStop`): its mode and its pause, and the time of the delay.
use lmiced.Prelude.{
  ℕ, zero, suc, ◌≡◌, refl, ◌∙◌, ◌≢◌, subst, true, List, [], ◌∷◌, some, is_some, nat_beq,
  nat_beq-false, get_elem?, set, modify, get_elem?-set_ne, length, arith, Bool-cases, Option-cases,
  inl, inr,
}
use lmiced.Prelude.Int.{ℤ}
use lmiced.Chart.{Chart, Env}
use lmiced.Chart.Fetch.{clear_selection, set_selection}
use lmiced.Sync.{Dashboard}
use lmiced.Sync.Selection.{
  is_at, selection_ability, clear_slaves, release, selection_stop, eligible, be_slave, add_slave,
  add_slaves, mark, be_master, set_slaves, selection_sync,
}

-- The same mode and the same pause
abbrev pub Alike : Chart → Chart → Type 0
Alike c d = (d.current ≡ c.current) × (d.paused ≡ c.paused)

-- The chart `i` of the one list is alike in the other.
abbrev pub KeepsAt : ℕ → List Chart → List Chart → Type 0
KeepsAt i cs ds =
    (c : Chart) → get_elem? cs i ≡ some c → (d : Chart) × ((get_elem? ds i ≡ some d) × Alike c d)

abbrev pub Keeps : ℕ → Dashboard → Dashboard → Type 0
Keeps i d e =
    KeepsAt i d.targets e.targets × (e.selection.dont_sync_before ≡ d.selection.dont_sync_before)

pub trans-KeepsAt :
    (i : ℕ) (bs cs ds : List Chart) → KeepsAt i bs cs → KeepsAt i cs ds → KeepsAt i bs ds
trans-KeepsAt i bs cs ds f g c h =
    let (d, (a, (p, q))) = f c h in let (u, (b, (r, s))) = g d a in (u, (b, (r ∙ p, s ∙ q)))

pub trans-Keeps : (i : ℕ) (d e f : Dashboard) → Keeps i d e → Keeps i e f → Keeps i d f
trans-Keeps i d e f (a, p) (b, q) = (trans-KeepsAt i d.targets e.targets f.targets a b, q ∙ p)

pub refl-Keeps : (i : ℕ) (d : Dashboard) → Keeps i d d
refl-Keeps i d = ((λ c h. (c, (h, (refl, refl)))), refl)

head_equal : {A : Type 0} {x y : A} → some x ≡ some y → x ≡ y
head_equal h = ground (arith, h)

pub modify-KeepsAt :
    (f : Chart → Chart) (k i : ℕ) (cs : List Chart)
    → ((c : Chart) → Alike c (f c))
    → KeepsAt i cs (modify f k cs)
modify-KeepsAt f k i [] a c h = (c, (h, (refl, refl)))
modify-KeepsAt f zero zero (x ∷ xs) a c h =
    (f x, (refl, subst (λ y. Alike y (f x)) (head_equal h) (a x)))
modify-KeepsAt f zero (suc i) (x ∷ xs) a c h = (c, (h, (refl, refl)))
modify-KeepsAt f (suc k) zero (x ∷ xs) a c h = (c, (h, (refl, refl)))
modify-KeepsAt f (suc k) (suc i) (x ∷ xs) a c h = modify-KeepsAt f k i xs a c h

pub set-KeepsAt : (k i : ℕ) (u : Chart) (cs : List Chart) → k ≢ i → KeepsAt i cs (set cs k u)
set-KeepsAt k i u cs n c h = (c, (get_elem?-set_ne cs u n ∙ h, (refl, refl)))

clear_selection-Alike : (c : Chart) → Alike c (clear_selection c)
unfolding clear_selection
clear_selection-Alike c = ground arith

set_selection-Alike : (t : ℤ) (c : Chart) → Alike c (set_selection t c)
unfolding set_selection
set_selection-Alike t c = (refl, refl)

clear_slaves-KeepsAt :
    (i j : ℕ) (ss : List ℕ) (cs : List Chart) → KeepsAt i cs (clear_slaves j ss cs)
unfolding clear_slaves
clear_slaves-KeepsAt i j [] cs = λ c h. (c, (h, (refl, refl)))
clear_slaves-KeepsAt i j (s ∷ ss) cs = elim (Bool-cases (nat_beq s j)) [
  | inl e ↦ rw e (clear_slaves-KeepsAt i j ss cs)
  | inr e ↦
      let ds = modify clear_selection s cs in
      rw e (
        trans-KeepsAt i cs ds (clear_slaves j ss ds)
          (modify-KeepsAt clear_selection s i cs clear_selection-Alike)
          (clear_slaves-KeepsAt i j ss ds))
]

release-Keeps : (i j : ℕ) (ss : List ℕ) (d : Dashboard) → Keeps i d (release j ss d)
unfolding release
release-Keeps i j [] d = refl-Keeps i d
release-Keeps i j (s ∷ ss) d = (clear_slaves-KeepsAt i j (s ∷ ss) d.targets, refl)

pub selection_stop-Keeps : (i j : ℕ) (d : Dashboard) → Keeps i d (selection_stop j d)
unfolding selection_stop
selection_stop-Keeps i j d =
    let r = release j d.selection.slaves d in
    trans-Keeps i d r (record r { targets = modify clear_selection j r.targets })
      (release-Keeps i j d.selection.slaves d)
      (modify-KeepsAt clear_selection j i r.targets clear_selection-Alike, refl)

be_slave-Keeps : (i k : ℕ) (d : Dashboard) → Keeps i d (be_slave k d)
unfolding be_slave
be_slave-Keeps i k d = elim (Bool-cases (is_at k d.selection.state)) [
  | inl e ↦ rw (e, be_slave) (refl-Keeps i d)
  | inr e ↦ rw (e, be_slave) ((λ c h. (c, (h, (refl, refl)))), refl)
]

add_slave-Keeps : (e : Env) (i k : ℕ) (d : Dashboard) → Keeps i d (add_slave e i k d)
unfolding add_slave
add_slave-Keeps e i k d = elim (Bool-cases (nat_beq k i)) [
  | inl a ↦ rw (a, add_slave) (refl-Keeps i d)
  | inr a ↦ elim (Option-cases (get_elem? d.targets k)) [
    | inl n ↦ rw (a, n, add_slave) (refl-Keeps i d)
    | inr (c, n) ↦
        let u = (eligible e c).1 in
        let m : Dashboard = record d { targets = set d.targets k u } in
        let s : Keeps i d m = (set-KeepsAt k i u d.targets (nat_beq-false k i a), refl) in
        elim (Bool-cases (eligible e c).0) [
          | inl b ↦
              rw (a, n, b, add_slave) (trans-Keeps i d m (be_slave k m) s (be_slave-Keeps i k m))
          | inr b ↦ rw (a, n, b, add_slave) s
        ]
  ]
]

add_slaves-Keeps : (e : Env) (i n : ℕ) (d : Dashboard) → Keeps i d (add_slaves e i n d)
unfolding add_slaves
add_slaves-Keeps e i zero d = refl-Keeps i d
add_slaves-Keeps e i (suc k) d =
    trans-Keeps i d (add_slave e i k d) (add_slaves e i k (add_slave e i k d))
      (add_slave-Keeps e i k d) (add_slaves-Keeps e i k (add_slave e i k d))

mark-Keeps : (i : ℕ) (d : Dashboard) → Keeps i d (mark i d)
unfolding mark
mark-Keeps i d =
    (modify-KeepsAt (λ c. record c { selected = true }) i i d.targets (λ c. (refl, refl)), refl)

be_master-Keeps : (e : Env) (i : ℕ) (d : Dashboard) → Keeps i d (be_master e i d)
unfolding be_master
be_master-Keeps e i d = elim (Bool-cases (is_at i d.selection.state)) [
  | inl a ↦ rw (a, be_master) (refl-Keeps i d)
  | inr a ↦
      let go : (s : Dashboard)
          → Keeps i d s
          → Keeps i d (add_slaves e i (length (mark i s).targets) (mark i s)) =
        λ s h.
          trans-Keeps i d (mark i s) (add_slaves e i (length (mark i s).targets) (mark i s))
            (trans-Keeps i d s (mark i s) h (mark-Keeps i s))
            (add_slaves-Keeps e i (length (mark i s).targets) (mark i s)) in
      elim (Bool-cases (is_some d.selection.state)) [
        | inl b ↦ rw (a, b, be_master) (go (selection_stop i d) (selection_stop-Keeps i i d))
        | inr b ↦ rw (a, b, be_master) (go d (refl-Keeps i d))
      ]
]

set_slaves-KeepsAt :
    (i : ℕ) (t : ℤ) (ss : List ℕ) (cs : List Chart) → KeepsAt i cs (set_slaves t ss cs)
unfolding set_slaves
set_slaves-KeepsAt i t [] cs = λ c h. (c, (h, (refl, refl)))
set_slaves-KeepsAt i t (s ∷ ss) cs =
    let ds = modify (set_selection t) s cs in
    trans-KeepsAt i cs ds (set_slaves t ss ds)
      (modify-KeepsAt (set_selection t) s i cs (set_selection-Alike t))
      (set_slaves-KeepsAt i t ss ds)

pub selection_sync-Keeps :
    (e : Env) (t : ℤ) (i : ℕ) (d : Dashboard) → Keeps i d (selection_sync e t i d)
unfolding selection_sync
selection_sync-Keeps e t i d = elim (Bool-cases (selection_ability e d)) [
  | inr a ↦ simp (a, selection_sync) (refl-Keeps i d)
  | inl a ↦
      let m = be_master e i d in
      let k = be_master-Keeps e i d in
      elim (Bool-cases (selection_ability e m)) [
        | inr b ↦ simp (a, b, selection_sync) k
        | inl b ↦
            simp (a, b, selection_sync)
              (
                trans-KeepsAt i d.targets m.targets _ k.0
                    (set_slaves-KeepsAt i t m.selection.slaves m.targets),
                k.1,
              )
      ]
]
