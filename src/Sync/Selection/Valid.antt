-- ===== src/Sync/Selection/Valid.antt =====
-- The slaves of the synchronised selection under `globalSelectionSync` (portal/dashboard.js).
use lmiced.Prelude.{
  ℕ, ◌≡◌, refl, sym, ◌∙◌, ap, subst, ◌≢◌, true, List, [], ◌∷◌, Option, none, some, nat_beq,
  nat_beq_iff, length, modify, length-modify, All, if◌then◌else◌, arith, Bool-cases, Option-cases,
  inl, inr, is_some,
}
use lmiced.Prelude.Int.{ℤ}
use lmiced.Chart.{Chart, Env}
use lmiced.Chart.Fetch.{clear_selection, set_selection}
use lmiced.Sync.{Dashboard}
use lmiced.Sync.Selection.Loop.{IsDescending, Loop, add_slaves-Loop}
use lmiced.Sync.Selection.{
  is_at, clear_slaves, release, selection_stop, mark, be_master, set_slaves, selection_sync,
  selection_ability,
}

-- Without a master there is no slave; the master is none; every slave is a chart of the page, and
-- none is there twice.
pub record IsValid (d : Dashboard) : Type 0 where
  pub idle : d.selection.state ≡ none → d.selection.slaves ≡ []
  pub others : All (λ s. d.selection.state ≢ some s) d.selection.slaves
  pub descending : IsDescending (length d.targets) d.selection.slaves

length-clear_slaves :
    (i : ℕ) (ss : List ℕ) (cs : List Chart) → length (clear_slaves i ss cs) ≡ length cs
unfolding clear_slaves
length-clear_slaves i [] cs = refl
length-clear_slaves i (s ∷ ss) cs = elim (Bool-cases (nat_beq s i)) [
  | inl e ↦ rw e (length-clear_slaves i ss cs)
  | inr e ↦
      rw e (
        length-clear_slaves i ss (modify clear_selection s cs) ∙ length-modify clear_selection s cs)
]

length-set_slaves :
    (t : ℤ) (ss : List ℕ) (cs : List Chart) → length (set_slaves t ss cs) ≡ length cs
unfolding set_slaves
length-set_slaves t [] cs = refl
length-set_slaves t (s ∷ ss) cs =
    length-set_slaves t ss (modify (set_selection t) s cs) ∙ length-modify (set_selection t) s cs

-- After a stop there is no slave, and as many charts as before.
release-slaves :
    (i : ℕ) (ss : List ℕ) (d : Dashboard)
    → d.selection.slaves ≡ ss
    → ((release i ss d).selection.slaves ≡ [])
      × (length (release i ss d).targets ≡ length d.targets)
unfolding release
release-slaves i [] d h = (h, refl)
release-slaves i (s ∷ ss) d h = (refl, length-clear_slaves i (s ∷ ss) d.targets)

stop-slaves :
    (i : ℕ) (d : Dashboard)
    → ((selection_stop i d).selection.slaves ≡ [])
      × (length (selection_stop i d).targets ≡ length d.targets)
unfolding selection_stop
stop-slaves i d =
    let (s, l) = release-slaves i d.selection.slaves d refl in
    (s, length-modify clear_selection i (release i d.selection.slaves d).targets ∙ l)

IsValid-no_slaves : (d : Dashboard) → d.selection.slaves ≡ [] → IsValid d
IsValid-no_slaves d h = record { idle = λ _. h; others = rw h tt; descending = rw h tt }

pub selection_stop-IsValid : (i : ℕ) (d : Dashboard) → IsValid (selection_stop i d)
selection_stop-IsValid i d = IsValid-no_slaves _ (stop-slaves i d).0

-- Where a chart that is not the master becomes it: no slave is left when the loop begins.
before_loop :
    (i : ℕ) (d : Dashboard)
    → IsValid d
    → let s = (if is_some d.selection.state then selection_stop i d else d) in
      (s.selection.slaves ≡ []) × (length s.targets ≡ length d.targets)
before_loop i d v = elim (Option-cases d.selection.state) [
  | inl n ↦ simp n (v.idle n, refl)
  | inr (j, n) ↦ simp n (stop-slaves i d)
]

mark-Loop :
    (i n : ℕ) (s : Dashboard)
    → s.selection.slaves ≡ []
    → length s.targets ≡ n
    → Loop n i n (mark i s)
unfolding mark
mark-Loop i n s h l = record {
  mastered = refl;
  same_length = length-modify (λ c. record c { selected = true }) i s.targets ∙ l;
  ordered = rw h tt;
  done = rw h tt;
  differ = rw h tt;
}

differ-others :
    (i : ℕ) (d : Dashboard) (ss : List ℕ)
    → d.selection.state ≡ some i
    → All (λ s. s ≢ i) ss
    → All (λ s. d.selection.state ≢ some s) ss
differ-others i d [] h a = tt
differ-others i d (s ∷ ss) h (p, a) = ((λ q. p (cc)), differ-others i d ss h a)

Loop-IsValid : (n i : ℕ) (d : Dashboard) → Loop n i 0 d → IsValid d
Loop-IsValid n i d l = record {
  idle = λ h. cc (l.mastered);
  others = differ-others i d d.selection.slaves l.mastered l.differ;
  descending = rw l.same_length l.ordered;
}

is_at→some : (i : ℕ) (o : Option ℕ) → is_at i o ≡ true → o ≡ some i
is_at→some i none h = cc
is_at→some i (some j) h = ap some ((nat_beq_iff j i).0 h)

be_master-IsValid :
    (e : Env) (i : ℕ) (d : Dashboard)
    → IsValid d
    → IsValid (be_master e i d) × ((be_master e i d).selection.state ≡ some i)
unfolding be_master
be_master-IsValid e i d v = elim (Bool-cases (is_at i d.selection.state)) [
  | inl a ↦ rw a (v, is_at→some i d.selection.state a)
  | inr a ↦ rw a (
      let s = (if is_some d.selection.state then selection_stop i d else d) in
      let (h, l) = before_loop i d v in
      let n = length (mark i s).targets in
      let m = mark-Loop i (length s.targets) s h refl in
      let m' : Loop n i n (mark i s) = subst (λ k. Loop k i k (mark i s)) (sym m.same_length) m in
      let r = add_slaves-Loop e n i n (mark i s) (omega arith) m' in
      (Loop-IsValid n i _ r, r.mastered))
]

-- Every call of `globalSelectionSync`, from any chart at any time, keeps the invariant of the slaves.
-- If the synchronisation is allowed, the calling chart is the master afterwards.
pub selection_sync-IsValid :
    (e : Env) (t : ℤ) (i : ℕ) (d : Dashboard)
    → IsValid d
    → IsValid (selection_sync e t i d)
      × (selection_ability e d ≡ true → (selection_sync e t i d).selection.state ≡ some i)
unfolding selection_sync
selection_sync-IsValid e t i d v = elim (Bool-cases (selection_ability e d)) [
  | inr n ↦ rw n (v, λ h. cc)
  | inl y ↦ rw y (
      let m = be_master e i d in
      let (w, s) = be_master-IsValid e i d v in
      elim (Bool-cases (selection_ability e m)) [
        | inr n ↦ rw n (w, λ _. s)
        | inl k ↦ rw k (
          record {
            idle = w.idle;
            others = w.others;
            descending = rw (length-set_slaves t m.selection.slaves m.targets) w.descending;
          },
          λ _. s,
        )
      ])
]
