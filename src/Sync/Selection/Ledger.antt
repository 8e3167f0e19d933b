-- ===== src/Sync/Selection/Ledger.antt =====
-- The requests and their statistics under the `globalSelectionSync` methods (portal/dashboard.js).
use lmiced.Prelude.{
  ℕ, ◌≡◌, refl, ◌∙◌, ap, List, [], ◌∷◌, Option, some, is_some, nat_beq, length, get_elem?, set,
  Bool-cases, Option-cases, inl, inr, if◌then◌else◌, zero, suc,
}
use lmiced.Prelude.Int.{ℤ}
use lmiced.Chart.{Env}
use lmiced.Sync.{Dashboard}
use lmiced.Sync.Ledger.{ledger}
use lmiced.Sync.Selection.{
  selection_delay, selection_sync, selection_stop, global_stop, release, add_slave, add_slaves,
  be_slave, mark, be_master, selection_ability, is_at, eligible,
}

pub selection_delay-ledger :
    (e : Env) (ms : Option ℕ) (d : Dashboard) → ledger (selection_delay e ms d) ≡ ledger d
unfolding selection_delay
selection_delay-ledger e ms d = elim (Bool-cases e.sync_selection) [
  | inl b ↦ rw (b, selection_delay) refl
  | inr b ↦ rw (b, selection_delay) refl
]

release-ledger : (i : ℕ) (ss : List ℕ) (d : Dashboard) → ledger (release i ss d) ≡ ledger d
unfolding release
release-ledger i [] d = refl
release-ledger i (s ∷ ss) d = refl

pub selection_stop-ledger : (i : ℕ) (d : Dashboard) → ledger (selection_stop i d) ≡ ledger d
unfolding selection_stop
selection_stop-ledger i d = release-ledger i d.selection.slaves d

global_stop-master :
    (i : ℕ) (d : Dashboard) → d.selection.state ≡ some i → global_stop d ≡ selection_stop i d
unfolding global_stop
global_stop-master i d h = rw h refl

pub global_stop-ledger : (d : Dashboard) → ledger (global_stop d) ≡ ledger d
unfolding global_stop
global_stop-ledger d = elim (Option-cases d.selection.state) [
  | inl h ↦ rw h refl
  | inr (i, h) ↦ ap ledger (global_stop-master i d h) ∙ selection_stop-ledger i d
]

be_slave-ledger : (k : ℕ) (d : Dashboard) → ledger (be_slave k d) ≡ ledger d
unfolding be_slave
be_slave-ledger k d = elim (Bool-cases (is_at k d.selection.state)) [
  | inl h ↦ rw h refl
  | inr h ↦ rw h refl
]

add_slave-ledger : (e : Env) (i k : ℕ) (d : Dashboard) → ledger (add_slave e i k d) ≡ ledger d
unfolding add_slave
add_slave-ledger e i k d = elim (Bool-cases (nat_beq k i)) [
  | inl t ↦ rw t refl
  | inr t ↦ rw t (elim (Option-cases (get_elem? d.targets k)) [
    | inl g ↦ rw g refl
    | inr (c, g) ↦ rw g (elim (Bool-cases (eligible e c).0) [
      | inl o ↦ rw o (be_slave-ledger k (record d { targets = set d.targets k (eligible e c).1 }))
      | inr o ↦ rw o refl
    ])
  ])
]

add_slaves-ledger : (e : Env) (i k : ℕ) (d : Dashboard) → ledger (add_slaves e i k d) ≡ ledger d
unfolding add_slaves
add_slaves-ledger e i zero d = refl
add_slaves-ledger e i (suc k) d =
    add_slaves-ledger e i k (add_slave e i k d) ∙ add_slave-ledger e i k d

mark-ledger : (i : ℕ) (d : Dashboard) → ledger (mark i d) ≡ ledger d
unfolding mark
mark-ledger i d = refl

be_master-ledger : (e : Env) (i : ℕ) (d : Dashboard) → ledger (be_master e i d) ≡ ledger d
unfolding be_master
be_master-ledger e i d = elim (Bool-cases (is_at i d.selection.state)) [
  | inl a ↦ rw a refl
  | inr a ↦ rw a (
      let s = (if is_some d.selection.state then selection_stop i d else d) in
      add_slaves-ledger e i (length (mark i s).targets) (mark i s)
      ∙ mark-ledger i s
      ∙ elim (Bool-cases (is_some d.selection.state)) [
        | inl o ↦ rw o (selection_stop-ledger i d)
        | inr o ↦ rw o refl
      ])
]

pub selection_sync-ledger :
    (e : Env) (t : ℤ) (i : ℕ) (d : Dashboard) → ledger (selection_sync e t i d) ≡ ledger d
unfolding selection_sync
selection_sync-ledger e t i d = elim (Bool-cases (selection_ability e d)) [
  | inr n ↦ rw n refl
  | inl y ↦ rw y (elim (Bool-cases (selection_ability e (be_master e i d))) [
    | inr n ↦ rw n (be_master-ledger e i d)
    | inl k ↦ rw k (be_master-ledger e i d)
  ])
]
