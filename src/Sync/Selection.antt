-- ===== src/Sync/Selection.antt =====
-- The selection that follows the mouse over all charts (portal/dashboard.js): the methods
-- `globalSelectionSync…` of a chart, and `NETDATA.globalSelectionSync.stop` and `.delay`.
pub mod Ledger
pub mod Stop
pub mod Keeps
pub mod Loop
pub mod Valid
use lmiced.Prelude.{
  ℕ, zero, suc, ◌+◌, Bool, true, false, not, ◌&&◌, List, [], ◌∷◌, ◌++◌, Option, none, some, is_some,
  leb, nat_beq, get_elem?, set, modify, length, if◌then◌else◌,
}
use lmiced.Prelude.Int.{ℤ, pos}
use lmiced.Chart.{Chart, Env}
use lmiced.Chart.Life.{is_visible}
use lmiced.Chart.Fetch.{clear_selection, set_selection}
use lmiced.Sync.{SelectionSync, Dashboard}

abbrev is_at : ℕ → Option ℕ → Bool
is_at i none = false
is_at i (some j) = nat_beq j i

-- `globalSelectionSyncDelay(ms)`: `none` for no argument
unfoldable pub selection_delay : Env → Option ℕ → Dashboard → Dashboard
selection_delay e ms d = if not e.sync_selection then d else record d {
  selection = record (d.selection) {
    dont_sync_before = e.now + (elim ms [ none ↦ e.sync_selection_delay | some k ↦ k ]);
  };
}

-- `NETDATA.globalSelectionSync.delay()`
unfoldable pub global_delay : Env → Dashboard → Dashboard
unfolding selection_delay
global_delay e d = elim d.selection.state [ none ↦ d | some i ↦ selection_delay e none d ]

-- `globalSelectionSyncAbility()`
pub selection_ability : Env → Dashboard → Bool
selection_ability e d =
    if not e.sync_selection then false else leb d.selection.dont_sync_before e.now

-- The loop over the slaves in `globalSelectionSyncStop`, called by the chart `i`.
clear_slaves : ℕ → List ℕ → List Chart → List Chart
clear_slaves i [] cs = cs
clear_slaves i (s ∷ ss) cs =
    clear_slaves i ss (if nat_beq s i then cs else modify clear_selection s cs)

-- `if(NETDATA.globalSelectionSync.slaves.length) { … }`
release : ℕ → List ℕ → Dashboard → Dashboard
release i [] d = d
release i (s ∷ ss) d = record d {
  targets = clear_slaves i (s ∷ ss) d.targets;
  selection = record (d.selection) { last_t = pos 0; slaves = []; state = none };
}

-- `globalSelectionSyncStop()` of the chart `i`
pub selection_stop : ℕ → Dashboard → Dashboard
unfolding release clear_slaves
selection_stop i d =
    let r = release i d.selection.slaves d in
    record r { targets = modify clear_selection i r.targets }

-- `NETDATA.globalSelectionSync.stop()`
pub global_stop : Dashboard → Dashboard
unfolding selection_stop
global_stop d = elim d.selection.state [ none ↦ d | some i ↦ selection_stop i d ]

-- `globalSelectionSyncIsEligible()`: the visibility is checked only if the first conditions hold.
eligible : Env → Chart → Bool × Chart
eligible e c =
    if c.enabled && is_some c.library.set_selection
    then (let (shown, d) = is_visible false e c in (shown && d.chart_created, d))
    else (false, c)

-- `globalSelectionSyncBeSlave()`
be_slave : ℕ → Dashboard → Dashboard
be_slave k d =
    if is_at k d.selection.state
    then d
    else record d { selection = record (d.selection) { slaves = d.selection.slaves ++ (k ∷ []) } }

-- One round of the loop over the targets in `globalSelectionSyncBeMaster`, called by the chart `i`.
add_slave : Env → ℕ → ℕ → Dashboard → Dashboard
unfolding eligible be_slave
add_slave e i k d = if nat_beq k i then d else elim (get_elem? d.targets k) [
  | none ↦ d
  | some c ↦
      let (ok, u) = eligible e c in
      let d' = record d { targets = set d.targets k u } in if ok then be_slave k d' else d'
]

-- `while(len--)`
pub add_slaves : Env → ℕ → ℕ → Dashboard → Dashboard
unfolding add_slave
add_slaves e i zero d = d
add_slaves e i (suc k) d = add_slaves e i k (add_slave e i k d)

-- "become the master"
mark : ℕ → Dashboard → Dashboard
mark i s = record s {
  targets = modify (λ c. record c { selected = true }) i s.targets;
  selection = record (s.selection) { state = some i };
}

-- `globalSelectionSyncBeMaster()`
be_master : Env → ℕ → Dashboard → Dashboard
unfolding selection_stop mark add_slaves
be_master e i d =
    if is_at i d.selection.state
    then d
    else (let s = (if is_some d.selection.state then selection_stop i d else d) in
        let m = mark i s in add_slaves e i (length m.targets) m)

set_slaves : ℤ → List ℕ → List Chart → List Chart
set_slaves t [] cs = cs
set_slaves t (s ∷ ss) cs = set_slaves t ss (modify (set_selection t) s cs)

-- `globalSelectionSync(t)` of the chart `i`; becoming the master does not change the ability.
pub selection_sync : Env → ℤ → ℕ → Dashboard → Dashboard
unfolding selection_ability be_master set_slaves
selection_sync e t i d =
    if not (selection_ability e d)
    then d
    else let m = be_master e i d in
      if not (selection_ability e m) then m else record m {
        targets = set_slaves t m.selection.slaves m.targets;
        selection = record (m.selection) { last_t = t };
      }
