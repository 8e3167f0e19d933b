-- ===== src/Sync/Selection/Loop.antt =====
-- The loop of `globalSelectionSyncBeMaster` over the charts of the page (portal/dashboard.js), and
-- what holds in each of its rounds.
use lmiced.Prelude.{
  ℕ, zero, suc, ◌<◌, ◌≤◌, ◌≡◌, ◌∙◌, ◌≢◌, List, [], ◌∷◌, ◌++◌, some, nat_beq, nat_beq-false,
  get_elem?, set, length-set, length, All, All-append, arith, Bool-cases, Option-cases, inl, inr,
}
use lmiced.Chart.{Chart, Env}
use lmiced.Sync.{Dashboard}
use lmiced.Sync.Selection.{is_at, eligible, be_slave, add_slave, add_slaves}

-- Each slave comes later in the page than the next one, and all lie below `n`.
abbrev pub IsDescending : ℕ → List ℕ → Type 0
IsDescending n [] = Unit
IsDescending n (s ∷ ss) = (s < n) × IsDescending s ss

-- The loop of `globalSelectionSyncBeMaster`, with the charts from `k` on done.
pub record Loop (n i k : ℕ) (d : Dashboard) : Type 0 where
  pub mastered : d.selection.state ≡ some i
  pub same_length : length d.targets ≡ n
  pub ordered : IsDescending n d.selection.slaves
  pub done : All (λ s. k ≤ s) d.selection.slaves
  pub differ : All (λ s. s ≢ i) d.selection.slaves

IsDescending-append :
    (n k : ℕ) (ss : List ℕ)
    → IsDescending n ss
    → All (λ s. suc k ≤ s) ss
    → k < n
    → IsDescending n (ss ++ k ∷ [])
IsDescending-append n k [] o a h = (h, tt)
IsDescending-append n k (s ∷ ss) (l, o) (b, a) h = (l, IsDescending-append s k ss o a b)

All-weaken : (k : ℕ) (ss : List ℕ) → All (λ s. suc k ≤ s) ss → All (λ s. k ≤ s) ss
All-weaken k [] a = tt
All-weaken k (s ∷ ss) (h, a) = (omega arith, All-weaken k ss a)

Loop-next : (n i k : ℕ) (d : Dashboard) → Loop n i (suc k) d → Loop n i k d
Loop-next n i k d l = record {
  mastered = l.mastered;
  same_length = l.same_length;
  ordered = l.ordered;
  done = All-weaken k d.selection.slaves l.done;
  differ = l.differ;
}

Loop-set :
    (n i k : ℕ) (u : Chart) (d : Dashboard)
    → Loop n i (suc k) d
    → Loop n i (suc k) (record d { targets = set d.targets k u })
Loop-set n i k u d l = record {
  mastered = l.mastered;
  same_length = length-set d.targets k u ∙ l.same_length;
  ordered = l.ordered;
  done = l.done;
  differ = l.differ;
}

be_slave-Loop :
    (n i k : ℕ) (d : Dashboard) → k ≢ i → k < n → Loop n i (suc k) d → Loop n i k (be_slave k d)
unfolding be_slave
be_slave-Loop n i k d ne h l = elim (Bool-cases (is_at k d.selection.state)) [
  | inl e ↦ rw e (Loop-next n i k d l)
  | inr e ↦ rw e (record {
    mastered = l.mastered;
    same_length = l.same_length;
    ordered = IsDescending-append n k d.selection.slaves l.ordered l.done h;
    done =
        All-append (λ s. k ≤ s) d.selection.slaves (k ∷ []) (All-weaken k d.selection.slaves l.done)
          (omega arith, tt);
    differ = All-append (λ s. s ≢ i) d.selection.slaves (k ∷ []) l.differ (ne, tt);
  })
]

add_slave-Loop :
    (e : Env) (n i k : ℕ) (d : Dashboard)
    → k < n
    → Loop n i (suc k) d
    → Loop n i k (add_slave e i k d)
unfolding add_slave
add_slave-Loop e n i k d h l = elim (Bool-cases (nat_beq k i)) [
  | inl t ↦ rw t (Loop-next n i k d l)
  | inr t ↦ rw t (elim (Option-cases (get_elem? d.targets k)) [
    | inl g ↦ rw g (Loop-next n i k d l)
    | inr (c, g) ↦ rw g (
        let u = (eligible e c).1 in
        let l' = Loop-set n i k u d l in
        elim (Bool-cases (eligible e c).0) [
          | inl ok ↦ rw ok (be_slave-Loop n i k _ (nat_beq-false k i t) h l')
          | inr ko ↦ rw ko (Loop-next n i k _ l')
        ])
  ])
]

pub add_slaves-Loop :
    (e : Env) (n i k : ℕ) (d : Dashboard) → k ≤ n → Loop n i k d → Loop n i 0 (add_slaves e i k d)
unfolding add_slaves
add_slaves-Loop e n i zero d h l = l
add_slaves-Loop e n i (suc k) d h l =
    add_slaves-Loop e n i k (add_slave e i k d) (omega arith) (add_slave-Loop e n i k d h l)
