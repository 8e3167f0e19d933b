-- ===== src/Sync/Selection/Stop.antt =====
-- `globalSelectionSyncStop` (portal/dashboard.js), chart by chart.
use mathlib.Core.Option
use lmiced.Prelude.{
  ℕ, ◌≡◌, refl, ◌∙◌, ap, Bool, true, false, not, ◌||◌, ◌&&◌, nat_beq-false, subst, List, [], ◌∷◌,
  Option, none, some, nat_beq, nat_beq_iff, get_elem?, modify, get_elem?-modify_self,
  get_elem?-modify_ne, if◌then◌else◌, arith, Bool-cases, inl, inr,
}
use lmiced.Chart.{Chart}
use lmiced.Chart.Fetch.{clear_selection}
use lmiced.Sync.{Dashboard}
use lmiced.Sync.Selection.{clear_slaves, release, selection_stop}

abbrev pub elem : ℕ → List ℕ → Bool
elem k [] = false
elem k (s ∷ ss) = nat_beq s k || elem k ss

-- Clearing twice is clearing once.
clear_selection_idem : (c : Chart) → clear_selection (clear_selection c) ≡ clear_selection c
unfolding clear_selection
clear_selection_idem c = ground arith

-- A chart after the call: cleared, or as it was.
abbrev pub cleared_if : Bool → Option Chart → Option Chart
cleared_if true o = Option.map clear_selection o
cleared_if false o = o

cleared_if-cleared_if :
    (a b : Bool) (o : Option Chart) → cleared_if a (cleared_if b o) ≡ cleared_if (b || a) o
cleared_if-cleared_if true true none = refl
cleared_if-cleared_if true true (some c) = ap some (clear_selection_idem c)
cleared_if-cleared_if true false o = refl
cleared_if-cleared_if false true o = refl
cleared_if-cleared_if false false o = refl

get_elem?-modify :
    (s j : ℕ) (cs : List Chart)
    → get_elem? (modify clear_selection s cs) j ≡ cleared_if (nat_beq s j) (get_elem? cs j)
get_elem?-modify s j cs = elim (Bool-cases (nat_beq s j)) [
  | inl e ↦ rw e (
      subst (λ k. get_elem? (modify clear_selection s cs) k ≡ cleared_if true (get_elem? cs k))
        ((nat_beq_iff s j).0 e) (get_elem?-modify_self clear_selection s cs))
  | inr e ↦ rw e (get_elem?-modify_ne clear_selection s j cs (nat_beq-false s j e))
]

-- One round of the loop over the slaves.
get_elem?-round :
    (i s j : ℕ) (cs : List Chart)
    → get_elem? (if nat_beq s i then cs else modify clear_selection s cs) j
      ≡ cleared_if (not (nat_beq s i) && nat_beq s j) (get_elem? cs j)
get_elem?-round i s j cs = elim (Bool-cases (nat_beq s i)) [
  | inl e ↦ rw e refl
  | inr e ↦ rw e (get_elem?-modify s j cs)
]

which_cleared :
    (i s j : ℕ) (later : Bool)
    → ((not (nat_beq s i) && nat_beq s j) || (not (nat_beq i j) && later))
      ≡ (not (nat_beq i j) && (nat_beq s j || later))
which_cleared i s j later = ground arith

get_elem?-clear_slaves :
    (i : ℕ) (ss : List ℕ) (cs : List Chart) (j : ℕ)
    → get_elem? (clear_slaves i ss cs) j
      ≡ cleared_if (not (nat_beq i j) && elem j ss) (get_elem? cs j)
unfolding clear_slaves
get_elem?-clear_slaves i [] cs j = ground arith
get_elem?-clear_slaves i (s ∷ ss) cs j =
    let cs' = if nat_beq s i then cs else modify clear_selection s cs in
    get_elem?-clear_slaves i ss cs' j
    ∙ ap (cleared_if (not (nat_beq i j) && elem j ss)) (get_elem?-round i s j cs)
    ∙ cleared_if-cleared_if (not (nat_beq i j) && elem j ss) (not (nat_beq s i) && nat_beq s j)
        (get_elem? cs j)
    ∙ ap (λ b. cleared_if b (get_elem? cs j)) (which_cleared i s j (elem j ss))

get_elem?-release :
    (i : ℕ) (ss : List ℕ) (d : Dashboard) (j : ℕ)
    → get_elem? (release i ss d).targets j
      ≡ cleared_if (not (nat_beq i j) && elem j ss) (get_elem? d.targets j)
unfolding release
get_elem?-release i [] d j = ground arith
get_elem?-release i (s ∷ ss) d j = get_elem?-clear_slaves i (s ∷ ss) d.targets j

either_cleared :
    (i j : ℕ) (slave : Bool)
    → ((not (nat_beq i j) && slave) || nat_beq i j) ≡ (nat_beq i j || slave)
either_cleared i j slave = ground arith

-- When the chart `i` stops the synchronised selection, exactly that chart and the slaves have their
-- selection cleared, each once; every other chart stays as it is, a master other than `i` among them.
pub get_elem?-selection_stop :
    (i : ℕ) (d : Dashboard) (j : ℕ)
    → get_elem? (selection_stop i d).targets j
      ≡ cleared_if (nat_beq i j || elem j d.selection.slaves) (get_elem? d.targets j)
unfolding selection_stop
get_elem?-selection_stop i d j =
    let ss = d.selection.slaves in
    get_elem?-modify i j (release i ss d).targets
    ∙ ap (cleared_if (nat_beq i j)) (get_elem?-release i ss d j)
    ∙ cleared_if-cleared_if (nat_beq i j) (not (nat_beq i j) && elem j ss) (get_elem? d.targets j)
    ∙ ap (λ b. cleared_if b (get_elem? d.targets j)) (either_cleared i j (elem j ss))
