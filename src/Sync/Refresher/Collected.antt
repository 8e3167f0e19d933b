-- ===== src/Sync/Refresher/Collected.antt =====
-- The loop of `chartRefresher` over the charts of the page (portal/dashboard.js).
use lmiced.Prelude.{
  ℕ, zero, suc, ◌<◌, ◌≡◌, refl, subst, ◌⊎◌, ◌∙◌, sym, ap, ◌≢◌, Bool, true, false, not, ◌&&◌, ◌||◌,
  List, [], ◌∷◌, Option, none, some, nat_beq, nat_beq_iff, nat_beq-false, ltb, length, get_elem?,
  get_elem?-set_ne, arith, Bool-cases, Option-cases, inl, inr,
}
use lmiced.Chart.{Chart, Env}
use lmiced.Chart.Life.{is_visible}
use lmiced.Chart.Fetch.{show_error}
use lmiced.Sync.{Dashboard}
use lmiced.Sync.Selection.Stop.{elem}
use lmiced.Sync.Refresher.{Visit, skip, stop, take, visit, push, collect}

-- The chart is there, is visible, and is not being refreshed.
abbrev pub wants : Env → Option Chart → Bool
wants e none = false
wants e (some c) = let (shown, u) = is_visible false e c in shown && not u.running

-- Charts other than the one visited stay as they are.
visit-frame :
    (e : Env) (k j : ℕ) (d : Dashboard)
    → k ≢ j
    → get_elem? (visit e k d).1.targets j ≡ get_elem? d.targets j
unfolding visit
visit-frame e k j d ne = elim (Option-cases (get_elem? d.targets k)) [
  | inl n ↦ rw (n, visit) refl
  | inr (c, n) ↦
      let (shown, u) = is_visible false e c in
      let at = get_elem?-set_ne d.targets u ne in
      rw (n, visit)
        (elim (Bool-cases (not shown || u.running)) [
          | inl a ↦ rw a at
          | inr a ↦ rw a (elim (Bool-cases u.library.initialized) [
            | inl b ↦ rw b at
            | inr b ↦ rw b (elim (Bool-cases u.library.enabled) [
              | inl l ↦ rw l at
              | inr l ↦ rw l (get_elem?-set_ne d.targets (show_error e u) ne)
            ])
          ])
        ])
]

abbrev taken : Visit → Bool
taken skip = false
taken stop = true
taken take = true

visit-wants :
    (e : Env) (k : ℕ) (d : Dashboard) → taken (visit e k d).0 ≡ wants e (get_elem? d.targets k)
unfolding visit
visit-wants e k d = elim (Option-cases (get_elem? d.targets k)) [
  | inl n ↦ rw (n, visit) refl
  | inr (c, n) ↦ let (shown, u) = is_visible false e c in rw (n, visit) (ground arith)
]

elem-push : (up : Bool) (k j : ℕ) (ks : List ℕ) → elem j (push up k ks) ≡ (nat_beq k j || elem j ks)
elem-push true k j ks = refl
elem-push false k j [] = refl
elem-push false k j (x ∷ ks) = ground (arith, elem-push false k j ks)

-- A loop over the charts below `k` has added exactly those of them that want a refresh.
abbrev Adds : Env → ℕ → Dashboard → List ℕ → Option (List ℕ) → Type 0
Adds e k d acc none = Unit {0}
Adds e k d acc (some ks) =
    (j : ℕ) → elem j ks ≡ (elem j acc || (ltb j k && wants e (get_elem? d.targets j)))

below_suc :
    (j k : ℕ) (a w x : Bool)
    → (k ≢ j → x ≡ w)
    → ((nat_beq k j && w) || (a || (ltb j k && x))) ≡ (a || (ltb j (suc k) && w))
below_suc j k a w x h = elim (Bool-cases (nat_beq k j)) [
  | inl e ↦ ground (arith, e)
  | inr e ↦ ground (arith, h (nat_beq-false k j e))
]

never : (b : Bool) → (b && false) ≡ false
never true = refl
never false = refl

always_so : (b : Bool) → (b && true) ≡ b
always_so true = refl
always_so false = refl

regroup : (b a c : Bool) → ((b || a) || c) ≡ (b || (a || c))
regroup true a c = refl
regroup false a c = refl

Adds-next :
    (e : Env) (k : ℕ) (d d' : Dashboard) (acc acc' : List ℕ) (r : Option (List ℕ))
    → ((j : ℕ) → elem j acc' ≡ ((nat_beq k j && wants e (get_elem? d.targets j)) || elem j acc))
    → ((j : ℕ) → k ≢ j → wants e (get_elem? d'.targets j) ≡ wants e (get_elem? d.targets j))
    → Adds e k d' acc' r
    → Adds e (suc k) d acc r
Adds-next e k d d' acc acc' none p q a = tt
Adds-next e k d d' acc acc' (some ks) p q a = λ j.
    let w = wants e (get_elem? d.targets j) in
    let x = wants e (get_elem? d'.targets j) in
    a j
    ∙ ap (λ b. b || (ltb j k && x)) (p j)
    ∙ regroup (nat_beq k j && w) (elem j acc) (ltb j k && x)
    ∙ below_suc j k (elem j acc) w x (q j)

Visit-cases : (v : Visit) → (v ≡ skip) ⊎ (v ≡ stop) ⊎ (v ≡ take)
Visit-cases skip = inl refl
Visit-cases stop = inr (inl refl)
Visit-cases take = inr (inr refl)

-- At the chart `k` itself the visit decides.
at_visited :
    (e : Env) (k j : ℕ) (d : Dashboard) (b : Bool)
    → wants e (get_elem? d.targets k) ≡ b
    → (nat_beq k j && wants e (get_elem? d.targets j)) ≡ (nat_beq k j && b)
at_visited e k j d b h = elim (Bool-cases (nat_beq k j)) [
  | inr n ↦ rw n refl
  | inl n ↦ rw n (subst (λ i. wants e (get_elem? d.targets i) ≡ b) ((nat_beq_iff k j).0 n) h)
]

skipped :
    (e : Env) (k j : ℕ) (d : Dashboard) (acc : List ℕ)
    → wants e (get_elem? d.targets k) ≡ false
    → elem j acc ≡ ((nat_beq k j && wants e (get_elem? d.targets j)) || elem j acc)
skipped e k j d acc h =
    let a = at_visited e k j d false h in sym (ap (λ b. b || elem j acc) (a ∙ never (nat_beq k j)))

pushed :
    (e : Env) (up : Bool) (k j : ℕ) (d : Dashboard) (acc : List ℕ)
    → wants e (get_elem? d.targets k) ≡ true
    → elem j (push up k acc) ≡ ((nat_beq k j && wants e (get_elem? d.targets j)) || elem j acc)
pushed e up k j d acc h =
    let a = at_visited e k j d true h in
    elem-push up k j acc ∙ sym (ap (λ b. b || elem j acc) (a ∙ always_so (nat_beq k j)))

collect-skip :
    (e : Env) (up : Bool) (k : ℕ) (d : Dashboard) (acc : List ℕ)
    → (visit e k d).0 ≡ skip
    → collect e up (suc k) d acc ≡ collect e up k (visit e k d).1 acc
unfolding collect
collect-skip e up k d acc v = rw (v, collect) refl

collect-stop :
    (e : Env) (up : Bool) (k : ℕ) (d : Dashboard) (acc : List ℕ)
    → (visit e k d).0 ≡ stop
    → (collect e up (suc k) d acc).0 ≡ none
unfolding collect
collect-stop e up k d acc v = rw (v, collect) refl

collect-take :
    (e : Env) (up : Bool) (k : ℕ) (d : Dashboard) (acc : List ℕ)
    → (visit e k d).0 ≡ take
    → collect e up (suc k) d acc ≡ collect e up k (visit e k d).1 (push up k acc)
unfolding collect
collect-take e up k d acc v = rw (v, collect) refl

collect-Adds :
    (e : Env) (up : Bool) (k : ℕ) (d : Dashboard) (acc : List ℕ)
    → Adds e k d acc (collect e up k d acc).0
unfolding collect
collect-Adds e up zero d acc = λ j. ground arith
collect-Adds e up (suc k) d acc =
    let d' = (visit e k d).1 in
    let frame : (j : ℕ)
        → k ≢ j
        → wants e (get_elem? d'.targets j) ≡ wants e (get_elem? d.targets j) =
      λ j ne. ap (wants e) (visit-frame e k j d ne) in
    elim (Visit-cases (visit e k d).0) [
      | inl v ↦
          subst (λ r. Adds e (suc k) d acc r.0) (sym (collect-skip e up k d acc v))
            (Adds-next e k d d' acc acc _
              (λ j. skipped e k j d acc (sym (visit-wants e k d) ∙ ap taken v)) frame
              (collect-Adds e up k d' acc))
      | inr (inl v) ↦ subst (Adds e (suc k) d acc) (sym (collect-stop e up k d acc v)) tt
      | inr (inr v) ↦
          subst (λ r. Adds e (suc k) d acc r.0) (sym (collect-take e up k d acc v))
            (Adds-next e k d d' acc (push up k acc) _
              (λ j. pushed e up k j d acc (sym (visit-wants e k d) ∙ ap taken v)) frame
              (collect-Adds e up k d' (push up k acc)))
    ]

-- Unless the loop returns to initialise a library, the charts of the page that it collects for a refresh
-- are exactly those that are visible and are not being refreshed, as they were before the loop,
-- whichever way the page was scrolled.
pub collect-elem :
    (e : Env) (up : Bool) (d : Dashboard) (parallel : List ℕ) (j : ℕ)
    → (collect e up (length d.targets) d []).0 ≡ some parallel
    → j < length d.targets
    → elem j parallel ≡ wants e (get_elem? d.targets j)
collect-elem e up d parallel j h l =
    let n = length d.targets in
    let a = subst (Adds e n d []) h (collect-Adds e up n d []) j in
    let b : ltb j n ≡ true = ground arith in a ∙ ap (λ x. x && wants e (get_elem? d.targets j)) b
