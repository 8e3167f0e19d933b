-- ===== src/Sync/Round/Ends.antt =====
-- The round of `chartRefresherNoParallel` over the charts of a page (portal/dashboard.js).
use lmiced.Prelude.{
  ℕ, zero, suc, ◌+◌, ◌*◌, ◌≤◌, ◌<◌, ◌≡◌, refl, subst, ◌∙◌, ap, ◌⊎◌, inl, inr, ◌≢◌, Bool, true,
  false, List, [], ◌∷◌, ◌++◌, length, length-set, get_elem?, ltb, leb, arith, Bool-cases,
  Option-cases,
}
use lmiced.Chart.{Env}
use lmiced.Chart.Window.{Query}
use lmiced.Chart.Fetch.{Started, called_back, asked_chart, asked_library, asked_data}
use lmiced.Chart.Refresh.{auto_refresh}
use lmiced.Sync.{Dashboard, note_request}
use lmiced.Sync.Requests.{auto_refresh_at}
use lmiced.Sync.Round.{
  Idle, Next, refreshes, calls, restarts, parses, Round, refresh_no_parallel, started_at,
  timer_fires, Run, begins, fires, comes, meanwhile,
}

-- `0, 1, ...`, as many as said
abbrev pub upto : ℕ → List ℕ
upto zero = []
upto (suc n) = upto n ++ n ∷ []

note_request-targets :
    (i : ℕ) (b : Bool) (s : Started) (d : Dashboard) → (note_request i b s d).targets ≡ d.targets
note_request-targets i b called_back d = refl
note_request-targets i b asked_chart d = refl
note_request-targets i b asked_library d = refl
note_request-targets i b (asked_data q) d = refl

length-auto_refresh_at :
    (e : Env) (i : ℕ) (d : Dashboard) → length (auto_refresh_at e i d).targets ≡ length d.targets
unfolding auto_refresh_at
length-auto_refresh_at e i d = elim (Option-cases (get_elem? d.targets i)) [
  | inl n ↦ rw (n, auto_refresh_at) refl
  | inr (c, n) ↦
      let (u, s) = auto_refresh e d.pan d.stop_until i c in
      rw (n, auto_refresh_at)
        (ap length (note_request-targets i true s _) ∙ length-set d.targets i u)
]

-- Where a round stands that has refreshed `ks` in `m` turns, on a page of `n` charts.
abbrev Stands : Idle → ℕ → ℕ → List ℕ → Next → Type 0
Stands o n m ks (refreshes index delay) = (index < n) × ((ks ≡ upto index) × (m ≤ 2 * index))
Stands o n m ks (calls index) = (index < n) × ((ks ≡ upto (suc index)) × (m ≤ 2 * index + 1))
Stands o n m ks (restarts delay) = (delay ≡ o.between_loops) × ((ks ≡ upto n) × (m ≤ 2 * n))
Stands o n m ks parses = (k : ℕ) × ((k ≤ n) × ((ks ≡ upto k) × (m ≤ 2 * k)))

record IsOn (o : Idle) (n m : ℕ) (ks : List ℕ) (s : Round) : Type 0 where
  stands : Stands o n m ks s.next
  reported : s.next ≡ parses → s.updated_dom ≡ true
  charts : length s.dashboard.targets ≡ n

waiting : (d : ℕ) → restarts d ≢ parses
waiting d h = absurd (grind (arith, h))

refreshing : (k d : ℕ) → refreshes k d ≢ parses
refreshing k d h = absurd (grind (arith, h))

calling : (k : ℕ) → calls k ≢ parses
calling k h = absurd (grind (arith, h))

refresh_no_parallel-IsOn :
    (o : Idle) (n m index : ℕ) (ks : List ℕ) (s : Round)
    → length s.dashboard.targets ≡ n
    → index ≤ n
    → ks ≡ upto index
    → m ≤ 2 * index
    → IsOn o n m ks (refresh_no_parallel o index s)
unfolding refresh_no_parallel
refresh_no_parallel-IsOn o n m index ks s c l e b = elim (Bool-cases s.updated_dom) [
  | inl k ↦
      rw (k, refresh_no_parallel)
        record { stands = (index, (l, (e, b))); reported = λ _. refl; charts = c }
  | inr k ↦ elim (Bool-cases (leb (length s.dashboard.targets) index)) [
    | inl h ↦
        let eq : index ≡ n = ground (arith, h, c) in
        rw (k, h, refresh_no_parallel)
          record {
            stands = (refl, (subst (λ i. ks ≡ upto i) eq e, omega (arith, eq)));
            reported = λ q. absurd (waiting _ q);
            charts = c;
          }
    | inr h ↦
        let lt : index < n = ground (arith, h, c) in
        let turn : (d w : ℕ)
            → IsOn o n m ks
                (record s { updated_dom = false; fast_weight = w; next = refreshes index d }) =
          λ d w. record {
            stands = (lt, (e, b));
            reported = λ q. absurd (refreshing _ _ q);
            charts = c;
          } in
        rw (k, h, refresh_no_parallel)
          (elim (Bool-cases (ltb s.fast_weight o.fast_render_timeframe)) [
            | inl w ↦ rw w (turn _ _)
            | inr w ↦ rw w (turn _ _)
          ])
  ]
]

Started-seen :
    (s : Started)
    → (s ≡ called_back)
      ⊎ (s ≡ asked_chart)
      ⊎ (s ≡ asked_library)
      ⊎ ((q : Query) × (s ≡ asked_data q))
Started-seen called_back = inl refl
Started-seen asked_chart = inr (inl refl)
Started-seen asked_library = inr (inr (inl refl))
Started-seen (asked_data q) = inr (inr (inr (q, refl)))

-- The next turn after a timer: at once where `autoRefresh` calls back, else when the callback comes.
timer_fires-IsOn :
    (o : Idle) (n m : ℕ) (e : Env) (index : ℕ) (ks : List ℕ) (s : Round)
    → length s.dashboard.targets ≡ n
    → index < n
    → ks ≡ upto index
    → m ≤ 2 * index
    → IsOn o n (suc m) (ks ++ index ∷ []) (timer_fires o e index s)
unfolding timer_fires
timer_fires-IsOn o n m e index ks s c l q b =
    let d = auto_refresh_at e index s.dashboard in
    let c' : length d.targets ≡ n = length-auto_refresh_at e index s.dashboard ∙ c in
    let q' : ks ++ index ∷ [] ≡ upto (suc index) = ap (λ x. x ++ index ∷ []) q in
    let waits : IsOn o n (suc m) (ks ++ index ∷ [])
        (record s { dashboard = d; next = calls index }) =
      record {
        stands = (l, (q', omega arith));
        reported = λ r. absurd (calling index r);
        charts = c';
      } in
    elim (Started-seen (started_at e index s.dashboard)) [
      | inl h ↦
          rw (h, timer_fires)
            (refresh_no_parallel-IsOn o n (suc m) (suc index) _ (record s { dashboard = d }) c'
              (omega arith) q' (omega arith))
      | inr (inl h) ↦ rw (h, timer_fires) waits
      | inr (inr (inl h)) ↦ rw (h, timer_fires) waits
      | inr (inr (inr (query, h))) ↦ rw (h, timer_fires) waits
    ]

-- The round has ended: it has refreshed all charts, or it has left for `parseDom` after `k` of them.
abbrev pub Ended : Idle → ℕ → List ℕ → Round → Type 0
Ended o n ks s =
    (s.next ≡ restarts o.between_loops) × (ks ≡ upto n)
    ⊎ (s.next ≡ parses) × ((s.updated_dom ≡ true) × ((k : ℕ) × ((k ≤ n) × (ks ≡ upto k))))

-- The next turn is due, or the round has ended.
turn_due :
    (e : Env) (n : ℕ) {o : Idle} {r : Round} {m : ℕ} {ks : List ℕ} (s : Round) (x : Next)
    → Run o r m ks s
    → s.next ≡ x
    → (x ≡ parses → s.updated_dom ≡ true)
    → Stands o n m ks x
    → (m ≤ 2 * n) × (Ended o n ks s ⊎ ((ks' : List ℕ) × ((s' : Round) × Run o r (suc m) ks' s')))
turn_due e n s (refreshes index delay) run h d (l, (q, b)) =
    (omega arith, inr (_, (_, fires e index delay run h)))
turn_due e n s (calls index) run h d (l, (q, b)) = (omega arith, inr (_, (_, comes index run h)))
turn_due e n s (restarts delay) run h d (t, (q, b)) = (b, inl (inl (h ∙ ap restarts t, q)))
turn_due e n s parses run h d (k, (l, (q, b))) = (omega arith, inl (inr (h, (d refl, (k, (l, q))))))

Run-IsOn :
    (o : Idle) (n : ℕ) (r : Round) (m : ℕ) (ks : List ℕ) (s : Round)
    → IsOn o n 0 [] r
    → Run o r m ks s
    → IsOn o n m ks s
Run-IsOn o n r zero [] s h begins = h
Run-IsOn o n r (suc m) _ s h (fires {s = t} e index delay run a) =
    let i = Run-IsOn o n r m _ t h run in
    let (l, (q, b)) = subst (Stands o n m _) a i.stands in
    timer_fires-IsOn o n m e index _ t i.charts l q b
Run-IsOn o n r (suc m) ks s h (comes {s = t} index run a) =
    let i = Run-IsOn o n r m ks t h run in
    let (l, (q, b)) = subst (Stands o n m _) a i.stands in
    refresh_no_parallel-IsOn o n (suc m) (suc index) ks t i.charts (omega arith) q (omega arith)
Run-IsOn o n r m ks s h (meanwhile {s = t} d weight reported run a) =
    let i = Run-IsOn o n r m ks t h run in
    record { stands = i.stands; reported = λ q. rw (i.reported q) refl; charts = a ∙ i.charts }

-- On a page of `n` charts a round of the sequential refresher has at most `2 * n` turns of its timers and callbacks,
-- whatever else happens meanwhile to the charts, a report of an updated DOM included. A further
-- turn is due until the round has refreshed each chart once, in the order of the page, and waits to start the
-- main loop again, or until the DOM was reported as updated and the round has left for
-- `parseDom`, with the charts up to some place refreshed in order.
pub refresh_no_parallel_ends :
    (o : Idle) (e : Env) (n m : ℕ) (ks : List ℕ) (r s : Round)
    → length r.dashboard.targets ≡ n
    → Run o (refresh_no_parallel o 0 r) m ks s
    → (m ≤ 2 * n)
      × (Ended o n ks s
          ⊎ ((ks' : List ℕ) × ((s' : Round) × Run o (refresh_no_parallel o 0 r) (suc m) ks' s')))
refresh_no_parallel_ends o e n m ks r s c run =
    let start = refresh_no_parallel-IsOn o n 0 0 [] r c (omega arith) refl (omega arith) in
    let i = Run-IsOn o n _ m ks s start run in turn_due e n s s.next run refl i.reported i.stands
