-- ===== src/Scripts/Loaded.antt =====
-- The page starts once, after the scripts that are loaded in order (portal/dashboard.js, `loadRequiredJs`).
use lmiced.Prelude.{
  ℕ, suc, ◌+◌, ◌≡◌, refl, ap, List, [], ◌∷◌, ◌++◌, Option, none, some, length, arith, Bool-cases,
  Option-cases, inl, inr,
}
use lmiced.Scripts.{Script, Loading, Loader, load_required_js, ends_loading, Loads, begins, ends}

-- What a request still has to do: whether the callback waits for it, and the scripts that it counts in the end
unfoldable pub holds : Option (List Script) → ℕ
holds none = 0
holds (some xs) = 1

unfoldable pub owes : Option (List Script) → ℕ
owes none = 1
owes (some xs) = suc (length xs)

unfoldable pub holding : List Loading → ℕ
holding [] = 0
holding (k ∷ ks) = holds k.rest + holding ks

unfoldable pub owing : List Loading → ℕ
owing [] = 0
owing (k ∷ ks) = owes k.rest + owing ks

holding-split :
    (ks js : List Loading) (k : Loading)
    → holding (ks ++ k ∷ js) ≡ holds k.rest + holding (ks ++ js)
unfolding holding
holding-split [] js k = refl
holding-split (i ∷ ks) js k = omega (arith, holding-split ks js k)

owing-split :
    (ks js : List Loading) (k : Loading) → owing (ks ++ k ∷ js) ≡ owes k.rest + owing (ks ++ js)
unfolding owing
owing-split [] js k = refl
owing-split (i ∷ ks) js k = omega (arith, owing-split ks js k)

load-counts :
    (index : ℕ) (xs : List Script) (s : Loader)
    → let t = load_required_js index xs s in
      (t.called + holding t.under_way ≡ suc (s.called + holding s.under_way))
      × (t.loaded + owing t.under_way ≡ s.loaded + owing s.under_way + length xs)
unfolding load_required_js holding owing holds owes
load-counts index [] s = (omega arith, omega arith)
load-counts index (x ∷ xs) s = elim (Bool-cases x.already_loaded) [
  | inl e ↦
      let (a, b) = load-counts (suc index) xs (record s { loaded = suc s.loaded }) in
      rw (e, load_required_js) (a, omega (arith, b))
  | inr e ↦ elim (Bool-cases x.in_order) [
    | inl f ↦ rw (e, f, load_required_js) (omega arith, omega arith)
    | inr f ↦
        let (a, b) = load-counts (suc index) xs (record s {
          requested = s.requested ++ index ∷ [];
          under_way = record { index = index; rest = none } ∷ s.under_way;
        }) in
        rw (e, f, load_required_js) (omega (arith, a), omega (arith, b))
  ]
]

ends-counts :
    (k : Loading) (s : Loader)
    → let t = ends_loading k s in
      (t.called + holding t.under_way ≡ holds k.rest + (s.called + holding s.under_way))
      × (t.loaded + owing t.under_way ≡ s.loaded + (owes k.rest + owing s.under_way))
unfolding ends_loading holds owes
ends-counts k s = elim (Option-cases k.rest) [
  | inl n ↦ rw (n, ends_loading) (omega arith, omega arith)
  | inr (xs, n) ↦
      let (a, b) = load-counts (suc k.index) xs (record s { loaded = suc s.loaded }) in
      rw (n, ends_loading) (omega (arith, a), omega (arith, b))
]

-- In whatever order the requests of the required scripts end, well or not, the callback is called exactly once or one
-- request that loads in order is under way, and not both; and the scripts that are counted as loaded with those
-- that the requests under way still count are all of them.
pub Loads-counts :
    (scripts : List Script) (s : Loader)
    → Loads scripts s
    → (s.called + holding s.under_way ≡ 1) × (s.loaded + owing s.under_way ≡ length scripts)
unfolding holding owing
Loads-counts scripts s begins =
    let (a, b) =
      load-counts 0 scripts (record { loaded = 0; requested = []; under_way = []; called = 0 }) in
    (omega (arith, a), omega (arith, b))
Loads-counts scripts s (ends {s = t} k ks js h e) =
    let (a, b) = Loads-counts scripts t h in
    let (c, d) = ends-counts k (record t { under_way = ks ++ js }) in
    (
      omega (arith, a, c, ap holding e, holding-split ks js k),
      omega (arith, b, d, ap owing e, owing-split ks js k),
    )

-- When the last request has ended, the callback has been called once and every script is counted.
pub Loads-ended :
    (scripts : List Script) (s : Loader)
    → Loads scripts s
    → s.under_way ≡ []
    → (s.called ≡ 1) × (s.loaded ≡ length scripts)
unfolding holding owing
Loads-ended scripts s h n =
    let (a, b) = Loads-counts scripts s h in
    (omega (arith, a, ap holding n), omega (arith, b, ap owing n))
