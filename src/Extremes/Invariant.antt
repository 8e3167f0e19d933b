-- ===== src/Extremes/Invariant.antt =====
-- The cache `latest` of `commonMin` and `commonMax` under `get` (portal/dashboard.js).
use lmiced.Prelude.{
  ℕ, ◌≡◌, refl, ap, ◌∙◌, subst, ◌≢◌, ◌⊎◌, inl, inr, nat_beq_iff, true, false, Option, some, arith,
  if◌then◌else◌, Bool-cases, Option-cases,
}
use lmiced.Prelude.Dict.{Dict, lookup, insert, ◌===◌, nat_identity, lookup-insert, insert-same}
use lmiced.Extremes.{
  StrictOrder, Common, most_extreme, add_ours, beats_latest, get_known, get_in, bucket, get, empty,
}
use lmiced.Extremes.Extreme.{IsExtreme, recomputed-IsExtreme, improved-IsExtreme}

module _ {A : Type 0} (o : StrictOrder A) where
  -- Every name with a dictionary has its extreme in `latest`.
  pub record IsValid (c : Common A) : Type 0 where
    pub cached :
        (name : ℕ) (t : Dict ℕ A)
        → lookup name c.keys ≡ some t
        → (m : A) × (lookup name c.latest ≡ some m) × IsExtreme o m t

  -- The dictionary of a name is updated to `t`, with its extreme in `latest`; other names stay.
  abbrev pub Updates : ℕ → Dict ℕ A → Option A × Common A → Common A → Type 0
  Updates name t (r, c') c =
      (m : A) × (r ≡ some m)
      × IsExtreme o m t
      × IsValid c'
      × (bucket name c' ≡ t)
      × ((other : ℕ) → name ≢ other → bucket other c' ≡ bucket other c)

  -- Writing a dictionary and its extreme keeps the cache valid.
  write-IsValid :
      (name : ℕ) (t : Dict ℕ A) (m : A) (c : Common A)
      → IsValid c
      → IsExtreme o m t
      → IsValid (record { keys = insert name t c.keys; latest = insert name m c.latest })
  write-IsValid name t m c v x = record { cached = λ n u h. at n u (Bool-cases (name === n)) h }
    where
      at :
          (n : ℕ) (u : Dict ℕ A)
          → ((name === n) ≡ true) ⊎ ((name === n) ≡ false)
          → lookup n (insert name t c.keys) ≡ some u
          → (k : A) × (lookup n (insert name m c.latest) ≡ some k) × IsExtreme o k u
      at n u (inl e) h =
          let h' : some t ≡ some u = rw (lookup-insert name n t c.keys, e) at h in
          let q : t ≡ u = cc h' in
          (m, rw (lookup-insert name n m c.latest, e) refl, subst (IsExtreme o m) q x)
      at n u (inr e) h =
          let h' = rw (lookup-insert name n t c.keys, e) at h in
          let (k, p, y) = v.cached n u h' in (k, rw (lookup-insert name n m c.latest, e) p, y)

  bucket-write :
      (name other : ℕ) (t : Dict ℕ A) (l : Dict ℕ A) (c : Common A)
      → bucket other (record { keys = insert name t c.keys; latest = l })
        ≡ (if name === other then t else bucket other c)
  unfolding bucket
  bucket-write name other t l c = ground (arith, lookup-insert name other t c.keys)

  write-Updates :
      (name : ℕ) (t : Dict ℕ A) (m : A) (c : Common A)
      → IsValid c
      → IsExtreme o m t
      → Updates name t
          (some m, record { keys = insert name t c.keys; latest = insert name m c.latest })
          c
  write-Updates name t m c v x = (
    m,
    refl,
    x,
    write-IsValid name t m c v x,
    rw (bucket-write name name t (insert name m c.latest) c, (nat_beq_iff name name).1 refl) refl,
    λ other h. ground (arith, bucket-write name other t (insert name m c.latest) c),
  )

  add_ours-Updates :
      (name uuid : ℕ) (v : A) (t : Dict ℕ A) (c : Common A)
      → IsValid c
      → Updates name (insert uuid v t) (add_ours o name uuid v t c) c
  unfolding add_ours
  add_ours-Updates name uuid v t c w =
      write-Updates name (insert uuid v t) (most_extreme o v (insert uuid v t)) c w
        (recomputed-IsExtreme o uuid v t)

  -- The value that the chart had is the one that it brings: nothing changes.
  same-Updates :
      (name uuid : ℕ) (v : A) (t : Dict ℕ A) (c : Common A)
      → IsValid c
      → lookup name c.keys ≡ some t
      → lookup uuid t ≡ some v
      → Updates name
          (insert uuid v t)
          (lookup name c.latest, record c { keys = insert name t c.keys })
          c
  unfolding bucket
  same-Updates name uuid v t c w h k =
      let (m, p, x) = w.cached name t h in
      rw (insert-same uuid v t k, insert-same name t c.keys h)
        (m, p, x, w, ground (arith, h), λ other ne. refl)

  get_known-Updates :
      (name uuid : ℕ) (v old : A) (t : Dict ℕ A) (c : Common A)
      → IsValid c
      → lookup name c.keys ≡ some t
      → lookup uuid t ≡ some old
      → Updates name (insert uuid v t) (get_known o name uuid v old t c) c
  unfolding get_known beats_latest
  get_known-Updates name uuid v old t c w h k = elim (Bool-cases (o.identity.same old v)) [
    | inl e ↦
        let q : lookup uuid t ≡ some v = k ∙ ap some ((o.identity.same_iff old v).0 e) in
        rw e (same-Updates name uuid v t c w h q)
    | inr e ↦ rw e (
        let (m, p, x) = w.cached name t h in
        elim (Bool-cases (o.lt v m)) [
          | inl b ↦
              rw (p, b)
                (write-Updates name (insert uuid v t) v c w (improved-IsExtreme o uuid v m t b x))
          | inr b ↦ rw (p, b) (add_ours-Updates name uuid v t c w)
        ])
  ]

  lookup-bucket :
      (name uuid : ℕ) (c : Common A) (old : A)
      → lookup uuid (bucket name c) ≡ some old
      → lookup name c.keys ≡ some (bucket name c)
  unfolding bucket lookup
  lookup-bucket name uuid c old h = elim (Option-cases (lookup name c.keys)) [
    | inl e ↦ ground (arith, e)
    | inr (t, e) ↦ ground (arith, e)
  ]

  get_in-Updates :
      (name uuid : ℕ) (v : A) (t : Dict ℕ A) (c : Common A)
      → IsValid c
      → ((old : A) → lookup uuid t ≡ some old → lookup name c.keys ≡ some t)
      → Updates name (insert uuid v t) (get_in o name uuid v t c) c
  unfolding get_in
  get_in-Updates name uuid v t c w known = elim (Option-cases (lookup uuid t)) [
    | inl e ↦ rw (e, get_in) (add_ours-Updates name uuid v t c w)
    | inr (old, e) ↦ rw (e, get_in) (get_known-Updates name uuid v old t c w (known old e) e)
  ]

  -- With the cache valid, `get` for a shared name answers with the extreme of the values of all the
  -- charts of that name, the asking chart's new value included; it stores that value for the chart,
  -- leaves the charts of every other name alone, and keeps the cache valid.
  pub get-Updates :
      (name uuid : ℕ) (v : A) (c : Common A)
      → IsValid c
      → Updates name (insert uuid v (bucket name c)) (get o (some name) uuid v c) c
  unfolding get
  get-Updates name uuid v c w =
      get_in-Updates name uuid v (bucket name c) c w (lookup-bucket name uuid c)

  -- An empty cache is valid.
  pub empty-IsValid : IsValid empty
  unfolding lookup
  empty-IsValid = record { cached = λ name t h. cc }
