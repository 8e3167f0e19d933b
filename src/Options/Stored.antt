-- ===== src/Options/Stored.antt =====
-- `setOption`, a reload of the page, and `localStorageGetRecursive` (portal/dashboard.js).
use lmiced.Prelude.{
  ◌≡◌, refl, ◌∙◌, sym, subst, ap, ◌≢◌, Bool, true, false, [], ◌∷◌, some, is_some, arith,
  if◌then◌else◌, Bool-cases, Option-cases, inl, inr,
}
use lmiced.Prelude.Dict.{
  Dict, Identity, ◌===◌, lookup, lookup-insert, lookup-insert_self, lookup-insert_ne,
}
use lmiced.Options.{
  Name, options, name_identity, Json, Storage, write, read, storage_get, storage_set, has_value,
  set_option, get_option, load_options, load_page, reload, same_name_iff,
}

module _ {K V S : Type 0} ⦃i : Identity K⦄ (w : Identity V) (j : Json V S) where
  -- The browser keeps the value `v` under the name.
  abbrev Keeps : Name K → V → Storage K V S → Type 0
  Keeps n v s = (s.usable ≡ true) × (lookup n s.browser ≡ some (j.stringify v))

  read-kept :
      (n : Name K) (v def : V) (s : Storage K V S)
      → j.is_undefined v ≡ false
      → Keeps n v s
      → read w j n def s ≡ (v, s.browser)
  unfolding read
  read-kept n v def s d (u, h) = simp (u, h, j.stringify-text v d, j.parse-stringify v d) refl

  storage_get-kept :
      (n : Name K) (v def : V) (callback : Bool) (s : Storage K V S)
      → j.is_undefined v ≡ false
      → Keeps n v s
      → let (u, t) = storage_get w j n def callback s in (u ≡ v) × Keeps n v t
  unfolding storage_get
  storage_get-kept n v def callback s d (u, h) =
      let r = read-kept n v def s d (u, h) in rw (r, d) (refl, (u, h))

  write-other :
      (n m : Name K) (def : V) (s : Storage K V S)
      → m ≢ n
      → lookup n (write w j m def s) ≡ lookup n s.browser
  unfolding write
  write-other n m def s ne = elim (Bool-cases s.writable) [
    | inl e ↦ rw e (lookup-insert_ne m n (j.stringify def) s.browser ne)
    | inr e ↦ rw e refl
  ]

  read-other :
      (n m : Name K) (def : V) (s : Storage K V S)
      → m ≢ n
      → lookup n (read w j m def s).1 ≡ lookup n s.browser
  unfolding read
  read-other n m def s ne = elim (Bool-cases s.usable) [
    | inr e ↦ rw e refl
    | inl e ↦ elim (Option-cases (lookup m s.browser)) [
      | inl h ↦ rw (e, h) (write-other n m def s ne)
      | inr (t, h) ↦ elim (Bool-cases (j.undefined_text t)) [
        | inl k ↦ rw (e, h, k) (write-other n m def s ne)
        | inr k ↦ rw (e, h, k) refl
      ]
    ]
  ]

  storage_get-unread :
      (n m : Name K) (v def : V) (callback : Bool) (s : Storage K V S)
      → m ≢ n
      → Keeps n v s
      → Keeps n v (storage_get w j m def callback s).1
  unfolding storage_get
  storage_get-unread n m v def callback s ne (u, h) = (u, read-other n m def s ne ∙ h)

  -- Reading any name, the one that is kept among them.
  storage_get-Keeps :
      (n m : Name K) (v def : V) (callback : Bool) (s : Storage K V S)
      → j.is_undefined v ≡ false
      → Keeps n v s
      → let (u, t) = storage_get w j m def callback s in (m ≡ n → u ≡ v) × Keeps n v t
  storage_get-Keeps n m v def callback s d (u, h) = elim (Bool-cases (m === n)) [
    | inl e ↦
        let q =
          subst (λ o. let (x, t) = storage_get w j o def callback s in (x ≡ v) × Keeps n v t)
            (sym ((same_name_iff m n).0 e)) (storage_get-kept n v def callback s d (u, h)) in
        (λ _. q.0, q.1)
    | inr e ↦
        let ne : m ≢ n = λ p. absurd (grind (arith, e, (same_name_iff m n).1 p)) in
        ((λ p. absurd (ne p)), storage_get-unread n m v def callback s ne (u, h))
  ]

  -- The loop over the options keeps what the browser keeps under a name, and reads it.
  load_options-kept :
      (k : K) (v : V) (d : Dict K V) (s : Storage K V S)
      → j.is_undefined v ≡ false
      → Keeps (options k) v s
      → Keeps (options k) v (load_options w j d s)
        × (is_some (lookup k d) ≡ true → lookup k (load_options w j d s).options ≡ some v)
  unfolding load_options lookup
  load_options-kept k v [] s u h = (h, λ e. absurd (cc))
  load_options-kept k v ((l, def) ∷ d) s u h =
      let t = load_options w j d s in
      let (p, r) = load_options-kept k v d s u h in
      let (q, o) = storage_get-Keeps (options k) (options l) v def false t u p in
      (
        o,
        elim (Bool-cases (l === k)) [
          | inl e ↦ λ _.
              lookup-insert l k (storage_get w j (options l) def false t).0 t.options
              ∙ rw e (ap some (q (ap options ((i.same_iff l k).0 e))))
          | inr e ↦ λ known.
              lookup-insert l k (storage_get w j (options l) def false t).0 t.options
              ∙ rw e (r (rw e at known))
        ],
      )

  has_value-new :
      (k : K) (v : V) (s : Storage K V S)
      → get_option w j k s ≢ some v
      → has_value w j k v s ≡ false
  unfolding has_value get_option
  has_value-new k v s ne = elim (Option-cases (lookup k s.options)) [
    | inl h ↦ rw (h, has_value) refl
    | inr (u, h) ↦
        rw (h, has_value)
          (elim (Bool-cases (w.same u v)) [
            | inl e ↦ absurd (ne (h ∙ ap some ((w.same_iff u v).0 e)))
            | inr e ↦ e
          ])
  ]

  has_value-some :
      (k : K) (v : V) (s : Storage K V S) → has_value w j k v s ≡ true → lookup k s.options ≡ some v
  unfolding has_value
  has_value-some k v s h = elim (Option-cases (lookup k s.options)) [
    | inl n ↦ absurd (grind (arith, rw (n, has_value) at h))
    | inr (u, n) ↦
        let b : w.same u v ≡ true = rw (n, has_value) at h in n ∙ ap some ((w.same_iff u v).0 b)
  ]

  storage_set-Keeps :
      (n : Name K) (v : V) (callback : Bool) (s : Storage K V S)
      → s.usable ≡ true
      → s.writable ≡ true
      → Keeps n v (storage_set w j n v callback s)
  unfolding storage_set write
  storage_set-Keeps n v callback s u wr =
      (u, rw (u, wr) (lookup-insert_self n (j.stringify v) s.browser))

  set_option-Keeps :
      (k : K) (v : V) (s : Storage K V S)
      → s.usable ≡ true
      → s.writable ≡ true
      → get_option w j k s ≢ some v
      → Keeps (options k) v (reload (set_option w j k v s))
  unfolding set_option
  set_option-Keeps k v s u wr ne =
      rw (has_value-new k v s ne) (storage_set-Keeps (options k) v false s u wr)

  -- `setOption` writes its option and no other.
  lookup-set_option :
      (k l : K) (v : V) (s : Storage K V S)
      → lookup l (set_option w j k v s).options ≡ (if k === l then some v else lookup l s.options)
  unfolding set_option has_value
  lookup-set_option k l v s = elim (Bool-cases (has_value w j k v s)) [
    | inr e ↦ rw e (lookup-insert k l v s.options)
    | inl e ↦ rw e (elim (Bool-cases (k === l)) [
      | inr n ↦ rw n refl
      | inl n ↦
          rw n (ap (λ m. lookup m s.options) (sym ((i.same_iff k l).0 n)) ∙ has_value-some k v s e)
    ])
  ]

  -- With a storage that can be written, an option that is set to another value than it has, not
  -- `undefined` or the text `undefined`, has that value after the page is loaded again, whatever its
  -- default and the other options are; but the option that every load of the page sets has the value
  -- that the load gives it.
  pub set_option-survives :
      (stop : K) (always : V) (k : K) (v : V) (d : Dict K V) (s : Storage K V S)
      → s.usable ≡ true
      → s.writable ≡ true
      → j.is_undefined v ≡ false
      → get_option w j k s ≢ some v
      → is_some (lookup k d) ≡ true
      → get_option w j k (load_page w j stop always d (reload (set_option w j k v s)))
        ≡ some (if stop === k then always else v)
  unfolding get_option load_page
  set_option-survives stop always k v d s u wr ud ne known =
      let t = load_options w j d (reload (set_option w j k v s)) in
      let h =
        (load_options-kept k v d (reload (set_option w j k v s)) ud
            (set_option-Keeps k v s u wr ne)).1
          known in
      lookup-set_option stop k always t
      ∙ elim (Bool-cases (stop === k)) [ inl e ↦ rw e refl | inr e ↦ rw e h ]
