-- ===== src/Numbers/Cached.antt =====
-- The formats that are kept (portal/dashboard.js, `NETDATA.fastNumberFormat` and the legend's).
use lmiced.Prelude.{
  ℕ, ◌≡◌, refl, ◌∙◌, sym, ap, subst, none, some, nat_beq, nat_beq_iff, Bool-cases, Option-cases,
  inl, inr,
}
use lmiced.Prelude.Dict.{Dict, nat_identity, lookup, insert, lookup-insert}
use lmiced.Numbers.{Browser, Maker, make, Formats, get_made, choose, get}

module _ {V T : Type 0} (b : Browser V T) where
  -- The maker that is used from the first call on
  abbrev pub maker : Formats V T → Maker
  maker s = elim s.chosen [ some k ↦ k | none ↦ choose b ]

  -- Whatever is kept is what would be made anew.
  pub record IsKept (s : Formats V T) : Type 0 where
    pub chosen : (k : Maker) → s.chosen ≡ some k → k ≡ choose b
    pub fixed_kept :
        (n : ℕ) (f : V → T) → lookup n s.formatters_fixed ≡ some f → f ≡ make b (choose b) n n
    pub zero_based_kept :
        (n : ℕ) (f : V → T) → lookup n s.formatters_zero_based ≡ some f → f ≡ make b (choose b) 0 n

  inserted :
      (P : ℕ → V → T) (most : ℕ) (d : Dict ℕ (V → T))
      → ((n : ℕ) (f : V → T) → lookup n d ≡ some f → f ≡ P n)
      → (n : ℕ) (f : V → T) → lookup n (insert most (P most) d) ≡ some f
      → f ≡ P n
  inserted P most d h n f l =
      let l' = sym (lookup-insert most n (P most) d) ∙ l in
      elim (Bool-cases (nat_beq most n)) [
        | inl e ↦
            let g : some (P most) ≡ some f = rw e at l' in
            let q : P most ≡ f = cc in sym q ∙ ap P ((nat_beq_iff most n).0 e)
        | inr e ↦ h n f (rw e at l')
      ]

  get_made-IsKept :
      (least most : ℕ) (s : Formats V T)
      → IsKept s
      → s.chosen ≡ some (choose b)
      → ((get_made b (choose b) least most s).0 ≡ make b (choose b) least most)
        × IsKept (get_made b (choose b) least most s).1
  unfolding get_made
  get_made-IsKept least most s h c = elim (Bool-cases (nat_beq least most)) [
    | inl e ↦
        let same = (nat_beq_iff least most).0 e in
        elim (Option-cases (lookup most s.formatters_fixed)) [
          | inr (f, l) ↦
              rw (e, l, get_made)
                (h.fixed_kept most f l ∙ ap (λ i. make b (choose b) i most) (sym same), h)
          | inl l ↦
              rw (e, l, get_made)
                (
                  refl,
                  record {
                    chosen = h.chosen;
                    fixed_kept =
                        subst
                          (λ i.
                            (n : ℕ) (f : V → T)
                            → lookup n (insert most (make b (choose b) i most) s.formatters_fixed)
                              ≡ some f
                            → f ≡ make b (choose b) n n)
                          (sym same)
                          (inserted (λ i. make b (choose b) i i) most s.formatters_fixed
                            h.fixed_kept);
                    zero_based_kept = h.zero_based_kept;
                  },
                )
        ]
    | inr e ↦ elim (Bool-cases (nat_beq least 0)) [
      | inr z ↦ rw (e, z, get_made) (refl, h)
      | inl z ↦
          let zero_least = (nat_beq_iff least 0).0 z in
          elim (Option-cases (lookup most s.formatters_zero_based)) [
            | inr (f, l) ↦
                rw (e, z, l, get_made)
                  (
                    h.zero_based_kept most f l
                        ∙ ap (λ i. make b (choose b) i most) (sym zero_least),
                    h,
                  )
            | inl l ↦
                rw (e, z, l, get_made)
                  (
                    refl,
                    record {
                      chosen = h.chosen;
                      fixed_kept = h.fixed_kept;
                      zero_based_kept =
                          subst
                            (λ i.
                              (n : ℕ) (f : V → T)
                              → lookup n
                                  (insert most (make b (choose b) i most) s.formatters_zero_based)
                                ≡ some f
                              → f ≡ make b (choose b) 0 n)
                            (sym zero_least)
                            (inserted (λ i. make b (choose b) 0 i) most s.formatters_zero_based
                              h.zero_based_kept);
                    },
                  )
          ]
    ]
  ]

  -- `get` answers with the format for these numbers of decimals, of the one kind that the browser was found to
  -- support, whatever was asked for before; it keeps what is kept right.
  pub get-make :
      (least most : ℕ) (s : Formats V T)
      → IsKept s
      → ((get b least most s).0 ≡ make b (choose b) least most) × IsKept (get b least most s).1
  unfolding get
  get-make least most s h = elim (Option-cases s.chosen) [
    | inr (k, c) ↦
        let e = h.chosen k c in rw (c, e, get) (get_made-IsKept least most s h (c ∙ ap some e))
    | inl c ↦
        let t = record s { chosen = some (choose b) } in
        let k : IsKept t = record {
          chosen = λ i q. cc;
          fixed_kept = h.fixed_kept;
          zero_based_kept = h.zero_based_kept;
        } in
        rw (c, get) (get_made-IsKept least most t k refl)
  ]
