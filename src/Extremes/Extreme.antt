-- ===== src/Extremes/Extreme.antt =====
-- The extreme of a dictionary, as the loop of `commonMin.get` finds it (portal/dashboard.js).
use lmiced.Prelude.{
  ℕ, ◌≡◌, refl, sym, ◌∙◌, ◌⊎◌, inl, inr, true, false, [], ◌∷◌, All, if◌then◌else◌, Bool-cases,
}
use lmiced.Prelude.Dict.{Dict, insert, ◌===◌, nat_identity, All-insert}
use lmiced.Extremes.{StrictOrder, most_extreme}

-- Some entry holds the value `m`.
abbrev pub Holds : {A : Type 0} → A → Dict ℕ A → Type 0
Holds m [] = ⊥
Holds m (e ∷ t) = (e.1 ≡ m) ⊎ Holds m t

Holds-insert : {A : Type 0} (k : ℕ) (v : A) (t : Dict ℕ A) → Holds v (insert k v t)
unfolding insert
Holds-insert k v [] = inl refl
Holds-insert k v ((j, w) ∷ t) = elim (Bool-cases (j === k)) [
  | inl e ↦ rw e (inl refl)
  | inr e ↦ rw e (inr (Holds-insert k v t))
]

module _ {A : Type 0} (o : StrictOrder A) where
  -- `m` is the extreme of a dictionary: some chart has it, and no chart has a more extreme value.
  pub record IsExtreme (m : A) (t : Dict ℕ A) : Type 0 where
    pub held : Holds m t
    pub bound : All (λ e. o.lt e.1 m ≡ false) t

  -- One round of the loop.
  abbrev pick : A → A → A
  pick m x = if o.lt x m then x else m

  pick_le : (m x : A) → (o.lt m (pick m x) ≡ false) × (o.lt x (pick m x) ≡ false)
  pick_le m x = elim (Bool-cases (o.lt x m)) [
    | inl e ↦ rw e (o.lt_le x m e, o.irrefl x)
    | inr e ↦ rw e (o.irrefl m, e)
  ]

  pick-cases : (m x : A) → (pick m x ≡ m) ⊎ (pick m x ≡ x)
  pick-cases m x = elim (Bool-cases (o.lt x m)) [
    | inl e ↦ rw e (inr refl)
    | inr e ↦ rw e (inl refl)
  ]

  -- The value that the loop ends with is no less extreme than the one that it starts with.
  most_extreme-le : (m : A) (t : Dict ℕ A) → o.lt m (most_extreme o m t) ≡ false
  unfolding most_extreme
  most_extreme-le m [] = o.irrefl m
  most_extreme-le m ((k, x) ∷ t) =
      o.le_trans _ (pick m x) m (most_extreme-le (pick m x) t) (pick_le m x).0

  most_extreme-bound : (m : A) (t : Dict ℕ A) → All (λ e. o.lt e.1 (most_extreme o m t) ≡ false) t
  unfolding most_extreme
  most_extreme-bound m [] = tt
  most_extreme-bound m ((k, x) ∷ t) = (
    o.le_trans _ (pick m x) x (most_extreme-le (pick m x) t) (pick_le m x).1,
    most_extreme-bound (pick m x) t,
  )

  most_extreme-held :
      (m : A) (t : Dict ℕ A) → (most_extreme o m t ≡ m) ⊎ Holds (most_extreme o m t) t
  unfolding most_extreme
  most_extreme-held m [] = inl refl
  most_extreme-held m ((k, x) ∷ t) = elim (most_extreme-held (pick m x) t) [
    | inl p ↦ elim (pick-cases m x) [ inl q ↦ inl (p ∙ q) | inr q ↦ inr (inl (sym (p ∙ q))) ]
    | inr h ↦ inr (inr h)
  ]

  -- The recomputed extreme is right, whatever the dictionary was.
  pub recomputed-IsExtreme :
      (k : ℕ) (v : A) (t : Dict ℕ A) → IsExtreme (most_extreme o v (insert k v t)) (insert k v t)
  recomputed-IsExtreme k v t = record {
    held = elim (most_extreme-held v (insert k v t)) [
      | inl p ↦ rw p (Holds-insert k v t)
      | inr h ↦ h
    ];
    bound = most_extreme-bound v (insert k v t);
  }

  All-map :
      (m v : A) (t : Dict ℕ A)
      → o.lt m v ≡ false
      → All (λ e. o.lt e.1 m ≡ false) t
      → All (λ e. o.lt e.1 v ≡ false) t
  All-map m v [] h a = tt
  All-map m v (e ∷ t) h (p, a) = (o.le_trans v m e.1 h p, All-map m v t h a)

  -- A value that beats the old extreme is the new one.
  pub improved-IsExtreme :
      (k : ℕ) (v m : A) (t : Dict ℕ A)
      → o.lt v m ≡ true
      → IsExtreme m t
      → IsExtreme v (insert k v t)
  improved-IsExtreme k v m t h x = record {
    held = Holds-insert k v t;
    bound =
        All-insert (λ e. o.lt e.1 v ≡ false) k v t (λ j. o.irrefl v)
          (All-map m v t (o.lt_le v m h) x.bound);
  }
