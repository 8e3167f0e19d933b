-- ===== src/Prelude/Dict.antt =====
-- A JavaScript object used as a dictionary: its own keys in insertion order. The type of keys is
-- any with a decided equality.
use lmiced.Prelude.{
  ℕ, ◌≡◌, refl, ◌↔◌, ◌≢◌, Bool, true, Option, none, some, List, [], ◌∷◌, All, arith, nat_beq,
  nat_beq_iff, if◌then◌else◌, Bool-cases, inl, inr,
}

infix 50 ◌===◌
-- What the code's `===` decides on the values of one type.
pub record Identity {κ} (K : Type κ) : Type κ where
  pub same : K → K → Bool
  pub same_iff : (j k : K) → (same j k ≡ true) ↔ (j ≡ k)

instance abbrev pub nat_identity : Identity ℕ
nat_identity = record { same_iff = nat_beq_iff; same = nat_beq }

abbrev pub ◌===◌ {κ} : {K : Type κ} ⦃i : Identity K⦄ → K → K → Bool
◌===◌ ⦃i⦄ = i.same

abbrev pub Dict {ℓ κ} : Type ℓ → Type κ → Type (ℓ ⊔ κ)
Dict K V = List (K × V)

module _ {ℓ κ} {K : Type ℓ} {V : Type κ} ⦃e : Identity K⦄ where
  -- `d[k]`, `none` for `undefined`
  unfoldable pub lookup : K → Dict K V → Option V
  lookup k [] = none
  lookup k ((j, v) ∷ d) = if j === k then some v else lookup k d

  -- `d[k] = v`
  unfoldable pub insert : K → V → Dict K V → Dict K V
  insert k v [] = (k, v) ∷ []
  insert k v ((j, w) ∷ d) = if j === k then (j, v) ∷ d else (j, w) ∷ insert k v d

  pub lookup-insert :
      (k j : K) (v : V) (d : Dict K V)
      → lookup j (insert k v d) ≡ (if k === j then some v else lookup j d)
  unfolding lookup insert
  lookup-insert k j v [] = refl
  lookup-insert k j v ((i, w) ∷ d) =
      ground (arith, e.same_iff k j, e.same_iff i k, e.same_iff i j, lookup-insert k j v d)

  pub lookup-insert_self : (k : K) (v : V) (d : Dict K V) → lookup k (insert k v d) ≡ some v
  lookup-insert_self k v d = ground (arith, lookup-insert k k v d, e.same_iff k k)

  pub lookup-insert_ne :
      (k j : K) (v : V) (d : Dict K V) → k ≢ j → lookup j (insert k v d) ≡ lookup j d
  lookup-insert_ne k j v d h = ground (arith, lookup-insert k j v d, e.same_iff k j)

  -- Writing the value that is there changes nothing.
  pub insert-same : (k : K) (v : V) (d : Dict K V) → lookup k d ≡ some v → insert k v d ≡ d
  unfolding lookup insert
  insert-same k v [] h = cc
  insert-same k v ((j, w) ∷ d) h = ground (arith, insert-same k v d)

  pub All-insert {μ} :
      (P : K × V → Type μ) (k : K) (v : V) (d : Dict K V)
      → ((j : K) → P (j, v))
      → All P d
      → All P (insert k v d)
  unfolding insert
  All-insert P k v [] h a = (h k, tt)
  All-insert P k v ((j, w) ∷ d) h (p, a) = elim (Bool-cases (j === k)) [
    | inl e ↦ rw e (h j, a)
    | inr e ↦ rw e (p, All-insert P k v d h a)
  ]
