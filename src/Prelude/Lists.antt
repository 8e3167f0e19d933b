-- ===== src/Prelude/Lists.antt =====
-- Lists measured and indexed by native numbers, under the library's names.
use Prim.Native.Nat.{ℕ, zero, suc, ◌+◌, ◌<◌}
use mathlib.Core.Path.{◌≡◌, refl, ap}
use mathlib.Core.Logic.{◌≢◌}
use mathlib.Core.List.{List, [], ◌∷◌, ◌++◌}
use mathlib.Core.Option
use mathlib.Core.Option.{Option, none, some}
use native.Mathlib.Omega.{arith}

module _ {ℓ} {A : Type ℓ} where
  abbrev pub length : List A → ℕ
  length [] = 0
  length (x ∷ xs) = suc (length xs)

  abbrev pub get_elem? : List A → ℕ → Option A
  get_elem? [] i = none
  get_elem? (x ∷ xs) zero = some x
  get_elem? (x ∷ xs) (suc i) = get_elem? xs i

  -- A write out of bounds changes nothing.
  abbrev pub set : List A → ℕ → A → List A
  set [] i v = []
  set (x ∷ xs) zero v = v ∷ xs
  set (x ∷ xs) (suc i) v = x ∷ set xs i v

  pub length-append : (xs ys : List A) → length (xs ++ ys) ≡ length xs + length ys
  length-append [] ys = omega arith
  length-append (x ∷ xs) ys = omega (arith, length-append xs ys)

  -- A predicate on every element; it computes to tuples.
  abbrev pub All {κ} : (A → Type κ) → List A → Type κ
  All P [] = Unit
  All P (x ∷ xs) = P x × All P xs

module _ {ℓ} {A : Type ℓ} where
  pub length-set : (xs : List A) (i : ℕ) (v : A) → length (set xs i v) ≡ length xs
  length-set [] i v = refl
  length-set (x ∷ xs) zero v = refl
  length-set (x ∷ xs) (suc i) v = ap suc (length-set xs i v)

  pub get_elem?-set_self :
      (xs : List A) (i : ℕ) (v : A) → i < length xs → get_elem? (set xs i v) i ≡ some v
  get_elem?-set_self [] i v h = elim h [ ]
  get_elem?-set_self (x ∷ xs) zero v h = refl
  get_elem?-set_self (x ∷ xs) (suc i) v h = get_elem?-set_self xs i v (omega arith)

  pub get_elem?-set_ne :
      (xs : List A) {i j : ℕ} (v : A) → i ≢ j → get_elem? (set xs i v) j ≡ get_elem? xs j
  get_elem?-set_ne [] v h = refl
  get_elem?-set_ne (x ∷ xs) {i = zero} {j = zero} v h = absurd (h refl)
  get_elem?-set_ne (x ∷ xs) {i = zero} {j = suc j} v h = refl
  get_elem?-set_ne (x ∷ xs) {i = suc i} {j = zero} v h = refl
  get_elem?-set_ne (x ∷ xs) {i = suc i} {j = suc j} v h = get_elem?-set_ne xs v (λ e. h (ap suc e))

  pub All-append {κ} : (P : A → Type κ) (xs ys : List A) → All P xs → All P ys → All P (xs ++ ys)
  All-append P [] ys hx hy = hy
  All-append P (x ∷ xs) ys hx hy = (hx.0, All-append P xs ys hx.1 hy)

module _ {ℓ} {A : Type ℓ} where
  -- A change of one element in place; out of bounds nothing changes.
  abbrev pub modify : (A → A) → ℕ → List A → List A
  modify f i [] = []
  modify f zero (x ∷ xs) = f x ∷ xs
  modify f (suc i) (x ∷ xs) = x ∷ modify f i xs

  pub length-modify : (f : A → A) (i : ℕ) (xs : List A) → length (modify f i xs) ≡ length xs
  length-modify f i [] = refl
  length-modify f zero (x ∷ xs) = refl
  length-modify f (suc i) (x ∷ xs) = ap suc (length-modify f i xs)

  pub get_elem?-modify_self :
      (f : A → A) (i : ℕ) (xs : List A)
      → get_elem? (modify f i xs) i ≡ Option.map f (get_elem? xs i)
  get_elem?-modify_self f i [] = refl
  get_elem?-modify_self f zero (x ∷ xs) = refl
  get_elem?-modify_self f (suc i) (x ∷ xs) = get_elem?-modify_self f i xs

  pub get_elem?-modify_ne :
      (f : A → A) (i j : ℕ) (xs : List A) → i ≢ j → get_elem? (modify f i xs) j ≡ get_elem? xs j
  get_elem?-modify_ne f i j [] h = refl
  get_elem?-modify_ne f zero zero (x ∷ xs) h = absurd (h refl)
  get_elem?-modify_ne f zero (suc j) (x ∷ xs) h = refl
  get_elem?-modify_ne f (suc i) zero (x ∷ xs) h = refl
  get_elem?-modify_ne f (suc i) (suc j) (x ∷ xs) h =
      get_elem?-modify_ne f i j xs (λ e. h (ap suc e))
