-- ===== src/Common/Lists.antt =====
-- Arrays as lists, indexed by native numbers, under the library's names.
use Prim.Native.Nat.{ℕ, zero, suc, ◌+◌, ◌<◌}
use mathlib.Core.Path.{◌≡◌, refl, ap, subst}
use mathlib.Core.Logic.{◌≢◌, ◌⊎◌, inl, inr}
use mathlib.Core.List.{List, [], ◌∷◌, ◌++◌}
use mathlib.Core.Option.{Option, none, some}
use native.Mathlib.Omega.{arith}

module _ {ℓ} {A : Type ℓ} where
  abbrev pub length : List A → ℕ
  length [] = 0
  length (x ∷ xs) = suc (length xs)

  abbrev pub get_elem? : List A → ℕ → Option A
  get_elem? [] i = none
  get_elem? (x ∷ xs) zero = some x
  get_elem? (x ∷ xs) (suc i) = get_elem? xs i

  abbrev pub set : List A → ℕ → A → List A
  set [] i v = []
  set (x ∷ xs) zero v = v ∷ xs
  set (x ∷ xs) (suc i) v = x ∷ set xs i v

  abbrev pub replicate : ℕ → A → List A
  replicate zero a = []
  replicate (suc n) a = a ∷ replicate n a

module _ {ℓ} {A : Type ℓ} where
  pub length-set : (xs : List A) (i : ℕ) (v : A) → length (set xs i v) ≡ length xs
  length-set [] i v = refl
  length-set (x ∷ xs) zero v = refl
  length-set (x ∷ xs) (suc i) v = ap suc (length-set xs i v)

  pub get_elem?-set_self :
      (xs : List A) (i : ℕ) (v : A) → i < length xs → get_elem? (set xs i v) i ≡ some v
  get_elem?-set_self [] i v h = elim h [ ]
  get_elem?-set_self (x ∷ xs) zero v h = refl
  get_elem?-set_self (x ∷ xs) (suc i) v h = get_elem?-set_self xs i v (omega arith)

  pub get_elem?-set_ne :
      (xs : List A) (i j : ℕ) (v : A) → i ≢ j → get_elem? (set xs i v) j ≡ get_elem? xs j
  get_elem?-set_ne [] i j v h = refl
  get_elem?-set_ne (x ∷ xs) zero zero v h = absurd (h refl)
  get_elem?-set_ne (x ∷ xs) zero (suc j) v h = refl
  get_elem?-set_ne (x ∷ xs) (suc i) zero v h = refl
  get_elem?-set_ne (x ∷ xs) (suc i) (suc j) v h = get_elem?-set_ne xs i j v (λ e. h (ap suc e))

  -- An index that reads an element is within the array, and the other way round.
  pub get_elem?-lt : (xs : List A) (i : ℕ) {x : A} → get_elem? xs i ≡ some x → i < length xs
  get_elem?-lt [] i h = cc
  get_elem?-lt (x ∷ xs) zero h = omega arith
  get_elem?-lt (x ∷ xs) (suc i) h = omega (arith, get_elem?-lt xs i h)

  pub lt-get_elem? : (xs : List A) (i : ℕ) → i < length xs → (x : A) × (get_elem? xs i ≡ some x)
  lt-get_elem? [] i h = elim h [ ]
  lt-get_elem? (x ∷ xs) zero h = (x, refl)
  lt-get_elem? (x ∷ xs) (suc i) h = lt-get_elem? xs i (omega arith)

  -- Writing back what stands there changes nothing.
  pub set-get_elem? : (xs : List A) (i : ℕ) {x : A} → get_elem? xs i ≡ some x → set xs i x ≡ xs
  set-get_elem? [] i h = refl
  set-get_elem? (x ∷ xs) zero h = ground arith
  set-get_elem? (x ∷ xs) (suc i) h = ap (◌∷◌ x) (set-get_elem? xs i h)

  pub length-replicate : (n : ℕ) (a : A) → length (replicate n a) ≡ n
  length-replicate zero a = refl
  length-replicate (suc n) a = ap suc (length-replicate n a)

module _ {ℓ} {A : Type ℓ} where
  pub length-snoc : (xs : List A) (x : A) → length (xs ++ x ∷ []) ≡ length xs + 1
  length-snoc [] x = refl
  length-snoc (y ∷ xs) x = omega (arith, length-snoc xs x)

  -- The element behind a prefix, read and written.
  pub get_elem?-append :
      (xs : List A) (x : A) (ys : List A) → get_elem? (xs ++ x ∷ ys) (length xs) ≡ some x
  get_elem?-append [] x ys = refl
  get_elem?-append (y ∷ xs) x ys = get_elem?-append xs x ys

  pub set-append :
      (xs : List A) (x y : A) (ys : List A) → set (xs ++ x ∷ ys) (length xs) y ≡ xs ++ y ∷ ys
  set-append [] x y ys = refl
  set-append (z ∷ xs) x y ys = ap (◌∷◌ z) (set-append xs x y ys)

-- What is read after a write, or behind an element that was added.
module _ {ℓ} {A : Type ℓ} where
  pub get_elem?-set :
      (xs : List A) (i : ℕ) (v : A) (j : ℕ) {y : A}
      → get_elem? (set xs i v) j ≡ some y
      → ((i ≡ j) × (y ≡ v)) ⊎ ((i ≢ j) × (get_elem? xs j ≡ some y))
  get_elem?-set [] i v j h = cc
  get_elem?-set (x ∷ xs) zero v zero h = inl (refl, cc)
  get_elem?-set (x ∷ xs) zero v (suc j) h = inr (omega arith, h)
  get_elem?-set (x ∷ xs) (suc i) v zero h = inr (omega arith, h)
  get_elem?-set (x ∷ xs) (suc i) v (suc j) h = elim (get_elem?-set xs i v j h) [
    | inl (same, new) ↦ inl (ap suc same, new)
    | inr (apart, old) ↦ inr (omega arith, old)
  ]

  pub get_elem?-in_append :
      (xs ys : List A) (j : ℕ) {y : A} → get_elem? xs j ≡ some y → get_elem? (xs ++ ys) j ≡ some y
  get_elem?-in_append [] ys j h = cc
  get_elem?-in_append (x ∷ xs) ys zero h = h
  get_elem?-in_append (x ∷ xs) ys (suc j) h = get_elem?-in_append xs ys j h

  pub get_elem?-snoc :
      (xs : List A) (x : A) (j : ℕ) {y : A}
      → get_elem? (xs ++ x ∷ []) j ≡ some y
      → ((j ≡ length xs) × (y ≡ x)) ⊎ ((j < length xs) × (get_elem? xs j ≡ some y))
  get_elem?-snoc [] x zero h = inl (refl, cc)
  get_elem?-snoc [] x (suc j) h = cc
  get_elem?-snoc (z ∷ xs) x zero h = inr (omega arith, h)
  get_elem?-snoc (z ∷ xs) x (suc j) h = elim (get_elem?-snoc xs x j h) [
    | inl (last, new) ↦ inl (ap suc last, new)
    | inr (before, old) ↦ inr (omega arith, old)
  ]

-- Every element has a property.
abbrev pub All {ℓ κ} : {A : Type ℓ} → (A → Type κ) → List A → Type κ
All P [] = Unit
All P (x ∷ xs) = P x × All P xs

pub All-get_elem? {ℓ κ} :
    {A : Type ℓ} (P : A → Type κ) (xs : List A) (i : ℕ) {y : A}
    → All P xs
    → get_elem? xs i ≡ some y
    → P y
All-get_elem? P [] i h e = cc
All-get_elem? P (x ∷ xs) zero {y} h e = subst P (cc) h.0
All-get_elem? P (x ∷ xs) (suc i) h e = All-get_elem? P xs i h.1 e

pub All-of_get {ℓ κ} :
    {A : Type ℓ} (P : A → Type κ) (xs : List A)
    → ((i : ℕ) (y : A) → get_elem? xs i ≡ some y → P y)
    → All P xs
All-of_get P [] h = tt
All-of_get P (x ∷ xs) h = (h 0 x refl, All-of_get P xs (λ i. h (suc i)))

pub All-set {ℓ κ} :
    {A : Type ℓ} (P : A → Type κ) (xs : List A) (i : ℕ) (y : A)
    → All P xs
    → P y
    → All P (set xs i y)
All-set P [] i y h p = tt
All-set P (x ∷ xs) zero y h p = (p, h.1)
All-set P (x ∷ xs) (suc i) y h p = (h.0, All-set P xs i y h.1 p)

pub All-replicate {ℓ κ} :
    {A : Type ℓ} (P : A → Type κ) (n : ℕ) (a : A) → P a → All P (replicate n a)
All-replicate P zero a p = tt
All-replicate P (suc n) a p = (p, All-replicate P n a p)

-- The sum of a figure over a list.
module _ {ℓ} {A : Type ℓ} (f : A → ℕ) where
  abbrev pub sum_of : List A → ℕ
  sum_of [] = 0
  sum_of (x ∷ xs) = f x + sum_of xs

  pub sum_of-set :
      (xs : List A) (i : ℕ) (x y : A)
      → get_elem? xs i ≡ some x
      → sum_of (set xs i y) + f x ≡ sum_of xs + f y
  sum_of-set [] i x y e = cc
  sum_of-set (z ∷ xs) zero x y e = let same : f z ≡ f x = ground arith in omega arith
  sum_of-set (z ∷ xs) (suc i) x y e = omega (arith, sum_of-set xs i x y e)

  pub sum_of-snoc : (xs : List A) (y : A) → sum_of (xs ++ y ∷ []) ≡ sum_of xs + f y
  sum_of-snoc [] y = omega arith
  sum_of-snoc (x ∷ xs) y = omega (arith, sum_of-snoc xs y)
