-- ===== src/Common/Outcome.antt =====
-- What a C function does besides returning: it may fault, by a read or write through NULL or past
-- an array, or by a division by zero.
use mathlib.Core.Path.{◌≡◌, refl}
use mathlib.Core.Logic.{◌⊎◌, inl, inr}
use mathlib.Core.Option.{Option, none, some}
use Prim.Native.Nat.{ℕ}

pub data Exec {ℓ} (A : Type ℓ) : Type ℓ where
  done : A → Exec A
  fault : Exec A

infixl 5 ◌>>=◌
abbrev pub ◌>>=◌ {ℓ κ} : {A : Type ℓ} {B : Type κ} → Exec A → (A → Exec B) → Exec B
done a >>= f = f a
fault >>= f = fault

-- A load from an array.
abbrev pub load {ℓ} : {A : Type ℓ} → Option A → Exec A
load none = fault
load (some a) = done a

-- Inversion of a bind that returns.
pub >>=-eq-done {ℓ κ} :
    {A : Type ℓ} {B : Type κ} (m : Exec A) (f : A → Exec B) {b : B}
    → (m >>= f) ≡ done b
    → (a : A) × (m ≡ done a) × (f a ≡ done b)
>>=-eq-done (done a) f h = (a, refl, h)
>>=-eq-done fault f h = cc

pub Exec-cases {ℓ} : {A : Type ℓ} (m : Exec A) → (m ≡ fault) ⊎ ((a : A) × (m ≡ done a))
Exec-cases fault = inl refl
Exec-cases (done a) = inr (a, refl)

-- The result of a function that returns a negated error number on failure.
pub data Result {ℓ} (A : Type ℓ) : Type ℓ where
  ok : A → Result A
  err : ℕ → Result A

abbrev pub enoent : ℕ
enoent = 2

abbrev pub eintr : ℕ
eintr = 4

abbrev pub eio : ℕ
eio = 5

abbrev pub enoexec : ℕ
enoexec = 8

abbrev pub echild : ℕ
echild = 10

abbrev pub enomem : ℕ
enomem = 12

abbrev pub efault : ℕ
efault = 14

abbrev pub ebusy : ℕ
ebusy = 16

abbrev pub eexist : ℕ
eexist = 17

abbrev pub enodev : ℕ
enodev = 19

abbrev pub einval : ℕ
einval = 22

abbrev pub erange : ℕ
erange = 34

abbrev pub eoverflow : ℕ
eoverflow = 75

abbrev pub etoosmall : ℕ
etoosmall = 525

pub Result-cases {ℓ} :
    {A : Type ℓ} (r : Result A) → ((e : ℕ) × (r ≡ err e)) ⊎ ((a : A) × (r ≡ ok a))
Result-cases (err e) = inl (e, refl)
Result-cases (ok a) = inr (a, refl)
