-- ===== src/Base/Results.antt =====
-- The result of code that may not return: `assert`, `CRITICAL` and `throw` end the process.
use mathlib.Core.Path.{◌≡◌, refl, ap, subst}
use mathlib.Core.Logic.{◌⊎◌, inl, inr}
use mathlib.Core.Bool.{Bool, true, false, false≢true}

pub data Fault : Type 0 where
  -- An `assert` that does not hold, in a build without NDEBUG.
  assert_failed : Fault
  -- Exceptions of the standard library that nothing catches.
  length_error : Fault
  bad_weak_ptr : Fault
  -- Undefined behaviour: an access outside of the storage or an invalid range.
  undefined : Fault
  -- The `CRITICAL` macro logs and aborts.
  critical : Fault

pub data Result {ℓ} (A : Type ℓ) : Type ℓ where
  err : Fault → Result A
  ok : A → Result A

module _ {ℓ κ} {T : Type ℓ} {U : Type κ} where
  infixl 5 ◌>>=◌
  abbrev pub ◌>>=◌ : Result T → (T → Result U) → Result U
  err fault >>= next = err fault
  ok t >>= next = next t

module _ {ℓ} {T : Type ℓ} where
  infixl 5 ◌>>◌
  abbrev pub ◌>>◌ : Result (Unit {0}) → Result T → Result T
  checked >> next = checked >>= λ _. next

abbrev pub assert : Bool → Result (Unit {0})
assert true = ok tt
assert false = err assert_failed

abbrev pub require : Bool → Fault → Result (Unit {0})
require true e = ok tt
require false e = err e

-- `r` returns, and what it returns satisfies `P`.
abbrev pub Returns {ℓ} : {A : Type ℓ} → Result A → (A → Type 0) → Type 0
Returns (ok a) P = P a
Returns (err e) P = ⊥

module _ {ℓ κ} {A : Type ℓ} {B : Type κ} where
  pub Returns-bind :
      (m : Result A) (f : A → Result B) (P : A → Type 0) (Q : B → Type 0)
      → Returns m P
      → ((a : A) → P a → Returns (f a) Q)
      → Returns (m >>= f) Q
  Returns-bind (ok a) f P Q h k = k a h
  Returns-bind (err e) f P Q h k = absurd h

pub Returns-mono {ℓ} :
    {A : Type ℓ} (m : Result A) (P Q : A → Type 0)
    → Returns m P
    → ((a : A) → P a → Q a)
    → Returns m Q
Returns-mono (ok a) P Q h k = k a h
Returns-mono (err e) P Q h k = absurd h

pub Returns-both {ℓ} :
    {A : Type ℓ} (m : Result A) (P Q : A → Type 0)
    → Returns m P
    → Returns m Q
    → Returns m λ a. P a × Q a
Returns-both (ok a) P Q h k = (h, k)
Returns-both (err e) P Q h k = h

pub Result-cases {ℓ} :
    {A : Type ℓ} (m : Result A) → ((e : Fault) × (m ≡ err e)) ⊎ ((a : A) × (m ≡ ok a))
Result-cases (err e) = inl (e, refl)
Result-cases (ok a) = inr (a, refl)

pub Returns-eq {ℓ} :
    {A : Type ℓ} (m : Result A) (P : A → Type 0) → Returns m P → (a : A) × (m ≡ ok a) × P a
Returns-eq (ok a) P h = (a, refl, h)
Returns-eq (err e) P h = absurd h

pub Returns_at {ℓ} :
    {A : Type ℓ} (m : Result A) (a : A) (P : A → Type 0) → m ≡ ok a → Returns m P → P a
Returns_at (ok b) a P e h = subst P (ap (λ r. elim r [ ok x ↦ x | err _ ↦ b ]) e) h
Returns_at (err f) a P e h = absurd h

pub Returns_of_eq {ℓ} :
    {A : Type ℓ} (m : Result A) (a : A) (P : A → Type 0) → m ≡ ok a → P a → Returns m P
Returns_of_eq m a P e h = rw e h

module _ {ℓ κ μ} {A : Type ℓ} {B : Type κ} {C : Type μ} where
  pub Returns-bind_twice :
      (m : Result A) (f : A → Result B) (g : B → Result C) (P : A → Type 0) (Q : C → Type 0)
      → Returns m P
      → ((a : A) → P a → Returns (f a >>= g) Q)
      → Returns (m >>= f >>= g) Q
  Returns-bind_twice (ok a) f g P Q h k = k a h
  Returns-bind_twice (err e) f g P Q h k = absurd h

pub Returns-assert {ℓ} :
    {A : Type ℓ} (b : Bool) (m : Result A) (P : A → Type 0)
    → b ≡ true
    → Returns m P
    → Returns (assert b >>= λ _. m) P
Returns-assert true m P e h = h
Returns-assert false m P e h = absurd (false≢true e)
