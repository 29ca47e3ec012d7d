-- ===== src/Base/Go.antt =====
-- The results of Go functions: a panic ends the call, and an error is a value beside the result.
use Prim.Native.Nat.{ℕ}
use mathlib.Core.Path.{◌≡◌, refl}
use mathlib.Core.Logic.{◌⊎◌, inl, inr}
use mathlib.Core.Bool.{Bool, false}
use cropstun.Base.Tests.{◌==◌}

-- The errors that the source names; `os` is one that a system call or a library returned.
pub data Error : Type 0 where
  short_buffer : Error
  eof : Error
  unexpected_eof : Error
  incorrect_buffer_size : Error
  invalid_network : Error
  not_found : Error
  closed : Error
  send_ring_corrupt : Error
  no_route : Error
  invalid_argument : Error
  interface_not_found : Error
  bad_tun_name : Error
  no_process : ℕ → ℕ → Error
  os : ℕ → Error

pub data Outcome {ℓ} (A : Type ℓ) : Type ℓ where
  returns : A → Outcome A
  panics : Outcome A

-- A value or an error, as a call that returns both yields just one of them.
pub data Result {ℓ} (A : Type ℓ) : Type ℓ where
  ok : A → Result A
  err : Error → Result A

pub Result-cases {ℓ} :
    {A : Type ℓ} (r : Result A) → ((a : A) × (r ≡ ok a)) ⊎ ((e : Error) × (r ≡ err e))
Result-cases (ok a) = inl (a, refl)
Result-cases (err e) = inr (e, refl)

-- `err == unix.EPERM`
abbrev pub is_eperm : Error → Bool
is_eperm (Error.os n) = n == 1
is_eperm _ = false

infixl 5 ◌>>=◌ ◌>>◌
abbrev pub ◌>>=◌ {ℓ κ} : {A : Type ℓ} {B : Type κ} → Outcome A → (A → Outcome B) → Outcome B
returns a >>= f = f a
panics >>= f = panics

abbrev pub ◌>>◌ {ℓ} : {B : Type ℓ} → Outcome (Unit {0}) → Outcome B → Outcome B
m >> k = m >>= λ _. k

-- The call returns, and the result has the property.
abbrev pub Returns {ℓ} : {A : Type ℓ} → (A → Type 0) → Outcome A → Type 0
Returns P (returns a) = P a
Returns P panics = ⊥

pub returned {ℓ} :
    {A : Type ℓ} (P : A → Type 0) (o : Outcome A) → Returns P o → (a : A) × (o ≡ returns a) × P a
returned P (returns a) h = (a, refl, h)
returned P panics h = elim h [ ]

-- The rule for `>>=`.
pub Returns-bind {ℓ κ} :
    {A : Type ℓ} {B : Type κ} (P : A → Type 0) (Q : B → Type 0) (m : Outcome A) (f : A → Outcome B)
    → Returns P m
    → ((a : A) → P a → Returns Q (f a))
    → Returns Q (m >>= f)
Returns-bind P Q (returns a) f h k = k a h
Returns-bind P Q panics f h k = h

pub Returns-imp {ℓ} :
    {A : Type ℓ} {P Q : A → Type 0} (o : Outcome A)
    → ((a : A) → P a → Q a)
    → Returns P o
    → Returns Q o
Returns-imp (returns a) f h = f a h
Returns-imp panics f h = h
