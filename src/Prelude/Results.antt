-- ===== src/Prelude/Results.antt =====
-- What a Python call gives: a value, or the exception or `exit` that ends the program.
use Prim.Native.Nat.{ℕ}
use mathlib.Core.Path.{◌≡◌, refl}
use mathlib.Core.Logic.{◌⊎◌, inl, inr}
use mathlib.Core.Bool.{Bool, true, false}

pub data Failure : Type 0 where
  index_error value_error unbound_local zero_division attribute_error : Failure
  file_not_found : Failure
  -- not of Python: a loop of the model was given too few rounds
  out_of_fuel : Failure
  system_exit : ℕ → Failure

pub data Outcome {ℓ} (A : Type ℓ) : Type ℓ where
  ok : A → Outcome A
  raise : Failure → Outcome A

infixl 5 ◌>>=◌
abbrev pub ◌>>=◌ {ℓ κ} : {X : Type ℓ} {Y : Type κ} → Outcome X → (X → Outcome Y) → Outcome Y
raise failure >>= next = raise failure
ok value >>= next = next value

-- `if test: ... exit(1)` in front of what follows.
abbrev pub stop_if {ℓ} : {A : Type ℓ} → Bool → Failure → Outcome A → Outcome A
stop_if true e rest = raise e
stop_if false e rest = rest

pub >>=-eq-ok {ℓ κ} :
    {X : Type ℓ} {Y : Type κ} {y : Y} (first : Outcome X) (then : X → Outcome Y)
    → first >>= then ≡ ok y
    → (x : X) × (first ≡ ok x) × (then x ≡ ok y)
>>=-eq-ok (raise failure) then returned = cc
>>=-eq-ok (ok x) then returned = (x, refl, returned)

-- The predicate holds of the value, if there is one.
abbrev pub OnOk {ℓ} : {A : Type ℓ} → (A → Type 0) → Outcome A → Type 0
OnOk P (ok a) = P a
OnOk P (raise e) = Unit

pub Outcome-cases {ℓ} :
    {A : Type ℓ} (r : Outcome A) → ((a : A) × (r ≡ ok a)) ⊎ ((e : Failure) × (r ≡ raise e))
Outcome-cases (ok a) = inl (a, refl)
Outcome-cases (raise e) = inr (e, refl)

abbrev pub is_ok {ℓ} : {A : Type ℓ} → Outcome A → Bool
is_ok (ok a) = true
is_ok (raise e) = false

pub ok-injective {ℓ} : {A : Type ℓ} {a b : A} → ok a ≡ ok b → a ≡ b
ok-injective h = cc
