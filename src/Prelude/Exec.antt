-- ===== src/Prelude/Exec.antt =====
-- Exceptions as values, and methods that mutate an object and may raise.
use mathlib.Core.Path.{◌≡◌, refl}
use mathlib.Core.Logic.{◌⊎◌, inl, inr}
use mathlib.Core.Bool.{Bool, true, false}
use mathlib.Core.Option.{Option, none, some}
use Prim.Native.String.{String}
use journey_map.Prelude.Int.{ℤ}
use journey_map.Prelude.Tests.{if◌then◌else◌}

-- The exception classes that the modelled code raises. `validation` is `ActionValidationError`
-- with its reason code, and `delivery` an `EventDeliveryError` with its event and subscriber.
pub data Error : Type 0 where
  validation : String → Error
  value_error type_error key_error runtime_error assertion_error canonical_value : Error
  initial_state_mismatch reentrant_mutation clock_error : Error
  handler_registration handler_not_found action_handler_not_found : Error
  module_registration module_dependency event_subscription : Error
  delivery : String → ℤ × String × String → Error
  game_submission : String → Error
  -- an exception of a callback that the program does not define
  foreign : String → Error

-- What `except ValueError` catches.
abbrev pub is_value_error : Error → Bool
is_value_error (validation _) = true
is_value_error value_error = true
is_value_error canonical_value = true
is_value_error initial_state_mismatch = true
is_value_error clock_error = true
is_value_error handler_registration = true
is_value_error module_registration = true
is_value_error module_dependency = true
is_value_error event_subscription = true
is_value_error _ = false

-- What a call ends with: an exception that it raises, or the value that it returns.
pub data Result {ℓ} (A : Type ℓ) : Type ℓ where
  err : Error → Result A
  ok : A → Result A

module _ {ℓ κ} {A : Type ℓ} {B : Type κ} where
  infixl 5 ◌>>=◌
  abbrev pub ◌>>=◌ : Result A → (A → Result B) → Result B
  err raised >>= next = err raised
  ok value >>= next = next value

  -- The two ways in which a bind ends well: both parts did.
  pub >>=-eq-ok :
      (first_part : Result A) (next : A → Result B) {c : B}
      → (first_part >>= next) ≡ ok c
      → (value : A) × (first_part ≡ ok value) × (next value ≡ ok c)
  >>=-eq-ok (err raised) next ends = cc
  >>=-eq-ok (ok value) next ends = (value, refl, ends)

  infixl 5 ◌>>◌
  abbrev pub ◌>>◌ : Result A → Result B → Result B
  first_part >> second_part = first_part >>= λ _. second_part

abbrev pub raise_if : Bool → Error → Result (Unit {0})
raise_if b e = if b then err e else ok tt

module _ {ℓ} {A : Type ℓ} where
  abbrev pub or_raise : Option A → Error → Result A
  or_raise none e = err e
  or_raise (some a) e = ok a

  pub or_raise-eq-ok : (o : Option A) (e : Error) (a : A) → or_raise o e ≡ ok a → o ≡ some a
  or_raise-eq-ok none e a h = cc
  or_raise-eq-ok (some b) e a h = cc

  -- `try: m except ValueError as error: raise e from error`
  abbrev pub rethrow_value_error : Error → Result A → Result A
  rethrow_value_error e (ok a) = ok a
  rethrow_value_error e (err e') = if is_value_error e' then err e else err e'

  pub Result-cases : (r : Result A) → ((a : A) × (r ≡ ok a)) ⊎ ((e : Error) × (r ≡ err e))
  Result-cases (ok a) = inl (a, refl)
  Result-cases (err e) = inr (e, refl)

  pub ok-injective : {a b : A} → ok a ≡ ok b → a ≡ b
  ok-injective h = cc

  abbrev pub is_ok : Result A → Bool
  is_ok (ok a) = true
  is_ok (err e) = false
