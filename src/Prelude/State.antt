-- ===== src/Prelude/State.antt =====
-- Methods that mutate an object and may raise. What was written before a raise stays written, so
-- the object comes back beside the exception too.
use journey_map.Prelude.Exec.{Result, ok, err}

-- A method of an object `Self` that gives an `A`.
abbrev pub Exec {ℓ} : Type ℓ → Type ℓ → Type ℓ
Exec Self A = Self → Result A × Self

module _ {ℓ} {Self A : Type ℓ} where
  -- A part of the object that is computed from the rest, and may raise.
  abbrev pub reads : (Self → Result A) → Exec Self A
  reads part self = (part self, self)

  abbrev pub gets : (Self → A) → Exec Self A
  gets part = reads (λ self. ok (part self))

  abbrev pub lift : Result A → Exec Self A
  lift ended = reads (λ _. ended)

  abbrev pub pure : A → Exec Self A
  pure value = lift (ok value)

  -- `try: body finally: clean`
  abbrev pub finally_do : Exec Self A → (Self → Self) → Exec Self A
  finally_do body clean self = let out = body self in (out.0, clean out.1)

module _ {ℓ} {Self : Type ℓ} where
  abbrev pub modify : (Self → Self) → Exec Self (Unit {ℓ})
  modify change self = (ok tt, change self)

module _ {ℓ} {Self A B : Type ℓ} where
  -- What follows a call that ended, on the object that it left.
  abbrev pub continue : Result A → (A → Exec Self B) → Exec Self B
  continue (err raised) next left = (err raised, left)
  continue (ok value) next left = next value left

  infixl 5 ◌>>=◌
  unfoldable pub ◌>>=◌ : Exec Self A → (A → Exec Self B) → Exec Self B
  ◌>>=◌ body next self = let out = body self in continue out.0 next out.1

  infixl 5 ◌>>◌
  abbrev pub ◌>>◌ : Exec Self A → Exec Self B → Exec Self B
  body >> after = body >>= λ _. after
