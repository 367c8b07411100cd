-- ===== src/Base/Outcome.antt =====
-- What a call of a service or a repository returns: a value, or the HTTP exception that it throws.
use mathlib.Core.Path.{◌≡◌, refl}
use mathlib.Core.Logic.{◌⊎◌, inl, inr}
use mathlib.Core.Bool.{Bool, true, false}
use mathlib.Core.Option.{Option, none, some}

-- The exceptions that the modelled code throws or lets through: `internal` is a plain `Error`,
-- `unique_violation` the database error of a unique index (prisma/schema.prisma).
pub data HttpError : Type 0 where
  bad_request not_found unauthorized forbidden internal unique_violation : HttpError

pub data Result {ℓ} (A : Type ℓ) : Type ℓ where
  err : HttpError → Result A
  ok : A → Result A

module _ {κ} {B : Type κ} where
  -- `await` in the rest of a handler: an exception ends it.
  infixl 5 ◌>>=◌
  abbrev pub ◌>>=◌ {ℓ} : {A : Type ℓ} → Result A → (A → Result B) → Result B
  err thrown >>= rest = err thrown
  ok value >>= rest = rest value

  -- The same for a check, which returns nothing.
  infixl 5 ◌>>◌
  abbrev pub ◌>>◌ : Result (Unit {0}) → Result B → Result B
  check >> rest = check >>= λ done. rest

  -- Inversion of a bind that succeeded.
  pub >>=-eq-ok {ℓ} :
      {A : Type ℓ} (call : Result A) (rest : A → Result B) {b : B}
      → (call >>= rest) ≡ ok b
      → (a : A) × (call ≡ ok a) × (rest a ≡ ok b)
  >>=-eq-ok (err thrown) rest e = cc
  >>=-eq-ok (ok value) rest e = (value, refl, e)

module _ {ℓ} {A : Type ℓ} where
  -- `if (!row) throw e`
  abbrev pub or_throw : Option A → HttpError → Result A
  or_throw none e = err e
  or_throw (some row) e = ok row

  pub or_throw-eq-ok : (o : Option A) (e : HttpError) {a : A} → or_throw o e ≡ ok a → o ≡ some a
  or_throw-eq-ok none e h = cc
  or_throw-eq-ok (some row) e h = cc

  pub ok-injective : {a b : A} → ok a ≡ ok b → a ≡ b
  ok-injective h = cc

  pub Result-cases :
      (call : Result A) → ((a : A) × (call ≡ ok a)) ⊎ ((e : HttpError) × (call ≡ err e))
  Result-cases (err e) = inr (e, refl)
  Result-cases (ok a) = inl (a, refl)

-- `if (bad) throw e`
abbrev pub throw_if : Bool → HttpError → Result (Unit {0})
throw_if true e = err e
throw_if false e = ok tt

pub throw_if-passed : (b : Bool) (e : HttpError) {u : Unit {0}} → throw_if b e ≡ ok u → b ≡ false
throw_if-passed true e h = cc
throw_if-passed false e h = refl
