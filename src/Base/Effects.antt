-- ===== src/Base/Effects.antt =====
-- Calls that may throw half way, on a state of any type: what a call has written before an exception
-- stays written.
use mathlib.Core.Path.{◌≡◌, refl, ap, ◌∙◌}
use v_backend.Base.Outcome.{Result, ok, err, HttpError}

-- A call: the state that it leaves, and what it returns or throws.
abbrev pub Effect : Type 0 → Type 0 → Type 0
Effect S A = S → S × Result A

module _ {S : Type 0} where
  abbrev pub continue : {A B : Type 0} → S → Result A → (A → Effect S B) → S × Result B
  continue s (err thrown) rest = (s, err thrown)
  continue s (ok value) rest = rest value s

  infixl 5 ◌>>=◌ ◌>>◌
  abbrev pub ◌>>=◌ : {A B : Type 0} → Effect S A → (A → Effect S B) → Effect S B
  ◌>>=◌ call rest s = let done = call s in continue done.0 done.1 rest

  abbrev pub ◌>>◌ : {B : Type 0} → Effect S (Unit {0}) → Effect S B → Effect S B
  check >> rest = check >>= λ done. rest

  abbrev pub return : {A : Type 0} → A → Effect S A
  return a s = (s, ok a)

  abbrev pub throw : {A : Type 0} → HttpError → Effect S A
  throw e s = (s, err e)

  abbrev pub write : (S → S) → Effect S (Unit {0})
  write f s = (f s, ok tt)

  -- A read.
  abbrev pub read : {A : Type 0} → (S → A) → Effect S A
  read f s = (s, ok (f s))

  -- A call that returns, and then the rest.
  pub >>=-done :
      {A B : Type 0} (call : Effect S A) (rest : A → Effect S B) (s t : S) (a : A)
      {end : S × Result B}
      → call s ≡ (t, ok a)
      → rest a t ≡ end
      → (call >>= rest) s ≡ end
  >>=-done call rest s t a first later = ap (λ e. continue e.0 e.1 rest) first ∙ later

  -- The converse: a bind that returned.
  pub >>=-returned :
      {A B : Type 0} (call : Effect S A) (rest : A → Effect S B) (s u : S) {b : B}
      → (call >>= rest) s ≡ (u, ok b)
      → (t : S) × (a : A) × (call s ≡ (t, ok a)) × (rest a t ≡ (u, ok b))
  >>=-returned {A = A} call rest s u {b} e = returned (call s) refl e
    where
      returned :
          (end : S × Result A)
          → call s ≡ end
          → continue end.0 end.1 rest ≡ (u, ok b)
          → (t : S) × (a : A) × (call s ≡ (t, ok a)) × (rest a t ≡ (u, ok b))
      returned (t, ok a) same h = (t, a, same, h)
      returned (t, err thrown) same h = cc
