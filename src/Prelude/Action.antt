-- ===== src/Prelude/Action.antt =====
-- Methods of an object: they change its state and may fail, and what was changed before a failure
-- stays changed.
use mathlib.Core.Path.{◌≡◌, refl}
use mathlib.Core.Bool.{Bool, true, false}
use native.Mathlib.Omega.{arith}
use hermez_node.Prelude.Result.{Result, ok, err, Error}

abbrev pub Method : Type 0 → Type 0 → Type 0
Method S A = S → Result A × S

infixl 5 ◌>>=◌ ◌>>◌
abbrev pub ◌>>=◌ : {S A B : Type 0} → Method S A → (A → Method S B) → Method S B
◌>>=◌ m f s = let (r, s') = m s in elim r [ ok a ↦ f a s' | err e ↦ (err e, s') ]

abbrev pub ◌>>◌ : {S B : Type 0} → Method S (Unit {0}) → Method S B → Method S B
m >> k = m >>= λ _. k

module _ {S : Type 0} where
  abbrev pub pure : {A : Type 0} → A → Method S A
  pure a s = (ok a, s)

  abbrev pub throw : {A : Type 0} → Error → Method S A
  throw e s = (err e, s)

  -- a computation on the state that changes nothing
  abbrev pub read : {A : Type 0} → (S → Result A) → Method S A
  read f s = (f s, s)

  abbrev pub gets : {A : Type 0} → (S → A) → Method S A
  gets f s = (ok (f s), s)

  abbrev pub throw_if : Bool → Error → Method S (Unit {0})
  throw_if true e = throw e
  throw_if false e = pure tt

  abbrev pub modify : (S → S) → Method S (Unit {0})
  modify f s = (ok tt, f s)

module _ {S A B : Type 0} where
  -- The two parts of a successful sequence.
  bind_parts :
      (p : Result A × S) (f : A → Method S B) {b : B} {s' : S}
      → (elim p.0 [ ok a ↦ f a p.1 | err e ↦ (err e, p.1) ]) ≡ (ok b, s')
      → (a : A) × (p ≡ (ok a, p.1)) × (f a p.1 ≡ (ok b, s'))
  bind_parts (ok a, s) f h = (a, refl, h)
  bind_parts (err e, s) f h = ground arith

  pub bind_ok :
      (m : Method S A) (f : A → Method S B) (s : S) {b : B} {s' : S}
      → (m >>= f) s ≡ (ok b, s')
      → (a : A) × (t : S) × (m s ≡ (ok a, t)) × (f a t ≡ (ok b, s'))
  bind_ok m f s h = let (a, p, q) = bind_parts (m s) f h in (a, (m s).1, p, q)

  from_parts :
      (p : Result A × S) (f : A → Method S B) {a : A} {t : S}
      → p ≡ (ok a, t)
      → (elim p.0 [ ok a ↦ f a p.1 | err e ↦ (err e, p.1) ]) ≡ f a t
  from_parts (ok b, s) f h = ground arith
  from_parts (err e, s) f h = ground arith

  -- A sequence whose first part succeeds goes on with the second.
  pub bind_from :
      (m : Method S A) (f : A → Method S B) (s : S) {a : A} {t : S}
      → m s ≡ (ok a, t)
      → (m >>= f) s ≡ f a t
  bind_from m f s h = from_parts (m s) f h

  err_parts :
      (p : Result A × S) (f : A → Method S B) {e : Error} {t : S}
      → p ≡ (err e, t)
      → (elim p.0 [ ok a ↦ f a p.1 | err x ↦ (err x, p.1) ]) ≡ (err e, t)
  err_parts (ok b, s) f h = ground arith
  err_parts (err x, s) f h = ground arith

  -- A sequence whose first part fails goes no further.
  pub bind_err :
      (m : Method S A) (f : A → Method S B) (s : S) {e : Error} {t : S}
      → m s ≡ (err e, t)
      → (m >>= f) s ≡ (err e, t)
  bind_err m f s h = err_parts (m s) f h
