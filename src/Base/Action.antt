-- ===== src/Base/Action.antt =====
-- Methods that change an object and may raise: what was changed before a raise stays changed.
use okam_ha_native.Base.Errors.{Error, Result, ok, err, cs2_error}
use Prim.Native.String.{String}
use mathlib.Core.Path.{◌≡◌, refl, ap}
use mathlib.Core.Bool.{Bool, true, false}

abbrev pub Action {ℓ} : Type ℓ → Type ℓ → Type ℓ
Action S A = S → Result A × S

module _ {ℓ} {S A : Type ℓ} where
  abbrev pub pure : A → Action S A
  pure a s = (ok a, s)

  abbrev pub raise : Error → Action S A
  raise e s = (err e, s)

  abbrev pub lift : Result A → Action S A
  lift r s = (r, s)

  abbrev pub gets : (S → A) → Action S A
  gets f s = (ok (f s), s)

module _ {ℓ} {S A B : Type ℓ} where
  abbrev pub continue : Result A × S → (A → Action S B) → Result B × S
  continue (ok a, s) f = f a s
  continue (err e, s) f = (err e, s)

  infixl 5 ◌>>=◌ ◌>>◌
  abbrev pub ◌>>=◌ : Action S A → (A → Action S B) → Action S B
  ◌>>=◌ m f s = continue (m s) f

  abbrev pub ◌>>◌ : Action S A → Action S B → Action S B
  ◌>>◌ m k s = continue (m s) (λ _. k)

abbrev pub done {ℓ} : {S : Type ℓ} → Action S (Unit {ℓ})
done s = (ok tt, s)

abbrev pub modify {ℓ} : {S : Type ℓ} → (S → S) → Action S (Unit {ℓ})
modify f s = (ok tt, f s)

-- `if not b: raise CS2Error(message)`
abbrev pub check {ℓ} : {S : Type ℓ} → Bool → String → Action S (Unit {ℓ})
check true message s = (ok tt, s)
check false message s = (err (cs2_error message), s)

-- Inversion of a bind that returned.
pub continue-eq_ok {ℓ} :
    {S A B : Type ℓ} (r : Result A × S) (f : A → Action S B) {b : B} {t : S}
    → continue r f ≡ (ok b, t)
    → (a : A) × (r.0 ≡ ok a) × (f a r.1 ≡ (ok b, t))
continue-eq_ok (ok a, s) f h = (a, refl, h)
continue-eq_ok (err e, s) f h = cc

abbrev ok_or {ℓ} : {A : Type ℓ} → A → Result A → A
ok_or a (ok b) = b
ok_or a (err e) = a

pub pure-eq_ok {ℓ} :
    {S A : Type ℓ} {a b : A} {s t : S} → ◌≡◌ {A = Result A × S} (ok a, s) (ok b, t) → a ≡ b
pure-eq_ok {a = a} h = ap (λ r. ok_or a r.0) h

-- A last step that only computes a value.
pub continue-pure {ℓ} :
    {S A B : Type ℓ} (r : Result A × S) (f : A → B) (a : A)
    → r.0 ≡ ok a
    → (continue r (λ x. pure (f x))).0 ≡ ok (f a)
continue-pure (ok b, s) f a h = ap (λ x. ok (f (ok_or b x))) h
continue-pure (err e, s) f a h = cc
