-- ===== src/Base/Errors.antt =====
-- Exceptions as values: `CS2Error`, its two subclasses, and the `Result` of code that may raise.
use okam_ha_native.Base.Int.{ℤ}
use Prim.Native.String.{String}
use mathlib.Core.Path.{◌≡◌, refl}
use mathlib.Core.Bool.{Bool, true, false}
use mathlib.Core.List.{List}
use mathlib.Core.Option.{Option, none, some}

-- `cs2_error` and `p2p_error` carry the message, `login_rejected` the attempts. `value_error` is the `ValueError`
-- of `int()` on too many digits, `assertion` a failed `assert`. `out_of_fuel` is no outcome of the
-- code, only of a loop of the model that was given too few rounds. The others are Python's own, and
-- the errors of the account and the wake-up clients; `other_error` carries the name of its class.
pub data Error : Type 0 where
  cs2_error : String → Error
  cs2_timeout : String → Error
  login_rejected : List (Option ℤ) → Error
  p2p_error : String → Error
  account_error wake_error runtime_error : String → Error
  other_error : String → Error
  value_error type_error attribute_error assertion out_of_fuel : Error

-- `except CS2Error`
abbrev pub is_cs2_error : Error → Bool
is_cs2_error (cs2_error m) = true
is_cs2_error (cs2_timeout m) = true
is_cs2_error (login_rejected attempts) = true
is_cs2_error _ = false

-- What a function of the code returns or raises.
pub data Result {ℓ} (A : Type ℓ) : Type ℓ where
  err : Error → Result A
  ok : A → Result A

-- `if not b: raise …`
abbrev pub demand : Bool → Error → Result (Unit {0})
demand false e = err e
demand true e = ok tt

abbrev pub some_or_raise {ℓ} : {A : Type ℓ} → Error → Option A → Result A
some_or_raise e none = err e
some_or_raise e (some a) = ok a

module _ {A B : Type 0} where
  infixl 5 ◌>>=◌
  abbrev pub ◌>>=◌ : Result A → (A → Result B) → Result B
  err e >>= next = err e
  ok a >>= next = next a

infixl 5 ◌>>◌
abbrev pub ◌>>◌ : {B : Type 0} → Result (Unit {0}) → Result B → Result B
checked >> next = checked >>= (λ _. next)

-- `if not b: raise CS2Error(message)`
abbrev pub require : Bool → String → Result (Unit {0})
require false message = err (cs2_error message)
require true message = ok tt

-- A chain that returned a value has returned one at each step.
pub require-eq_ok :
    {A : Type 0} (b : Bool) (message : String) (r : Result A) (a : A)
    → (require b message >> r) ≡ ok a
    → (b ≡ true) × (r ≡ ok a)
require-eq_ok true message r a h = (refl, h)
require-eq_ok false message r a h = absurd (cc h)

pub bind-eq_ok :
    {A B : Type 0} (r : Result A) (next : A → Result B) (b : B)
    → (r >>= next) ≡ ok b
    → (a : A) × (r ≡ ok a) × (next a ≡ ok b)
bind-eq_ok (ok a) next b h = (a, refl, h)
bind-eq_ok (err e) next b h = absurd (cc h)

pub demand-eq_ok :
    {A : Type 0} (b : Bool) (e : Error) (r : Result A) (a : A)
    → (demand b e >> r) ≡ ok a
    → (b ≡ true) × (r ≡ ok a)
demand-eq_ok true e r a h = (refl, h)
demand-eq_ok false e r a h = absurd (cc h)

pub some_or_raise-eq_ok {ℓ} :
    {A : Type ℓ} (e : Error) (o : Option A) (a : A) → some_or_raise e o ≡ ok a → o ≡ some a
some_or_raise-eq_ok e (some b) a h = cc h
some_or_raise-eq_ok e none a h = absurd (cc h)
