-- ===== src/App/Keeps.antt =====
-- What a start does before the bridge is there: the status does not say that the camera is ready.
use okam_ha_native.Base.{
  Bool, true, false, not, List, [], ◌∷◌, ◌≡◌, refl, ◌∙◌, none, some, String, if◌then◌else◌, Error,
  Result, err, ok, all, arith,
}
use okam_ha_native.Base.Action.{Action, pure, raise, lift, continue, ◌>>=◌}
use okam_ha_native.App.{App, set_status}
use okam_ha_native.Json.{Json, boolean, Members, get, put, update, get-put}
use text.Mathlib.Text.{◌==◌ as str_eq}

-- The bridge is not there, and the status says so.
abbrev pub Unready : App → Type 0
Unready a = (a.bridge ≡ none) × (get "camera_ready" a.status ≡ some (boolean false))

pub record Keeps {A : Type 0} (m : Action App A) : Type 0 where
  pub kept : (a : App) → Unready a → Unready (m a).1

-- The values are those of other keys.
abbrev pub leaves : List (String × Json) → Bool
leaves values = all (λ v. not (str_eq v.0 "camera_ready")) values

pub get-update :
    (values : List (String × Json)) (m : Members)
    → leaves values ≡ true
    → get "camera_ready" (update values m) ≡ get "camera_ready" m
get-update [] m h = refl
get-update ((name, v) ∷ values) m h =
    let other : str_eq name "camera_ready" ≡ false = ground (arith, h) in
    let rest : leaves values ≡ true = ground (arith, h) in
    get-update values (put name v m) rest ∙ get-put "camera_ready" name v m ∙ rw other refl

pub set_status-Keeps :
    (values : List (String × Json)) → leaves values ≡ true → Keeps (set_status values)
set_status-Keeps values h = record {
  kept = λ a unready. (unready.0, get-update values a.status h ∙ unready.1);
}

pub pure-Keeps : {A : Type 0} (x : A) → Keeps {A = A} (pure x)
pure-Keeps x = record { kept = λ a h. h }

pub raise-Keeps : {A : Type 0} (e : Error) → Keeps {A = A} (raise e)
raise-Keeps e = record { kept = λ a h. h }

continue-Unready :
    {A B : Type 0} (r : Result A × App) (k : A → Action App B)
    → ((x : A) → Keeps (k x))
    → Unready r.1
    → Unready (continue r k).1
continue-Unready (ok x, b) k next h = (next x).kept b h
continue-Unready (err e, b) k next h = h

pub bind-Keeps :
    {A B : Type 0} (m : Action App A) (k : A → Action App B)
    → Keeps m
    → ((x : A) → Keeps (k x))
    → Keeps (m >>= k)
bind-Keeps m k first next = record { kept = λ a h. continue-Unready (m a) k next (first.kept a h) }

pub lift-Keeps :
    {A B : Type 0} (r : Result A) (k : A → Action App B)
    → ((x : A) → Keeps (k x))
    → Keeps (lift r >>= k)
lift-Keeps r k next = bind-Keeps (lift r) k (record { kept = λ a h. h }) next

pub if-Keeps :
    {A : Type 0} (b : Bool) (m k : Action App A) → Keeps m → Keeps k → Keeps (if b then m else k)
if-Keeps true m k h j = h
if-Keeps false m k h j = j
