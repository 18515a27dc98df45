-- ===== src/Bridge/Change/Timeout.antt =====
-- What a PATCH request can do to the idle timeout.
use okam_ha_native.Base.{
  true, not, ◌++◌, ◌≡◌, refl, subst, Option, none, some, Bool-cases, inl, inr, ◌⊎◌, if◌then◌else◌,
  Result, ok, bind-eq_ok,
}
use okam_ha_native.Base.Bytes.{equal}
use okam_ha_native.Base.Int.{ℤ}
use okam_ha_native.Base.Text.{codes}
use okam_ha_native.Bridge.{CameraBridge, authenticated, bearer, camera_prefix}
use okam_ha_native.Bridge.Change.{
  request_json, set_timeout, timeout_json, patch_timeout, patch_body, patch_authorized,
  patch_bridge, do_patch,
}
use okam_ha_native.Bridge.Handler.{Request, Response, json, unauthorized, not_found}
use okam_ha_native.Bridge.Handler.Guarded.{authenticated-true}
use okam_ha_native.Json.{Members, get, as_int, between}

-- What is left of the bridge `b` by an accepted change to `seconds`.
pub record Accepted (b : CameraBridge) (r : Request) (answer : Response) (c : CameraBridge)
    : Type 0 where
  pub seconds : ℤ
  pub allowed : r.authorization ≡ some (bearer b.api_token)
  pub in_range : between 10 600 seconds ≡ true
  pub changed : set_timeout b seconds ≡ c
  pub told : json 200 (timeout_json seconds) ≡ answer

-- Nothing is changed, or an accepted change is.
abbrev Outcome : CameraBridge → Request → Response → CameraBridge → Type 0
Outcome b r answer c = (b ≡ c) ⊎ Accepted b r answer c

module _ (b : CameraBridge) (r : Request)
    (allowed : r.authorization ≡ some (bearer b.api_token)) where
  abbrev Kept : Response × CameraBridge → Type 0
  Kept p = Outcome b r p.0 p.1

  patch_timeout-Kept : (o : Option ℤ) → Kept (patch_timeout b o)
  unfolding patch_timeout
  patch_timeout-Kept none = inl refl
  patch_timeout-Kept (some seconds) = elim (Bool-cases (between 10 600 seconds)) [
    | inl good ↦ rw good (
        inr (record {
          seconds = seconds;
          allowed = allowed;
          in_range = good;
          changed = refl;
          told = refl;
        }))
    | inr bad ↦ rw bad (inl refl)
  ]

  patch_body-Kept : (o : Option Members) → Kept (patch_body b o)
  unfolding patch_body
  patch_body-Kept none = inl refl
  patch_body-Kept (some m) = patch_timeout-Kept (as_int (get "idle_timeout_seconds" m))

pair-Outcome :
    (b : CameraBridge) (r : Request) (p : Response × CameraBridge) (answer : Response)
    (c : CameraBridge)
    → Outcome b r p.0 p.1
    → ◌≡◌ {A = Result (Response × CameraBridge)} (ok p) (ok (answer, c))
    → Outcome b r answer c
pair-Outcome b r p answer c h e =
    let same : p ≡ (answer, c) = cc e in subst (λ q. Outcome b r q.0 q.1) same h

patch_authorized-Outcome :
    (b : CameraBridge) (r : Request) (answer : Response) (c : CameraBridge)
    → r.authorization ≡ some (bearer b.api_token)
    → patch_authorized b r ≡ ok (answer, c)
    → Outcome b r answer c
unfolding patch_authorized
patch_authorized-Outcome b r answer c allowed h =
    let (prefix, own, rest) =
      bind-eq_ok (camera_prefix b)
        (λ prefix.
          if not (equal r.path (prefix ++ codes "/config"))
          then ok (not_found, b)
          else ok (patch_body b (request_json r)))
        (answer, c) h in
    elim (Bool-cases (equal r.path (prefix ++ codes "/config"))) [
      | inl config ↦
          pair-Outcome b r (patch_body b (request_json r)) answer c
            (patch_body-Kept b r allowed (request_json r)) (rw config at rest)
      | inr other ↦ pair-Outcome b r (not_found, b) answer c (inl refl) (rw other at rest)
    ]

patch_bridge-Outcome :
    (b : CameraBridge) (r : Request) (answer : Response) (c : CameraBridge)
    → patch_bridge b r ≡ ok (answer, c)
    → Outcome b r answer c
unfolding patch_bridge
patch_bridge-Outcome b r answer c h =
    let (allowed, checked, rest) =
      bind-eq_ok (authenticated b r.authorization)
        (λ allowed. if not allowed then ok (unauthorized, b) else patch_authorized b r) (answer, c)
        h in
    elim (Bool-cases allowed) [
      | inl granted ↦
          patch_authorized-Outcome b r answer c
            (authenticated-true b r.authorization (rw granted at checked)) (rw granted at rest)
      | inr denied ↦ pair-Outcome b r (unauthorized, b) answer c (inl refl) (rw denied at rest)
    ]

-- A PATCH request leaves the bridge as it is, or, if it has the token of the API, sets the idle
-- timeout to a number of seconds from 10 to 600, and says so in its answer.
pub do_patch-Outcome :
    (b c : CameraBridge) (r : Request) (answer : Response)
    → do_patch (some b) r ≡ ok (answer, some c)
    → Outcome b r answer c
unfolding do_patch
do_patch-Outcome b c r answer h =
    let (p, patched, rest) =
      bind-eq_ok (patch_bridge b r) (λ p. ok (p.0, some p.1)) (answer, some c) h in
    let same_answer : p.0 ≡ answer = cc rest in
    let same_bridge : p.1 ≡ c = cc rest in
    patch_bridge-Outcome b r answer c (patched' p patched same_answer same_bridge)
  where
    patched' :
        (p : Response × CameraBridge)
        → patch_bridge b r ≡ ok p
        → p.0 ≡ answer
        → p.1 ≡ c
        → patch_bridge b r ≡ ok (answer, c)
    patched' (a, d) e k l = cc (e, k, l)
