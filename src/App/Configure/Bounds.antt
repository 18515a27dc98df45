-- ===== src/App/Configure/Bounds.antt =====
-- A configured bridge has a long token and an idle timeout in its bounds, and keeps them.
use okam_ha_native.Base.{
  true, ◌≡◌, ◌⊎◌, inl, inr, refl, subst, Bool-cases, Option, none, some, Result, err, ok,
}
use okam_ha_native.Base.Action.{Action, continue}
use okam_ha_native.Base.Int.{ℤ}
use okam_ha_native.Base.Text.{Text}
use okam_ha_native.Account.{AccountDevice}
use okam_ha_native.App.{App, OptionsFile, load_options, alias_of, text_or_raise, bad_alias}
use okam_ha_native.App.Acceptance.{Environment, require_credentials}
use okam_ha_native.Bridge.{CameraBridge, SessionView}
use okam_ha_native.Bridge.Change.{do_patch}
use okam_ha_native.Bridge.Change.Timeout.{Accepted, do_patch-Outcome}
use okam_ha_native.Bridge.Handler.{Request, Response}
use okam_ha_native.Json.{Members, get, as_string, between}
use okam_ha_native.P2p.Field.{select_camera_password}
use okam_ha_native.App.Configure.{
  good_token, timeout_of, timeout_or_raise, prepare, without_token, prepare_with, configure_bridge,
}

-- What holds of a bridge that serves requests.
pub record IsConfigured (b : CameraBridge) : Type 0 where
  pub token : good_token (some b.api_token) ≡ true
  pub timeout : between 10 600 b.session.idle_timeout ≡ true

-- What a step that returned a bridge has returned.
abbrev Configured : Result (Option CameraBridge) × App → Type 0
Configured (ok (some b), a) = IsConfigured b
Configured (ok none, a) = Unit
Configured (err e, a) = Unit

continue-Configured :
    {A : Type 0} (r : Result A × App) (k : A → Action App (Option CameraBridge))
    → ((x : A) → r.0 ≡ ok x → Configured (k x r.1))
    → Configured (continue r k)
continue-Configured (ok x, a) k h = h x refl
continue-Configured (err e, a) k h = tt

timeout_or_raise-between :
    (o : Option ℤ) (n : ℤ) (a : App) → (timeout_or_raise o a).0 ≡ ok n → between 10 600 n ≡ true
timeout_or_raise-between none n a h = absurd (cc h)
timeout_or_raise-between (some m) n a h = elim (Bool-cases (between 10 600 m)) [
  | inl good ↦
      let same : m ≡ n = cc (rw good at h) in subst (λ x. between 10 600 x ≡ true) same good
  | inr bad ↦ absurd (cc (rw bad at h))
]

prepare-Configured :
    (env : Environment) (device : AccountDevice) (stream_token : Text) (view : SessionView)
    (options : Members) (api_token : Text) (a : App)
    → good_token (some api_token) ≡ true
    → Configured (prepare env device stream_token view options api_token a)
unfolding prepare
prepare-Configured env device stream_token view options api_token a good =
    continue-Configured (text_or_raise bad_alias (as_string (alias_of options)) a) _ (λ alias e.
      continue-Configured (timeout_or_raise (timeout_of (get "idle_timeout_seconds" options)) _) _
        (λ seconds found. continue-Configured (require_credentials env.has_credentials _) _ (λ u e.
          continue-Configured (env.resolve_client_id device.uid, _) _
            (λ client_id e.
              continue-Configured (env.get_service_parameter client_id, _) _
                (λ service_parameter e. record {
                  token = good;
                  timeout =
                      timeout_or_raise-between (timeout_of (get "idle_timeout_seconds" options))
                        seconds (text_or_raise bad_alias (as_string (alias_of options)) a).1 found;
                })))))

without_token-Configured : (a : App) → Configured (without_token a)
unfolding without_token
without_token-Configured a = tt

prepare_with-Configured :
    (env : Environment) (device : AccountDevice) (stream_token : Text) (view : SessionView)
    (options : Members) (api_token : Option Text) (a : App)
    → Configured (prepare_with env device stream_token view options api_token a)
unfolding prepare_with
prepare_with-Configured env device stream_token view options none a = without_token-Configured a
prepare_with-Configured env device stream_token view options (some api_token) a =
    elim (Bool-cases (good_token (some api_token))) [
      | inl good ↦
          rw good (prepare-Configured env device stream_token view options api_token a good)
      | inr bad ↦ rw bad (without_token-Configured a)
    ]

-- If a bridge is configured, its API token has 16 to 1024 characters, and its idle timeout is from 10
-- to 600 seconds.
pub configure_bridge-Configured :
    (env : Environment) (file : OptionsFile) (device : AccountDevice) (stream_token : Text)
    (view : SessionView) (a : App)
    → Configured (configure_bridge env file device stream_token view a)
unfolding configure_bridge
configure_bridge-Configured env file device stream_token view a =
    continue-Configured (load_options file, a) _
      (λ options e.
        continue-Configured
          (select_camera_password (some device.device_password) (get "camera_password" options), a)
          _
          (λ camera_password f.
            prepare_with-Configured env device stream_token view options
              (as_string (get "api_token" options)) a))

Accepted-IsConfigured :
    (b c : CameraBridge) (r : Request) (answer : Response)
    → IsConfigured b
    → (b ≡ c) ⊎ Accepted b r answer c
    → IsConfigured c
Accepted-IsConfigured b c r answer h (inl same) = subst IsConfigured same h
Accepted-IsConfigured b c r answer h (inr accepted) =
    subst IsConfigured accepted.changed (record { token = h.token; timeout = accepted.in_range })

-- A PATCH request keeps a configured bridge configured.
pub do_patch-IsConfigured :
    (b c : CameraBridge) (r : Request) (answer : Response)
    → IsConfigured b
    → do_patch (some b) r ≡ ok (answer, some c)
    → IsConfigured c
do_patch-IsConfigured b c r answer h patched =
    Accepted-IsConfigured b c r answer h (do_patch-Outcome b c r answer patched)
