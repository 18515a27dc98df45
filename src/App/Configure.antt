-- ===== src/App/Configure.antt =====
-- `configure_bridge`: the bridge for the camera, without waking it.
pub mod Bounds
pub mod Ready
use okam_ha_native.Base.{
  ℕ, ◌≤◌, Bool, true, false, ◌&&◌, List, [], ◌∷◌, ◌≡◌, ◌⊎◌, inl, inr, refl, subst, Bool-cases,
  Option, none, some, String, leb, if◌then◌else◌, Error, Result, err, ok, runtime_error, length,
  arith,
}
use okam_ha_native.Base.Action.{
  Action, pure, raise, lift, modify, continue, continue-eq_ok, pure-eq_ok, ◌>>=◌, ◌>>◌,
}
use okam_ha_native.Base.Int.{ℤ, pos}
use okam_ha_native.Base.Text.{Text}
use okam_ha_native.Account.{AccountDevice}
use okam_ha_native.App.{
  App, set_status, phase_is, OptionsFile, load_options, alias_of, text_or_raise, bad_alias,
}
use okam_ha_native.App.Acceptance.{Environment, require_credentials}
use okam_ha_native.Bridge.{CameraBridge, SessionView, SessionStatus}
use okam_ha_native.Bridge.Change.{do_patch, set_timeout}
use okam_ha_native.Bridge.Change.Timeout.{Accepted, do_patch-Outcome}
use okam_ha_native.Bridge.Handler.{Request, Response}
use okam_ha_native.Json.{Json, boolean, number, string, Members, get, as_string, as_int, between}
use okam_ha_native.P2p.Field.{select_camera_password}

abbrev pub good_token : Option Text → Bool
good_token none = false
good_token (some t) = leb 16 (length t) && leb (length t) 1024

-- `options.get("idle_timeout_seconds", 120)`, if it is an integer
abbrev pub timeout_of : Option Json → Option ℤ
timeout_of none = some (pos 120)
timeout_of (some v) = as_int (some v)

abbrev pub bad_timeout : Error
bad_timeout = runtime_error "idle timeout is invalid"

abbrev pub timeout_or_raise : Option ℤ → Action App ℤ
timeout_or_raise none = raise bad_timeout
timeout_or_raise (some n) = if between 10 600 n then pure n else raise bad_timeout

-- `stream_token` is the secret that `CameraBridge` makes for itself, and `view` the session.
abbrev pub bridge_for : Text → Text → Text → Text → SessionView → ℤ → CameraBridge
bridge_for alias name api_token stream_token view seconds = record {
  camera_id = alias;
  camera_name = name;
  api_token = api_token;
  stream_token = stream_token;
  session = record view { idle_timeout = seconds };
}

abbrev pub install : CameraBridge → App → App
install b a = record a { bridge = some b }

pub prepare :
    Environment
    → AccountDevice
    → Text
    → SessionView
    → Members
    → Text
    → Action App (Option CameraBridge)
prepare env device stream_token view options api_token = do
  alias ← text_or_raise bad_alias (as_string (alias_of options))
  seconds ← timeout_or_raise (timeout_of (get "idle_timeout_seconds" options))
  require_credentials env.has_credentials
  client_id ← lift (env.resolve_client_id device.uid)
  service_parameter ← lift (env.get_service_parameter client_id)
  modify (install (bridge_for alias device.name api_token stream_token view seconds))
  set_status (
      ("camera_ready", boolean true)
      ∷ ("configuration_required", boolean false)
      ∷ phase_is "bridge_ready"
      ∷ ("idle_timeout_seconds", number seconds)
      ∷ [])
  pure (some (bridge_for alias device.name api_token stream_token view seconds))

pub without_token : Action App (Option CameraBridge)
without_token = do
  set_status (
      ("configuration_required", boolean true)
      ∷ ("camera_ready", boolean false)
      ∷ phase_is "api_token_required"
      ∷ [])
  pure none

pub prepare_with :
    Environment
    → AccountDevice
    → Text
    → SessionView
    → Members
    → Option Text
    → Action App (Option CameraBridge)
unfolding prepare without_token
prepare_with env device stream_token view options none = without_token
prepare_with env device stream_token view options (some api_token) =
    if good_token (some api_token)
    then prepare env device stream_token view options api_token
    else without_token

unfoldable pub configure_bridge :
    Environment
    → OptionsFile
    → AccountDevice
    → Text
    → SessionView
    → Action App (Option CameraBridge)
unfolding prepare_with
configure_bridge env file device stream_token view = do
  options ← lift (load_options file)
  camera_password ←
      lift (select_camera_password (some device.device_password) (get "camera_password" options))
  prepare_with env device stream_token view options (as_string (get "api_token" options))
