-- ===== src/App.antt =====
-- src/okam_native_app/app_entrypoint.py: the add-on around the bridge. The log lines that it prints
-- are left out.
pub mod Keeps
pub mod Acceptance
pub mod Configure
pub mod Startup
use okam_ha_native.Base.{
  ℕ, Bool, true, false, not, ◌&&◌, ◌||◌, List, [], ◌∷◌, Option, none, some, String, ltb, leb, ◌==◌,
  if◌then◌else◌, Error, Result, err, ok, account_error, runtime_error, length,
}
use okam_ha_native.Base.Action.{Action, pure, raise, lift, modify, gets, done, ◌>>=◌, ◌>>◌}
use okam_ha_native.Base.Int.{ℤ, pos}
use okam_ha_native.Base.Text.{Text, codes}
use okam_ha_native.Account.{AccountDevice}
use okam_ha_native.Bridge.{CameraBridge, SessionStatus}
use okam_ha_native.Json.{
  Json, null, boolean, number, string, object, Members, get, put, update, truthy, as_string, as_int,
  between,
}

-- `STATUS`, and whether the bridge is there.
pub record App : Type 0 where
  pub status : Members
  pub bridge : Option CameraBridge

abbrev pub set_status : List (String × Json) → Action App Unit
set_status values = modify (λ a. record a { status = update values a.status })

abbrev pub phase_is : String → String × Json
phase_is name = ("phase", string (codes name))

abbrev pub json_of : Option Bool → Json
json_of none = null
json_of (some b) = boolean b

abbrev pub text_json : Option Text → Json
text_json none = null
text_json (some t) = string t

abbrev phase_of : SessionStatus → String
phase_of s =
    if s.running && s.media_ready
    then "streaming"
    else if s.running
    then "camera_waking"
    else "bridge_ready"

abbrev pub session_status : CameraBridge → List (String × Json)
session_status b =
    let s = b.session.status in
    ("stream_running", boolean s.running)
    ∷ ("stream_viewers", number (pos s.viewers))
    ∷ ("stream_media_ready", boolean s.media_ready)
    ∷ ("idle_timeout_seconds", number b.session.idle_timeout)
    ∷ ("clean_disconnect", json_of s.clean_disconnect)
    ∷ ("stream_error", text_json s.last_error)
    ∷ phase_is (phase_of s)
    ∷ []

-- `get_status`
unfoldable pub get_status : App → Members
get_status a = elim a.bridge [ none ↦ a.status | some b ↦ update (session_status b) a.status ]

-- `load_options`, of what `json.loads` makes of the file: no file, a text that is no JSON, or a value.
pub data OptionsFile : Type 0 where
  missing unreadable : OptionsFile
  holds : Json → OptionsFile

abbrev bad_options : Error
bad_options = runtime_error "Home Assistant app options are invalid"

unfoldable pub load_options : OptionsFile → Result Members
load_options missing = ok okam_ha_native.Json.no_members
load_options unreadable = err bad_options
load_options (holds (object m)) = ok m
load_options (holds _) = err bad_options

-- `options.get("camera_id") or "cabin"`
abbrev pub alias_of : Members → Option Json
alias_of options =
    if truthy (get "camera_id" options)
    then get "camera_id" options
    else some (string (codes "cabin"))

-- A string that is not empty.
abbrev pub credential : Option Text → Option Text
credential none = none
credential (some []) = none
credential (some t) = some t

abbrev pub text_or_raise : Error → Option Text → Action App Text
text_or_raise e none = raise e
text_or_raise e (some t) = pure t

abbrev bad_alias : Error
bad_alias = runtime_error "camera alias is invalid"

-- The account lists exactly one camera.
abbrev pub only_device : List AccountDevice → Action App AccountDevice
only_device (d ∷ []) = pure d
only_device _ = raise (account_error "O-KAM account must expose exactly one camera")

abbrev pub enumerating_status : List (String × Json)
enumerating_status = phase_is "enumerating_account" ∷ ("configuration_required", boolean false) ∷ []

abbrev pub account_status : Text → List (String × Json)
account_status alias =
    ("account_ready", boolean true)
    ∷ ("device_count", number (pos 1))
    ∷ ("camera_alias", string alias)
    ∷ phase_is "account_enumerated"
    ∷ []

pub enumerate_with :
    (Text → Text → Result (List AccountDevice))
    → Members
    → Text
    → Text
    → Action App (Option AccountDevice)
enumerate_with enumerate options username password = do
  alias ← text_or_raise bad_alias (as_string (alias_of options))
  set_status enumerating_status
  devices ← lift (enumerate username password)
  device ← only_device devices
  set_status (account_status alias)
  pure (some device)

pub enumerate_given :
    (Text → Text → Result (List AccountDevice))
    → Members
    → Option Text
    → Option Text
    → Action App (Option AccountDevice)
unfolding enumerate_with
enumerate_given enumerate options (some username) (some password) =
    enumerate_with enumerate options username password
enumerate_given enumerate options _ _ = do
  set_status (("configuration_required", boolean true) ∷ [])
  pure none

-- `enumerate_account`; `enumerate` is the method of the account client.
unfoldable pub enumerate_account :
    (Text → Text → Result (List AccountDevice)) → OptionsFile → Action App (Option AccountDevice)
unfolding enumerate_given
enumerate_account enumerate file = do
  options ← lift (load_options file)
  enumerate_given enumerate options (credential (as_string (get "account_username" options)))
      (credential (as_string (get "account_password" options)))
