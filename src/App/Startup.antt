-- ===== src/App/Startup.antt =====
-- `load_vendor_runtime`, and `main` up to the moment when it waits for its end.
pub mod Ready
use okam_ha_native.Base.{
  Bool, true, false, not, ◌&&◌, List, [], ◌∷◌, Option, none, some, String, ◌==◌, if◌then◌else◌,
  Error, Result, err, ok, cs2_error, cs2_timeout, login_rejected, p2p_error, account_error,
  wake_error, runtime_error, other_error, value_error, type_error, attribute_error, assertion,
  out_of_fuel, map, all,
}
use okam_ha_native.Base.Action.{Action, pure, raise, lift, modify, gets, done, ◌>>=◌, ◌>>◌}
use okam_ha_native.Base.Text.{Text, codes}
use okam_ha_native.Account.{AccountDevice}
use okam_ha_native.App.{App, OptionsFile, set_status, phase_is, text_json, enumerate_account}
use okam_ha_native.App.Acceptance.{Environment, run_p2p_acceptance}
use okam_ha_native.App.Configure.{configure_bridge}
use okam_ha_native.Bridge.{CameraBridge, SessionView}
use okam_ha_native.Json.{
  Json, boolean, string, object, Members, no_members, get, update, truthy, is_true, members_of,
}

-- `RUNTIME_ARCH`, in the names that the module gives to it.
pub data Arch : Type 0 where
  amd64 aarch64 : Arch
  unsupported : Arch

abbrev pub arch_name : Arch → String
arch_name amd64 = "amd64"
arch_name aarch64 = "aarch64"
arch_name unsupported = ""

-- What is found of the vendor's files: whether all required ones exist, what the download of the
-- missing ones comes to, whether the helper is there, and the report of the loader's probe.
pub record Vendor : Type 0 where
  pub complete : Bool
  pub fetched : Result (Unit {0})
  pub has_helper : Bool
  pub probed : Result Json

abbrev pub loader_status : Arch → List (String × Json)
loader_status arch =
    ("loader_ready", boolean true)
    ∷ phase_is "native_loader_ready"
    ∷ ("runtime_arch", string (codes (arch_name arch)))
    ∷ []

abbrev pub unless : Bool → Error → Action App Unit
unless b e = if b then done else raise e

abbrev pub unsatisfied : Error
unsatisfied = runtime_error "native loader did not satisfy every required symbol"

-- `all(result["symbols"].values())`
all_symbols : Option Json → Result Bool
all_symbols none = err (other_error "KeyError")
all_symbols (some (object symbols)) = ok (all (λ m. truthy (some m.1)) (members_of symbols))
all_symbols (some _) = err attribute_error

-- `result.get("hybris_load") is True and all(…)`
pub is_loaded : Json → Result Bool
unfolding all_symbols
is_loaded (object result) =
    if is_true (get "hybris_load" result) then all_symbols (get "symbols" result) else ok false
is_loaded _ = err attribute_error

pub load_arch : Arch → Vendor → Action App Unit
unfolding is_loaded
load_arch amd64 v =
    unless v.has_helper (runtime_error "native amd64 P2P helper is unavailable")
    >> set_status (loader_status amd64)
load_arch unsupported v = raise (runtime_error "Home Assistant architecture is unsupported")
load_arch aarch64 v = do
  set_status (phase_is "loading_arm64_sdk" ∷ [])
  result ← lift v.probed
  loaded ← lift (is_loaded result)
  unless loaded unsatisfied
  set_status (loader_status aarch64)

unfoldable pub load_vendor_runtime : Arch → Vendor → Action App Unit
unfolding load_arch
load_vendor_runtime arch v = do
  set_status (phase_is "fetching_vendor_sdk" ∷ [])
  if v.complete then done else lift v.fetched
  load_arch arch v

-- `STATUS` and `BRIDGE` as the module sets them.
abbrev pub starting : App
starting = record {
  status =
      update
        (("service", string (codes "okam-native-bridge"))
          ∷ ("loader_ready", boolean false)
          ∷ ("account_ready", boolean false)
          ∷ ("p2p_ready", boolean false)
          ∷ ("camera_ready", boolean false)
          ∷ ("connect_test_enabled", boolean false)
          ∷ ("auth_test_enabled", boolean false)
          ∷ ("camera_authenticated", boolean false)
          ∷ ("stream_test_enabled", boolean false)
          ∷ ("h264_ready", boolean false)
          ∷ ("snapshot_test_enabled", boolean false)
          ∷ ("snapshot_ready", boolean false)
          ∷ ("configuration_required", boolean true)
          ∷ phase_is "starting"
          ∷ [])
        no_members;
  bridge = none;
}

-- What the stages of the start meet: the files, the options, the account client, the services behind
-- the probes, and the secret and the session of the bridge.
pub record Setting : Type 0 where
  pub arch : Arch
  pub vendor : Vendor
  pub options : OptionsFile
  pub enumerate : Text → Text → Result (List AccountDevice)
  pub env : Environment
  pub stream_token : Text
  pub view : SessionView

pub with_device : Setting → Option AccountDevice → Action App Unit
with_device w none = done
with_device w (some device) = do
  run_p2p_acceptance w.env w.options device
  bridge ← configure_bridge w.env w.options device w.stream_token w.view
  done

-- The body of the `try` of `main`.
pub stages : Setting → Action App Unit
unfolding with_device
stages w = do
  load_vendor_runtime w.arch w.vendor
  device ← enumerate_account w.enumerate w.options
  with_device w device

-- `type(error).__name__`
abbrev pub class_name : Error → String
class_name (cs2_error m) = "CS2Error"
class_name (cs2_timeout m) = "CS2Timeout"
class_name (login_rejected attempts) = "CameraLoginRejected"
class_name (p2p_error m) = "P2PError"
class_name (account_error m) = "AccountError"
class_name (wake_error m) = "WakeError"
class_name (runtime_error m) = "RuntimeError"
class_name (other_error name) = name
class_name value_error = "ValueError"
class_name type_error = "TypeError"
class_name attribute_error = "AttributeError"
class_name assertion = "AssertionError"
class_name out_of_fuel = ""

-- `str(error).replace(" ", "_") if isinstance(error, P2PError) else None`
abbrev pub detail_of : Error → Option Text
detail_of (p2p_error m) = some (map (λ c. if c == b' ' then b'_' else c) (codes m))
detail_of _ = none

-- The `except Exception` of `main`.
abbrev pub failure_status : Error → App → List (String × Json)
failure_status e a =
    phase_is
      (if truthy (get "loader_ready" a.status) then "startup_error" else "native_loader_error")
    ∷ ("error", string (codes (class_name e)))
    ∷ ("error_detail", text_json (detail_of e))
    ∷ []

unfoldable pub report_failure : Error → App → App
report_failure e a = record a { status = update (failure_status e a) a.status }

abbrev pub caught : Result (Unit {0}) × App → App
caught (ok u, a) = a
caught (err e, a) = report_failure e a

-- The state in which `main` serves, until it is told to stop.
unfoldable pub start : Setting → App → App
unfolding stages report_failure
start w a = caught (stages w a)
