-- ===== src/App/Startup/Ready.antt =====
-- When the status says that the camera is ready.
use okam_ha_native.Base.{
  Bool, true, List, [], ◌∷◌, ◌≡◌, refl, ◌∙◌, Option, none, some, if◌then◌else◌, Error, Result, err,
  ok, is_some,
}
use okam_ha_native.Base.Action.{Action, raise, lift, done, continue}
use okam_ha_native.Base.Text.{Text}
use okam_ha_native.Account.{AccountDevice}
use okam_ha_native.App.{
  App, OptionsFile, session_status, set_status, get_status, enumerate_account, enumerate_given,
  enumerate_with, enumerating_status, account_status, text_or_raise, bad_alias, only_device,
  phase_is, load_options, alias_of,
}
use okam_ha_native.App.Acceptance.{run_p2p_acceptance}
use okam_ha_native.App.Configure.{configure_bridge}
use okam_ha_native.App.Startup.{
  failure_status, loader_status, unless, unsatisfied, caught, Setting, start, stages, with_device,
  load_vendor_runtime, load_arch, is_loaded, report_failure, starting, Arch, amd64, aarch64,
  unsupported, Vendor,
}
use okam_ha_native.App.Configure.Ready.{IsReady, Unready-IsReady, configure_bridge-IsReady}
use okam_ha_native.App.Acceptance.Unready.{run_p2p_acceptance-Keeps}
use okam_ha_native.App.Keeps.{
  Unready, Keeps, get-update, set_status-Keeps, bind-Keeps, lift-Keeps, if-Keeps, pure-Keeps,
  raise-Keeps,
}
use okam_ha_native.Bridge.{CameraBridge}
use okam_ha_native.Json.{boolean, Members, get, get-put, as_string}

unless-Keeps : (b : Bool) (e : Error) → Keeps (unless b e)
unless-Keeps b e = if-Keeps b done (raise e) (pure-Keeps tt) (raise-Keeps e)

load_arch-Keeps : (arch : Arch) (v : Vendor) → Keeps (load_arch arch v)
unfolding load_arch
load_arch-Keeps amd64 v =
    bind-Keeps (unless v.has_helper _) _ (unless-Keeps v.has_helper _)
      (λ u. set_status-Keeps (loader_status amd64) refl)
load_arch-Keeps unsupported v = raise-Keeps _
load_arch-Keeps aarch64 v =
    bind-Keeps (set_status (phase_is "loading_arm64_sdk" ∷ [])) _
      (set_status-Keeps (phase_is "loading_arm64_sdk" ∷ []) refl)
      (λ u. lift-Keeps v.probed _ (λ result. lift-Keeps (is_loaded result) _ (λ loaded.
        bind-Keeps (unless loaded unsatisfied) _ (unless-Keeps loaded unsatisfied)
          (λ t. set_status-Keeps (loader_status aarch64) refl))))

load_vendor_runtime-Keeps : (arch : Arch) (v : Vendor) → Keeps (load_vendor_runtime arch v)
unfolding load_vendor_runtime
load_vendor_runtime-Keeps arch v =
    bind-Keeps (set_status (phase_is "fetching_vendor_sdk" ∷ [])) _
      (set_status-Keeps (phase_is "fetching_vendor_sdk" ∷ []) refl)
      (λ u.
        bind-Keeps (if v.complete then done else lift v.fetched) _
          (if-Keeps v.complete done (lift v.fetched) (pure-Keeps tt) (record { kept = λ a h. h }))
          (λ t. load_arch-Keeps arch v))

text_or_raise-Keeps : (e : Error) (t : Option Text) → Keeps (text_or_raise e t)
text_or_raise-Keeps e none = raise-Keeps e
text_or_raise-Keeps e (some t) = pure-Keeps t

only_device-Keeps : (devices : List AccountDevice) → Keeps (only_device devices)
only_device-Keeps [] = raise-Keeps _
only_device-Keeps (d ∷ []) = pure-Keeps d
only_device-Keeps (d ∷ e ∷ devices) = raise-Keeps _

enumerate_given-Keeps :
    (enumerate : Text → Text → Result (List AccountDevice)) (options : Members)
    (username password : Option Text)
    → Keeps (enumerate_given enumerate options username password)
unfolding enumerate_given enumerate_with
enumerate_given-Keeps enumerate options (some username) (some password) =
    bind-Keeps (text_or_raise bad_alias (as_string (alias_of options))) _
      (text_or_raise-Keeps bad_alias (as_string (alias_of options)))
      (λ alias.
        bind-Keeps (set_status enumerating_status) _ (set_status-Keeps enumerating_status refl)
          (λ u. lift-Keeps (enumerate username password) _ (λ devices.
            bind-Keeps (only_device devices) _ (only_device-Keeps devices) (λ device.
              bind-Keeps (set_status (account_status alias)) _
                (set_status-Keeps (account_status alias) refl) (λ t. pure-Keeps (some device))))))
enumerate_given-Keeps enumerate options none password =
    bind-Keeps (set_status (("configuration_required", boolean true) ∷ [])) _
      (set_status-Keeps (("configuration_required", boolean true) ∷ []) refl) (λ u. pure-Keeps none)
enumerate_given-Keeps enumerate options (some username) none =
    bind-Keeps (set_status (("configuration_required", boolean true) ∷ [])) _
      (set_status-Keeps (("configuration_required", boolean true) ∷ []) refl) (λ u. pure-Keeps none)

enumerate_account-Keeps :
    (enumerate : Text → Text → Result (List AccountDevice)) (file : OptionsFile)
    → Keeps (enumerate_account enumerate file)
unfolding enumerate_account
enumerate_account-Keeps enumerate file =
    lift-Keeps (load_options file) _ (λ options. enumerate_given-Keeps enumerate options _ _)

-- What follows a step that has not made the bridge.
continue-IsReady :
    {A B : Type 0} (r : Result A × App) (k : A → Action App B)
    → Unready r.1
    → ((x : A) (a : App) → Unready a → IsReady (k x a).1)
    → IsReady (continue r k).1
continue-IsReady (ok x, a) k h next = next x a h
continue-IsReady (err e, a) k h next = Unready-IsReady a h

continue-done : {A : Type 0} (r : Result A × App) → IsReady r.1 → IsReady (continue r (λ x. done)).1
continue-done (ok x, a) h = h
continue-done (err e, a) h = h

with_device-IsReady :
    (w : Setting) (device : Option AccountDevice) (a : App)
    → Unready a
    → IsReady (with_device w device a).1
unfolding with_device
with_device-IsReady w none a h = Unready-IsReady a h
with_device-IsReady w (some device) a h =
    continue-IsReady (run_p2p_acceptance w.env w.options device a) _
      ((run_p2p_acceptance-Keeps w.env w.options device).kept a h)
      (λ u b k.
        continue-done (configure_bridge w.env w.options device w.stream_token w.view b)
          (configure_bridge-IsReady w.env w.options device w.stream_token w.view b k))

stages-IsReady : (w : Setting) (a : App) → Unready a → IsReady (stages w a).1
unfolding stages
stages-IsReady w a h =
    continue-IsReady (load_vendor_runtime w.arch w.vendor a) _
      ((load_vendor_runtime-Keeps w.arch w.vendor).kept a h)
      (λ u b k.
        continue-IsReady (enumerate_account w.enumerate w.options b) _
          ((enumerate_account-Keeps w.enumerate w.options).kept b k)
          (λ device c j. with_device-IsReady w device c j))

caught-IsReady : (r : Result (Unit {0}) × App) → IsReady r.1 → IsReady (caught r)
unfolding report_failure
caught-IsReady (ok u, a) h = h
caught-IsReady (err e, a) h = get-update (failure_status e a) a.status refl ∙ h

start-IsReady : (w : Setting) (a : App) → Unready a → IsReady (start w a)
unfolding start
start-IsReady w a h = caught-IsReady (stages w a) (stages-IsReady w a h)

get_status_ready :
    (bridge : Option CameraBridge) (status : Members)
    → get "camera_ready" (get_status (record { status = status; bridge = bridge }))
      ≡ get "camera_ready" status
unfolding get_status
get_status_ready none status = refl
get_status_ready (some b) status = get-update (session_status b) status refl

-- However the start goes, whatever fails in it, the status that `/status` gives afterwards says that
-- the camera is ready exactly when there is a bridge to serve it.
pub start_ready :
    (w : Setting)
    → get "camera_ready" (get_status (start w starting))
      ≡ some (boolean (is_some (start w starting).bridge))
start_ready w =
    get_status_ready (start w starting).bridge (start w starting).status
    ∙ start-IsReady w starting (refl, simp (get-put))
