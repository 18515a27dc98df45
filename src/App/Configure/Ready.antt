-- ===== src/App/Configure/Ready.antt =====
-- Configuring the bridge says that the camera is ready when the bridge is there.
use okam_ha_native.Base.{
  ◌≡◌, Bool, true, false, Option, none, some, Result, err, ok, is_some, Bool-cases, inl, inr, ◌∙◌,
  sym, ap, Error,
}
use okam_ha_native.Base.Action.{Action, continue, ◌>>=◌, ◌>>◌}
use okam_ha_native.Base.Int.{ℤ}
use okam_ha_native.Base.Text.{Text}
use okam_ha_native.Account.{AccountDevice}
use okam_ha_native.App.{App, OptionsFile, load_options, alias_of, text_or_raise, bad_alias}
use okam_ha_native.App.Acceptance.{Environment, require_credentials}
use okam_ha_native.App.Configure.{
  good_token, timeout_of, timeout_or_raise, prepare, without_token, prepare_with, configure_bridge,
}
use okam_ha_native.App.Keeps.{Unready}
use okam_ha_native.Bridge.{SessionView}
use okam_ha_native.Json.{Members, boolean, get, get-put, as_string, between}
use okam_ha_native.P2p.Field.{select_camera_password}

-- The status says that the camera is ready exactly when the bridge is there.
abbrev pub IsReady : App → Type 0
IsReady a = get "camera_ready" a.status ≡ some (boolean (is_some a.bridge))

pub Unready-IsReady : (a : App) → Unready a → IsReady a
Unready-IsReady a h = h.1 ∙ ap (λ b. some (boolean (is_some b))) (sym h.0)

-- A step that changes nothing, and what follows it.
pure-IsReady :
    {A B : Type 0} (r : Result A) (k : A → Action App B) (a : App)
    → Unready a
    → ((x : A) → IsReady (k x a).1)
    → IsReady (continue (r, a) k).1
pure-IsReady (ok x) k a h next = next x
pure-IsReady (err e) k a h next = Unready-IsReady a h

text_or_raise-IsReady :
    {B : Type 0} (e : Error) (t : Option Text) (k : Text → Action App B) (a : App)
    → Unready a
    → ((x : Text) → IsReady (k x a).1)
    → IsReady ((text_or_raise e t >>= k) a).1
text_or_raise-IsReady e none k a h next = Unready-IsReady a h
text_or_raise-IsReady e (some t) k a h next = next t

timeout_or_raise-IsReady :
    {B : Type 0} (o : Option ℤ) (k : ℤ → Action App B) (a : App)
    → Unready a
    → ((n : ℤ) → IsReady (k n a).1)
    → IsReady ((timeout_or_raise o >>= k) a).1
timeout_or_raise-IsReady none k a h next = Unready-IsReady a h
timeout_or_raise-IsReady (some n) k a h next = elim (Bool-cases (between 10 600 n)) [
  | inl good ↦ rw good (next n)
  | inr bad ↦ rw bad (Unready-IsReady a h)
]

require_credentials-IsReady :
    {B : Type 0} (b : Bool) (k : Action App B) (a : App)
    → Unready a
    → IsReady (k a).1
    → IsReady ((require_credentials b >> k) a).1
require_credentials-IsReady true k a h next = next
require_credentials-IsReady false k a h next = Unready-IsReady a h

without_token-IsReady : (a : App) → Unready a → IsReady (without_token a).1
unfolding without_token
without_token-IsReady a h =
    let written : get "camera_ready" (without_token a).1.status ≡ some (boolean false) =
      simp (get-put) in
    written ∙ ap (λ b. some (boolean (is_some b))) (sym h.0)

prepare-IsReady :
    (env : Environment) (device : AccountDevice) (stream_token : Text) (view : SessionView)
    (options : Members) (api_token : Text) (a : App)
    → Unready a
    → IsReady (prepare env device stream_token view options api_token a).1
unfolding prepare
prepare-IsReady env device stream_token view options api_token a h =
    text_or_raise-IsReady bad_alias (as_string (alias_of options)) _ a h (λ alias.
      timeout_or_raise-IsReady (timeout_of (get "idle_timeout_seconds" options)) _ a h (λ seconds.
        require_credentials-IsReady env.has_credentials _ a h (
          pure-IsReady (env.resolve_client_id device.uid) _ a h (λ client_id.
            pure-IsReady (env.get_service_parameter client_id) _ a h
              (λ service_parameter. simp (get-put))))))

prepare_with-IsReady :
    (env : Environment) (device : AccountDevice) (stream_token : Text) (view : SessionView)
    (options : Members) (api_token : Option Text) (a : App)
    → Unready a
    → IsReady (prepare_with env device stream_token view options api_token a).1
unfolding prepare_with
prepare_with-IsReady env device stream_token view options none a h = without_token-IsReady a h
prepare_with-IsReady env device stream_token view options (some t) a h =
    elim (Bool-cases (good_token (some t))) [
      | inl good ↦ rw good (prepare-IsReady env device stream_token view options t a h)
      | inr bad ↦ rw bad (without_token-IsReady a h)
    ]

pub configure_bridge-IsReady :
    (env : Environment) (file : OptionsFile) (device : AccountDevice) (stream_token : Text)
    (view : SessionView) (a : App)
    → Unready a
    → IsReady (configure_bridge env file device stream_token view a).1
unfolding configure_bridge
configure_bridge-IsReady env file device stream_token view a h =
    pure-IsReady (load_options file) _ a h (λ options.
      pure-IsReady
        (select_camera_password (some device.device_password) (get "camera_password" options)) _ a h
        (λ camera_password.
          prepare_with-IsReady env device stream_token view options
            (as_string (get "api_token" options)) a h))
