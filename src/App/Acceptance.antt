-- ===== src/App/Acceptance.antt =====
-- `run_p2p_acceptance`: up to three attempts at the test that the options ask for.
pub mod Values
pub mod Passed
pub mod Marked
pub mod Unready
use okam_ha_native.Base.{
  ℕ, zero, suc, ◌+◌, max, Bool, true, false, not, ◌&&◌, ◌||◌, List, [], ◌∷◌, Option, none, some,
  String, ltb, leb, ◌==◌, if◌then◌else◌, Error, Result, err, ok, p2p_error, wake_error, length,
}
use okam_ha_native.Base.Action.{Action, pure, raise, lift, modify, gets, done, ◌>>=◌, ◌>>◌}
use okam_ha_native.Base.Int.{ℤ, pos, negsuc}
use okam_ha_native.Base.Text.{Text, codes}
use okam_ha_native.Account.{AccountDevice}
use okam_ha_native.App.{App, set_status, phase_is, OptionsFile, load_options}
use okam_ha_native.Json.{Json, null, boolean, number, string, Members, get, is_true}
use okam_ha_native.P2p.Field.{select_camera_password}
use okam_ha_native.P2p.Results.{
  ConnectResult, AuthenticationResult, StreamProbeResult, SnapshotProbeResult,
}
use okam_ha_native.Wake.{WakeResult}
use okam_ha_native.App.Acceptance.Values.{
  flag, count_of, int_json, login_status, granted_status, stream_status, connect_passed,
  login_passed, stream_passed, connect_values, login_values, stream_values, snapshot_values,
  waking_status, woken_status,
}

-- The test that an attempt makes: the most demanding one that the options ask for.
pub data Test : Type 0 where
  connect_test auth_test stream_test snapshot_test : Test

-- What the n-th attempt meets: the answer of the wake-up service, `none` for a `WakeError`, and the
-- result of the probe.
pub record Attempts : Type 0 where
  pub wake : ℕ → Option WakeResult
  pub connecting : ℕ → Result ConnectResult
  pub authenticating : ℕ → Result AuthenticationResult
  pub streaming : ℕ → Result StreamProbeResult
  pub snapshot : ℕ → Result SnapshotProbeResult

-- `wake_requested` and `responsive_servers`
abbrev pub Woken : Type 0
Woken = Bool × ℕ

abbrev pub woken_by : Option WakeResult → Woken → Woken
woken_by none w = w
woken_by (some r) (requested, servers) =
    (requested || r.requested, max servers r.responsive_servers)

pub record_login : AuthenticationResult → Action App Unit
record_login r = do
  set_status (login_status r)
  if r.authenticated then set_status granted_status else done

pub record_stream : StreamProbeResult → Action App Unit
record_stream r = set_status (stream_status r)

-- The end of an attempt: it is the last one if its test has passed, which the status says.
abbrev pub judged : Bool → List (String × Json) → ℤ → Action App (Bool × ℤ)
judged passed values state =
    if passed then (do set_status values; pure (true, state)) else pure (false, state)

pub judge_connect : ℕ → ConnectResult → Action App (Bool × ℤ)
judge_connect n r = judged (connect_passed r) (connect_values n) r.connect_state

pub judge_login : ℕ → AuthenticationResult → Action App (Bool × ℤ)
unfolding record_login
judge_login n r = do record_login r; judged (login_passed r) (login_values n r) r.connect_state

pub judge_stream : ℕ → StreamProbeResult → Action App (Bool × ℤ)
unfolding record_login record_stream
judge_stream n r = do
  record_login r.login
  record_stream r
  judged (stream_passed r) (stream_values n) r.login.connect_state

pub judge_snapshot : ℕ → SnapshotProbeResult → Action App (Bool × ℤ)
unfolding record_login record_stream
judge_snapshot n r = do
  record_login r.stream.login
  record_stream r.stream
  judged (stream_passed r.stream) (snapshot_values n r) r.stream.login.connect_state

-- The probe of one attempt, and what is made of its result.
pub probe : Test → Attempts → ℕ → Action App (Bool × ℤ)
unfolding judge_connect judge_login judge_stream judge_snapshot
probe connect_test a n = do r ← lift (a.connecting n); judge_connect n r
probe auth_test a n = do r ← lift (a.authenticating n); judge_login n r
probe stream_test a n = do r ← lift (a.streaming n); judge_stream n r
probe snapshot_test a n = do r ← lift (a.snapshot n); judge_snapshot n r

-- An attempt: the camera is woken, and probed.
pub attempt : Test → Attempts → ℕ → Woken → Action App (Bool × ℤ)
unfolding probe
attempt test a n (requested, servers) = do
  set_status (waking_status n)
  set_status (woken_status requested servers)
  probe test a n

abbrev pub no_session : Error
no_session = p2p_error "camera did not establish a native P2P session"

-- The loop from attempt `n` on, with `left` attempts left and the state of the last one.
pub attempts_from : Test → Attempts → ℕ → ℕ → Woken → ℤ → Action App Unit
unfolding attempt
attempts_from test a zero n woken last = do
  set_status (count_of "connect_state" last ∷ [])
  raise no_session
attempts_from test a (suc left) n woken last =
    let woken' = woken_by (a.wake n) woken in
    let go_on = λ (state : ℤ). attempts_from test a left (n + 1) woken' state in
    do tried ← attempt test a n woken'; if tried.0 then done else go_on tried.1

abbrev option_set : Members → String → Bool
option_set options name = is_true (get name options)

-- The four flags, of which a stronger one sets the weaker ones, but for the connect test's own.
pub record Enabled : Type 0 where
  pub connecting : Bool
  pub authenticating : Bool
  pub streaming : Bool
  pub snapshot : Bool

abbrev pub enabled_in : Members → Enabled
enabled_in options =
    let snapshot = option_set options "run_snapshot_test" in
    let streaming = option_set options "run_stream_test" || snapshot in
    record {
      connecting = option_set options "run_connect_test";
      authenticating = option_set options "run_auth_test" || streaming;
      streaming = streaming;
      snapshot = snapshot;
    }

abbrev pub test_of : Enabled → Option Test
test_of e =
    if e.snapshot
    then some snapshot_test
    else if e.streaming
    then some stream_test
    else if e.authenticating
    then some auth_test
    else if e.connecting
    then some connect_test
    else none

abbrev pub enabled_status : Enabled → List (String × Json)
enabled_status e =
    flag "connect_test_enabled" (e.connecting || e.authenticating)
    ∷ flag "auth_test_enabled" e.authenticating
    ∷ flag "stream_test_enabled" e.streaming
    ∷ flag "snapshot_test_enabled" e.snapshot
    ∷ []

-- The credentials of the wake-up service, `resolve_client_id` and `get_service_parameter`, and the
-- attempts that they make possible.
pub record Environment : Type 0 where
  pub has_credentials : Bool
  pub resolve_client_id : Text → Result Text
  pub get_service_parameter : Text → Result Text
  pub attempts : Text → Text → Text → Attempts

abbrev pub require_credentials : Bool → Action App Unit
require_credentials true = done
require_credentials false = raise (wake_error "official wake configuration was unavailable")

pub run_test : Environment → AccountDevice → Members → Test → Action App Unit
unfolding attempts_from
run_test env device options test = do
  camera_password ←
      lift (select_camera_password (some device.device_password) (get "camera_password" options))
  require_credentials env.has_credentials
  client_id ← lift (env.resolve_client_id device.uid)
  service_parameter ← lift (env.get_service_parameter client_id)
  attempts_from test (env.attempts client_id service_parameter camera_password) 3 1 (false, 0)
      (negsuc 0)

pub run_enabled : Environment → AccountDevice → Members → Option Test → Action App Unit
unfolding run_test
run_enabled env device options none = done
run_enabled env device options (some test) = run_test env device options test

unfoldable pub run_p2p_acceptance : Environment → OptionsFile → AccountDevice → Action App Unit
unfolding run_enabled
run_p2p_acceptance env file device = do
  options ← lift (load_options file)
  set_status (enabled_status (enabled_in options))
  run_enabled env device options (test_of (enabled_in options))
