-- ===== src/P2p/Report.antt =====
-- What the probes make of a helper that has ended: `run_connect_probe`, `run_authentication_probe`,
-- `run_stream_probe` and `_stream_result`.
pub mod Raises
use okam_ha_native.Base.{
  ℕ, zero, suc, Bool, true, false, not, ◌&&◌, ◌||◌, List, [], ◌∷◌, ◌++◌, Option, none, some, String,
  ◌==◌, if◌then◌else◌, Error, Result, err, ok, p2p_error, type_error, attribute_error, ◌>>=◌, ◌>>◌,
  demand, some_or_raise, is_some, any, all,
}
use okam_ha_native.Base.Bytes.{Bytes}
use okam_ha_native.Base.Int.{ℤ, pos, negsuc}
use okam_ha_native.Base.Text.{Text}
use okam_ha_native.Json.{Json, object, Members, get, as_bool, as_int, is_none, negative}
use okam_ha_native.P2p.Diagnostics.{Diagnostics, StreamDiagnostics, diagnostics, stream_diagnostics}
use okam_ha_native.P2p.Field.{field}
use okam_ha_native.P2p.Results.{Counts, ConnectResult, AuthenticationResult, StreamProbeResult}

-- `subprocess.CompletedProcess`
pub record Completed : Type 0 where
  pub returncode : ℤ
  pub stdout : Bytes

abbrev pub or_else {ℓ} : {A : Type ℓ} → A → Option A → A
or_else a none = a
or_else a (some b) = b

-- `payload[name]` behind the check of its type.
abbrev pub bool_at : Members → String → Bool
bool_at m name = or_else false (as_bool (get name m))

abbrev pub int_at : Members → String → ℤ
int_at m name = or_else (pos 0) (as_int (get name m))

-- `returncode not in {…}`
abbrev pub code_in : List ℕ → ℤ → Bool
code_in codes (pos n) = any (λ c. c == n) codes
code_in codes (negsuc n) = false

-- `not any(not isinstance(payload.get(name), bool) for name in names)`, and the same of `int`.
abbrev pub all_bools : List String → Members → Bool
all_bools names m = all (λ name. is_some (as_bool (get name m))) names

abbrev pub all_ints : List String → Members → Bool
all_ints names m = all (λ name. is_some (as_int (get name m))) names

-- `command is None or isinstance(command, int)`
abbrev optional_int : Option Json → Bool
optional_int v = is_none v || is_some (as_int v)

abbrev members_or_raise : Json → Result Members
members_or_raise (object m) = ok m
members_or_raise _ = err attribute_error

-- The keyword arguments that `ConnectResult` does not have.
abbrev foreign : Diagnostics → Bool
foreign d = is_some d.login_candidate || is_some d.login_attempts

connect_of : Members → Diagnostics → Result ConnectResult
connect_of m d =
    demand (not (foreign d)) type_error
    >> ok (record {
      connected = bool_at m "connected";
      connect_state = int_at m "connect_state";
      disconnected = bool_at m "disconnected";
      connect_path = or_else [] d.connect_path;
      counters = or_else [] d.counters;
    })

-- The end of `run_connect_probe`, from the parsed report.
unfoldable pub connect_report : Json → ℤ → Result ConnectResult
unfolding connect_of
connect_report payload returncode = do
  m ← members_or_raise payload
  demand (all_ints ("connect_state" ∷ []) m && all_bools ("connected" ∷ "disconnected" ∷ []) m)
      (p2p_error "native P2P helper returned an invalid result")
  demand (code_in (0 ∷ 4 ∷ []) returncode) (p2p_error "native P2P helper failed safely")
  connect_of m (diagnostics payload)

abbrev login_of : Members → Diagnostics → Option ℤ → Option ℤ → AuthenticationResult
login_of m d command result = record {
  connected = bool_at m "connected";
  connect_state = int_at m "connect_state";
  login_sent = bool_at m "login_sent";
  login_response_received = bool_at m "login_response_received";
  authenticated = bool_at m "authenticated";
  login_command = command;
  login_result = result;
  disconnected = bool_at m "disconnected";
  connect_path = or_else [] d.connect_path;
  login_candidate = or_else (negsuc 0) d.login_candidate;
  login_attempts = or_else [] d.login_attempts;
  counters = or_else [] d.counters;
}

abbrev pub login_bools : List String
login_bools =
    "connected" ∷ "login_sent" ∷ "login_response_received" ∷ "authenticated" ∷ "disconnected" ∷ []

-- The end of `run_authentication_probe`.
unfoldable pub authentication_report : Json → ℤ → Result AuthenticationResult
authentication_report payload returncode = do
  m ← members_or_raise payload
  demand
      (all_ints ("connect_state" ∷ []) m
        && (all_bools login_bools m
            && (optional_int (get "login_command" m) && optional_int (get "login_result" m))))
      (p2p_error "native camera authentication helper returned an invalid result")
  demand (code_in (0 ∷ 4 ∷ 5 ∷ []) returncode)
      (p2p_error "native camera authentication helper failed safely")
  ok (
      login_of m (diagnostics payload) (as_int (get "login_command" m))
        (as_int (get "login_result" m)))

abbrev pub bool_fields : List String
bool_fields =
    "connected" ∷ "login_sent" ∷ "login_response_received" ∷ "authenticated" ∷ "stream_start_sent"
    ∷ "stream_stop_sent" ∷ "h264_received" ∷ "keyframe_seen" ∷ "disconnected" ∷ []

abbrev pub int_fields : List String
int_fields =
    "connect_state" ∷ "login_command" ∷ "login_result" ∷ "h264_frames" ∷ "h264_bytes"
    ∷ "h265_frames" ∷ []

abbrev pub count_fields : List String
count_fields = "h264_frames" ∷ "h264_bytes" ∷ "h265_frames" ∷ []

abbrev pub good_report : Members → Bool
good_report m =
    all_bools bool_fields m
    && (all_ints int_fields m && all (λ name. not (negative (int_at m name))) count_fields)

unfoldable pub stream_of : Members → StreamDiagnostics → StreamProbeResult
stream_of m d = record {
  login = login_of m d.common (some (int_at m "login_command")) (some (int_at m "login_result"));
  stream_start_sent = bool_at m "stream_start_sent";
  stream_stop_sent = bool_at m "stream_stop_sent";
  h264_received = bool_at m "h264_received";
  h264_frames = int_at m "h264_frames";
  h264_bytes = int_at m "h264_bytes";
  keyframe_seen = bool_at m "keyframe_seen";
  h265_frames = int_at m "h265_frames";
  stream_start_command = or_else (pos 0) d.stream_start_command;
  stream_start_result = d.stream_start_result;
}

abbrev invalid_result : Error
invalid_result = p2p_error "native H.264 helper returned an invalid result"

abbrev failed_safely : Error
failed_safely = p2p_error "native H.264 helper failed safely"

-- `payload` is `none` where the snapshot probe has found no report.
unfoldable pub stream_result : Option Json → ℤ → Result StreamProbeResult
unfolding stream_of
stream_result (some (object m)) returncode = do
  demand (good_report m) invalid_result
  demand (code_in (0 ∷ 4 ∷ 5 ∷ 6 ∷ []) returncode) failed_safely
  ok (stream_of m (stream_diagnostics (object m)))
stream_result _ returncode = err invalid_result

-- `_field(uid) + _field(service_parameter) + _field(device_password)`
unfoldable pub helper_input : Text → Text → Text → Result Bytes
helper_input uid service_parameter device_password = do
  first ← field uid
  second ← field service_parameter
  third ← field device_password
  ok (first ++ (second ++ third))

-- `json.loads(….decode("utf-8"))` and `subprocess.run` with the mode and the input: `none` where
-- they raise one of the errors that the probes catch.
module _ (loads : Bytes → Option Json) (run : Option String → Bytes → Option Completed) where
  completed_or_raise : Option String → Bytes → String → String → Result (Json × ℤ)
  completed_or_raise mode stdin failed invalid = do
    completed ← some_or_raise (p2p_error failed) (run mode stdin)
    payload ← some_or_raise (p2p_error invalid) (loads completed.stdout)
    ok (payload, completed.returncode)

  unfoldable pub run_connect_probe : Text → Text → Result ConnectResult
  unfolding completed_or_raise
  run_connect_probe uid service_parameter = do
    first ← field uid
    second ← field service_parameter
    ended ←
        completed_or_raise none (first ++ second) "native P2P helper failed"
          "native P2P helper returned an invalid response"
    connect_report ended.0 ended.1

  unfoldable pub run_authentication_probe : Text → Text → Text → Result AuthenticationResult
  unfolding completed_or_raise
  run_authentication_probe uid service_parameter device_password = do
    stdin ← helper_input uid service_parameter device_password
    ended ←
        completed_or_raise (some "--authenticate") stdin
          "native camera authentication helper failed"
          "native camera authentication helper returned an invalid response"
    authentication_report ended.0 ended.1

  unfoldable pub run_stream_probe : Text → Text → Text → Result StreamProbeResult
  unfolding completed_or_raise
  run_stream_probe uid service_parameter device_password = do
    stdin ← helper_input uid service_parameter device_password
    ended ←
        completed_or_raise (some "--stream-test") stdin "native H.264 helper failed"
          "native H.264 helper returned an invalid response"
    stream_result (some ended.0) ended.1
