-- ===== src/App/Acceptance/Values.antt =====
-- The values that an acceptance run sets in the status, and when a test has passed.
use okam_ha_native.Base.{ℕ, Bool, true, ◌&&◌, List, [], ◌∷◌, Option, none, some, String, length}
use okam_ha_native.Base.Int.{ℤ, pos}
use okam_ha_native.App.{phase_is}
use okam_ha_native.Json.{Json, null, boolean, number}
use okam_ha_native.P2p.Results.{
  ConnectResult, AuthenticationResult, StreamProbeResult, SnapshotProbeResult,
}

abbrev pub flag : String → Bool → String × Json
flag name b = (name, boolean b)

abbrev pub count_of : String → ℤ → String × Json
count_of name n = (name, number n)

abbrev pub int_json : Option ℤ → Json
int_json none = null
int_json (some n) = number n

abbrev pub login_status : AuthenticationResult → List (String × Json)
login_status r =
    count_of "connect_state" r.connect_state
    ∷ flag "login_sent" r.login_sent
    ∷ flag "login_response_received" r.login_response_received
    ∷ ("login_result", int_json r.login_result)
    ∷ flag "clean_disconnect" r.disconnected
    ∷ []

abbrev pub granted_status : List (String × Json)
granted_status = flag "p2p_ready" true ∷ flag "camera_authenticated" true ∷ []

abbrev pub stream_status : StreamProbeResult → List (String × Json)
stream_status r =
    flag "stream_start_sent" r.stream_start_sent
    ∷ flag "stream_stop_sent" r.stream_stop_sent
    ∷ count_of "h264_frames" r.h264_frames
    ∷ count_of "h264_bytes" r.h264_bytes
    ∷ flag "keyframe_seen" r.keyframe_seen
    ∷ count_of "h265_frames" r.h265_frames
    ∷ []

abbrev pub connect_passed : ConnectResult → Bool
connect_passed r = r.connected && r.disconnected

abbrev pub login_passed : AuthenticationResult → Bool
login_passed r = r.connected && (r.authenticated && r.disconnected)

abbrev pub stream_passed : StreamProbeResult → Bool
stream_passed r = r.h264_received && r.login.disconnected

abbrev pub connect_values : ℕ → List (String × Json)
connect_values n =
    flag "p2p_ready" true ∷ phase_is "p2p_connected" ∷ count_of "connect_attempt" (pos n) ∷ []

abbrev pub login_values : ℕ → AuthenticationResult → List (String × Json)
login_values n r =
    flag "p2p_ready" true
    ∷ flag "camera_authenticated" true
    ∷ phase_is "camera_authenticated"
    ∷ count_of "connect_attempt" (pos n)
    ∷ ("login_command", int_json r.login_command)
    ∷ ("login_result", int_json r.login_result)
    ∷ []

abbrev pub stream_values : ℕ → List (String × Json)
stream_values n =
    flag "h264_ready" true ∷ phase_is "h264_received" ∷ count_of "connect_attempt" (pos n) ∷ []

abbrev pub snapshot_values : ℕ → SnapshotProbeResult → List (String × Json)
snapshot_values n r =
    flag "h264_ready" true
    ∷ flag "snapshot_ready" true
    ∷ count_of "snapshot_bytes" (pos (length r.jpeg))
    ∷ count_of "snapshot_width" (pos r.width)
    ∷ count_of "snapshot_height" (pos r.height)
    ∷ phase_is "snapshot_created"
    ∷ count_of "connect_attempt" (pos n)
    ∷ []

abbrev pub waking_status : ℕ → List (String × Json)
waking_status n = phase_is "waking_camera" ∷ count_of "connect_attempt" (pos n) ∷ []

abbrev pub woken_status : Bool → ℕ → List (String × Json)
woken_status requested servers =
    flag "wake_requested" requested
    ∷ count_of "wake_responsive_servers" (pos servers)
    ∷ phase_is "connecting_p2p"
    ∷ []
