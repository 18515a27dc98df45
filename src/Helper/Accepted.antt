-- ===== src/Helper/Accepted.antt =====
-- What the helper prints, and what the probes of `p2p` make of it.
use okam_ha_native.Base.{ℕ, true, [], ◌∷◌, ◌≡◌, refl, some, err, ok, type_error, any, ◌==◌}
use okam_ha_native.Base.Int.{pos}
use okam_ha_native.Base.Text.{Text}
use okam_ha_native.Helper.Process.{Process}
use okam_ha_native.Helper.Run.Codes.{Exits}
use okam_ha_native.P2p.Diagnostics.{diagnostics}
use okam_ha_native.Helper.Summary.{Summary, report_of}
use okam_ha_native.Json.{object, get}
use okam_ha_native.P2p.Report.{connect_report, authentication_report, code_in}
use okam_ha_native.P2p.Results.{AuthenticationResult, StreamProbeResult}

-- What a result says is what the summary says.
pub record Conveys (s : Summary) (r : AuthenticationResult) : Type 0 where
  pub connected : r.connected ≡ s.connected
  pub connect_state : r.connect_state ≡ s.connect_state
  pub login_sent : r.login_sent ≡ s.login_sent
  pub login_response_received : r.login_response_received ≡ s.login_response_received
  pub authenticated : r.authenticated ≡ s.authenticated
  pub login_command : r.login_command ≡ some (pos s.login_command)
  pub login_result : r.login_result ≡ some s.login_result
  pub login_candidate : r.login_candidate ≡ s.login_candidate
  pub disconnected : r.disconnected ≡ s.disconnected

pub record ConveysStream (s : Summary) (r : StreamProbeResult) : Type 0 where
  pub login : Conveys s r.login
  pub stream_start_sent : r.stream_start_sent ≡ s.stream_start_sent
  pub stream_stop_sent : r.stream_stop_sent ≡ s.stream_stop_sent
  pub h264_received : r.h264_received ≡ s.h264_received
  pub h264_frames : r.h264_frames ≡ pos s.h264_frames
  pub h264_bytes : r.h264_bytes ≡ pos s.h264_bytes
  pub keyframe_seen : r.keyframe_seen ≡ s.keyframe_seen
  pub h265_frames : r.h265_frames ≡ pos s.h265_frames
  pub stream_start_result : r.stream_start_result ≡ some s.stream_start_result

-- The same of the report of a login.
authentication_report-report_of :
    (s : Summary) (code : ℕ)
    → any (λ c. c == code) (0 ∷ 4 ∷ 5 ∷ []) ≡ true
    → (r : AuthenticationResult) × (authentication_report (object (report_of s)) (pos code) ≡ ok r)
      × Conveys s r
unfolding authentication_report report_of get diagnostics
authentication_report-report_of s code h = rw h (
  _,
  refl,
  record {
    connected = refl;
    connect_state = refl;
    login_sent = refl;
    login_response_received = refl;
    authenticated = refl;
    login_command = refl;
    login_result = refl;
    login_candidate = refl;
    disconnected = refl;
  },
)

-- The connect probe raises a `TypeError` on every report of the helper whose exit code it allows: the
-- report names `login_candidate` and `login_attempts`, which `ConnectResult` does not have.
pub connect_report-report_of :
    (s : Summary) (code : ℕ)
    → code_in (0 ∷ 4 ∷ []) (pos code) ≡ true
    → connect_report (object (report_of s)) (pos code) ≡ err type_error
unfolding connect_report report_of get diagnostics
connect_report-report_of s code h = rw h refl
