-- ===== src/P2p/Results.antt =====
-- The result records of the probes, and `diagnostic_line`.
use okam_ha_native.Base.{ℕ, Bool, List, Option, String}
use okam_ha_native.Base.Int.{ℤ}
use okam_ha_native.Base.Bytes.{Bytes}
use okam_ha_native.Base.Text.{Text}

abbrev pub Counts : Type 0
Counts = List (String × ℕ)

pub record ConnectResult : Type 0 where
  pub connected : Bool
  pub connect_state : ℤ
  pub disconnected : Bool
  pub connect_path : Text
  pub counters : Counts

pub record AuthenticationResult : Type 0 where
  pub connected : Bool
  pub connect_state : ℤ
  pub login_sent : Bool
  pub login_response_received : Bool
  pub authenticated : Bool
  pub login_command : Option ℤ
  pub login_result : Option ℤ
  pub disconnected : Bool
  pub connect_path : Text
  pub login_candidate : ℤ
  pub login_attempts : List (Option ℤ)
  pub counters : Counts

-- The inherited fields stand in `login`.
pub record StreamProbeResult : Type 0 where
  pub login : AuthenticationResult
  pub stream_start_sent : Bool
  pub stream_stop_sent : Bool
  pub h264_received : Bool
  pub h264_frames : ℤ
  pub h264_bytes : ℤ
  pub keyframe_seen : Bool
  pub h265_frames : ℤ
  pub stream_start_command : ℤ
  pub stream_start_result : Option ℤ

pub record SnapshotProbeResult : Type 0 where
  pub stream : StreamProbeResult
  pub jpeg : Bytes
  pub width : ℕ
  pub height : ℕ
