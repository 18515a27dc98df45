-- ===== src/Helper/Summary.antt =====
-- `_summary`: the report of the helper, and the JSON object that it prints.
use okam_ha_native.Base.{ℕ, Bool, false, List, [], ◌∷◌, Option, none, some, String}
use okam_ha_native.Base.Int.{ℤ, pos, negsuc}
use okam_ha_native.Base.Text.{codes}
use okam_ha_native.Json.{
  Json, null, boolean, number, string, array, object, Items, no_items, item, Members, no_members,
  member,
}

pub record Summary : Type 0 where
  pub connected : Bool
  pub connect_state : ℤ
  pub login_sent : Bool
  pub login_response_received : Bool
  pub authenticated : Bool
  pub login_command : ℕ
  pub login_result : ℤ
  pub login_candidate : ℤ
  pub login_attempts : List (Option ℤ)
  pub connect_path : String
  pub counters : List (String × ℕ)
  pub stream_start_command : ℕ
  pub stream_start_result : ℤ
  pub stream_start_sent : Bool
  pub stream_stop_sent : Bool
  pub h264_received : Bool
  pub h264_frames : ℕ
  pub h264_bytes : ℕ
  pub keyframe_seen : Bool
  pub h265_frames : ℕ
  pub disconnected : Bool

abbrev pub default_summary : Summary
default_summary = record {
  connected = false;
  connect_state = negsuc 0;
  login_sent = false;
  login_response_received = false;
  authenticated = false;
  login_command = 0;
  login_result = negsuc 0;
  login_candidate = negsuc 0;
  login_attempts = [];
  connect_path = "";
  counters = [];
  stream_start_command = 0;
  stream_start_result = negsuc 0;
  stream_start_sent = false;
  stream_stop_sent = false;
  h264_received = false;
  h264_frames = 0;
  h264_bytes = 0;
  keyframe_seen = false;
  h265_frames = 0;
  disconnected = false;
}

abbrev attempt_json : Option ℤ → Json
attempt_json none = null
attempt_json (some n) = number n

abbrev attempts_json : List (Option ℤ) → Items
attempts_json [] = no_items
attempts_json (a ∷ rest) = item (attempt_json a) (attempts_json rest)

abbrev counters_json : List (String × ℕ) → Members
counters_json [] = no_members
counters_json ((name, n) ∷ cs) = member name (number (pos n)) (counters_json cs)

-- What `json.dumps(result, sort_keys=True)` prints.
unfoldable pub report_of : Summary → Members
report_of s = member "authenticated" (boolean s.authenticated) (
    member "connect_path" (string (codes s.connect_path)) (
      member "connect_state" (number s.connect_state) (
        member "connected" (boolean s.connected) (
          member "counters" (object (counters_json s.counters)) (
            member "disconnected" (boolean s.disconnected) (
              member "h264_bytes" (number (pos s.h264_bytes)) (
                member "h264_frames" (number (pos s.h264_frames)) (
                  member "h264_received" (boolean s.h264_received) (
                    member "h265_frames" (number (pos s.h265_frames)) (
                      member "keyframe_seen" (boolean s.keyframe_seen) (
                        member "login_attempts" (array (attempts_json s.login_attempts)) (
                          member "login_candidate" (number s.login_candidate) (
                            member "login_command" (number (pos s.login_command)) (
                              member "login_response_received" (boolean s.login_response_received) (
                                member "login_result" (number s.login_result) (
                                  member "login_sent" (boolean s.login_sent) (
                                    member "stream_start_command"
                                      (number (pos s.stream_start_command))
                                      (member "stream_start_result" (number s.stream_start_result) (
                                        member "stream_start_sent" (boolean s.stream_start_sent) (
                                          member "stream_stop_sent" (boolean s.stream_stop_sent)
                                            no_members))))))))))))))))))))
