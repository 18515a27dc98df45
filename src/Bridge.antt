-- ===== src/Bridge.antt =====
-- src/okam_native/bridge.py: one camera behind an HTTP interface that asks for a token.
pub mod Host
pub mod Handler
pub mod Change
use okam_ha_native.Base.{
  ℕ, ◌+◌, ◌-◌, ◌/◌, ◌%◌, Bool, true, false, not, ◌&&◌, ◌||◌, List, [], ◌∷◌, ◌++◌, Option, none,
  some, String, ltb, leb, ◌==◌, if◌then◌else◌, Result, err, ok, type_error, value_error, ◌>>=◌,
  some_or_raise, any,
}
use okam_ha_native.Base.Bytes.{Bytes, equal}
use okam_ha_native.Base.Int.{ℤ, pos}
use okam_ha_native.Base.Text.{Text, codes}
use okam_ha_native.Base.Url.{quote}
use okam_ha_native.Cs2.Cipher.{is_ascii}
use okam_ha_native.Json.{Json, null, boolean, number, string, object, Members, no_members, member}

-- What `NativeStreamSession.status` returns.
pub record SessionStatus : Type 0 where
  pub running : Bool
  pub viewers : ℕ
  pub media_ready : Bool
  pub clean_disconnect : Option Bool
  pub last_error : Option Text

-- The stream session as the bridge meets it: its status, its idle timeout in seconds, the JPEG that
-- a snapshot gives, and the chunks that a subscription gives until it ends; `none` where the call
-- raises a `P2PError`.
pub record SessionView : Type 0 where
  pub status : SessionStatus
  pub idle_timeout : ℤ
  pub snapshot : Option Bytes
  pub acquire : Option (List Bytes)

pub record CameraBridge : Type 0 where
  pub camera_id : Text
  pub camera_name : Text
  pub api_token : Text
  pub stream_token : Text
  pub session : SessionView

-- `hmac.compare_digest` of two strings, which raises a `TypeError` if one is not ASCII.
unfoldable pub compare_digest : Text → Text → Result Bool
compare_digest a b = if is_ascii a && is_ascii b then ok (equal a b) else err type_error

abbrev pub bearer : Text → Text
bearer token = codes "Bearer " ++ token

unfoldable pub authenticated : CameraBridge → Option Text → Result Bool
unfolding compare_digest
authenticated b none = ok false
authenticated b (some authorization) = compare_digest authorization (bearer b.api_token)

unfoldable pub stream_authenticated : CameraBridge → Option Text → Result Bool
unfolding compare_digest
stream_authenticated b none = ok false
stream_authenticated b (some token) = compare_digest token b.stream_token

abbrev pub state_name : SessionStatus → Text
state_name s =
    if s.running
    then (if s.media_ready then codes "streaming" else codes "waking")
    else codes "idle"

abbrev json_bool : Option Bool → Json
json_bool none = null
json_bool (some b) = boolean b

abbrev json_text : Option Text → Json
json_text none = null
json_text (some t) = string t

unfoldable pub bridge_status : CameraBridge → Members
bridge_status b =
    let s = b.session.status in
    member "camera_id" (string b.camera_id) (
      member "name" (string b.camera_name) (
        member "online" (boolean true) (
          member "state" (string (state_name s)) (
            member "viewers" (number (pos s.viewers)) (
              member "media_ready" (boolean s.media_ready) (
                member "idle_timeout_seconds" (number b.session.idle_timeout) (
                  member "battery_percent" null (
                    member "signal_dbm" null (
                      member "last_event" null (
                        member "pir_motion" null (
                          member "charging" null (
                            member "clean_disconnect" (json_bool s.clean_disconnect)
                              (member "last_error" (json_text s.last_error) no_members)))))))))))))

unfoldable pub camera_prefix : CameraBridge → Result Text
camera_prefix b = do camera ← quote b.camera_id; ok (codes "/api/cameras/" ++ camera)
