-- ===== src/Tests/Bridge.antt =====
-- Requests to a bridge.
use okam_ha_native.Base.{true, [], ◌∷◌, ◌≡◌, ◌⊎◌, refl, none, some, ok, err, type_error}
use okam_ha_native.Base.Bytes.{equal}
use okam_ha_native.Base.Int.{pos}
use okam_ha_native.Base.Text.{Text, codes}
use okam_ha_native.Base.Url.{quote}
use okam_ha_native.Base.Utf8.{utf8_encode}
use okam_ha_native.Bridge.{CameraBridge, bearer, authenticated, stream_authenticated, camera_prefix}
use okam_ha_native.Bridge.Change.{do_patch, set_timeout, timeout_json}
use okam_ha_native.Bridge.Change.Timeout.{Accepted, do_patch-Outcome}
use okam_ha_native.Bridge.Handler.{Request, json, raw_stream, do_get}
use okam_ha_native.Bridge.Handler.Guarded.{Reason, do_get-Reason}
use okam_ha_native.Bridge.Host.{
  IsStreamUrl, stream_url, stream_url-IsStreamUrl, matches_host, safe_host,
}
use okam_ha_native.Json.{object, number, no_members, member, get}

abbrev bridge : CameraBridge
bridge = record {
  camera_id = codes "cabin 1";
  camera_name = codes "Cabin";
  api_token = codes "0123456789abcdef";
  stream_token = codes "secret-token";
  session = record {
    status = record {
      running = true;
      viewers = 1;
      media_ready = true;
      clean_disconnect = none;
      last_error = none;
    };
    idle_timeout = pos 120;
    snapshot = none;
    acquire = some ((1 ∷ []) ∷ (2 ∷ []) ∷ (3 ∷ []) ∷ []);
  };
}

-- A viewer that goes away after two chunks.
abbrev viewing : Request
viewing = record {
  path = codes "/api/cameras/cabin%201/stream.h264";
  token = some (codes "secret-token");
  authorization = none;
  host = none;
  content_length = some (pos 0);
  body = none;
  writes = 2;
}

viewed : do_get none no_members (some bridge) viewing ≡ ok (raw_stream ((1 ∷ []) ∷ (2 ∷ []) ∷ []))
unfolding do_get camera_prefix quote utf8_encode equal stream_authenticated
viewed = refl

do_get-Reason_example :
    Reason no_members (some bridge) viewing (raw_stream ((1 ∷ []) ∷ (2 ∷ []) ∷ []))
do_get-Reason_example = do_get-Reason none no_members (some bridge) viewing _ viewed

-- A change of the idle timeout to 300 seconds.
abbrev changing : Request
changing = record {
  path = codes "/api/cameras/cabin%201/config";
  token = none;
  authorization = some (bearer bridge.api_token);
  host = none;
  content_length = some (pos 28);
  body = some (object (member "idle_timeout_seconds" (number (pos 300)) no_members));
  writes = 1;
}

changed :
    do_patch (some bridge) changing
    ≡ ok (json 200 (timeout_json (pos 300)), some (set_timeout bridge (pos 300)))
unfolding do_patch camera_prefix quote utf8_encode equal authenticated get
changed = refl

do_patch-Outcome_example :
    (bridge ≡ set_timeout bridge (pos 300))
    ⊎ Accepted bridge changing (json 200 (timeout_json (pos 300))) (set_timeout bridge (pos 300))
do_patch-Outcome_example =
    do_patch-Outcome bridge (set_timeout bridge (pos 300)) changing
      (json 200 (timeout_json (pos 300))) changed

abbrev url : Text
url = codes "http://homeassistant.local:8099/api/cameras/cabin%201/stream.ts?token=secret-token"

made : stream_url bridge (some (codes "homeassistant.local:8099")) ≡ ok url
unfolding stream_url quote utf8_encode safe_host matches_host
made = refl

stream_url-IsStreamUrl_example : IsStreamUrl bridge (some (codes "homeassistant.local:8099")) url
stream_url-IsStreamUrl_example =
    stream_url-IsStreamUrl bridge (some (codes "homeassistant.local:8099")) url made

-- A token outside ASCII is no refusal, but an exception.
not_ascii : authenticated bridge (some (0xe9 ∷ [])) ≡ err type_error
unfolding authenticated
not_ascii = refl
