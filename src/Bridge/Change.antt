-- ===== src/Bridge/Change.antt =====
-- `make_handler`: `do_PATCH`, `do_POST` and `_request_json`.
pub mod Timeout
use okam_ha_native.Base.{
  ℕ, zero, suc, ◌+◌, Bool, true, false, not, ◌&&◌, ◌||◌, List, [], ◌∷◌, ◌++◌, Option, none, some,
  String, ltb, leb, if◌then◌else◌, Result, err, ok, ◌>>=◌, length,
}
use okam_ha_native.Base.Bytes.{Bytes, equal}
use okam_ha_native.Base.Int.{ℤ, pos, negsuc}
use okam_ha_native.Base.Text.{Text, codes}
use okam_ha_native.Bridge.{
  CameraBridge, SessionView, authenticated, stream_authenticated, bridge_status, camera_prefix,
}
use okam_ha_native.Bridge.Host.{stream_url}
use okam_ha_native.Json.{
  Json, null, boolean, number, string, array, object, item, no_items, Members, no_members, member,
  get, truthy, as_int, between,
}
use okam_ha_native.Json.{as_object}
use okam_ha_native.Bridge.Handler.{
  Request, Response, json, error_json, unauthorized, not_found, not_ready, source_response,
  with_bridge,
}

abbrev pub invalid_request : Response
invalid_request = json 400 (error_json "invalid_request")

-- `not 0 < length <= MAX_REQUEST_BYTES`
abbrev good_length : Option ℤ → Bool
good_length none = false
good_length (some n) = between 1 4096 n

-- `_request_json`: the object of the body, or nothing and the response is sent.
pub request_json : Request → Option Members
request_json r = if good_length r.content_length then as_object r.body else none

abbrev pub invalid_timeout : Response
invalid_timeout = json 400 (error_json "invalid_idle_timeout")

-- `bridge.session.idle_timeout = …`
abbrev pub set_timeout : CameraBridge → ℤ → CameraBridge
set_timeout b seconds = record b { session = record b.session { idle_timeout = seconds } }

abbrev pub timeout_json : ℤ → Json
timeout_json seconds = object (member "idle_timeout_seconds" (number seconds) no_members)

pub patch_timeout : CameraBridge → Option ℤ → Response × CameraBridge
patch_timeout b none = (invalid_timeout, b)
patch_timeout b (some seconds) =
    if between 10 600 seconds
    then (json 200 (timeout_json seconds), set_timeout b seconds)
    else (invalid_timeout, b)

pub patch_body : CameraBridge → Option Members → Response × CameraBridge
unfolding patch_timeout
patch_body b none = (invalid_request, b)
patch_body b (some m) = patch_timeout b (as_int (get "idle_timeout_seconds" m))

pub patch_authorized : CameraBridge → Request → Result (Response × CameraBridge)
unfolding patch_body request_json
patch_authorized b r = do
  prefix ← camera_prefix b
  if not (equal r.path (prefix ++ codes "/config"))
      then ok (not_found, b)
      else ok (patch_body b (request_json r))

pub patch_bridge : CameraBridge → Request → Result (Response × CameraBridge)
unfolding patch_authorized
patch_bridge b r = do
  allowed ← authenticated b r.authorization
  if not allowed then ok (unauthorized, b) else patch_authorized b r

-- `do_PATCH`: the response, and the bridge behind it.
unfoldable pub do_patch : Option CameraBridge → Request → Result (Response × Option CameraBridge)
unfolding patch_bridge
do_patch none r = ok (not_ready, none)
do_patch (some b) r = do answer ← patch_bridge b r; ok (answer.0, some answer.1)

pub start_response : CameraBridge → Request → Option Members → Result Response
start_response b r none = ok invalid_request
start_response b r (some m) = source_response b r

pub stop_response : Option Members → Response
stop_response none = invalid_request
stop_response (some m) = json 200 (object (member "stopped" (boolean true) no_members))

pub post_authorized : CameraBridge → Request → Result Response
unfolding start_response stop_response request_json
post_authorized b r = do
  prefix ← camera_prefix b
  if equal r.path (prefix ++ codes "/stream/start")
      then start_response b r (request_json r)
      else if equal r.path (prefix ++ codes "/stream/stop")
      then ok (stop_response (request_json r))
      else ok not_found

pub post_bridge : CameraBridge → Request → Result Response
unfolding post_authorized
post_bridge b r = do
  allowed ← authenticated b r.authorization
  if not allowed then ok unauthorized else post_authorized b r

-- `do_POST`
unfoldable pub do_post : Option CameraBridge → Request → Result Response
unfolding post_bridge with_bridge
do_post bridge r = with_bridge bridge (λ b. post_bridge b r)
