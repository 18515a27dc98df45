-- ===== src/Bridge/Handler.antt =====
-- `make_handler`: what `do_GET` answers.
pub mod Guarded
use okam_ha_native.Base.{
  ℕ, zero, suc, ◌+◌, Bool, true, false, not, ◌&&◌, ◌||◌, List, [], ◌∷◌, ◌++◌, Option, none, some,
  String, ltb, leb, if◌then◌else◌, Result, err, ok, ◌>>=◌, length,
}
use okam_ha_native.Base.Bytes.{Bytes, equal}
use okam_ha_native.Base.Int.{ℤ, pos, negsuc}
use okam_ha_native.Base.Text.{Text, codes}
use okam_ha_native.Bridge.{
  CameraBridge, SessionView, authenticated, stream_authenticated, bridge_status, camera_prefix,
}
use okam_ha_native.Bridge.Host.{stream_url}
use okam_ha_native.Json.{
  Json, null, boolean, number, string, array, object, item, no_items, Members, no_members, member,
  get, truthy, as_int, between,
}

-- A request as the handler looks at it: the path of the target and the first `token` of its query,
-- three headers (`content_length` is what `int` reads, or nothing), and what `json.loads` makes of
-- the body, or nothing. `writes` is how many writes to the client go well.
pub record Request : Type 0 where
  pub path : Text
  pub token : Option Text
  pub authorization : Option Text
  pub host : Option Text
  pub content_length : Option ℤ
  pub body : Option Json
  pub writes : ℕ

-- A response. The two streams hold the chunks that reached the client.
pub data Response : Type 0 where
  json : ℕ → Json → Response
  jpeg : Bytes → Response
  raw_stream muxed_stream : List Bytes → Response

abbrev pub error_json : String → Json
error_json name = object (member "error" (string (codes name)) no_members)

abbrev pub unauthorized : Response
unauthorized = json 401 (error_json "unauthorized")

abbrev pub not_found : Response
not_found = json 404 (error_json "not_found")

abbrev pub not_ready : Response
not_ready = json 503 (error_json "bridge_not_ready")

abbrev pub health : Response
health = json 200 (
    object (
      member "service" (string (codes "okam-native"))
        (member "status" (string (codes "ok")) no_members)))

-- `not payload.get(test) or bool(payload.get(done))`
abbrev test_passed : Members → String → String → Bool
test_passed m test passed = not (truthy (get test m)) || truthy (get passed m)

unfoldable pub is_ready : Members → Bool
is_ready m =
    truthy (get "loader_ready" m)
    && (truthy (get "configuration_required" m)
        || (truthy (get "camera_ready" m)
            || (truthy (get "account_ready" m)
                && (test_passed m "connect_test_enabled" "p2p_ready"
                    && (test_passed m "auth_test_enabled" "camera_authenticated"
                        && (test_passed m "stream_test_enabled" "h264_ready"
                            && test_passed m "snapshot_test_enabled" "snapshot_ready"))))))

abbrev pub ready : Members → Response
ready m = json (if is_ready m then 200 else 503) (object m)

abbrev pub take_snapshot : CameraBridge → Response
take_snapshot b = elim b.session.snapshot [
  | none ↦ json 503 (error_json "snapshot_unavailable")
  | some image ↦ jpeg image
]

abbrev pub unavailable : Response
unavailable = json 503 (error_json "stream_unavailable")

-- The loop that hands on what comes, until a write fails.
pub relayed : ℕ → List Bytes → List Bytes
relayed zero chunks = []
relayed (suc writes) [] = []
relayed (suc writes) (c ∷ cs) = c ∷ relayed writes cs

abbrev pub stream_raw : CameraBridge → Request → Response
stream_raw b r = elim b.session.acquire [
  | none ↦ unavailable
  | some chunks ↦ raw_stream (relayed r.writes chunks)
]

-- ffmpeg, as the pieces that it makes of the chunks; `none` if it cannot be started.
abbrev pub Muxer : Type 0
Muxer = Option (List Bytes → List Bytes)

pub mux : Muxer → ℕ → List Bytes → Response
unfolding relayed
mux none writes chunks = unavailable
mux (some muxer) writes chunks = muxed_stream (relayed writes (muxer chunks))

abbrev pub stream_muxed : Muxer → CameraBridge → Request → Response
stream_muxed muxer b r = elim b.session.acquire [
  | none ↦ unavailable
  | some chunks ↦ mux muxer r.writes chunks
]

device_list : CameraBridge → Response
device_list b = json 200 (
    array (
      item
        (object (
          member "camera_id" (string b.camera_id)
            (member "name" (string b.camera_name) no_members)))
        no_items))

abbrev url_json : Text → Json
url_json url = object (member "stream_url" (string url) no_members)

unfoldable pub source_response : CameraBridge → Request → Result Response
source_response b r = do url ← stream_url b r.host; ok (json 200 (url_json url))

-- Behind the check of the `Authorization` header; `prefix` is the path of the camera.
pub get_authorized : CameraBridge → Text → Request → Result Response
unfolding device_list source_response
get_authorized b prefix r =
    if equal r.path (codes "/api/devices")
    then ok (device_list b)
    else if equal r.path (prefix ++ codes "/status")
    then ok (json 200 (object (bridge_status b)))
    else if equal r.path (prefix ++ codes "/snapshot.jpg")
    then ok (take_snapshot b)
    else if equal r.path (prefix ++ codes "/stream/source")
    then source_response b r
    else ok not_found

abbrev pub is_muxed_path : Text → Request → Bool
is_muxed_path prefix r = equal r.path (prefix ++ codes "/stream.ts")

abbrev pub is_stream_path : Text → Request → Bool
is_stream_path prefix r = equal r.path (prefix ++ codes "/stream.h264") || is_muxed_path prefix r

pub get_stream : Muxer → CameraBridge → Text → Request → Result Response
unfolding mux
get_stream muxer b prefix r = do
  allowed ← stream_authenticated b r.token
  if not allowed
      then ok unauthorized
      else if is_muxed_path prefix r
      then ok (stream_muxed muxer b r)
      else ok (stream_raw b r)

pub get_other : CameraBridge → Text → Request → Result Response
unfolding get_authorized
get_other b prefix r = do
  allowed ← authenticated b r.authorization
  if not allowed then ok unauthorized else get_authorized b prefix r

pub get_camera : Muxer → CameraBridge → Request → Result Response
unfolding get_stream get_other
get_camera muxer b r = do
  prefix ← camera_prefix b
  if is_stream_path prefix r then get_stream muxer b prefix r else get_other b prefix r

unfoldable pub with_bridge :
    Option CameraBridge → (CameraBridge → Result Response) → Result Response
with_bridge none next = ok not_ready
with_bridge (some b) next = next b

-- `do_GET`; `status` is what the status provider returns.
unfoldable pub do_get : Muxer → Members → Option CameraBridge → Request → Result Response
unfolding get_camera with_bridge
do_get muxer status bridge r =
    if equal r.path (codes "/health")
    then ok health
    else if equal r.path (codes "/ready")
    then ok (ready status)
    else with_bridge bridge (λ b. get_camera muxer b r)
