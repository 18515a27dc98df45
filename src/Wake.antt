-- ===== src/Wake.antt =====
-- src/okam_native/wakeup.py: the messages of the wake-up service, and what its servers answer.
pub mod Framing
pub mod Outcome
use okam_ha_native.Base.{
  ℕ, zero, suc, ◌+◌, ◌<◌, ◌≤◌, Bool, true, false, not, ◌&&◌, ◌||◌, List, [], ◌∷◌, ◌++◌, ◌≡◌, refl,
  ap, subst, Option, none, some, String, ltb, leb, ◌==◌, if◌then◌else◌, Error, Result, err, ok,
  wake_error, length, take, drop, take-append, drop-append, arith, ==_iff, is_some,
}
use okam_ha_native.Base.Action.{Action, pure, raise, lift, ◌>>=◌, ◌>>◌}
use okam_ha_native.Base.Bytes.{Bytes, big4, from_big, from_big-big4, equal}
use okam_ha_native.Base.Int.{ℤ, pos}
use okam_ha_native.Base.Text.{Text, codes}
use okam_ha_native.Json.{Json, string, number, object, Members, get, truthy, as_string, as_int}

abbrev pub max_message_bytes : ℕ
max_message_bytes = 1048576

-- The end of `signed_message`: the length of the body, and the body.
unfoldable pub framed : Bytes → Bytes
framed body = big4 (length body) ++ body

-- A message that is awaited: it has come, the stream ended before it (`IncompleteReadError`), or it
-- is refused.
pub data Message : Type 0 where
  arrived : Members → Message
  incomplete : Message
  invalid : String → Message

pub parsed : Option Json → Message
parsed none = invalid "wake service returned an invalid response"
parsed (some (object m)) = arrived m
parsed (some _) = invalid "wake service response was not an object"

-- `_read_message`, of the bytes that the stream will bring: the message, and the bytes behind it.
unfoldable pub read_message : (Bytes → Option Json) → Bytes → Message × Bytes
unfolding parsed
read_message loads stream =
    let size = from_big (take 4 stream) in
    let rest = drop 4 stream in
    if ltb (length stream) 4
    then (incomplete, [])
    else if not (ltb 0 size && leb size max_message_bytes)
    then (invalid "wake service returned an invalid message size", rest)
    else if ltb (length rest) size
    then (incomplete, [])
    else (parsed (loads (take size rest)), drop size rest)

-- `a or b`
abbrev or_value : Option Json → Option Json → Option Json
or_value a b = if truthy a then a else b

abbrev status_of : Members → Option Json
status_of m = or_value (get "status" m) (or_value (get "deviceStatus" m) (get "event" m))

-- The value is that string.
abbrev is_text : Option Json → String → Bool
is_text (some (string t)) name = equal t (codes name)
is_text _ name = false

-- `status not in {"register", "timeout"}`, of a string
abbrev told : Text → Bool
told t = not (equal t (codes "register") || equal t (codes "timeout"))

abbrev reported : Option Text → List Text
reported none = []
reported (some t) = if told t then t ∷ [] else []

abbrev awake : Members → Bool
awake m = is_text (status_of m) "activation" || is_text (get "event" m) "online"

-- What one look for a reply brings, before the deadline: a message, or nothing.
pub data Reply : Type 0 where
  reply : Message → Reply
  late : Reply

abbrev onto : List Text → Result (List Text) → Result (List Text)
onto states (ok rest) = ok (states ++ rest)
onto states (err e) = err e

-- The loop of `_wake_via_port`, over the replies that it waits for until its deadline.
pub collect : List Reply → Result (List Text)
collect [] = ok []
collect (late ∷ rs) = ok []
collect (reply incomplete ∷ rs) = ok []
collect (reply (invalid m) ∷ rs) = err (wake_error m)
collect (reply (arrived m) ∷ rs) =
    let states = reported (as_string (status_of m)) in
    let rest = collect rs in if awake m then ok states else onto states rest

-- `response.get("ret") == 1`: true for 1 and for `True`; a number written as `1.0` is not considered.
abbrev is_one : Option ℤ → Bool
is_one (some (pos n)) = n == 1
is_one _ = false

abbrev found_device : Members → Bool
found_device m = is_text (get "event" m) "getDeviceInfo" && is_one (as_int (get "ret" m))

-- `isinstance(node_host, str) and isinstance(node_port, int)`
abbrev has_node : Members → Bool
has_node m = is_some (as_string (get "node_ip" m)) && is_some (as_int (get "node_port" m))

-- `_wake_via_port`, of the answer of the directory and the replies of the node; `none` where a
-- connection fails or the answer does not come.
unfoldable pub wake_via_port : Option Members → Option (List Reply) → Option (Bool × List Text)
unfolding collect
wake_via_port none answers = none
wake_via_port (some m) answers =
    if not (found_device m)
    then some (false, [])
    else if not (has_node m)
    then none
    else elim answers [
      | none ↦ none
      | some replies ↦ elim (collect replies) [ err e ↦ none | ok states ↦ some (true, states) ]
    ]

pub record WakeResult : Type 0 where
  pub requested : Bool
  pub states : List Text
  pub responsive_servers : ℕ

-- The loop of `wake_camera`, of the outcomes; `none` is an exception.
pub gathered : List (Option (Bool × List Text)) → WakeResult
gathered [] = record { requested = false; states = []; responsive_servers = 0 }
gathered (none ∷ os) = gathered os
gathered (some (sent, states) ∷ os) =
    let rest = gathered os in
    record {
      requested = sent || rest.requested;
      states = states ++ rest.states;
      responsive_servers = rest.responsive_servers + 1;
    }

unfoldable pub wake_camera : Text → List (Option (Bool × List Text)) → Result WakeResult
unfolding gathered
wake_camera did outcomes =
    let seen = gathered outcomes in
    if length did == 0 || ltb 256 (length did)
    then err (wake_error "camera device identifier is invalid")
    else if seen.responsive_servers == 0
    then err (wake_error "official wake service was unreachable")
    else if not seen.requested
    then err (wake_error "camera was not registered with the official wake service")
    else ok (record {
      requested = true;
      states = seen.states;
      responsive_servers = seen.responsive_servers;
    })
