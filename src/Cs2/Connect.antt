-- ===== src/Cs2/Connect.antt =====
-- `CS2Session.connect`: the negotiation with directory servers, relays and the camera.
pub mod Arrived
pub mod Adopt
pub mod Negotiate
pub mod Rounds
pub mod Outcome
pub mod Turn
pub mod Ends
use okam_ha_native.Base.{
  ℕ, zero, suc, ◌+◌, Bool, true, false, not, ◌&&◌, ◌||◌, List, [], ◌∷◌, ◌++◌, Option, none, some,
  leb, map, ◌==◌, if◌then◌else◌, String, Result, ok, err, cs2_error, out_of_fuel, length, take,
}
use okam_ha_native.Base.Action.{Action, pure, done, raise, modify, lift, ◌>>=◌, ◌>>◌}
use okam_ha_native.Base.Bytes.{Bytes, slice, equal, from_big}
use okam_ha_native.Base.Names.{hex, decimal}
use okam_ha_native.Base.Text.{Text}
use okam_ha_native.Cs2.Address.{
  Endpoint, same_endpoint, encode_network_address, decode_network_address,
}
use okam_ha_native.Cs2.Outreach.{
  server_endpoints, Negotiation, fresh, contains, send_each, send_twice, send_each_twice, send_due,
  punch, alive_request, relay_port_request, relay_control, directory_port,
}
use okam_ha_native.Cs2.Pump.{ready_ack, ready_reply}
use okam_ha_native.Cs2.Relay.{decode_relay_list, make_relay_punch, make_relay_request_from_ack}
use okam_ha_native.Cs2.Session.{
  Cs2Session, Socket, unopened, opened, count, count_kind, monotonic, send_clear, receive_clear,
  close, add_target,
}
use okam_ha_native.Cs2.Wire.{kind}
use Prim.Native.String.{◌++◌ as concat}

-- `none`: the peer is found and `connect` returns. `some g`: the loop goes on with `g`.
abbrev pub Verdict : Type 0
Verdict = Option Negotiation

-- `endpoints.update(found)`
pub add_all : List Endpoint → List Endpoint → List Endpoint
add_all [] known = known
add_all (e ∷ es) known = add_all es (add_target e known)

-- F1 40: the camera's address.
on_address : Negotiation → Result Endpoint → Action Cs2Session Verdict
on_address g (err e) = pure (some g)
on_address g (ok endpoint) = do
  modify (λ s. record s { close_targets = add_target endpoint s.close_targets })
  λ s. send_twice (punch s.uid) endpoint s
  pure (some (record g { endpoints = add_target endpoint g.endpoints }))

-- F1 71: a relay answers the hello; the first one is kept.
on_relay_hello : Negotiation → Option Endpoint → Endpoint → Action Cs2Session Verdict
on_relay_hello g (some e) address = pure (some g)
on_relay_hello g none address = do
  send_clear relay_port_request address
  pure (some (record g { relay_port_endpoint = some address }))

is_relay_port : Option Endpoint → Endpoint → Bool
is_relay_port none address = false
is_relay_port (some e) address = same_endpoint address e

-- F1 73: the relay has allocated a port.
on_relay_port : List Endpoint → Negotiation → Option Bytes → Action Cs2Session Verdict
on_relay_port directory g none = pure (some g)
on_relay_port directory g (some request) = do
  send_each request directory
  pure (some (record g { relay_request = some request }))

-- F1 82: the address to punch, and the token.
on_rendezvous : Negotiation → Bytes → Endpoint → Result Endpoint → Action Cs2Session Verdict
on_rendezvous g p address (err e) = pure (some g)
on_rendezvous g p address (ok target) = do
  λ s. send_each_twice (make_relay_punch s.uid (from_big (slice 20 24 p))) (target ∷ address ∷ []) s
  pure (some g)

pub decoded : Result Endpoint → List Endpoint
decoded (ok e) = e ∷ []
decoded (err e) = []

-- F1 02: two relay addresses, those that decode.
on_relay_to : Negotiation → Bytes → Action Cs2Session Verdict
on_relay_to g p = do
  send_each_twice relay_control (
      decoded (decode_network_address (slice 4 20 p))
      ++ decoded (decode_network_address (slice 20 36 p)))
  pure (some g)

pub answer : List Bytes → Endpoint → Action Cs2Session Unit
answer [] address = done
answer (p ∷ ps) address = do send_clear p address; answer ps address

-- The peer is adopted, answered, and exposed.
pub adopt : String → List Bytes → Endpoint → Action Cs2Session Verdict
unfolding answer
adopt path replies address = do
  modify (λ s. record s { peer = some address; connect_path = path })
  answer replies address
  pure none

-- The ladder of `elif`; `from_camera` is the test that F1 41, F1 42 and F1 84 share.
pub negotiate : List Endpoint → Negotiation → Bytes → Endpoint → Action Cs2Session Verdict
unfolding adopt on_address on_relay_hello on_relay_port on_rendezvous on_relay_to is_relay_port
negotiate directory g p address s =
    let is = λ (b : ℕ). equal (take 2 p) (kind b) in
    let from_directory = contains directory address in
    let from_relay = contains g.relay_endpoints address in
    let from_camera = not from_directory && length p == 24 && equal (slice 4 24 p) s.uid in
    (if is 0x40 && from_directory && leb 20 (length p)
        then on_address g (decode_network_address (slice 4 20 p))
        else if is 0x69 && from_directory
        then pure
            (some (record g { relay_endpoints = add_all (decode_relay_list p) g.relay_endpoints }))
        else if is 0x71 && from_relay
        then on_relay_hello g g.relay_port_endpoint address
        else if is 0x73 && from_relay
        then (if is_relay_port g.relay_port_endpoint address
            then on_relay_port directory g (make_relay_request_from_ack s.uid address p)
            else pure (some g))
        else if is 0x82 && from_directory
        then (if length p == 24
            then on_rendezvous g p address (decode_network_address (slice 4 20 p))
            else pure (some g))
        else if is 0x02 && length p == 36
        then on_relay_to g p
        else if is 0x41 && not s.prefer_relay && from_camera
        then adopt "direct-punch" (ready_reply s.uid ∷ alive_request ∷ []) address
        else if is 0x42 && not s.prefer_relay && from_camera
        then adopt "direct-accept" (ready_ack ∷ []) address
        else if is 0x42 && s.prefer_relay && from_camera
        then (do count "declined_readiness"; send_clear ready_ack address; pure (some g))
        else if is 0x84 && from_camera
        then adopt "relay" (alive_request ∷ []) address
        else pure (some g))
      s

-- The bookkeeping before the ladder.
note_packet : Bytes → Endpoint → Action Cs2Session Unit
note_packet p address =
    let is = λ (b : ℕ). equal (take 2 p) (kind b) in
    (do
      if is 0x41 || is 0x42 || is 0x84
          then modify (λ s. record s { close_targets = add_target address s.close_targets })
          else done
      count_kind "connect_" (hex (take 2 p))
      if is 0x73 || is 0x82 || is 0x84
          then count_kind (concat (hex (take 2 p)) "_len") (decimal (length p))
          else done)

pub receive_one :
    List Endpoint → Negotiation → Option (Bytes × Endpoint) → Action Cs2Session Verdict
unfolding note_packet negotiate
receive_one directory g none = pure (some g)
receive_one directory g (some (p, address)) = do
  note_packet p address
  negotiate directory g p address

-- One round of the loop.
pub round : Bytes → List Endpoint → Negotiation → Action Cs2Session Verdict
unfolding receive_one
round lookup directory g = do
  now ← monotonic
  g' ← send_due lookup directory now g
  received ← receive_clear
  receive_one directory g' received

abbrev not_established : String
not_established = "camera did not establish a native P2P session"

-- The peer is found, or the loop goes on.
go_by : Verdict → (Negotiation → Action Cs2Session Unit) → Action Cs2Session Unit
go_by none go_on = done
go_by (some g) go_on = go_on g

pub negotiation_loop : ℕ → Bytes → List Endpoint → ℕ → Negotiation → Action Cs2Session Unit
unfolding round go_by
negotiation_loop zero lookup directory deadline g s = (err out_of_fuel, s)
negotiation_loop (suc fuel) lookup directory deadline g s =
    let go_on = λ (g' : Negotiation). negotiation_loop fuel lookup directory deadline g' in
    (do
      now ← monotonic
      if leb deadline now
          then (do sent ← close; raise (cs2_error not_established))
          else (do verdict ← round lookup directory g; go_by verdict go_on))
      s

-- What the operating system says to the two sockets that `connect` opens: a failure, or the local
-- port, and a failure, or the local host on the route to the first server.
pub data Binding : Type 0 where
  no_socket no_name : Binding
  bound : ℕ → Binding

local_port : Binding → Action Cs2Session ℕ
local_port no_socket = raise (cs2_error "native P2P socket could not be opened")
local_port no_name = do
  modify (λ s. record s { socket = opened })
  sent ← close
  raise (cs2_error "native P2P socket could not be opened")
local_port (bound port) = do modify (λ s. record s { socket = opened }); pure port

local_host : Option Text → Action Cs2Session Text
local_host none = do sent ← close; raise (cs2_error "native P2P network route is unavailable")
local_host (some host) = pure host

is_unopened : Socket → Bool
is_unopened unopened = true
is_unopened _ = false

-- The servers, as a set of endpoints.
abbrev pub directory_of : Cs2Session → List Endpoint
directory_of s = add_all (server_endpoints s) []

-- F1 20, with the identifier and the local address
abbrev lookup_packet : Bytes → Bytes → Bytes
lookup_packet uid local_address = 0xf1 ∷ 0x20 ∷ 0x00 ∷ 0x24 ∷ (uid ++ local_address)

-- The socket, the route, and the local address.
open_socket : Binding → Option Text → Action Cs2Session Bytes
unfolding local_port local_host
open_socket binding route = do
  port ← local_port binding
  host ← local_host route
  lift (encode_network_address (record { host = host; port = port }))

start_negotiation : ℕ → Bytes → List Endpoint → ℕ → Action Cs2Session Unit
unfolding negotiation_loop
start_negotiation fuel lookup directory timeout = do
  start ← monotonic
  negotiation_loop fuel lookup directory (start + timeout) fresh

unfoldable pub connect : ℕ → Binding → Option Text → ℕ → Action Cs2Session Unit
unfolding open_socket start_negotiation is_unopened add_all
connect fuel binding route timeout s =
    (if is_unopened s.socket
        then (do
          local_address ← open_socket binding route
          start_negotiation fuel (lookup_packet s.uid local_address) (directory_of s) timeout)
        else raise (cs2_error "P2P session has already started"))
      s
