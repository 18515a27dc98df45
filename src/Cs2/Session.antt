-- ===== src/Cs2/Session.antt =====
-- The state of `CS2Session`, the socket and the clock that it uses, and the methods that the
-- others are made of: counters, `_send_clear`, `_receive_clear`, `close`, `_require_connected`.
pub mod Counting
use okam_ha_native.Base.{
  ℕ, ◌+◌, Bool, true, false, not, ◌&&◌, ◌||◌, List, [], ◌∷◌, ◌++◌, Option, none, some, ltb,
  if◌then◌else◌, String, Result, ok, err, cs2_error, length, is_some, any,
}
use okam_ha_native.Base.Action.{Action, pure, raise, check, modify, ◌>>◌}
use okam_ha_native.Base.Bytes.{Bytes}
use okam_ha_native.Base.Text.{Text}
use okam_ha_native.Cs2.Address.{Endpoint, same_endpoint}
use okam_ha_native.Cs2.Wire.{
  Reception, packet, undecodable, length_mismatch, encode_wire_packets, open_datagram,
}
use Prim.Native.String.{◌++◌ as concat}
use text.Mathlib.Text.{◌==◌ as str_eq}

-- What one call of `recvfrom` does: a datagram with its source, a timeout or a connection reset
-- (both end the call with nothing), or another `OSError`.
pub data Arrival : Type 0 where
  datagram : Bytes → Endpoint → Arrival
  nothing failure : Arrival

-- The world of a session. The n-th call of `time.monotonic`, `recvfrom` and `sendto` is answered by
-- `clock n` (in milliseconds), `arrivals n` and `send_fails n`; `sent` is all that went out.
pub record World : Type 0 where
  pub clock : ℕ → ℕ
  pub clock_calls : ℕ
  pub arrivals : ℕ → Arrival
  pub arrival_calls : ℕ
  pub send_fails : ℕ → Bool
  pub send_calls : ℕ
  pub sent : List (Bytes × Endpoint)

-- `None`, open, and after its `close()`.
pub data Socket : Type 0 where
  unopened opened shut : Socket

-- An entry of `_pending`: the key (channel, sequence) and the list [packet, sent_at, attempts].
pub record Pending : Type 0 where
  pub channel : ℕ
  pub sequence : ℕ
  pub frame : Bytes
  pub sent_at : ℕ
  pub attempts : ℕ

abbrev pub Counters : Type 0
Counters = List (String × ℕ)

-- Dictionaries keep their order of insertion; a set of endpoints is a list without repetition.
pub record Cs2Session : Type 0 where
  pub prefer_relay : Bool
  pub uid : Bytes
  pub servers : List Text
  pub key : Text
  pub socket : Socket
  pub peer : Option Endpoint
  pub outgoing_sequence : List ℕ
  pub incoming_sequence : List ℕ
  pub channel_buffers : List Bytes
  pub out_of_order : List (List (ℕ × Bytes))
  pub pending : List Pending
  pub closed : Bool
  pub counters : Counters
  pub close_targets : List Endpoint
  pub connect_path : String
  pub world : World

abbrev pub max_counter_keys : ℕ
max_counter_keys = 48

-- `counters[name] = counters.get(name, 0) + amount`
unfoldable pub bump : String → ℕ → Counters → Counters
bump name amount [] = (name, amount) ∷ []
bump name amount ((k, v) ∷ m) =
    if str_eq k name then (k, v + amount) ∷ m else (k, v) ∷ bump name amount m

unfoldable pub has_counter : String → Counters → Bool
has_counter name [] = false
has_counter name ((k, v) ∷ m) = str_eq k name || has_counter name m

unfoldable pub bump_kind : String → Counters → Counters
unfolding bump has_counter
bump_kind name m =
    if has_counter name m || ltb (length m) max_counter_keys then bump name 1 m else m

abbrev pub count_by : ℕ → String → Action Cs2Session Unit
count_by amount name = modify (λ s. record s { counters = bump name amount s.counters })

abbrev pub count : String → Action Cs2Session Unit
count = count_by 1

abbrev pub count_kind : String → String → Action Cs2Session Unit
count_kind prefix kind =
    modify (λ s. record s { counters = bump_kind (concat prefix kind) s.counters })

-- `time.monotonic()`
abbrev pub monotonic : Action Cs2Session ℕ
monotonic s = (
  ok (s.world.clock s.world.clock_calls),
  record s { world = record s.world { clock_calls = s.world.clock_calls + 1 } },
)

-- `sendto` of each wire packet. A socket that was closed raises an `OSError`, too.
unfoldable pub transmit_all : Socket → List Bytes → Endpoint → World → Result (Unit {0}) × World
transmit_all socket [] address w = (ok tt, w)
transmit_all shut (p ∷ ps) address w = (err (cs2_error "native P2P send failed"), w)
transmit_all socket (p ∷ ps) address w =
    let called = record w { send_calls = w.send_calls + 1 } in
    let rest =
      transmit_all socket ps address (record called { sent = w.sent ++ ((p, address) ∷ []) }) in
    if w.send_fails w.send_calls then (err (cs2_error "native P2P send failed"), called) else rest

abbrev pub transmit_encoded :
    Socket → Result (List Bytes) → Endpoint → World → Result (Unit {0}) × World
transmit_encoded socket (ok wire) address w = transmit_all socket wire address w
transmit_encoded socket (err e) address w = (err e, w)

unfoldable pub transmit : Socket → Text → Bytes → Endpoint → World → Result (Unit {0}) × World
unfolding transmit_all
transmit unopened key p address w = (err (cs2_error "P2P socket is unavailable"), w)
transmit socket key p address w = transmit_encoded socket (encode_wire_packets key p) address w

abbrev pub send_clear : Bytes → Endpoint → Action Cs2Session Unit
send_clear p address s =
    let (r, w) = transmit s.socket s.key p address s.world in (r, record s { world = w })

-- What `_receive_clear` makes of a classified datagram.
unfoldable pub receive_classified :
    Result Reception → Endpoint → Action Cs2Session (Option (Bytes × Endpoint))
receive_classified (ok (packet clear)) address = pure (some (clear, address))
receive_classified (ok undecodable) address = do count "packets_undecodable"; pure none
receive_classified (ok length_mismatch) address = do count "packets_length_mismatch"; pure none
receive_classified (err e) address = raise e

unfoldable pub receive_arrival : Arrival → Action Cs2Session (Option (Bytes × Endpoint))
receive_arrival (datagram encrypted address) s =
    (do count "packets_received"; receive_classified (open_datagram s.key encrypted) address) s
receive_arrival nothing s = (ok none, s)
receive_arrival failure s = (err (cs2_error "native P2P receive failed"), s)

abbrev pub called_receive : Cs2Session → Cs2Session
called_receive s = record s { world = record s.world { arrival_calls = s.world.arrival_calls + 1 } }

unfoldable pub receive_from : Socket → Action Cs2Session (Option (Bytes × Endpoint))
receive_from unopened s = (ok none, s)
receive_from opened s = receive_arrival (s.world.arrivals s.world.arrival_calls) (called_receive s)
receive_from shut s = (err (cs2_error "native P2P receive failed"), s)

unfoldable pub receive_clear : Action Cs2Session (Option (Bytes × Endpoint))
unfolding receive_from receive_arrival receive_classified
receive_clear s = receive_from s.socket s

abbrev pub connected : Cs2Session → Bool
connected s = is_some s.peer && not s.closed

abbrev pub require_connected : Action Cs2Session Unit
require_connected s = check (connected s) "native P2P session is not connected" s

-- `set.add`
abbrev pub add_target : Endpoint → List Endpoint → List Endpoint
add_target e targets = if any (same_endpoint e) targets then targets else targets ++ (e ∷ [])

abbrev close_packet : Bytes
close_packet = 0xf1 ∷ 0xf0 ∷ 0x00 ∷ 0x00 ∷ []

-- The loop of `close`: a target that cannot be reached is passed over.
unfoldable pub close_all : List Endpoint → Bool → Cs2Session → Bool × Cs2Session
close_all [] sent s = (sent, s)
close_all (target ∷ targets) sent s =
    let (r, s') = send_clear close_packet target s in
    close_all targets (elim r [ ok _ ↦ true | err _ ↦ sent ]) s'

close_targets_of : Cs2Session → List Endpoint
close_targets_of s = elim s.peer [ none ↦ s.close_targets | some p ↦ add_target p s.close_targets ]

abbrev shut_socket : Socket → Socket
shut_socket unopened = unopened
shut_socket _ = shut

abbrev pub has_socket : Socket → Bool
has_socket unopened = false
has_socket _ = true

pub notified : Cs2Session → List Endpoint
unfolding close_targets_of
notified s = if has_socket s.socket then close_targets_of s else []

unfoldable pub close : Action Cs2Session Bool
unfolding close_all notified
close s =
    let (sent, s') = close_all (notified s) false s in
    if s.closed
    then (ok true, s)
    else (ok sent, record s' { socket = shut_socket s'.socket; closed = true; peer = none })
