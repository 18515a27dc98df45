-- ===== src/Cs2/Connect/Outcome.antt =====
-- What a `connect` that returns has established.
use okam_ha_native.Base.{
  ℕ, ◌+◌, true, false, List, ◌≡◌, refl, ap, arith, none, some, Option, Bool-cases, inl, inr, ok,
  err, Result,
}
use okam_ha_native.Base.Action.{continue-eq_ok, lift}
use okam_ha_native.Base.Bytes.{Bytes}
use okam_ha_native.Base.Text.{Text}
use okam_ha_native.Cs2.Address.{Endpoint, encode_network_address}
use okam_ha_native.Cs2.Connect.Rounds.{
  Established, earlier, then_raise, monotonic-Keeps, negotiation_loop-Established,
}
use okam_ha_native.Cs2.Connect.{
  directory_of, lookup_packet, open_socket, start_negotiation, Binding, no_socket, no_name, bound,
  local_port, local_host, connect, is_unopened,
}
use okam_ha_native.Cs2.Kept.{Keeps, to_Kept, pure-Keeps, bind-Keeps}
use okam_ha_native.Cs2.Outreach.{fresh}
use okam_ha_native.Cs2.Session.{Cs2Session, opened, monotonic, connected, close}

local_port-Keeps : (binding : Binding) → Keeps (local_port binding)
unfolding local_port
local_port-Keeps no_socket s t a h = absurd (cc h)
local_port-Keeps no_name s t a h =
    absurd (
      then_raise close "native P2P socket could not be opened" (record s { socket = opened }) t a h)
local_port-Keeps (bound port) s t a h =
    to_Kept s (record s { socket = opened }) t
      (record { prefers = refl; identifier = refl; closed = refl; key = refl; arrivals = refl; later = omega arith }) h

local_host-Keeps : (route : Option Text) → Keeps (local_host route)
unfolding local_host
local_host-Keeps none s t a h =
    absurd (then_raise close "native P2P network route is unavailable" s t a h)
local_host-Keeps (some host) s t a h = pure-Keeps host s t a h

lift-Keeps : {A : Type 0} (r : Result A) → Keeps (lift r)
lift-Keeps (ok a) s t b h = pure-Keeps a s t b h
lift-Keeps (err e) s t b h = absurd (cc h)

open_socket-Keeps : (binding : Binding) (route : Option Text) → Keeps (open_socket binding route)
unfolding open_socket
open_socket-Keeps binding route =
    bind-Keeps (local_port binding) _ (local_port-Keeps binding) (λ port.
      bind-Keeps (local_host route) _ (local_host-Keeps route)
        (λ host. lift-Keeps (encode_network_address (record { host = host; port = port }))))

start_negotiation-Established :
    (fuel : ℕ) (lookup : Bytes) (directory : List Endpoint) (timeout : ℕ) (s t : Cs2Session)
    → start_negotiation fuel lookup directory timeout s ≡ (ok tt, t)
    → Established directory s t
unfolding start_negotiation
start_negotiation-Established fuel lookup directory timeout s t h =
    let now = s.world.clock s.world.clock_calls in
    earlier (monotonic-Keeps s (monotonic s).1 now refl)
      (negotiation_loop-Established fuel lookup directory (now + timeout) fresh (monotonic s).1 t h)

-- When `connect` returns, a session that was not closed is connected. Since it began, a datagram has
-- come from the peer's address that opens, with the key of the session, to a packet of 24 bytes with
-- the identifier of the camera, of the kind F1 84, F1 41 or F1 42. The peer is no directory server, and a
-- session that prefers the relay has taken the way over the relay.
pub connect-Established :
    (fuel : ℕ) (binding : Binding) (route : Option Text) (timeout : ℕ) (s t : Cs2Session)
    → s.closed ≡ false
    → connect fuel binding route timeout s ≡ (ok tt, t)
    → (connected t ≡ true) × Established (directory_of s) s t
unfolding connect
connect-Established fuel binding route timeout s t open_yet h =
    elim (Bool-cases (is_unopened s.socket)) [
      | inr started ↦ absurd (cc (rw started at h))
      | inl first ↦
          let (local_address, good, rest) =
            continue-eq_ok (open_socket binding route s)
              (λ local_address.
                start_negotiation fuel (lookup_packet s.uid local_address) (directory_of s) timeout)
              (rw first at h) in
          let u = (open_socket binding route s).1 in
          let e =
            earlier (open_socket-Keeps binding route s u local_address (ap (λ r. (r, u)) good)) (
              start_negotiation-Established fuel (lookup_packet s.uid local_address)
                (directory_of s) timeout u t rest) in
          (ground (arith, e.peer, e.closed, open_yet), e)
    ]
