-- ===== src/Cs2/Connect/Negotiate.antt =====
-- The handlers of the negotiation leave what it reads of the session.
use okam_ha_native.Base.{arith, 
  length, ℕ, not, ◌&&◌, List, [], ◌∷◌, refl, none, some, Option, String, leb, ◌==◌, take, ok, err,
  Result,
}
use okam_ha_native.Base.Action.{pure, modify}
use okam_ha_native.Base.Bytes.{Bytes, equal, slice, from_big}
use okam_ha_native.Cs2.Address.{Endpoint, decode_network_address}
use okam_ha_native.Cs2.Pump.{ready_ack, ready_reply}
use okam_ha_native.Cs2.Relay.{make_relay_punch, make_relay_request_from_ack}
use okam_ha_native.Cs2.Connect.{
  is_relay_port, answer, adopt, on_address, on_relay_hello, on_relay_port, on_rendezvous,
  on_relay_to, negotiate,
}
use okam_ha_native.Cs2.Kept.{
  Keeps, if-Keeps, then-Keeps, pure-Keeps, modify-Keeps, send_clear-Keeps, count-Keeps,
}
use okam_ha_native.Cs2.Outreach.{
  Negotiation, contains, send_twice, punch, alive_request, relay_port_request,
}
use okam_ha_native.Cs2.Outreach.Sends.{send_each-Keeps, send_twice-Keeps, send_each_twice-Keeps}
use okam_ha_native.Cs2.Session.{add_target, Cs2Session, send_clear, count}
use okam_ha_native.Cs2.Wire.{kind}

still : (g : Negotiation) → Keeps (pure {S = Cs2Session} (some g))
still g = pure-Keeps (some g)

on_address-Keeps : (g : Negotiation) (r : Result Endpoint) → Keeps (on_address g r)
unfolding on_address
on_address-Keeps g (err e) s t a h = still g s t a h
on_address-Keeps g (ok endpoint) s t a h =
    let g' = record g { endpoints = add_target endpoint g.endpoints } in
    then-Keeps (modify (λ u. record u { close_targets = add_target endpoint u.close_targets })) _
      (modify-Keeps _ (λ u. record { prefers = refl; identifier = refl; closed = refl; key = refl; arrivals = refl; later = omega arith }))
      (then-Keeps (λ u. send_twice (punch u.uid) endpoint u) (pure (some g'))
        (λ u. send_twice-Keeps (punch u.uid) endpoint u) (still g'))
      s t a h

on_relay_hello-Keeps :
    (g : Negotiation) (e : Option Endpoint) (address : Endpoint)
    → Keeps (on_relay_hello g e address)
unfolding on_relay_hello
on_relay_hello-Keeps g (some e) address = still g
on_relay_hello-Keeps g none address =
    then-Keeps _ _ (send_clear-Keeps relay_port_request address) (still _)

on_relay_port-Keeps :
    (directory : List Endpoint) (g : Negotiation) (r : Option Bytes)
    → Keeps (on_relay_port directory g r)
unfolding on_relay_port
on_relay_port-Keeps directory g none = still g
on_relay_port-Keeps directory g (some request) =
    then-Keeps _ _ (send_each-Keeps request directory) (still _)

on_rendezvous-Keeps :
    (g : Negotiation) (p : Bytes) (address : Endpoint) (r : Result Endpoint)
    → Keeps (on_rendezvous g p address r)
unfolding on_rendezvous
on_rendezvous-Keeps g p address (err e) = still g
on_rendezvous-Keeps g p address (ok target) =
    then-Keeps _ _
      (λ s.
        send_each_twice-Keeps (make_relay_punch s.uid (from_big (slice 20 24 p)))
          (target ∷ address ∷ []) s)
      (still g)

on_relay_to-Keeps : (g : Negotiation) (p : Bytes) → Keeps (on_relay_to g p)
unfolding on_relay_to
on_relay_to-Keeps g p = then-Keeps _ _ (send_each_twice-Keeps _ _) (still g)

answer-Keeps : (replies : List Bytes) (address : Endpoint) → Keeps (answer replies address)
unfolding answer
answer-Keeps [] address = pure-Keeps tt
answer-Keeps (p ∷ ps) address =
    then-Keeps (send_clear p address) (answer ps address) (send_clear-Keeps p address)
      (answer-Keeps ps address)

adopt-Keeps :
    (path : String) (replies : List Bytes) (address : Endpoint) → Keeps (adopt path replies address)
unfolding adopt
adopt-Keeps path replies address =
    then-Keeps (modify (λ s. record s { peer = some address; connect_path = path })) _
      (modify-Keeps _ (λ s. record { prefers = refl; identifier = refl; closed = refl; key = refl; arrivals = refl; later = omega arith }))
      (then-Keeps (answer replies address) (pure none) (answer-Keeps replies address)
        (pure-Keeps none))

pub negotiate-Keeps :
    (directory : List Endpoint) (g : Negotiation) (p : Bytes) (address : Endpoint)
    → Keeps (negotiate directory g p address)
unfolding negotiate
negotiate-Keeps directory g p address s =
    let is = λ (b : ℕ). equal (take 2 p) (kind b) in
    let from_directory = contains directory address in
    let from_relay = contains g.relay_endpoints address in
    let from_camera = not from_directory && length p == 24 && equal (slice 4 24 p) s.uid in
    if-Keeps (is 0x40 && from_directory && leb 20 (length p)) _ _
      (on_address-Keeps g (decode_network_address (slice 4 20 p)))
      (if-Keeps (is 0x69 && from_directory) _ _ (still _) (
        if-Keeps (is 0x71 && from_relay) _ _ (on_relay_hello-Keeps g g.relay_port_endpoint address)
          (if-Keeps (is 0x73 && from_relay) _ _
            (if-Keeps (is_relay_port g.relay_port_endpoint address) _ _
              (on_relay_port-Keeps directory g (make_relay_request_from_ack s.uid address p))
              (still g))
            (if-Keeps (is 0x82 && from_directory) _ _
              (if-Keeps (length p == 24) _ _
                (on_rendezvous-Keeps g p address (decode_network_address (slice 4 20 p))) (still g))
              (if-Keeps (is 0x02 && length p == 36) _ _ (on_relay_to-Keeps g p) (
                if-Keeps (is 0x41 && not s.prefer_relay && from_camera) _ _
                  (adopt-Keeps "direct-punch" (ready_reply s.uid ∷ alive_request ∷ []) address)
                  (if-Keeps (is 0x42 && not s.prefer_relay && from_camera) _ _
                    (adopt-Keeps "direct-accept" (ready_ack ∷ []) address)
                    (if-Keeps (is 0x42 && s.prefer_relay && from_camera) _ _
                      (then-Keeps (count "declined_readiness") _ (count-Keeps "declined_readiness")
                        (then-Keeps (send_clear ready_ack address) (pure (some g))
                          (send_clear-Keeps ready_ack address) (still g)))
                      (if-Keeps (is 0x84 && from_camera) _ _
                        (adopt-Keeps "relay" (alive_request ∷ []) address) (still g))))))))))
      s
