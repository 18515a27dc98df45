-- ===== src/Cs2/Connect/Turn.antt =====
-- The handlers of the negotiation let the clock go on, and end.
use okam_ha_native.Base.{
  ◌++◌, length, ℕ, not, ◌&&◌, List, [], ◌∷◌, refl, none, some, Option, String, leb, ◌==◌, take, ok,
  err, Result,
}
use okam_ha_native.Base.Action.{pure, modify}
use okam_ha_native.Base.Bytes.{Bytes, equal, slice, from_big}
use okam_ha_native.Cs2.Address.{Endpoint, decode_network_address}
use okam_ha_native.Cs2.Pump.{ready_ack, ready_reply}
use okam_ha_native.Cs2.Relay.{decode_relay_list, make_relay_punch, make_relay_request_from_ack}
use okam_ha_native.Cs2.Connect.{
  is_relay_port, answer, adopt, on_address, on_relay_hello, on_relay_port, on_rendezvous,
  on_relay_to, negotiate, decoded, add_all,
}
use okam_ha_native.Cs2.Progress.{
  Tame, Tame-if, Tame-then, Tame-pure, Tame-modify, Tame-send_clear, Tame-state,
}
use okam_ha_native.Cs2.Outreach.{
  Negotiation, contains, send_twice, send_each_twice, relay_control, punch, alive_request,
  relay_port_request,
}
use okam_ha_native.Cs2.Outreach.Ends.{Tame-send_each, Tame-send_twice, Tame-send_each_twice}
use okam_ha_native.Cs2.Pump.Turn.{Tame-count}
use okam_ha_native.Cs2.Session.{add_target, Cs2Session, send_clear, count}
use okam_ha_native.Cs2.Wire.{kind}

still : (g : Negotiation) → Tame (pure {S = Cs2Session} (some g))
still g = Tame-pure (some g)

Tame-on_address : (g : Negotiation) (r : Result Endpoint) → Tame (on_address g r)
unfolding on_address
Tame-on_address g (err e) = still g
Tame-on_address g (ok endpoint) =
    let g' = record g { endpoints = add_target endpoint g.endpoints } in
    Tame-then (modify (λ u. record u { close_targets = add_target endpoint u.close_targets })) _
      (Tame-modify (λ u. record u { close_targets = add_target endpoint u.close_targets })
        (λ s. refl))
      (Tame-then (λ u. send_twice (punch u.uid) endpoint u) (pure (some g'))
        (Tame-state (λ u. send_twice (punch u.uid) endpoint)
          (λ u. Tame-send_twice (punch u.uid) endpoint))
        (still g'))

Tame-on_relay_hello :
    (g : Negotiation) (e : Option Endpoint) (address : Endpoint) → Tame (on_relay_hello g e address)
unfolding on_relay_hello
Tame-on_relay_hello g (some e) address = still g
Tame-on_relay_hello g none address =
    Tame-then _ _ (Tame-send_clear relay_port_request address)
      (still (record g { relay_port_endpoint = some address }))

Tame-on_relay_port :
    (directory : List Endpoint) (g : Negotiation) (r : Option Bytes)
    → Tame (on_relay_port directory g r)
unfolding on_relay_port
Tame-on_relay_port directory g none = still g
Tame-on_relay_port directory g (some request) =
    Tame-then _ _ (Tame-send_each request directory)
      (still (record g { relay_request = some request }))

Tame-on_rendezvous :
    (g : Negotiation) (p : Bytes) (address : Endpoint) (r : Result Endpoint)
    → Tame (on_rendezvous g p address r)
unfolding on_rendezvous
Tame-on_rendezvous g p address (err e) = still g
Tame-on_rendezvous g p address (ok target) =
    Tame-then _ _
      (Tame-state
        (λ s.
          send_each_twice (make_relay_punch s.uid (from_big (slice 20 24 p)))
            (target ∷ address ∷ []))
        (λ s.
          Tame-send_each_twice (make_relay_punch s.uid (from_big (slice 20 24 p)))
            (target ∷ address ∷ [])))
      (still g)

Tame-on_relay_to : (g : Negotiation) (p : Bytes) → Tame (on_relay_to g p)
unfolding on_relay_to
Tame-on_relay_to g p =
    Tame-then _ _
      (Tame-send_each_twice relay_control (
        decoded (decode_network_address (slice 4 20 p))
        ++ decoded (decode_network_address (slice 20 36 p))))
      (still g)

Tame-answer : (replies : List Bytes) (address : Endpoint) → Tame (answer replies address)
unfolding answer
Tame-answer [] address = Tame-pure tt
Tame-answer (p ∷ ps) address =
    Tame-then (send_clear p address) (answer ps address) (Tame-send_clear p address)
      (Tame-answer ps address)

Tame-adopt :
    (path : String) (replies : List Bytes) (address : Endpoint) → Tame (adopt path replies address)
unfolding adopt
Tame-adopt path replies address =
    Tame-then (modify (λ s. record s { peer = some address; connect_path = path })) _
      (Tame-modify (λ s. record s { peer = some address; connect_path = path }) (λ s. refl))
      (Tame-then (answer replies address) (pure none) (Tame-answer replies address)
        (Tame-pure none))

pub Tame-negotiate :
    (directory : List Endpoint) (g : Negotiation) (p : Bytes) (address : Endpoint)
    → Tame (negotiate directory g p address)
unfolding negotiate
Tame-negotiate directory g p address =
    let body = λ (s : Cs2Session).
      let is = λ (b : ℕ). equal (take 2 p) (kind b) in
      let from_directory = contains directory address in
      let from_relay = contains g.relay_endpoints address in
      let from_camera = not from_directory && length p == 24 && equal (slice 4 24 p) s.uid in
      Tame-if (is 0x40 && from_directory && leb 20 (length p)) _ _
        (Tame-on_address g (decode_network_address (slice 4 20 p)))
        (Tame-if (is 0x69 && from_directory) _ _
          (still (record g { relay_endpoints = add_all (decode_relay_list p) g.relay_endpoints }))
          (Tame-if (is 0x71 && from_relay) _ _ (Tame-on_relay_hello g g.relay_port_endpoint address)
            (Tame-if (is 0x73 && from_relay) _ _
              (Tame-if (is_relay_port g.relay_port_endpoint address) _ _
                (Tame-on_relay_port directory g (make_relay_request_from_ack s.uid address p))
                (still g))
              (Tame-if (is 0x82 && from_directory) _ _
                (Tame-if (length p == 24) _ _
                  (Tame-on_rendezvous g p address (decode_network_address (slice 4 20 p)))
                  (still g))
                (Tame-if (is 0x02 && length p == 36) _ _ (Tame-on_relay_to g p) (
                  Tame-if (is 0x41 && not s.prefer_relay && from_camera) _ _
                    (Tame-adopt "direct-punch" (ready_reply s.uid ∷ alive_request ∷ []) address)
                    (Tame-if (is 0x42 && not s.prefer_relay && from_camera) _ _
                      (Tame-adopt "direct-accept" (ready_ack ∷ []) address)
                      (Tame-if (is 0x42 && s.prefer_relay && from_camera) _ _
                        (Tame-then (count "declined_readiness") _
                          (Tame-count 1 "declined_readiness")
                          (Tame-then (send_clear ready_ack address) (pure (some g))
                            (Tame-send_clear ready_ack address) (still g)))
                        (Tame-if (is 0x84 && from_camera) _ _
                          (Tame-adopt "relay" (alive_request ∷ []) address) (still g)))))))))) in
    record { onward = λ s. (body s).onward s; ends = λ s. (body s).ends s }
