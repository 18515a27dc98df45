-- ===== src/Cs2/Connect/Adopt.antt =====
-- Which packets make their sender the peer.
use okam_ha_native.Base.{
  ◌⊎◌, ℕ, Bool, true, false, not, ◌&&◌, List, [], ◌∷◌, ◌≡◌, ◌≢◌, refl, ◌∙◌, ap, sym, arith, none,
  some, Option, String, leb, ◌==◌, if◌then◌else◌, length, take, inl, inr, ok, err, Result,
}
use okam_ha_native.Base.Action.{Action, continue-eq_ok, pure-eq_ok, pure, ◌>>◌, ◌>>=◌}
use okam_ha_native.Base.Bytes.{Bytes, slice, equal, equal_iff, from_big}
use okam_ha_native.Cs2.Address.{Endpoint, decode_network_address}
use okam_ha_native.Cs2.Connect.{
  add_all, Verdict, on_address, on_relay_hello, on_relay_port, on_rendezvous, on_relay_to,
  is_relay_port, answer, adopt, negotiate,
}
use okam_ha_native.Cs2.Outreach.{
  Negotiation, contains, send_twice, send_each, send_each_twice, punch, relay_port_request,
  alive_request,
}
use okam_ha_native.Cs2.Pump.{ready_ack, ready_reply}
use okam_ha_native.Cs2.Relay.{make_relay_punch, decode_relay_list, make_relay_request_from_ack}
use okam_ha_native.Cs2.Session.{Cs2Session, send_clear, count, add_target}
use okam_ha_native.Cs2.Wire.{kind}

-- An action that never ends the negotiation.
abbrev GoesOn : Action Cs2Session Verdict → Type 0
GoesOn m = (s t : Cs2Session) → m s ≢ (ok none, t)

then-GoesOn :
    {A : Type 0} (m : Action Cs2Session A) (k : A → Action Cs2Session Verdict)
    → ((a : A) → GoesOn (k a))
    → GoesOn (m >>= k)
then-GoesOn m k go s t h = let (a, good, rest) = continue-eq_ok (m s) k h in go a (m s).1 t rest

pure-GoesOn : (g : Negotiation) → GoesOn (pure (some g))
pure-GoesOn g s t h = absurd (cc (pure-eq_ok h))

on_address-GoesOn : (g : Negotiation) (r : Result Endpoint) → GoesOn (on_address g r)
unfolding on_address
on_address-GoesOn g (err e) s t = pure-GoesOn g s t
on_address-GoesOn g (ok endpoint) s t =
    let g' = record g { endpoints = add_target endpoint g.endpoints } in
    then-GoesOn (λ s. send_twice (punch s.uid) endpoint s) (λ _. pure (some g'))
      (λ _. pure-GoesOn g') (record s { close_targets = add_target endpoint s.close_targets }) t

on_relay_hello-GoesOn :
    (g : Negotiation) (e : Option Endpoint) (address : Endpoint)
    → GoesOn (on_relay_hello g e address)
unfolding on_relay_hello
on_relay_hello-GoesOn g (some e) address = pure-GoesOn g
on_relay_hello-GoesOn g none address =
    let g' = record g { relay_port_endpoint = some address } in
    then-GoesOn (send_clear relay_port_request address) (λ _. pure (some g')) (λ _. pure-GoesOn g')

on_relay_port-GoesOn :
    (directory : List Endpoint) (g : Negotiation) (r : Option Bytes)
    → GoesOn (on_relay_port directory g r)
unfolding on_relay_port
on_relay_port-GoesOn directory g none = pure-GoesOn g
on_relay_port-GoesOn directory g (some request) =
    let g' = record g { relay_request = some request } in
    then-GoesOn (send_each request directory) (λ _. pure (some g')) (λ _. pure-GoesOn g')

on_rendezvous-GoesOn :
    (g : Negotiation) (p : Bytes) (address : Endpoint) (r : Result Endpoint)
    → GoesOn (on_rendezvous g p address r)
unfolding on_rendezvous
on_rendezvous-GoesOn g p address (err e) = pure-GoesOn g
on_rendezvous-GoesOn g p address (ok target) =
    then-GoesOn
      (λ s.
        send_each_twice (make_relay_punch s.uid (from_big (slice 20 24 p))) (target ∷ address ∷ [])
          s)
      (λ _. pure (some g)) (λ _. pure-GoesOn g)

on_relay_to-GoesOn : (g : Negotiation) (p : Bytes) → GoesOn (on_relay_to g p)
unfolding on_relay_to
on_relay_to-GoesOn g p = then-GoesOn _ (λ _. pure (some g)) (λ _. pure-GoesOn g)

if-GoesOn :
    (b : Bool) (m k : Action Cs2Session Verdict) → GoesOn m → GoesOn k → GoesOn (if b then m else k)
if-GoesOn true m k p q = p
if-GoesOn false m k p q = q

send_clear-peer : (p : Bytes) (e : Endpoint) (s : Cs2Session) → (send_clear p e s).1.peer ≡ s.peer
send_clear-peer p e s = refl

answer-peer :
    (replies : List Bytes) (address : Endpoint) (s t : Cs2Session)
    → answer replies address s ≡ (ok tt, t)
    → (t.peer ≡ s.peer) × (t.connect_path ≡ s.connect_path) × (t.closed ≡ s.closed)
unfolding answer
answer-peer [] address s t h =
    let e = ap (λ r. r.1) h in
    (ap (λ u. u.peer) (sym e), ap (λ u. u.connect_path) (sym e), ap (λ u. u.closed) (sym e))
answer-peer (p ∷ ps) address s t h =
    let (u, good, rest) = continue-eq_ok (send_clear p address s) (λ _. answer ps address) h in
    answer-peer ps address (send_clear p address s).1 t rest

adopt-peer :
    (path : String) (replies : List Bytes) (address : Endpoint) (s t : Cs2Session)
    → adopt path replies address s ≡ (ok none, t)
    → (t.peer ≡ some address) × (t.connect_path ≡ path) × (t.closed ≡ s.closed)
unfolding adopt
adopt-peer path replies address s t h =
    let s' = record s { peer = some address; connect_path = path } in
    let (u, good, rest) = continue-eq_ok (answer replies address s') (λ _. pure none) h in
    let last = (answer replies address s').1 in
    let (a, b, c) = answer-peer replies address s' last (ap (λ r. (r, last)) good) in
    let e : last ≡ t = ap (λ r. r.1) rest in
    (
      ap (λ u. u.peer) (sym e) ∙ a,
      ap (λ u. u.connect_path) (sym e) ∙ b,
      ap (λ u. u.closed) (sym e) ∙ c,
    )

-- What must hold of a packet whose sender becomes the peer, and what the session has then.
pub record Adopted (directory : List Endpoint) (p : Bytes) (address : Endpoint) (s t : Cs2Session)
    : Type 0 where
  pub known : contains directory address ≡ false
  pub size : length p ≡ 24
  pub identifier : equal (slice 4 24 p) s.uid ≡ true
  pub peer : t.peer ≡ some address
  pub closed : t.closed ≡ s.closed
  pub way :
      ((t.connect_path ≡ "relay") × (take 2 p ≡ kind 0x84))
      ⊎ ((s.prefer_relay ≡ false) × ((take 2 p ≡ kind 0x41) ⊎ (take 2 p ≡ kind 0x42)))

module _ (s t : Cs2Session) where
  skip :
      (b : Bool) (m k : Action Cs2Session Verdict)
      → GoesOn m
      → (if b then m else k) s ≡ (ok none, t)
      → k s ≡ (ok none, t)
  skip true m k go h = absurd (go s t h)
  skip false m k go h = h

  split :
      (b : Bool) (m k : Action Cs2Session Verdict)
      → (if b then m else k) s ≡ (ok none, t)
      → ((b ≡ true) × (m s ≡ (ok none, t))) ⊎ (k s ≡ (ok none, t))
  split true m k h = inl (refl, h)
  split false m k h = inr h

  module _ (directory : List Endpoint) (p : Bytes) (address : Endpoint) where
    -- The branches that adopt, by what their tests say.
    adopted :
        (path : String) (replies : List Bytes) (b : ℕ) (more : Bool)
        → (equal (take 2 p) (kind b)
            && more
            && (not (contains directory address) && length p == 24 && equal (slice 4 24 p) s.uid))
          ≡ true
        → adopt path replies address s ≡ (ok none, t)
        → (take 2 p ≡ kind b
            → more ≡ true
            → t.connect_path ≡ path
            → ((t.connect_path ≡ "relay") × (take 2 p ≡ kind 0x84))
              ⊎ ((s.prefer_relay ≡ false) × ((take 2 p ≡ kind 0x41) ⊎ (take 2 p ≡ kind 0x42))))
        → Adopted directory p address s t
    adopted path replies b more test h way =
        let (a, q, c) = adopt-peer path replies address s t h in
        let named : equal (take 2 p) (kind b) ≡ true = ground (arith, test) in
        record {
          known = ground (arith, test);
          size = ground (arith, test);
          identifier = ground (arith, test);
          peer = a;
          closed = c;
          way = way ((equal_iff (take 2 p) (kind b)).0 named) (ground (arith, test)) q;
        }

-- The first branches of the ladder never adopt a peer, and the last ones only the sender of a packet
-- with the identifier of the camera that is no directory server: of F1 84, or, unless the
-- relay is preferred, of F1 41 or F1 42.
pub negotiate_adopts :
    (directory : List Endpoint) (g : Negotiation) (p : Bytes) (address : Endpoint)
    (s t : Cs2Session)
    → negotiate directory g p address s ≡ (ok none, t)
    → Adopted directory p address s t
unfolding negotiate
negotiate_adopts directory g p address s t h =
    let is = λ (b : ℕ). equal (take 2 p) (kind b) in
    let from_directory = contains directory address in
    let from_relay = contains g.relay_endpoints address in
    let from_camera = not from_directory && length p == 24 && equal (slice 4 24 p) s.uid in
    let stay = pure-GoesOn g in
    let h1 =
      skip s t (is 0x40 && from_directory && leb 20 (length p)) _ _
        (on_address-GoesOn g (decode_network_address (slice 4 20 p))) h in
    let h2 =
      skip s t (is 0x69 && from_directory) _ _
        (pure-GoesOn
          (record g { relay_endpoints = add_all (decode_relay_list p) g.relay_endpoints }))
        h1 in
    let h3 =
      skip s t (is 0x71 && from_relay) _ _ (on_relay_hello-GoesOn g g.relay_port_endpoint address)
        h2 in
    let h4 =
      skip s t (is 0x73 && from_relay) _ _
        (if-GoesOn (is_relay_port g.relay_port_endpoint address) _ _
          (on_relay_port-GoesOn directory g (make_relay_request_from_ack s.uid address p)) stay)
        h3 in
    let h5 =
      skip s t (is 0x82 && from_directory) _ _
        (if-GoesOn (length p == 24) _ _
          (on_rendezvous-GoesOn g p address (decode_network_address (slice 4 20 p))) stay)
        h4 in
    let h6 = skip s t (is 0x02 && length p == 36) _ _ (on_relay_to-GoesOn g p) h5 in
    elim (split s t (is 0x41 && not s.prefer_relay && from_camera) _ _ h6) [
      | inl (test, punched) ↦
          adopted s t directory p address "direct-punch" (ready_reply s.uid ∷ alive_request ∷ [])
            0x41 (not s.prefer_relay) test punched
            (λ k direct path. inr (ground (arith, direct), inl k))
      | inr h7 ↦ elim (split s t (is 0x42 && not s.prefer_relay && from_camera) _ _ h7) [
        | inl (test, accepted) ↦
            adopted s t directory p address "direct-accept" (ready_ack ∷ []) 0x42
              (not s.prefer_relay) test accepted
              (λ k direct path. inr (ground (arith, direct), inr k))
        | inr h8 ↦
            let declined =
              then-GoesOn (count "declined_readiness")
                (λ _. send_clear ready_ack address >> pure (some g))
                (λ _.
                  then-GoesOn (send_clear ready_ack address) (λ _. pure (some g)) (λ _. stay)) in
            let h9 = skip s t (is 0x42 && s.prefer_relay && from_camera) _ _ declined h8 in
            elim (split s t (is 0x84 && from_camera) _ _ h9) [
              | inl (test, relayed) ↦
                  adopted s t directory p address "relay" (alive_request ∷ []) 0x84 true
                    (ground (arith, test)) relayed (λ k any path. inl (path, k))
              | inr end ↦ absurd (stay s t end)
            ]
      ]
    ]
