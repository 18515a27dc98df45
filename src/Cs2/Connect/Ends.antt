-- ===== src/Cs2/Connect/Ends.antt =====
-- The loop of `connect` ends.
use okam_ha_native.Base.{
  ℕ, zero, suc, ◌+◌, ◌≤◌, ◌<◌, ◌||◌, List, ◌≢◌, refl, arith, none, some, Option, leb, take, length,
  Bool-cases, inl, inr, ok, err, Result, out_of_fuel,
}
use okam_ha_native.Base.Action.{Action, continue, modify, done}
use okam_ha_native.Base.Bytes.{Bytes, equal}
use okam_ha_native.Base.Names.{hex, decimal}
use okam_ha_native.Base.Text.{Text}
use okam_ha_native.Cs2.Address.{Endpoint, encode_network_address}
use okam_ha_native.Cs2.Channel.Ends.{Advances, Expires}
use okam_ha_native.Cs2.Connect.{
  Verdict, note_packet, receive_one, round, go_by, negotiation_loop, Binding, no_socket, no_name,
  bound, local_port, local_host, open_socket, start_negotiation, connect, is_unopened, directory_of,
  lookup_packet, not_established,
}
use okam_ha_native.Cs2.Connect.Turn.{Tame-negotiate}
use okam_ha_native.Cs2.Outreach.{Negotiation, send_due, fresh}
use okam_ha_native.Cs2.Outreach.Ends.{Tame-send_due}
use okam_ha_native.Cs2.Progress.{
  Tame, Tame-if, Tame-then, Tame-pure, Tame-modify, Tame-bind, Tame-raise, Tame-monotonic,
  Tame-receive_clear,
}
use okam_ha_native.Cs2.Pump.Turn.{Tame-count_kind, Tame-close}
use okam_ha_native.Cs2.Session.{
  Cs2Session, opened, add_target, count_kind, monotonic, receive_clear, close,
}
use okam_ha_native.Cs2.Wire.{kind}
use Prim.Native.String.{◌++◌ as concat}

Tame-note_packet : (p : Bytes) (address : Endpoint) → Tame (note_packet p address)
unfolding note_packet
Tame-note_packet p address =
    let is = λ (b : ℕ). equal (take 2 p) (kind b) in
    Tame-then _ _
      (Tame-if (is 0x41 || is 0x42 || is 0x84)
        (modify (λ s. record s { close_targets = add_target address s.close_targets })) done
        (Tame-modify (λ s. record s { close_targets = add_target address s.close_targets })
          (λ s. refl))
        (Tame-pure tt))
      (Tame-then _ _ (Tame-count_kind "connect_" (hex (take 2 p))) (
        Tame-if (is 0x73 || is 0x82 || is 0x84)
          (count_kind (concat (hex (take 2 p)) "_len") (decimal (length p))) done
          (Tame-count_kind (concat (hex (take 2 p)) "_len") (decimal (length p))) (Tame-pure tt)))

Tame-receive_one :
    (directory : List Endpoint) (g : Negotiation) (r : Option (Bytes × Endpoint))
    → Tame (receive_one directory g r)
unfolding receive_one
Tame-receive_one directory g none = Tame-pure (some g)
Tame-receive_one directory g (some (p, address)) =
    Tame-then _ _ (Tame-note_packet p address) (Tame-negotiate directory g p address)

Tame-round :
    (lookup : Bytes) (directory : List Endpoint) (g : Negotiation) → Tame (round lookup directory g)
unfolding round
Tame-round lookup directory g = Tame-bind monotonic _ Tame-monotonic (λ now.
    Tame-bind (send_due lookup directory now g) _ (Tame-send_due lookup directory now g) (λ g'.
      Tame-bind receive_clear (receive_one directory g') Tame-receive_clear
        (Tame-receive_one directory g')))

go_by_ends :
    (r : Result Verdict × Cs2Session) (go_on : Negotiation → Action Cs2Session (Unit {0}))
    → r.0 ≢ err out_of_fuel
    → ((g : Negotiation) → (go_on g r.1).0 ≢ err out_of_fuel)
    → (continue r (λ verdict. go_by verdict go_on)).0 ≢ err out_of_fuel
unfolding go_by
go_by_ends (ok none, s) go_on h k = λ q. cc q
go_by_ends (ok (some g), s) go_on h k = k g
go_by_ends (err e, s) go_on h k = λ q. h (ground (arith, q))

negotiation_loop_ends :
    (fuel : ℕ) (lookup : Bytes) (directory : List Endpoint) (deadline limit : ℕ) (g : Negotiation)
    (s : Cs2Session)
    → Expires deadline limit s
    → 0 < fuel
    → limit < fuel + s.world.clock_calls
    → (negotiation_loop fuel lookup directory deadline g s).0 ≢ err out_of_fuel
unfolding negotiation_loop
negotiation_loop_ends zero lookup directory deadline limit g s e some_fuel enough =
    absurd (omega arith)
negotiation_loop_ends (suc fuel) lookup directory deadline limit g s e some_fuel enough =
    let now = s.world.clock s.world.clock_calls in
    let started = (monotonic s).1 in
    elim (Bool-cases (leb deadline now)) [
      | inl late ↦
          rw late ((Tame-then close _ Tame-close (Tame-raise not_established)).ends started)
      | inr early ↦
          let o = (Tame-round lookup directory g).onward started in
          let later : s.world.clock_calls < limit = ground (arith, e s.world.clock_calls, early) in
          rw early (
            go_by_ends (round lookup directory g started)
              (negotiation_loop fuel lookup directory deadline)
              ((Tame-round lookup directory g).ends started)
              (λ g'.
                negotiation_loop_ends fuel lookup directory deadline limit g'
                  (round lookup directory g started).1 (λ n h. rw o.same_clock (e n h))
                  (omega (arith, later, enough)) (omega (arith, o.later, enough))))
    ]

Tame-local_port : (binding : Binding) → Tame (local_port binding)
unfolding local_port
Tame-local_port no_socket = Tame-raise "native P2P socket could not be opened"
Tame-local_port no_name =
    Tame-then (modify (λ s. record s { socket = opened })) _
      (Tame-modify (λ s. record s { socket = opened }) (λ s. refl))
      (Tame-then close _ Tame-close (Tame-raise "native P2P socket could not be opened"))
Tame-local_port (bound port) =
    Tame-then (modify (λ s. record s { socket = opened })) _
      (Tame-modify (λ s. record s { socket = opened }) (λ s. refl)) (Tame-pure port)

Tame-local_host : (route : Option Text) → Tame (local_host route)
unfolding local_host
Tame-local_host none =
    Tame-then close _ Tame-close (Tame-raise "native P2P network route is unavailable")
Tame-local_host (some host) = Tame-pure host

encode_ends : (e : Endpoint) → encode_network_address e ≢ err out_of_fuel
unfolding encode_network_address
encode_ends e = λ q. ground (arith, q)

Tame-open_socket : (binding : Binding) (route : Option Text) → Tame (open_socket binding route)
unfolding open_socket
Tame-open_socket binding route = Tame-bind (local_port binding) _ (Tame-local_port binding) (λ port.
    Tame-bind (local_host route) _ (Tame-local_host route) (λ host. record {
      onward = λ s. record { same_clock = refl; later = omega arith };
      ends = λ s. encode_ends (record { host = host; port = port });
    }))

opened_ends :
    (fuel timeout limit : ℕ) (lookup : Bytes → Bytes) (directory : List Endpoint)
    (r : Result Bytes × Cs2Session)
    → r.0 ≢ err out_of_fuel
    → Advances timeout limit r.1
    → 0 < fuel
    → limit ≤ fuel
    → (continue r
        (λ local_address. start_negotiation fuel (lookup local_address) directory timeout)).0
      ≢ err out_of_fuel
unfolding start_negotiation
opened_ends fuel timeout limit lookup directory (err e', s) h e some_fuel enough =
    λ q. h (ground (arith, q))
opened_ends fuel timeout limit lookup directory (ok local_address, s) h e some_fuel enough =
    let start = s.world.clock_calls in
    negotiation_loop_ends fuel (lookup local_address) directory (s.world.clock start + timeout)
      (start + limit) fresh (monotonic s).1 (λ n k. e start n k) some_fuel (omega (arith, enough))

-- `connect` returns or raises, and its loop does not run on: when the clock advances by the timeout
-- within `limit` readings, as many rounds are enough.
pub connect_ends :
    (fuel : ℕ) (binding : Binding) (route : Option Text) (timeout limit : ℕ) (s : Cs2Session)
    → Advances timeout limit s
    → 0 < fuel
    → limit ≤ fuel
    → (connect fuel binding route timeout s).0 ≢ err out_of_fuel
unfolding connect
connect_ends fuel binding route timeout limit s e some_fuel enough =
    elim (Bool-cases (is_unopened s.socket)) [
      | inr started ↦ rw started (λ q. cc q)
      | inl first ↦
          let tame = Tame-open_socket binding route in
          rw first (
            opened_ends fuel timeout limit (lookup_packet s.uid) (directory_of s)
              (open_socket binding route s) (tame.ends s)
              (λ m n h. rw (tame.onward s).same_clock (e m n h)) some_fuel enough)
    ]
