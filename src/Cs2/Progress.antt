-- ===== src/Cs2/Progress.antt =====
-- No method turns the clock back or reports that a loop of the model ran out of fuel, except where
-- it has such a loop: rules for the ways to build an action, and the methods up to `_pump`.
use okam_ha_native.Base.{
  ◌+◌, ◌≤◌, Bool, true, false, List, [], ◌∷◌, ◌++◌, ◌≡◌, ◌≢◌, refl, ap, ◌∙◌, arith, Bool-cases, inl,
  inr, none, String, if◌then◌else◌, Result, ok, err, cs2_error, assertion, out_of_fuel,
}
use okam_ha_native.Base.Action.{Action, pure, raise, modify, continue, ◌>>=◌, ◌>>◌}
use okam_ha_native.Base.Bytes.{Bytes}
use okam_ha_native.Base.Text.{Text}
use okam_ha_native.Cs2.Address.{Endpoint}
use okam_ha_native.Cs2.Cipher.{key_hash, encrypt_packet, decrypt_packet}
use okam_ha_native.Cs2.Wire.{
  Reception, packet, undecodable, length_mismatch, encode_wire_packets, open_datagram,
}
use okam_ha_native.Cs2.Session.{
  Cs2Session, World, Socket, unopened, opened, shut, transmit_all, transmit, send_clear, monotonic,
  receive_clear, Arrival, datagram, nothing, failure, receive_classified, receive_arrival,
  receive_from, called_receive, transmit_encoded, count,
}

-- `t` can follow `s`: the clock is the same, and has been read no less often.
pub record Onward (s t : Cs2Session) : Type 0 where
  pub same_clock : t.world.clock ≡ s.world.clock
  pub later : s.world.clock_calls ≤ t.world.clock_calls

pub record Tame {A : Type 0} (m : Action Cs2Session A) : Type 0 where
  pub onward : (s : Cs2Session) → Onward s (m s).1
  pub ends : (s : Cs2Session) → (m s).0 ≢ err out_of_fuel

pub Onward-refl : (s : Cs2Session) → Onward s s
Onward-refl s = record { same_clock = refl; later = omega arith }

pub Onward-trans : {s t u : Cs2Session} → Onward s t → Onward t u → Onward s u
Onward-trans f g = record { same_clock = g.same_clock ∙ f.same_clock; later = omega arith }

module _ {A : Type 0} where
  pub Tame-pure : (a : A) → Tame (pure {S = Cs2Session} a)
  Tame-pure a = record { onward = Onward-refl; ends = λ s e. cc e }

  pub Tame-raise : (message : String) → Tame (raise {S = Cs2Session} {A = A} (cs2_error message))
  Tame-raise message = record { onward = Onward-refl; ends = λ s e. cc e }

pub Tame-monotonic : Tame monotonic
Tame-monotonic = record {
  onward = λ s. record { same_clock = refl; later = omega arith };
  ends = λ s e. cc e;
}

-- A failed assertion is no lack of fuel.
pub Tame-assertion : {A : Type 0} → Tame (raise {S = Cs2Session} {A = A} assertion)
Tame-assertion = record { onward = Onward-refl; ends = λ s e. cc e }

module _ {A B : Type 0} where
  Tame-continue-Onward :
      {s : Cs2Session} (r : Result A × Cs2Session) (f : A → Action Cs2Session B)
      → ((a : A) → Tame (f a))
      → Onward s r.1
      → Onward s (continue r f).1
  Tame-continue-Onward (ok a, t) f tame o = Onward-trans o ((tame a).onward t)
  Tame-continue-Onward (err e, t) f tame o = o

  Tame-continue-ends :
      (r : Result A × Cs2Session) (f : A → Action Cs2Session B)
      → ((a : A) → Tame (f a))
      → r.0 ≢ err out_of_fuel
      → (continue r f).0 ≢ err out_of_fuel
  Tame-continue-ends (ok a, t) f tame h = (tame a).ends t
  Tame-continue-ends (err e, t) f tame h = λ q. h (ground (arith, q))

  pub Tame-bind :
      (m : Action Cs2Session A) (f : A → Action Cs2Session B)
      → Tame m
      → ((a : A) → Tame (f a))
      → Tame (m >>= f)
  Tame-bind m f tm tf = record {
    onward = λ s. Tame-continue-Onward (m s) f tf (tm.onward s);
    ends = λ s. Tame-continue-ends (m s) f tf (tm.ends s);
  }

  pub Tame-then :
      (m : Action Cs2Session A) (k : Action Cs2Session B) → Tame m → Tame k → Tame (m >> k)
  Tame-then m k tm tk = Tame-bind m (λ _. k) tm (λ _. tk)

pub Tame-if :
    {A : Type 0} (b : Bool) (m k : Action Cs2Session A)
    → Tame m
    → Tame k
    → Tame (if b then m else k)
Tame-if true m k tm tk = tm
Tame-if false m k tm tk = tk

-- An action that depends on the state it starts from.
pub Tame-state :
    {A : Type 0} (f : Cs2Session → Action Cs2Session A)
    → ((s : Cs2Session) → Tame (f s))
    → Tame (λ s. f s s)
Tame-state f tame = record { onward = λ s. (tame s).onward s; ends = λ s. (tame s).ends s }

-- Writes of the fields other than the world.
pub Tame-modify :
    (f : Cs2Session → Cs2Session) → ((s : Cs2Session) → (f s).world ≡ s.world) → Tame (modify f)
Tame-modify f same = record {
  onward = λ s. record {
    same_clock = ap (λ (w : World). w.clock) (same s);
    later = rw (same s) (omega arith);
  };
  ends = λ s e. cc e;
}

-- What a send does to the clock and how it can end.
record Quiet (w : World) (r : Result (Unit {0}) × World) : Type 0 where
  clock : r.1.clock ≡ w.clock
  calls : r.1.clock_calls ≡ w.clock_calls
  ends : r.0 ≢ err out_of_fuel

transmit_opened-Quiet :
    (wire : List Bytes) (address : Endpoint) (w : World)
    → Quiet w (transmit_all opened wire address w)
unfolding transmit_all
transmit_opened-Quiet [] address w = record { clock = refl; calls = refl; ends = λ e. cc e }
transmit_opened-Quiet (p ∷ ps) address w = elim (Bool-cases (w.send_fails w.send_calls)) [
  | inl fails ↦ rw fails (record { clock = refl; calls = refl; ends = λ e. cc e })
  | inr sends ↦
      let q =
        transmit_opened-Quiet ps address
          (record w { send_calls = w.send_calls + 1; sent = w.sent ++ ((p, address) ∷ []) }) in
      rw sends (record { clock = q.clock; calls = q.calls; ends = q.ends })
]

transmit_shut-Quiet :
    (wire : List Bytes) (address : Endpoint) (w : World)
    → Quiet w (transmit_all shut wire address w)
unfolding transmit_all
transmit_shut-Quiet [] address w = record { clock = refl; calls = refl; ends = λ e. cc e }
transmit_shut-Quiet (p ∷ ps) address w = record { clock = refl; calls = refl; ends = λ e. cc e }

encode_ends : (key : Text) (p : Bytes) → encode_wire_packets key p ≢ err out_of_fuel
unfolding encode_wire_packets encrypt_packet key_hash
encode_ends key p e = ground (arith, e)

decrypt_ends : (key : Text) (p : Bytes) → open_datagram key p ≢ err out_of_fuel
unfolding open_datagram decrypt_packet key_hash
decrypt_ends key p e = ground (arith, e)

encoded-Quiet :
    (socket : Socket) (wire : Result (List Bytes)) (address : Endpoint) (w : World)
    → ((ps : List Bytes) (a : Endpoint) (v : World) → Quiet v (transmit_all socket ps a v))
    → wire ≢ err out_of_fuel
    → Quiet w (transmit_encoded socket wire address w)
encoded-Quiet socket (ok ps) address w all h = all ps address w
encoded-Quiet socket (err e) address w all h = record {
  clock = refl;
  calls = refl;
  ends = λ q. h (ground (arith, q));
}

transmit-Quiet :
    (socket : Socket) (key : Text) (p : Bytes) (address : Endpoint) (w : World)
    → Quiet w (transmit socket key p address w)
unfolding transmit
transmit-Quiet unopened key p address w = record { clock = refl; calls = refl; ends = λ e. cc e }
transmit-Quiet opened key p address w =
    encoded-Quiet opened (encode_wire_packets key p) address w transmit_opened-Quiet
      (encode_ends key p)
transmit-Quiet shut key p address w =
    encoded-Quiet shut (encode_wire_packets key p) address w transmit_shut-Quiet (encode_ends key p)

pub Tame-send_clear : (p : Bytes) (address : Endpoint) → Tame (send_clear p address)
Tame-send_clear p address = record {
  onward = λ s.
      let q = transmit-Quiet s.socket s.key p address s.world in
      record { same_clock = q.clock; later = omega (arith, q.calls) };
  ends = λ s. (transmit-Quiet s.socket s.key p address s.world).ends;
}

Tame-receive_classified :
    (r : Result Reception) (address : Endpoint)
    → r ≢ err out_of_fuel
    → Tame (receive_classified r address)
unfolding receive_classified
Tame-receive_classified (ok (packet clear)) address h = Tame-pure _
Tame-receive_classified (ok undecodable) address h =
    Tame-then _ _ (Tame-modify _ (λ s. refl)) (Tame-pure _)
Tame-receive_classified (ok length_mismatch) address h =
    Tame-then _ _ (Tame-modify _ (λ s. refl)) (Tame-pure _)
Tame-receive_classified (err e) address h = record {
  onward = Onward-refl;
  ends = λ s q. h (ground (arith, q));
}

Tame-receive_arrival : (a : Arrival) → Tame (receive_arrival a)
unfolding receive_arrival
Tame-receive_arrival (datagram encrypted address) =
    Tame-state
      (λ s. do count "packets_received"; receive_classified (open_datagram s.key encrypted) address)
      (λ s. Tame-then _ _ (Tame-modify _ (λ t. refl)) (
        Tame-receive_classified (open_datagram s.key encrypted) address
          (decrypt_ends s.key encrypted)))
Tame-receive_arrival nothing = Tame-pure none
Tame-receive_arrival failure = Tame-raise "native P2P receive failed"

Tame-receive_from : (socket : Socket) → Tame (receive_from socket)
unfolding receive_from
Tame-receive_from unopened = Tame-pure none
Tame-receive_from shut = Tame-raise "native P2P receive failed"
Tame-receive_from opened = record {
  onward = λ s.
      let o =
        (Tame-receive_arrival (s.world.arrivals s.world.arrival_calls)).onward (called_receive s) in
      record { same_clock = o.same_clock; later = o.later };
  ends =
      λ s. (Tame-receive_arrival (s.world.arrivals s.world.arrival_calls)).ends (called_receive s);
}

pub Tame-receive_clear : Tame receive_clear
unfolding receive_clear
Tame-receive_clear = Tame-state (λ s. receive_from s.socket) (λ s. Tame-receive_from s.socket)
