-- ===== src/Cs2/Connect/Arrived.antt =====
-- The packets that `_receive_clear` gives out have arrived.
use okam_ha_native.Base.{
  ℕ, ◌≤◌, ◌≡◌, refl, sym, ap, ◌∙◌, arith, subst, Option, none, some, Result, ok, err,
}
use okam_ha_native.Base.Action.{continue, continue-eq_ok, pure, ◌>>◌}
use okam_ha_native.Base.Bytes.{Bytes}
use okam_ha_native.Cs2.Address.{Endpoint}
use okam_ha_native.Cs2.Kept.{Kept}
use okam_ha_native.Cs2.Session.{
  Cs2Session, Arrival, datagram, nothing, failure, Socket, unopened, opened, shut, receive_clear,
  receive_from, receive_arrival, receive_classified, called_receive, count,
}
use okam_ha_native.Cs2.Wire.{Reception, packet, undecodable, length_mismatch, open_datagram}

-- From `s` on, a datagram comes from that address that opens to the packet.
pub record Arrived (s : Cs2Session) (p : Bytes) (address : Endpoint) : Type 0 where
  pub number : ℕ
  pub since : s.world.arrival_calls ≤ number
  pub encrypted : Bytes
  pub received : s.world.arrivals number ≡ datagram encrypted address
  pub opens : open_datagram s.key encrypted ≡ ok (packet p)

pub earlier-Arrived :
    {s u : Cs2Session} {p : Bytes} {address : Endpoint}
    → Kept s u
    → Arrived u p address
    → Arrived s p address
earlier-Arrived k a = record {
  number = a.number;
  since = omega (arith, k.later, a.since);
  encrypted = a.encrypted;
  received = ap (λ f. f a.number) (sym k.arrivals) ∙ a.received;
  opens = ap (λ key. open_datagram key a.encrypted) (sym k.key) ∙ a.opens;
}

receive_classified-packet :
    (r : Result Reception) (e address : Endpoint) (p : Bytes) (s t : Cs2Session)
    → receive_classified r e s ≡ (ok (some (p, address)), t)
    → (r ≡ ok (packet p)) × (e ≡ address)
unfolding receive_classified
receive_classified-packet (ok (packet clear)) e address p s t h = (cc h, cc h)
receive_classified-packet (ok undecodable) e address p s t h = absurd (cc h)
receive_classified-packet (ok length_mismatch) e address p s t h = absurd (cc h)
receive_classified-packet (err e') e address p s t h = absurd (cc h)

receive_arrival-packet :
    (r : Arrival) (address : Endpoint) (p : Bytes) (s t : Cs2Session)
    → receive_arrival r s ≡ (ok (some (p, address)), t)
    → (encrypted : Bytes) × (r ≡ datagram encrypted address)
      × (open_datagram s.key encrypted ≡ ok (packet p))
unfolding receive_arrival
receive_arrival-packet (datagram encrypted e) address p s t h =
    let (opens, same) =
      receive_classified-packet (open_datagram s.key encrypted) e address p
        (count "packets_received" s).1 t h in
    (encrypted, ap (datagram encrypted) same, opens)
receive_arrival-packet nothing address p s t h = absurd (cc h)
receive_arrival-packet failure address p s t h = absurd (cc h)

receive_from-Arrived :
    (socket : Socket) (address : Endpoint) (p : Bytes) (s t : Cs2Session)
    → receive_from socket s ≡ (ok (some (p, address)), t)
    → Arrived s p address
unfolding receive_from
receive_from-Arrived unopened address p s t h = absurd (cc h)
receive_from-Arrived shut address p s t h = absurd (cc h)
receive_from-Arrived opened address p s t h =
    let (encrypted, received, opens) =
      receive_arrival-packet (s.world.arrivals s.world.arrival_calls) address p (called_receive s) t
        h in
    record {
      number = s.world.arrival_calls;
      since = omega arith;
      encrypted = encrypted;
      received = received;
      opens = opens;
    }

pub receive_clear-Arrived :
    (s t : Cs2Session) (r : Option (Bytes × Endpoint)) (p : Bytes) (address : Endpoint)
    → receive_clear s ≡ (ok r, t)
    → r ≡ some (p, address)
    → Arrived s p address
unfolding receive_clear
receive_clear-Arrived s t r p address h same =
    receive_from-Arrived s.socket address p s t (h ∙ ap (λ x. (ok x, t)) same)
