-- ===== src/Cs2/Kept.antt =====
-- What a session never changes while it negotiates: `prefer_relay`, the identifier, the key, what
-- arrives, and, unless it raises, whether it is closed.
use okam_ha_native.Base.{ arith, ℕ, ◌+◌, ◌≤◌, List, [], ◌∷◌,
  Bool, true, false, ◌≡◌, refl, ◌∙◌, ap, subst, none, some, String, if◌then◌else◌, ok, err, Result,
  cs2_error,
}
use okam_ha_native.Base.Action.{Action, continue-eq_ok, pure, modify, raise, ◌>>◌, ◌>>=◌}
use okam_ha_native.Base.Bytes.{Bytes}
use okam_ha_native.Cs2.Session.{ World, transmit, transmit_all, transmit_encoded,
  Cs2Session, Arrival, datagram, nothing, failure, Socket, unopened, opened, shut, send_clear,
  receive_clear, receive_from, receive_arrival, receive_classified, called_receive, count,
}
use okam_ha_native.Base.Text.{Text}
use okam_ha_native.Cs2.Wire.{encode_wire_packets, Reception, packet, undecodable, length_mismatch, open_datagram}
use okam_ha_native.Cs2.Address.{Endpoint}

-- What the negotiation reads of a session and never writes.
pub record Kept (s t : Cs2Session) : Type 0 where
  pub prefers : t.prefer_relay ≡ s.prefer_relay
  pub identifier : t.uid ≡ s.uid
  pub closed : t.closed ≡ s.closed
  pub key : t.key ≡ s.key
  pub arrivals : t.world.arrivals ≡ s.world.arrivals
  pub later : s.world.arrival_calls ≤ t.world.arrival_calls

abbrev pub Keeps : {A : Type 0} → Action Cs2Session A → Type 0
Keeps {A} m = (s t : Cs2Session) (a : A) → m s ≡ (ok a, t) → Kept s t

pub Kept-refl : (s : Cs2Session) → Kept s s
Kept-refl s = record { prefers = refl; identifier = refl; closed = refl; key = refl; arrivals = refl; later = omega arith }

pub Kept-trans : {s t u : Cs2Session} → Kept s t → Kept t u → Kept s u
Kept-trans f g = record {
  prefers = g.prefers ∙ f.prefers;
  identifier = g.identifier ∙ f.identifier;
  closed = g.closed ∙ f.closed;
  key = g.key ∙ f.key;
  arrivals = g.arrivals ∙ f.arrivals;
  later = omega (arith, f.later, g.later);
}

pub to_Kept :
    {A : Type 0} {a b : A} (s u t : Cs2Session)
    → Kept s u
    → ◌≡◌ {A = Result A × Cs2Session} (ok a, u) (ok b, t)
    → Kept s t
to_Kept s u t k h = subst (Kept s) (ap (λ r. r.1) h) k

module _ {A : Type 0} where
  pub raise-Keeps : (message : String) → Keeps (raise {S = Cs2Session} {A = A} (cs2_error message))
  raise-Keeps message s t a h = absurd (cc h)

  pub pure-Keeps : (a : A) → Keeps (pure {S = Cs2Session} a)
  pure-Keeps a s t b h = to_Kept s s t (Kept-refl s) h

  pub bind-Keeps :
      {B : Type 0} (m : Action Cs2Session A) (f : A → Action Cs2Session B)
      → Keeps m
      → ((a : A) → Keeps (f a))
      → Keeps (m >>= f)
  bind-Keeps m f km kf s t b h =
      let (a, good, rest) = continue-eq_ok (m s) f h in
      Kept-trans (km s (m s).1 a (ap (λ r. (r, (m s).1)) good)) (kf a (m s).1 t b rest)

  pub if-Keeps :
      (b : Bool) (m k : Action Cs2Session A) → Keeps m → Keeps k → Keeps (if b then m else k)
  if-Keeps true m k p q = p
  if-Keeps false m k p q = q

pub then-Keeps :
    {A B : Type 0} (m : Action Cs2Session A) (k : Action Cs2Session B)
    → Keeps m
    → Keeps k
    → Keeps (m >> k)
then-Keeps m k km kk = bind-Keeps m (λ _. k) km (λ _. kk)

pub modify-Keeps :
    (f : Cs2Session → Cs2Session) → ((s : Cs2Session) → Kept s (f s)) → Keeps (modify f)
modify-Keeps f k s t a h = to_Kept s (f s) t (k s) h

-- Sending leaves what arrives.
record Listens (v w : World) : Type 0 where
  arrivals : w.arrivals ≡ v.arrivals
  calls : w.arrival_calls ≡ v.arrival_calls

if-Listens :
    {A : Type 0} (b : Bool) (x y : Result A × World) (v : World)
    → Listens v x.1
    → Listens v y.1
    → Listens v (if b then x else y).1
if-Listens true x y v h k = h
if-Listens false x y v h k = k

transmit_all-Listens :
    (socket : Socket) (ps : List Bytes) (e : Endpoint) (w : World)
    → Listens w (transmit_all socket ps e w).1
unfolding transmit_all
transmit_all-Listens unopened [] e w = record { arrivals = refl; calls = refl }
transmit_all-Listens opened [] e w = record { arrivals = refl; calls = refl }
transmit_all-Listens shut [] e w = record { arrivals = refl; calls = refl }
transmit_all-Listens shut (p ∷ ps) e w = record { arrivals = refl; calls = refl }
transmit_all-Listens unopened (p ∷ ps) e w =
    let rest = transmit_all-Listens unopened ps e _ in
    if-Listens (w.send_fails w.send_calls) _ _ w (record { arrivals = refl; calls = refl })
      (record { arrivals = rest.arrivals; calls = rest.calls })
transmit_all-Listens opened (p ∷ ps) e w =
    let rest = transmit_all-Listens opened ps e _ in
    if-Listens (w.send_fails w.send_calls) _ _ w (record { arrivals = refl; calls = refl })
      (record { arrivals = rest.arrivals; calls = rest.calls })

transmit_encoded-Listens :
    (socket : Socket) (wire : Result (List Bytes)) (e : Endpoint) (w : World)
    → Listens w (transmit_encoded socket wire e w).1
transmit_encoded-Listens socket (ok wire) e w = transmit_all-Listens socket wire e w
transmit_encoded-Listens socket (err e') e w = record { arrivals = refl; calls = refl }

transmit-Listens :
    (socket : Socket) (key : Text) (p : Bytes) (e : Endpoint) (w : World)
    → Listens w (transmit socket key p e w).1
unfolding transmit
transmit-Listens unopened key p e w = record { arrivals = refl; calls = refl }
transmit-Listens opened key p e w = transmit_encoded-Listens opened (encode_wire_packets key p) e w
transmit-Listens shut key p e w = transmit_encoded-Listens shut (encode_wire_packets key p) e w

pub send_clear-Keeps : (p : Bytes) (e : Endpoint) → Keeps (send_clear p e)
send_clear-Keeps p e s t a h =
    let listens = transmit-Listens s.socket s.key p e s.world in
    subst (Kept s) (ap (λ r. r.1) h) (record {
      prefers = refl;
      identifier = refl;
      closed = refl;
      key = refl;
      arrivals = listens.arrivals;
      later = omega (arith, listens.calls);
    })

pub count-Keeps : (name : String) → Keeps (count name)
count-Keeps name = modify-Keeps _ (λ s. record { prefers = refl; identifier = refl; closed = refl; key = refl; arrivals = refl; later = omega arith })

receive_classified-Keeps : (r : Result Reception) (e : Endpoint) → Keeps (receive_classified r e)
unfolding receive_classified
receive_classified-Keeps (ok (packet clear)) e s t a h = pure-Keeps (some (clear, e)) s t a h
receive_classified-Keeps (ok undecodable) e s t a h =
    then-Keeps (count "packets_undecodable") (pure none) (count-Keeps _) (pure-Keeps none) s t a h
receive_classified-Keeps (ok length_mismatch) e s t a h =
    then-Keeps (count "packets_length_mismatch") (pure none) (count-Keeps _) (pure-Keeps none) s t a
      h
receive_classified-Keeps (err e') e s t a h = absurd (cc h)

receive_arrival-Keeps : (r : Arrival) → Keeps (receive_arrival r)
unfolding receive_arrival
receive_arrival-Keeps (datagram encrypted e) s =
    then-Keeps (count "packets_received") (receive_classified (open_datagram s.key encrypted) e)
      (count-Keeps _) (receive_classified-Keeps (open_datagram s.key encrypted) e) s
receive_arrival-Keeps nothing s = pure-Keeps none s
receive_arrival-Keeps failure s = raise-Keeps "native P2P receive failed" s

receive_from-Keeps : (socket : Socket) → Keeps (receive_from socket)
unfolding receive_from
receive_from-Keeps unopened s t a h = pure-Keeps none s t a h
receive_from-Keeps shut s t a h = raise-Keeps "native P2P receive failed" s t a h
receive_from-Keeps opened s t a h =
    let k =
      receive_arrival-Keeps (s.world.arrivals s.world.arrival_calls) (called_receive s) t a h in
    record {
      prefers = k.prefers;
      identifier = k.identifier;
      closed = k.closed;
      key = k.key;
      arrivals = k.arrivals;
      later = omega (arith, k.later);
    }

pub receive_clear-Keeps : Keeps receive_clear
unfolding receive_clear
receive_clear-Keeps s = receive_from-Keeps s.socket s
