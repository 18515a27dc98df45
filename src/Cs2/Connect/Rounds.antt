-- ===== src/Cs2/Connect/Rounds.antt =====
-- What the rounds of `connect` establish.
use okam_ha_native.Base.{ ◌⊎◌,
  length, ℕ, zero, suc, true, false, ◌||◌, List, ◌≡◌, ◌≢◌, refl, ◌∙◌, ap, subst, arith, none, some,
  Option, String, leb, take, Bool-cases, inl, inr, ok, cs2_error,
}
use okam_ha_native.Base.Action.{
  Action, continue-eq_ok, pure-eq_ok, modify, raise, done, ◌>>◌, ◌>>=◌,
}
use okam_ha_native.Base.Bytes.{Bytes, equal, slice}
use okam_ha_native.Base.Names.{hex, decimal}
use okam_ha_native.Cs2.Address.{Endpoint}
use okam_ha_native.Cs2.Connect.{
  go_by, Verdict, note_packet, receive_one, negotiate, round, negotiation_loop, not_established,
}
use okam_ha_native.Cs2.Connect.Adopt.{negotiate_adopts, Adopted}
use okam_ha_native.Cs2.Connect.Negotiate.{negotiate-Keeps}
use okam_ha_native.Cs2.Connect.Arrived.{Arrived, earlier-Arrived, receive_clear-Arrived}
use okam_ha_native.Cs2.Kept.{
  Kept, Kept-trans, Keeps, to_Kept, if-Keeps, then-Keeps, pure-Keeps, bind-Keeps, modify-Keeps,
  receive_clear-Keeps,
}
use okam_ha_native.Cs2.Outreach.{Negotiation, contains, send_due}
use okam_ha_native.Cs2.Outreach.Sends.{send_due-Keeps}
use okam_ha_native.Cs2.Session.{add_target, Cs2Session, receive_clear, monotonic, count_kind, close}
use okam_ha_native.Cs2.Wire.{kind}
use Prim.Native.String.{◌++◌ as concat}

-- A peer that was found with a packet `proof` that has arrived from its address, and how.
pub record Established (directory : List Endpoint) (s t : Cs2Session) : Type 0 where
  pub address : Endpoint
  pub peer : t.peer ≡ some address
  pub closed : t.closed ≡ s.closed
  pub proof : Bytes
  pub arrived : Arrived s proof address
  pub named : (take 2 proof ≡ kind 0x84) ⊎ ((take 2 proof ≡ kind 0x41) ⊎ (take 2 proof ≡ kind 0x42))
  pub size : length proof ≡ 24
  pub identifier : equal (slice 4 24 proof) s.uid ≡ true
  pub stranger : contains directory address ≡ false
  pub relayed : s.prefer_relay ≡ true → t.connect_path ≡ "relay"

from_Adopted :
    (directory : List Endpoint) (p : Bytes) (address : Endpoint) (s u t : Cs2Session)
    → Kept s u
    → Arrived s p address
    → Adopted directory p address u t
    → Established directory s t
from_Adopted directory p address s u t k arrived a = record {
  address = address;
  peer = a.peer;
  closed = a.closed ∙ k.closed;
  proof = p;
  arrived = arrived;
  named = elim a.way [
    | inl (path, k84) ↦ inl k84
    | inr (direct, other) ↦ inr other
  ];
  size = a.size;
  identifier = subst (λ i. equal (slice 4 24 p) i ≡ true) k.identifier a.identifier;
  stranger = a.known;
  relayed = λ preferred. elim a.way [
    | inl (path, k84) ↦ path
    | inr (direct, other) ↦ absurd (ground (arith, direct, k.prefers, preferred))
  ];
}

-- The same, seen from a session before.
pub earlier :
    {directory : List Endpoint} {s u t : Cs2Session}
    → Kept s u
    → Established directory u t
    → Established directory s t
earlier k e = record {
  address = e.address;
  peer = e.peer;
  closed = e.closed ∙ k.closed;
  proof = e.proof;
  arrived = earlier-Arrived k e.arrived;
  named = e.named;
  size = e.size;
  identifier = subst (λ i. equal (slice 4 24 e.proof) i ≡ true) k.identifier e.identifier;
  stranger = e.stranger;
  relayed = λ preferred. e.relayed (k.prefers ∙ preferred);
}

count_kind-Keeps : (prefix name : String) → Keeps (count_kind prefix name)
count_kind-Keeps prefix name =
    modify-Keeps _ (λ s. record { prefers = refl; identifier = refl; closed = refl; key = refl; arrivals = refl; later = omega arith })

note_packet-Keeps : (p : Bytes) (address : Endpoint) → Keeps (note_packet p address)
unfolding note_packet
note_packet-Keeps p address =
    let is = λ (b : ℕ). equal (take 2 p) (kind b) in
    then-Keeps _ _
      (if-Keeps (is 0x41 || is 0x42 || is 0x84)
        (modify (λ s. record s { close_targets = add_target address s.close_targets })) done
        (modify-Keeps _ (λ s. record { prefers = refl; identifier = refl; closed = refl; key = refl; arrivals = refl; later = omega arith }))
        (pure-Keeps tt))
      (then-Keeps _ _ (count_kind-Keeps "connect_" (hex (take 2 p))) (
        if-Keeps (is 0x73 || is 0x82 || is 0x84)
          (count_kind (concat (hex (take 2 p)) "_len") (decimal (length p))) done
          (count_kind-Keeps _ _) (pure-Keeps tt)))

receive_one-Keeps :
    (directory : List Endpoint) (g : Negotiation) (r : Option (Bytes × Endpoint))
    → Keeps (receive_one directory g r)
unfolding receive_one
receive_one-Keeps directory g none = pure-Keeps (some g)
receive_one-Keeps directory g (some (p, address)) =
    then-Keeps _ _ (note_packet-Keeps p address) (negotiate-Keeps directory g p address)

receive_one-Established :
    (directory : List Endpoint) (g : Negotiation) (r : Option (Bytes × Endpoint))
    (s u t : Cs2Session)
    → receive_clear s ≡ (ok r, u)
    → receive_one directory g r u ≡ (ok none, t)
    → Established directory s t
unfolding receive_one
receive_one-Established directory g none s u t received h = absurd (cc (pure-eq_ok h))
receive_one-Established directory g (some (p, address)) s u t received h =
    let (a, good, rest) =
      continue-eq_ok (note_packet p address u) (λ _. negotiate directory g p address) h in
    let noted = (note_packet p address u).1 in
    from_Adopted directory p address s noted t
      (Kept-trans (receive_clear-Keeps s u (some (p, address)) received)
        (note_packet-Keeps p address u noted tt (ap (λ r. (r, noted)) good)))
      (receive_clear-Arrived s u (some (p, address)) p address received refl)
      (negotiate_adopts directory g p address noted t rest)

pub monotonic-Keeps : Keeps monotonic
monotonic-Keeps s t a h =
    to_Kept s (monotonic s).1 t (record { prefers = refl; identifier = refl; closed = refl; key = refl; arrivals = refl; later = omega arith }) h

round-Keeps :
    (lookup : Bytes) (directory : List Endpoint) (g : Negotiation)
    → Keeps (round lookup directory g)
unfolding round
round-Keeps lookup directory g = bind-Keeps monotonic _ monotonic-Keeps (λ now.
    bind-Keeps (send_due lookup directory now g) _ (send_due-Keeps lookup directory now g) (λ g'.
      bind-Keeps receive_clear (receive_one directory g') receive_clear-Keeps
        (receive_one-Keeps directory g')))

round-Established :
    (lookup : Bytes) (directory : List Endpoint) (g : Negotiation) (s t : Cs2Session)
    → round lookup directory g s ≡ (ok none, t)
    → Established directory s t
unfolding round
round-Established lookup directory g s t h =
    let now = s.world.clock s.world.clock_calls in
    let started = (monotonic s).1 in
    let (g', sent, rest) =
      continue-eq_ok (send_due lookup directory now g started)
        (λ g'. receive_clear >>= receive_one directory g') h in
    let u = (send_due lookup directory now g started).1 in
    let (r, received, rest') = continue-eq_ok (receive_clear u) (receive_one directory g') rest in
    let v = (receive_clear u).1 in
    earlier (monotonic-Keeps s started now refl) (
      earlier (send_due-Keeps lookup directory now g started u g' (ap (λ r. (r, u)) sent)) (
        receive_one-Established directory g' r u v t (ap (λ r. (r, v)) received) rest'))

pub then_raise :
    {A B : Type 0} (m : Action Cs2Session A) (message : String) (s t : Cs2Session) (b : B)
    → (m >> raise (cs2_error message)) s ≢ (ok b, t)
then_raise m message s t b h =
    let (a, good, rest) = continue-eq_ok (m s) (λ _. raise (cs2_error message)) h in cc rest

go_by-Established :
    (lookup : Bytes) (directory : List Endpoint) (g : Negotiation)
    (go_on : Negotiation → Action Cs2Session (Unit {0})) (verdict : Verdict) (s u t : Cs2Session)
    → round lookup directory g s ≡ (ok verdict, u)
    → go_by verdict go_on u ≡ (ok tt, t)
    → ((g' : Negotiation) → go_on g' u ≡ (ok tt, t) → Established directory u t)
    → Established directory s t
unfolding go_by
go_by-Established lookup directory g go_on none s u t h rest ih =
    subst (Established directory s) (ap (λ r. r.1) rest)
      (round-Established lookup directory g s u h)
go_by-Established lookup directory g go_on (some g') s u t h rest ih =
    earlier (round-Keeps lookup directory g s u (some g') h) (ih g' rest)

pub negotiation_loop-Established :
    (fuel : ℕ) (lookup : Bytes) (directory : List Endpoint) (deadline : ℕ) (g : Negotiation)
    (s t : Cs2Session)
    → negotiation_loop fuel lookup directory deadline g s ≡ (ok tt, t)
    → Established directory s t
unfolding negotiation_loop
negotiation_loop-Established zero lookup directory deadline g s t h = absurd (cc h)
negotiation_loop-Established (suc fuel) lookup directory deadline g s t h =
    let now = s.world.clock s.world.clock_calls in
    let started = (monotonic s).1 in
    let go_on = negotiation_loop fuel lookup directory deadline in
    elim (Bool-cases (leb deadline now)) [
      | inl late ↦ absurd (then_raise close not_established started t tt (rw late at h))
      | inr early ↦
          let (verdict, found, rest) =
            continue-eq_ok (round lookup directory g started) (λ verdict. go_by verdict go_on)
              (rw early at h) in
          let u = (round lookup directory g started).1 in
          earlier (monotonic-Keeps s started now refl) (
            go_by-Established lookup directory g go_on verdict started u t (ap (λ r. (r, u)) found)
              rest (λ g' h'. negotiation_loop-Established fuel lookup directory deadline g' u t h'))
    ]
