-- ===== src/Cs2/Outreach/Ends.antt =====
-- The sends of `connect` let the clock go on, and end.
use okam_ha_native.Base.{ℕ, ◌+◌, Bool, ◌&&◌, List, [], ◌∷◌, none, some, Option, leb, if◌then◌else◌}
use okam_ha_native.Base.Action.{Action, done}
use okam_ha_native.Base.Bytes.{Bytes}
use okam_ha_native.Cs2.Address.{Endpoint}
use okam_ha_native.Cs2.Progress.{Tame, Tame-if, Tame-then, Tame-pure, Tame-send_clear}
use okam_ha_native.Cs2.Outreach.{
  server_endpoints, Negotiation, hello, relay_hello, relay_port_request, punch, punch_targets,
  non_empty, send_due, sent_marks, send_each, send_twice, send_each_twice, ask_directory,
  ask_relays, punch_all,
}
use okam_ha_native.Cs2.Session.{Cs2Session, send_clear}

pub Tame-send_each : (p : Bytes) (es : List Endpoint) → Tame (send_each p es)
unfolding send_each
Tame-send_each p [] = Tame-pure tt
Tame-send_each p (e ∷ es) =
    Tame-then (send_clear p e) (send_each p es) (Tame-send_clear p e) (Tame-send_each p es)

pub Tame-send_twice : (p : Bytes) (e : Endpoint) → Tame (send_twice p e)
unfolding send_twice
Tame-send_twice p e =
    Tame-then (send_clear p e) (send_clear p e) (Tame-send_clear p e) (Tame-send_clear p e)

pub Tame-send_each_twice : (p : Bytes) (es : List Endpoint) → Tame (send_each_twice p es)
unfolding send_each_twice
Tame-send_each_twice p [] = Tame-pure tt
Tame-send_each_twice p (e ∷ es) =
    Tame-then (send_twice p e) (send_each_twice p es) (Tame-send_twice p e)
      (Tame-send_each_twice p es)

Tame-ask_directory :
    (lookup : Bytes) (hello_sent : Bool) (es : List Endpoint)
    → Tame (ask_directory lookup hello_sent es)
unfolding ask_directory
Tame-ask_directory lookup hello_sent [] = Tame-pure tt
Tame-ask_directory lookup hello_sent (e ∷ es) =
    Tame-then (if hello_sent then done else send_clear hello e) _
      (Tame-if hello_sent done (send_clear hello e) (Tame-pure tt) (Tame-send_clear hello e))
      (Tame-then (send_clear lookup e) (ask_directory lookup hello_sent es)
        (Tame-send_clear lookup e) (Tame-ask_directory lookup hello_sent es))

Tame-ask_relays :
    (directory : List Endpoint) (g : Negotiation) (e : Option Endpoint) (request : Option Bytes)
    → Tame (ask_relays directory g e request)
unfolding ask_relays
Tame-ask_relays directory g none request = Tame-send_each relay_hello g.relay_endpoints
Tame-ask_relays directory g (some e) none = Tame-send_clear relay_port_request e
Tame-ask_relays directory g (some e) (some request) = Tame-send_each request directory

Tame-punch_all : (uid : Bytes) (es : List Endpoint) → Tame (punch_all uid es)
unfolding punch_all
Tame-punch_all uid [] = Tame-pure tt
Tame-punch_all uid (e ∷ es) =
    Tame-then (send_each_twice (punch uid) (punch_targets e)) (punch_all uid es)
      (Tame-send_each_twice (punch uid) (punch_targets e)) (Tame-punch_all uid es)

Tame-when : (b : Bool) (m : Action Cs2Session (Unit {0})) → Tame m → Tame (if b then m else done)
Tame-when b m k = Tame-if b m done k (Tame-pure tt)

pub Tame-send_due :
    (lookup : Bytes) (directory : List Endpoint) (now : ℕ) (g : Negotiation)
    → Tame (send_due lookup directory now g)
unfolding send_due
Tame-send_due lookup directory now g =
    let body = λ (s : Cs2Session).
      Tame-then _ _
        (Tame-when (leb (g.last_directory_send + 1000) now) _
          (Tame-ask_directory lookup g.hello_sent (server_endpoints s)))
        (Tame-then _ _
          (Tame-when (leb (g.last_relay_list_send + 3000) now) _
            (Tame-send_each (0xf1 ∷ 0x67 ∷ 0x00 ∷ 0x14 ∷ s.uid) directory))
          (Tame-then _ _
            (Tame-when (non_empty g.relay_endpoints && leb (g.last_relay_send + 1000) now) _
              (Tame-ask_relays directory g g.relay_port_endpoint g.relay_request))
            (Tame-then _ _
              (Tame-when (non_empty g.endpoints && leb (g.last_punch_send + 1000) now) _
                (Tame-punch_all s.uid g.endpoints))
              (Tame-pure (
                sent_marks now g (leb (g.last_directory_send + 1000) now)
                  (leb (g.last_relay_list_send + 3000) now)
                  (non_empty g.relay_endpoints && leb (g.last_relay_send + 1000) now)
                  (non_empty g.endpoints && leb (g.last_punch_send + 1000) now)))))) in
    record { onward = λ s. (body s).onward s; ends = λ s. (body s).ends s }
