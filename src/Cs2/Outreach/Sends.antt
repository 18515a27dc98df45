-- ===== src/Cs2/Outreach/Sends.antt =====
-- The sends of `connect` leave what the negotiation reads of the session.
use okam_ha_native.Base.{ℕ, ◌+◌, Bool, ◌&&◌, List, [], ◌∷◌, none, some, Option, leb, if◌then◌else◌}
use okam_ha_native.Base.Action.{Action, done}
use okam_ha_native.Base.Bytes.{Bytes}
use okam_ha_native.Cs2.Address.{Endpoint}
use okam_ha_native.Cs2.Kept.{Keeps, if-Keeps, then-Keeps, pure-Keeps, send_clear-Keeps}
use okam_ha_native.Cs2.Outreach.{
  server_endpoints, Negotiation, hello, relay_hello, relay_port_request, punch, punch_targets,
  non_empty, send_due, send_each, send_twice, send_each_twice, ask_directory, ask_relays, punch_all,
}
use okam_ha_native.Cs2.Session.{Cs2Session, send_clear}

pub send_each-Keeps : (p : Bytes) (es : List Endpoint) → Keeps (send_each p es)
unfolding send_each
send_each-Keeps p [] = pure-Keeps tt
send_each-Keeps p (e ∷ es) =
    then-Keeps (send_clear p e) (send_each p es) (send_clear-Keeps p e) (send_each-Keeps p es)

pub send_twice-Keeps : (p : Bytes) (e : Endpoint) → Keeps (send_twice p e)
unfolding send_twice
send_twice-Keeps p e =
    then-Keeps (send_clear p e) (send_clear p e) (send_clear-Keeps p e) (send_clear-Keeps p e)

pub send_each_twice-Keeps : (p : Bytes) (es : List Endpoint) → Keeps (send_each_twice p es)
unfolding send_each_twice
send_each_twice-Keeps p [] = pure-Keeps tt
send_each_twice-Keeps p (e ∷ es) =
    then-Keeps (send_twice p e) (send_each_twice p es) (send_twice-Keeps p e)
      (send_each_twice-Keeps p es)

ask_directory-Keeps :
    (lookup : Bytes) (hello_sent : Bool) (es : List Endpoint)
    → Keeps (ask_directory lookup hello_sent es)
unfolding ask_directory
ask_directory-Keeps lookup hello_sent [] = pure-Keeps tt
ask_directory-Keeps lookup hello_sent (e ∷ es) =
    then-Keeps (if hello_sent then done else send_clear hello e) _
      (if-Keeps hello_sent done (send_clear hello e) (pure-Keeps tt) (send_clear-Keeps hello e))
      (then-Keeps (send_clear lookup e) (ask_directory lookup hello_sent es)
        (send_clear-Keeps lookup e) (ask_directory-Keeps lookup hello_sent es))

ask_relays-Keeps :
    (directory : List Endpoint) (g : Negotiation) (e : Option Endpoint) (request : Option Bytes)
    → Keeps (ask_relays directory g e request)
unfolding ask_relays
ask_relays-Keeps directory g none request s t a h =
    send_each-Keeps relay_hello g.relay_endpoints s t a h
ask_relays-Keeps directory g (some e) none s t a h = send_clear-Keeps relay_port_request e s t a h
ask_relays-Keeps directory g (some e) (some request) s t a h =
    send_each-Keeps request directory s t a h

punch_all-Keeps : (uid : Bytes) (es : List Endpoint) → Keeps (punch_all uid es)
unfolding punch_all
punch_all-Keeps uid [] = pure-Keeps tt
punch_all-Keeps uid (e ∷ es) =
    then-Keeps (send_each_twice (punch uid) (punch_targets e)) (punch_all uid es)
      (send_each_twice-Keeps (punch uid) (punch_targets e)) (punch_all-Keeps uid es)

when-Keeps : (b : Bool) (m : Action Cs2Session (Unit {0})) → Keeps m → Keeps (if b then m else done)
when-Keeps b m k = if-Keeps b m done k (pure-Keeps tt)

pub send_due-Keeps :
    (lookup : Bytes) (directory : List Endpoint) (now : ℕ) (g : Negotiation)
    → Keeps (send_due lookup directory now g)
unfolding send_due
send_due-Keeps lookup directory now g s =
    then-Keeps _ _
      (when-Keeps (leb (g.last_directory_send + 1000) now) _
        (ask_directory-Keeps lookup g.hello_sent (server_endpoints s)))
      (then-Keeps _ _
        (when-Keeps (leb (g.last_relay_list_send + 3000) now) _
          (send_each-Keeps (0xf1 ∷ 0x67 ∷ 0x00 ∷ 0x14 ∷ s.uid) directory))
        (then-Keeps _ _
          (when-Keeps (non_empty g.relay_endpoints && leb (g.last_relay_send + 1000) now) _
            (ask_relays-Keeps directory g g.relay_port_endpoint g.relay_request))
          (then-Keeps _ _
            (when-Keeps (non_empty g.endpoints && leb (g.last_punch_send + 1000) now) _
              (punch_all-Keeps s.uid g.endpoints))
            (pure-Keeps _))))
      s
