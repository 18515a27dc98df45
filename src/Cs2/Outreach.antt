-- ===== src/Cs2/Outreach.antt =====
-- The sending half of `CS2Session.connect`: what is due at the top of its loop.
pub mod Sends
pub mod Ends
use okam_ha_native.Base.{
  ℕ, zero, suc, ◌+◌, ◌-◌, Bool, false, ◌&&◌, ◌||◌, List, [], ◌∷◌, Option, none, some, ltb, leb, max,
  min, map, if◌then◌else◌, length, any,
}
use okam_ha_native.Base.Action.{Action, pure, done, ◌>>◌}
use okam_ha_native.Base.Bytes.{Bytes}
use okam_ha_native.Cs2.Address.{Endpoint, same_endpoint}
use okam_ha_native.Cs2.Session.{Cs2Session, send_clear}

abbrev pub directory_port : ℕ
directory_port = 32100

abbrev pub punch_port_range : ℕ
punch_port_range = 3

-- The local variables of `connect` that its loop changes.
pub record Negotiation : Type 0 where
  pub endpoints : List Endpoint
  pub relay_endpoints : List Endpoint
  pub relay_port_endpoint : Option Endpoint
  pub relay_request : Option Bytes
  pub last_directory_send : ℕ
  pub last_relay_list_send : ℕ
  pub last_relay_send : ℕ
  pub last_punch_send : ℕ
  pub hello_sent : Bool

abbrev pub fresh : Negotiation
fresh = record {
  endpoints = [];
  relay_endpoints = [];
  relay_port_endpoint = none;
  relay_request = none;
  last_directory_send = 0;
  last_relay_list_send = 0;
  last_relay_send = 0;
  last_punch_send = 0;
  hello_sent = false;
}

unfoldable pub contains : List Endpoint → Endpoint → Bool
contains es e = any (same_endpoint e) es

-- `for endpoint in endpoints: self._send_clear(packet, endpoint)`
pub send_each : Bytes → List Endpoint → Action Cs2Session Unit
send_each p [] = done
send_each p (e ∷ es) = do send_clear p e; send_each p es

pub send_twice : Bytes → Endpoint → Action Cs2Session Unit
send_twice p e = do send_clear p e; send_clear p e

pub send_each_twice : Bytes → List Endpoint → Action Cs2Session Unit
unfolding send_twice
send_each_twice p [] = done
send_each_twice p (e ∷ es) = do send_twice p e; send_each_twice p es

abbrev pub hello : Bytes
hello = 0xf1 ∷ 0x00 ∷ 0x00 ∷ 0x00 ∷ []

abbrev relay_hello : Bytes
relay_hello = 0xf1 ∷ 0x70 ∷ 0x00 ∷ 0x00 ∷ []

abbrev pub relay_port_request : Bytes
relay_port_request = 0xf1 ∷ 0x72 ∷ 0x00 ∷ 0x00 ∷ []

abbrev pub alive_request : Bytes
alive_request = 0xf1 ∷ 0xe0 ∷ 0x00 ∷ 0x00 ∷ []

abbrev pub relay_control : Bytes
relay_control = 0xf1 ∷ 0x03 ∷ 0x00 ∷ 0x00 ∷ []

abbrev pub punch : Bytes → Bytes
punch uid = 0xf1 ∷ 0x41 ∷ 0x00 ∷ 0x14 ∷ uid

-- The directory is asked once a second, with a hello before the first lookups.
ask_directory : Bytes → Bool → List Endpoint → Action Cs2Session Unit
ask_directory lookup hello_sent [] = done
ask_directory lookup hello_sent (e ∷ es) = do
  if hello_sent then done else send_clear hello e
  send_clear lookup e
  ask_directory lookup hello_sent es

-- What is due for the relays: a hello, the port request, or the relay request.
ask_relays : List Endpoint → Negotiation → Option Endpoint → Option Bytes → Action Cs2Session Unit
unfolding send_each
ask_relays directory g none request = send_each relay_hello g.relay_endpoints
ask_relays directory g (some e) none = send_clear relay_port_request e
ask_relays directory g (some e) (some request) = send_each request directory

-- The ports from three below to three above, within 1 to 65535.
pub punch_ports : ℕ → ℕ → List ℕ
punch_ports zero port = []
punch_ports (suc left) port = port ∷ punch_ports left (port + 1)

pub punch_targets : Endpoint → List Endpoint
unfolding punch_ports
punch_targets e =
    let low = max 1 (e.port - punch_port_range) in
    let high = min 65535 (e.port + punch_port_range) in
    map (λ port. record e { port = port }) (punch_ports (high + 1 - low) low)

punch_all : Bytes → List Endpoint → Action Cs2Session Unit
unfolding send_each_twice punch_targets
punch_all uid [] = done
punch_all uid (e ∷ es) = do send_each_twice (punch uid) (punch_targets e); punch_all uid es

non_empty : List Endpoint → Bool
non_empty es = ltb 0 (length es)

-- `(server, DIRECTORY_PORT)` for each server, which may be named twice
abbrev pub server_endpoints : Cs2Session → List Endpoint
server_endpoints s = map (λ h. record { host = h; port = directory_port }) s.servers

-- The marks that the timed sends set.
abbrev pub sent_marks : ℕ → Negotiation → Bool → Bool → Bool → Bool → Negotiation
sent_marks now g ask list relay punches = record g {
  hello_sent = g.hello_sent || ask;
  last_directory_send = if ask then now else g.last_directory_send;
  last_relay_list_send = if list then now else g.last_relay_list_send;
  last_relay_send = if relay then now else g.last_relay_send;
  last_punch_send = if punches then now else g.last_punch_send;
}

-- The four timed sends at the top of the loop, and the marks that they set.
unfoldable pub send_due : Bytes → List Endpoint → ℕ → Negotiation → Action Cs2Session Negotiation
unfolding ask_directory ask_relays punch_all non_empty send_each
send_due lookup directory now g s =
    let ask = leb (g.last_directory_send + 1000) now in
    let list = leb (g.last_relay_list_send + 3000) now in
    let relay = non_empty g.relay_endpoints && leb (g.last_relay_send + 1000) now in
    let punches = non_empty g.endpoints && leb (g.last_punch_send + 1000) now in
    (do
      if ask then ask_directory lookup g.hello_sent (server_endpoints s) else done
      if list then send_each (0xf1 ∷ 0x67 ∷ 0x00 ∷ 0x14 ∷ s.uid) directory else done
      if relay then ask_relays directory g g.relay_port_endpoint g.relay_request else done
      if punches then punch_all s.uid g.endpoints else done
      pure (sent_marks now g ask list relay punches))
      s
