-- ===== src/Tests/Connect.antt =====
-- A session that connects over a relay, and one that logs in.
use okam_ha_native.Base.{
  arith, ◌≢◌, out_of_fuel, err, true, [], ◌∷◌, ◌≡◌, refl, ap, none, some, Option, Result, ok,
  replicate, ◌==◌, if◌then◌else◌,
}
use okam_ha_native.Base.Bytes.{Bytes}
use okam_ha_native.Base.Inet.{inet_aton}
use okam_ha_native.Base.Int.{pos}
use okam_ha_native.Base.Names.{hex, decimal}
use okam_ha_native.Base.Text.{Text, codes}
use okam_ha_native.Cs2.Address.{encode_network_address}
use okam_ha_native.Cs2.Connect.{bound, connect, negotiate, directory_of}
use okam_ha_native.Cs2.Connect.Adopt.{Adopted, negotiate_adopts}
use okam_ha_native.Cs2.Channel.Ends.{Advances}
use okam_ha_native.Cs2.Connect.Ends.{connect_ends}
use okam_ha_native.Cs2.Connect.Outcome.{connect-Established}
use okam_ha_native.Cs2.Connect.Rounds.{Established}
use okam_ha_native.Cs2.Data.{data_packet}
use okam_ha_native.Cs2.Data.Ack.{ack_of}
use okam_ha_native.Cs2.Login.{CameraLogin, authenticate_camera}
use okam_ha_native.Cs2.Outreach.{fresh, send_due, contains}
use okam_ha_native.Cs2.Session.{Cs2Session, datagram, unopened, opened, connected}
use okam_ha_native.Tests.Channel.{running}
use okam_ha_native.Tests.Data.{idle, quiet, peer_at}

-- The camera answers over the relay.
abbrev ready : Bytes
ready = 0xf1 ∷ 0x84 ∷ 0x00 ∷ 0x14 ∷ replicate 20 0x41

abbrev pub new : Cs2Session
new = record idle {
  socket = unopened;
  peer = none;
  world = record quiet { arrivals = λ n. datagram ready peer_at };
}

abbrev pub route : Option Text
route = some (codes "192.0.2.10")

connect_done : (connect 1 (bound 40000) route 5000 new).0 ≡ ok tt
unfolding connect running send_due contains encode_network_address inet_aton hex decimal
connect_done = refl

abbrev after_connect : Cs2Session
after_connect = (connect 1 (bound 40000) route 5000 new).1

connect_example :
    (connected after_connect ≡ true) × Established (directory_of new) new after_connect
connect_example =
    connect-Established 1 (bound 40000) route 5000 new after_connect refl
      (ap (λ r. (r, after_connect)) connect_done)

-- The same session in its negotiation.
abbrev joining : Cs2Session
joining = record new { socket = opened }

adopted : (negotiate (directory_of joining) fresh ready peer_at joining).0 ≡ ok none
unfolding connect running contains
adopted = refl

abbrev after_ready : Cs2Session
after_ready = (negotiate (directory_of joining) fresh ready peer_at joining).1

negotiate_adopts_example : Adopted (directory_of joining) ready peer_at joining after_ready
negotiate_adopts_example =
    negotiate_adopts (directory_of joining) fresh ready peer_at joining after_ready
      (ap (λ r. (r, after_ready)) adopted)

-- The camera acknowledges the command and accepts the first login.
abbrev accepted : Bytes
accepted = 0x01 ∷ 0x0a ∷ 0x01 ∷ 0x60 ∷ 0x09 ∷ 0x00 ∷ 0x00 ∷ 0x00 ∷ codes "result=0;"

abbrev camera : Cs2Session
camera = record idle {
  world = record quiet {
    arrivals =
        λ n. datagram (if n == 0 then ack_of 0 (0 ∷ []) else data_packet 0 0 accepted) peer_at;
  };
}

login_of : Result CameraLogin → CameraLogin
login_of (ok login) = login
login_of _ = record { user = []; password = []; result = pos 9; candidate = 9; attempts = [] }

abbrev after_login : Cs2Session
after_login = (authenticate_camera 2 3 (codes "secret") 20000 camera).1

abbrev login : CameraLogin
login = record {
  user = codes "admin";
  password = codes "secret";
  result = pos 0;
  candidate = 0;
  attempts = some (pos 0) ∷ [];
}

-- No camera answers.
abbrev alone : Cs2Session
alone = record idle { socket = unopened; peer = none }

alone-Advances : Advances 500 5 alone
alone-Advances m n h = omega (arith, h)

connect_ends_example : (connect 5 (bound 40000) route 500 alone).0 ≢ err out_of_fuel
connect_ends_example =
    connect_ends 5 (bound 40000) route 500 5 alone alone-Advances (omega arith) (omega arith)
