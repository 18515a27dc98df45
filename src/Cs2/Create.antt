-- ===== src/Cs2/Create.antt =====
-- `CS2Session.__init__`, and what holds of a session that it makes.
use okam_ha_native.Base.{
  require-eq_ok, bind-eq_ok, subst, Bool, false, [], ◌≡◌, refl, sym, arith, none, length, take,
  drop, replicate, ok, Result, ◌>>=◌, length-take, length-drop, length-append,
}
use okam_ha_native.Base.Bytes.{Bytes}
use okam_ha_native.Base.Text.{Text}
use okam_ha_native.Cs2.Address.{encode_uid, uid_is_valid, uid_bytes}
use okam_ha_native.Cs2.Delivery.{IsFresh}
use okam_ha_native.Cs2.Service.{Service, decode_service_parameter}
use okam_ha_native.Cs2.Service.Decode.{ServiceChecked, decode_service_parameter-ServiceChecked}
use okam_ha_native.Cs2.Session.{Cs2Session, World, unopened, connected}

-- `__init__`; the socket factory is the operating system's, and `world` stands for it.
abbrev created : Bytes → Service → Bool → World → Cs2Session
created encoded service prefer_relay world = record {
  prefer_relay = prefer_relay;
  uid = encoded;
  servers = service.0;
  key = service.1;
  socket = unopened;
  peer = none;
  outgoing_sequence = replicate 8 0;
  incoming_sequence = replicate 8 0;
  channel_buffers = replicate 8 [];
  out_of_order = replicate 8 [];
  pending = [];
  closed = false;
  counters = [];
  close_targets = [];
  connect_path = "";
  world = world;
}

unfoldable pub new_session : Text → Text → Bool → World → Result Cs2Session
new_session uid service_parameter prefer_relay world = do
  encoded ← encode_uid uid
  service ← decode_service_parameter service_parameter
  ok (created encoded service prefer_relay world)

length-encode_uid :
    (uid : Text) (encoded : Bytes) → encode_uid uid ≡ ok encoded → length encoded ≡ 20
unfolding encode_uid
length-encode_uid uid encoded h =
    let (valid, made) = require-eq_ok (uid_is_valid uid) _ (ok (uid_bytes uid)) encoded h in
    let made' : uid_bytes uid ≡ encoded = cc made in
    let size : length uid ≡ 15 = ground (arith, valid) in
    rw (sym made') (
      omega (
        arith,
        size,
        length-append (take 4 uid) _,
        length-take 4 uid,
        length-drop 10 uid,
        length-append (drop 10 uid) (replicate 3 0),
      ))

-- The session is as the other methods expect it: the identifier has 20 bytes, there are 1 to 16
-- servers, all of them IPv4 addresses, and a key of 1 to 128 ASCII characters.
pub new_session_lem :
    (uid service_parameter : Text) (prefer_relay : Bool) (world : World) (s : Cs2Session)
    → new_session uid service_parameter prefer_relay world ≡ ok s
    → IsFresh s
      × (length s.uid ≡ 20)
      × ServiceChecked s.servers s.key
      × (s.closed ≡ false)
      × (connected s ≡ false)
unfolding new_session
new_session_lem uid service_parameter prefer_relay world s h =
    let finish =
      λ (encoded : Bytes) (service : Service). ok (created encoded service prefer_relay world) in
    let (encoded, good, rest) =
      bind-eq_ok (encode_uid uid)
        (λ encoded. decode_service_parameter service_parameter >>= finish encoded) s h in
    let (service, found, made) =
      bind-eq_ok (decode_service_parameter service_parameter) (finish encoded) s rest in
    let same : created encoded service prefer_relay world ≡ s = cc made in
    subst
      (λ t.
        IsFresh t
        × (length t.uid ≡ 20)
        × ServiceChecked t.servers t.key
        × (t.closed ≡ false)
        × (connected t ≡ false))
      same
      (
        record { numbers = refl; buffers = refl; waiting = refl },
        length-encode_uid uid encoded good,
        decode_service_parameter-ServiceChecked service_parameter service found,
        refl,
        refl,
      )
