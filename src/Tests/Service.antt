-- ===== src/Tests/Service.antt =====
-- A session from an identifier and a service parameter.
use okam_ha_native.Base.{true, false, [], ◌++◌, ◌≡◌, refl, arith, ok, err, Result, length}
use okam_ha_native.Base.Inet.{inet_aton}
use okam_ha_native.Base.Text.{Text, codes}
use okam_ha_native.Cs2.Address.{encode_uid}
use okam_ha_native.Cs2.Create.{new_session, new_session_lem}
use okam_ha_native.Cs2.Delivery.{IsFresh}
use okam_ha_native.Cs2.Service.{decode_service_parameter, decode_pairs}
use okam_ha_native.Cs2.Service.Decode.{ServiceChecked, decode_pairs-letters, letters, mask}
use okam_ha_native.Cs2.Session.{Cs2Session, connected}
use okam_ha_native.Tests.Data.{idle, quiet}

abbrev server : Text
server = codes "198.51.100.1"

decode_pairs-letters_example : decode_pairs [] (letters [] server) ≡ ok server
decode_pairs-letters_example = decode_pairs-letters [] server tt (omega arith)

-- The parameter that names this server and the key "k".
abbrev pub parameter : Text
unfolding mask decode_service_parameter
parameter = letters [] server ++ codes ":k"

abbrev pub uid : Text
uid = codes "ABCD123456WXYZA"

abbrev session_of : Result Cs2Session → Cs2Session
session_of (ok s) = s
session_of (err e) = idle

abbrev created : Cs2Session
unfolding new_session
created = session_of (new_session uid parameter true quiet)

creates : new_session uid parameter true quiet ≡ ok created
unfolding new_session encode_uid decode_service_parameter inet_aton mask
creates = refl

new_session_example :
    IsFresh created
    × (length created.uid ≡ 20)
    × ServiceChecked created.servers created.key
    × (created.closed ≡ false)
    × (connected created ≡ false)
new_session_example = new_session_lem uid parameter true quiet created creates
