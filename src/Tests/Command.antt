-- ===== src/Tests/Command.antt =====
-- A request of a camera command, and a packet that is sent again.
use okam_ha_native.Base.{◌≡◌, [], ◌∷◌, false, refl, ok, Result, drop}
use okam_ha_native.Base.Bytes.{Bytes}
use okam_ha_native.Base.Text.{Text, codes}
use okam_ha_native.Cs2.Request.{make_cgi_request, cgi_text, has_control}
use okam_ha_native.Cs2.Request.Framing.{IsCommand, make_cgi_request-IsCommand}
use okam_ha_native.Cs2.Session.{Cs2Session}
use okam_ha_native.Tests.Data.{idle}

abbrev bytes_of : Result Bytes → Bytes
bytes_of (ok b) = b
bytes_of _ = []

abbrev path : Text
path = codes "get_status.cgi?"

abbrev request : Bytes
unfolding make_cgi_request
request = bytes_of (make_cgi_request path (codes "admin") (codes "secret"))

requested : make_cgi_request path (codes "admin") (codes "secret") ≡ ok request
unfolding make_cgi_request
requested = refl

make_cgi_request_example :
    IsCommand request
    × (drop 8 request ≡ cgi_text path (codes "admin") (codes "secret"))
    × (has_control path ≡ false)
    × (has_control (codes "admin") ≡ false)
    × (has_control (codes "secret") ≡ false)
make_cgi_request_example =
    make_cgi_request-IsCommand path (codes "admin") (codes "secret") request requested

-- The only packet that is pending was sent 20 times.
abbrev tired : Cs2Session
tired = record idle {
  pending = record { channel = 0; sequence = 4; frame = []; sent_at = 0; attempts = 20 } ∷ [];
}
