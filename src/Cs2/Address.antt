-- ===== src/Cs2/Address.antt =====
-- `encode_uid`, `encode_network_address` and `decode_network_address` of cs2.py.
pub mod RoundTrip
use mathlib.Core.List.{reverse}
use okam_ha_native.Base.{
  ℕ, ◌+◌, ◌-◌, ◌*◌, Bool, not, ◌&&◌, ◌||◌, String, List, [], ◌∷◌, ◌++◌, Option, none, some, all,
  ltb, leb, ◌==◌, if◌then◌else◌, Result, ok, err, cs2_error, ◌>>=◌, ◌>>◌, require, length, take,
  drop, replicate,
}
use okam_ha_native.Base.Bytes.{Bytes, slice, equal, big4, little2, from_little}
use okam_ha_native.Base.Inet.{inet_aton, inet_ntoa}
use okam_ha_native.Base.Text.{Text, codes}

-- A UDP address, `(host, port)`.
pub record Endpoint : Type 0 where
  pub host : Text
  pub port : ℕ

unfoldable pub same_endpoint : Endpoint → Endpoint → Bool
unfolding equal
same_endpoint a b = equal a.host b.host && a.port == b.port

abbrev pub is_digit : ℕ → Bool
is_digit c = leb b'0' c && leb c b'9'

abbrev pub is_alpha : ℕ → Bool
is_alpha c = (leb b'a' c && leb c b'z') || (leb b'A' c && leb c b'Z')

abbrev pub is_alnum : ℕ → Bool
is_alnum c = is_alpha c || is_digit c

-- `int(text)` of a text of digits
pub decimal_onto : ℕ → Text → ℕ
decimal_onto acc [] = acc
decimal_onto acc (c ∷ s) = decimal_onto (acc * 10 + (c - 48)) s

-- The slices of the checks are not empty, since the length is tested first.
pub uid_is_valid : Text → Bool
uid_is_valid uid =
    length uid == 15
    && all is_alnum (take 4 uid)
    && all is_digit (slice 4 10 uid)
    && all is_alpha (drop 10 uid)

abbrev pub uid_bytes : Text → Bytes
uid_bytes uid =
    take 4 uid
    ++ (replicate 4 0 ++ (big4 (decimal_onto 0 (slice 4 10 uid)) ++ (drop 10 uid ++ replicate 3 0)))

unfoldable pub encode_uid : Text → Result Bytes
unfolding decimal_onto uid_is_valid
encode_uid uid = do
  require (uid_is_valid uid) "camera transport identifier is invalid"
  ok (uid_bytes uid)

unfoldable pub encode_network_address : Endpoint → Result Bytes
encode_network_address e = do
  require (ltb 0 e.port && leb e.port 65535) "local P2P port is invalid"
  elim (inet_aton e.host) [
    | none ↦ err (cs2_error "local P2P address is invalid")
    | some address ↦ ok (0x00 ∷ 0x02 ∷ (little2 e.port ++ (reverse address ++ replicate 8 0)))
  ]

abbrev pub bad_remote : String
bad_remote = "remote P2P address is invalid"

abbrev decode_host : ℕ → Option Text → Result Endpoint
decode_host port none = err (cs2_error bad_remote)
decode_host port (some host) =
    if port == 0 || equal host (codes "0.0.0.0")
    then err (cs2_error bad_remote)
    else ok (record { host = host; port = port })

unfoldable pub decode_network_address : Bytes → Result Endpoint
unfolding from_little equal
decode_network_address payload = do
  require (leb 16 (length payload) && equal (take 2 payload) (0x00 ∷ 0x02 ∷ [])) bad_remote
  decode_host (from_little (slice 2 4 payload)) (inet_ntoa (reverse (slice 4 8 payload)))
