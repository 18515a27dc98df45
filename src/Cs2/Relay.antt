-- ===== src/Cs2/Relay.antt =====
-- The relay packets: `_decode_relay_list`, `_make_relay_request`, `_make_relay_punch` and
-- `_make_relay_request_from_ack`.
use okam_ha_native.Base.{
  ℕ, zero, suc, ◌+◌, ◌*◌, not, ◌||◌, List, [], ◌∷◌, ◌++◌, Option, none, some, ltb, ◌==◌,
  if◌then◌else◌, Result, ok, err, length, take, drop, replicate,
}
use okam_ha_native.Base.Bytes.{Bytes, byte_at, slice, equal, big4, from_big}
use okam_ha_native.Cs2.Address.{Endpoint, encode_network_address, decode_network_address}
use okam_ha_native.Cs2.Session.{add_target}
use okam_ha_native.Cs2.Wire.{kind}

-- One entry of the list; an address that does not decode is passed over.
abbrev add_decoded : Result Endpoint → List Endpoint → List Endpoint
add_decoded (ok e) found = add_target e found
add_decoded (err e) found = found

-- The loop over the entries, 16 bytes each; a set is a list without repetition.
pub decode_entries : ℕ → Bytes → List Endpoint → List Endpoint
decode_entries zero entries found = found
decode_entries (suc left) entries found =
    decode_entries left (drop 16 entries)
      (add_decoded (decode_network_address (take 16 entries)) found)

unfoldable pub decode_relay_list : Bytes → List Endpoint
unfolding decode_entries
decode_relay_list packet =
    let count = byte_at packet 4 in
    if ltb (length packet) 8 || not (equal (take 2 packet) (kind 0x69))
    then []
    else if ltb 32 count || not (length packet == 8 + count * 16)
    then []
    else decode_entries count (drop 8 packet) []

unfoldable pub make_relay_request : Bytes → Bytes → ℕ → Bytes
make_relay_request uid local_address token =
    0xf1 ∷ 0x80 ∷ 0x00 ∷ 0x28 ∷ (uid ++ (local_address ++ big4 token))

unfoldable pub make_relay_punch : Bytes → ℕ → Bytes
make_relay_punch uid token = 0xf1 ∷ 0x83 ∷ 0x00 ∷ 0x1c ∷ (big4 token ++ (uid ++ replicate 4 0))

abbrev request_for : Bytes → ℕ → Result Bytes → Option Bytes
request_for uid token (ok allocated_address) = some (make_relay_request uid allocated_address token)
request_for uid token (err e) = none

unfoldable pub make_relay_request_from_ack : Bytes → Endpoint → Bytes → Option Bytes
unfolding make_relay_request
make_relay_request_from_ack uid relay_endpoint packet =
    if not (length packet == 12) || not (equal (take 2 packet) (kind 0x73))
    then none
    else request_for uid (from_big (slice 4 8 packet))
        (encode_network_address (record relay_endpoint { port = from_big (slice 8 10 packet) }))
