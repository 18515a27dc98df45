-- ===== src/Cs2/Wire.antt =====
-- The wire envelope: `_encode_wire_packets`, and the part of `_receive_clear` that turns a datagram
-- into a packet.
pub mod RoundTrip
use okam_ha_native.Base.{
  ℕ, ◌+◌, ◌-◌, Bool, true, false, not, ◌&&◌, ◌||◌, List, [], ◌∷◌, ltb, ◌==◌, if◌then◌else◌, Result,
  ok, ◌>>=◌, length, take, any,
}
use okam_ha_native.Base.Bytes.{Bytes, byte_at, slice, equal, from_big}
use okam_ha_native.Base.Text.{Text}
use okam_ha_native.Cs2.Cipher.{encrypt_packet, decrypt_packet}

abbrev pub kind : ℕ → Bytes
kind second = 0xf1 ∷ second ∷ []

abbrev pub encrypted_packet_types : List Bytes
encrypted_packet_types =
    kind 0x00
    ∷ kind 0x20
    ∷ kind 0x67
    ∷ kind 0x70
    ∷ kind 0x72
    ∷ kind 0xd0
    ∷ kind 0xd1
    ∷ kind 0xe0
    ∷ kind 0xe1
    ∷ kind 0xf0
    ∷ []

abbrev pub dual_wire_packet_types : List Bytes
dual_wire_packet_types =
    kind 0x41 ∷ kind 0x42 ∷ kind 0x43 ∷ kind 0x80 ∷ kind 0x83 ∷ kind 0xd1 ∷ kind 0xe1 ∷ []

-- `packet[:2] in types`
unfoldable pub has_type : List Bytes → Bytes → Bool
unfolding equal
has_type types packet = any (equal (take 2 packet)) types

unfoldable pub encode_wire_packets : Text → Bytes → Result (List Bytes)
encode_wire_packets key packet = do
  encrypted ← encrypt_packet key packet
  ok (
      if has_type dual_wire_packet_types packet
      then packet ∷ encrypted ∷ []
      else if has_type encrypted_packet_types packet
      then encrypted ∷ []
      else packet ∷ [])

-- What a datagram turns out to be.
pub data Reception : Type 0 where
  packet : Bytes → Reception
  undecodable length_mismatch : Reception

-- `bytes.startswith(b"\xf1")`
unfoldable pub starts_f1 : Bytes → Bool
starts_f1 [] = false
starts_f1 (b ∷ rest) = b == 0xf1

pub classify : Bytes → Reception
classify clear =
    if ltb (length clear) 4 || not (starts_f1 clear)
    then undecodable
    else if from_big (slice 2 4 clear) == length clear - 4
    then packet clear
    else length_mismatch

unfoldable pub open_datagram : Text → Bytes → Result Reception
unfolding classify starts_f1
open_datagram key datagram =
    if starts_f1 datagram
    then ok (classify datagram)
    else (do clear ← decrypt_packet key datagram; ok (classify clear))
