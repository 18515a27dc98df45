-- ===== src/Tests/Wire.antt =====
-- Packets, ciphers and addresses of tests/test_cs2.py.
use okam_ha_native.Base.{List, [], ◌∷◌, ◌≡◌, ◌≢◌, refl, arith, ok, length, some, Result, All}
use okam_ha_native.Base.Bytes.{Bytes, IsBytes, from_big}
use okam_ha_native.Base.Inet.{inet_ntoa, inet_aton}
use okam_ha_native.Base.Text.{Text, codes}
use okam_ha_native.Cs2.Address.{encode_uid, encode_network_address, decode_network_address}
use okam_ha_native.Cs2.Address.RoundTrip.{decode_network_address-encode}
use okam_ha_native.Cs2.Cipher.{
  KeyHash, key_hash, keystream, encrypt_from, encrypt_packet, decrypt_packet,
}
use okam_ha_native.Cs2.Cipher.RoundTrip.{decrypt_packet-encrypt_packet}
use okam_ha_native.Cs2.Wire.{encode_wire_packets, open_datagram, packet, starts_f1}
use okam_ha_native.Cs2.Wire.RoundTrip.{
  IsFramed, open_datagram-encode_wire_packets, open_datagram_ambiguous,
}

abbrev clear : Bytes
clear = 0xf1 ∷ 0xe1 ∷ 0x00 ∷ 0x00 ∷ []

abbrev sample_key : Text
sample_key = codes "SSD@cs2-network."

uid_layout :
    encode_uid (codes "VSTN123456ABCDE")
    ≡ ok (
        0x56 ∷ 0x53 ∷ 0x54 ∷ 0x4e ∷ 0 ∷ 0 ∷ 0 ∷ 0 ∷ 0x00 ∷ 0x01 ∷ 0xe2 ∷ 0x40 ∷ 0x41 ∷ 0x42 ∷ 0x43
        ∷ 0x44 ∷ 0x45 ∷ 0 ∷ 0 ∷ 0 ∷ [])
unfolding encode_uid
uid_layout = refl

address_layout :
    encode_network_address (record { host = codes "192.168.3.60"; port = 0x1234 })
    ≡ ok
        (0x00 ∷ 0x02 ∷ 0x34 ∷ 0x12 ∷ 0x3c ∷ 0x03 ∷ 0xa8 ∷ 0xc0 ∷ 0 ∷ 0 ∷ 0 ∷ 0 ∷ 0 ∷ 0 ∷ 0 ∷ 0 ∷ [])
unfolding encode_network_address inet_aton
address_layout = refl

decrypt_packet-encrypt_packet_example :
    (sent : Bytes) × (encrypt_packet sample_key clear ≡ ok sent)
    × (decrypt_packet sample_key sent ≡ ok clear)
    × (length sent ≡ 4)
    × IsBytes sent
decrypt_packet-encrypt_packet_example =
    decrypt_packet-encrypt_packet sample_key clear refl (omega arith)

abbrev cipher_of : Result Bytes → Bytes
cipher_of (ok b) = b
cipher_of _ = []

decode_network_address-encode_example :
    (host : Text) × (payload : Bytes) × (inet_ntoa (192 ∷ 168 ∷ 3 ∷ 60 ∷ []) ≡ some host)
    × (encode_network_address (record { host = host; port = 0x1234 }) ≡ ok payload)
    × (length payload ≡ 16)
    × (decode_network_address payload ≡ ok (record { host = host; port = 0x1234 }))
decode_network_address-encode_example =
    decode_network_address-encode 192 168 3 60 0x1234 (omega arith) (omega arith) (omega arith)
      (omega arith)

abbrev hash_of : Result KeyHash → KeyHash
hash_of (ok h) = h
hash_of _ = record { sum = 0; difference = 0; thirds = 0; parity = 0 }

abbrev sample_hash : KeyHash
unfolding key_hash
sample_hash = hash_of (key_hash sample_key)

clear-IsFramed : IsFramed clear
unfolding from_big starts_f1
clear-IsFramed = record { bytes = omega arith; starts = refl; declared = refl }

cipher_vector :
    encrypt_packet sample_key (0xf1 ∷ 0 ∷ 0 ∷ 0 ∷ []) ≡ ok (0xb1 ∷ 0x96 ∷ 0xec ∷ 0x02 ∷ [])
unfolding encrypt_packet
cipher_vector = refl

sample_hashed : key_hash sample_key ≡ ok sample_hash
unfolding key_hash
sample_hashed = refl

sample_keystream : keystream sample_hash 0 ≡ 0x40
unfolding keystream key_hash
sample_keystream = refl

open_datagram-encode_wire_packets_example :
    (sent : List Bytes) × (encode_wire_packets sample_key clear ≡ ok sent)
    × (sent ≢ [])
    × All (λ datagram. open_datagram sample_key datagram ≡ ok (packet clear)) sent
open_datagram-encode_wire_packets_example =
    open_datagram-encode_wire_packets sample_key sample_hash sample_hashed clear clear-IsFramed
      (λ zero. ground (arith, sample_keystream, zero))

-- A key whose characters add up to 27 modulo 256.
abbrev unlucky_key : Text
unlucky_key = codes "daV"

abbrev unlucky_hash : KeyHash
unfolding key_hash
unlucky_hash = hash_of (key_hash unlucky_key)

unlucky_hashed : key_hash unlucky_key ≡ ok unlucky_hash
unfolding key_hash
unlucky_hashed = refl

unlucky_keystream : keystream unlucky_hash 0 ≡ 0
unfolding keystream key_hash
unlucky_keystream = refl

unlucky_changed : encrypt_from unlucky_hash 0 clear ≢ clear
unfolding encrypt_from keystream key_hash
unlucky_changed = λ e. ground (arith, e)

open_datagram_ambiguous_example :
    open_datagram unlucky_key (encrypt_from unlucky_hash 0 clear) ≢ ok (packet clear)
open_datagram_ambiguous_example =
    open_datagram_ambiguous unlucky_key unlucky_hash unlucky_hashed clear clear-IsFramed
      unlucky_keystream unlucky_changed
