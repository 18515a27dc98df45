-- ===== src/Cs2/Wire/RoundTrip.antt =====
-- What is sent is received: each datagram that `_encode_wire_packets` makes of a packet is turned
-- back into that packet. The one exception is stated exactly.
use okam_ha_native.Base.{
  ◌+◌, true, false, List, [], ◌∷◌, ◌≡◌, ◌≢◌, arith, ok, length, All, Bool-cases, inl, inr,
}
use okam_ha_native.Base.Bits.{bit_xor_fixed, bit_xor-zero}
use okam_ha_native.Base.Bytes.{Bytes, IsBytes, from_big, slice}
use okam_ha_native.Base.Text.{Text}
use okam_ha_native.Cs2.Cipher.{KeyHash, key_hash, keystream, encrypt_from}
use okam_ha_native.Cs2.Cipher.RoundTrip.{encrypt_packet_hashed, decrypt_packet_hashed}
use okam_ha_native.Cs2.Wire.{
  dual_wire_packet_types, encrypted_packet_types, has_type, packet, classify, starts_f1,
  open_datagram, encode_wire_packets,
}

-- A packet as the session builds it: type, length of the body, body.
pub record IsFramed (p : Bytes) : Type 0 where
  pub bytes : IsBytes p
  pub starts : starts_f1 p ≡ true
  pub declared : from_big (slice 2 4 p) + 4 ≡ length p

classify-IsFramed : (p : Bytes) → IsFramed p → classify p ≡ packet p
unfolding classify
classify-IsFramed p f = ground arith

-- A packet that is received is the text that was classified.
classify-eq_packet : (clear q : Bytes) → classify clear ≡ packet q → clear ≡ q
unfolding classify
classify-eq_packet clear q h = ground arith

encrypt-starts_f1_zero :
    (h : KeyHash) (p : Bytes)
    → starts_f1 p ≡ true
    → keystream h 0 ≡ 0
    → starts_f1 (encrypt_from h 0 p) ≡ true
unfolding encrypt_from starts_f1
encrypt-starts_f1_zero h [] s k = cc
encrypt-starts_f1_zero h (b ∷ p) s k = ground (arith, bit_xor-zero b)

-- Where the first byte of the key stream is not zero, the first byte sent differs from 0xf1.
encrypt-starts_f1 :
    (h : KeyHash) (p : Bytes)
    → starts_f1 p ≡ true
    → keystream h 0 ≢ 0
    → starts_f1 (encrypt_from h 0 p) ≡ false
unfolding encrypt_from starts_f1
encrypt-starts_f1 h [] s k = cc
encrypt-starts_f1 h (b ∷ p) s k = ground (arith, bit_xor_fixed b (keystream h 0))

module _ (key : Text) (h : KeyHash) (hashed : key_hash key ≡ ok h) (p : Bytes)
    (f : IsFramed p) where
  open_clear : open_datagram key p ≡ ok (packet p)
  unfolding open_datagram
  open_clear = ground arith

  open_encrypted :
      starts_f1 (encrypt_from h 0 p) ≡ false
      → open_datagram key (encrypt_from h 0 p) ≡ ok (packet p)
  unfolding open_datagram
  open_encrypted other = ground (arith, decrypt_packet_hashed key h hashed p, classify-IsFramed p f)

  -- Every wire form of a packet is received as that packet, for each key whose hash makes the first
  -- byte of the key stream differ from 0.
  pub open_datagram-encode_wire_packets :
      keystream h 0 ≢ 0
      → (sent : List Bytes) × (encode_wire_packets key p ≡ ok sent)
        × (sent ≢ [])
        × All (λ datagram. open_datagram key datagram ≡ ok (packet p)) sent
  unfolding encode_wire_packets
  open_datagram-encode_wire_packets k =
      let e = encrypt_packet_hashed key h hashed p in
      let other = open_encrypted (encrypt-starts_f1 h p f.starts k) in
      elim (Bool-cases (has_type dual_wire_packet_types p)) [
        | inl dual ↦
            (p ∷ encrypt_from h 0 p ∷ [], rw (e, dual), (λ q. cc), (open_clear, (other, tt)))
        | inr single ↦ elim (Bool-cases (has_type encrypted_packet_types p)) [
          | inl secret ↦ (encrypt_from h 0 p ∷ [], rw (e, single, secret), (λ q. cc), (other, tt))
          | inr plain ↦ (p ∷ [], rw (e, single, plain), (λ q. cc), (open_clear, tt))
        ]
      ]

  -- For the other keys an encrypted packet still begins with 0xf1, so that it is taken for clear
  -- text: it is never received as the packet that was sent, unless encryption left that unchanged.
  pub open_datagram_ambiguous :
      keystream h 0 ≡ 0
      → encrypt_from h 0 p ≢ p
      → open_datagram key (encrypt_from h 0 p) ≢ ok (packet p)
  unfolding open_datagram
  open_datagram_ambiguous k changed opened = changed (
      classify-eq_packet (encrypt_from h 0 p) p
        (ground (arith, encrypt-starts_f1_zero h p f.starts k)))
