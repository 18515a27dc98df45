-- ===== src/Cs2/Cipher/RoundTrip.antt =====
-- Decryption undoes encryption and the other way round, on whole packets of any length.
use okam_ha_native.Base.{
  ℕ, zero, suc, ◌+◌, ◌%◌, ◌<◌, true, [], ◌∷◌, ◌≡◌, refl, ap, arith, ok, ◌>>=◌, ◌∙◌, length, get_or,
  bit_xor,
}
use okam_ha_native.Base.Bits.{bit_xor_cancel, bit_xor-lt}
use okam_ha_native.Base.Bytes.{Bytes, IsBytes}
use okam_ha_native.Base.Text.{Text}
use okam_ha_native.Cs2.Cipher.{
  KeyHash, zero_hash, key_hash_onto, shuffle, hash_at, is_ascii, key_hash, keystream, encrypt_from,
  decrypt_from, encrypt_packet, decrypt_packet,
}

decrypt_from-encrypt_from :
    (h : KeyHash) (previous : ℕ) (clear : Bytes)
    → decrypt_from h previous (encrypt_from h previous clear) ≡ clear
unfolding encrypt_from decrypt_from
decrypt_from-encrypt_from h previous [] = refl
decrypt_from-encrypt_from h previous (v ∷ clear) = cc (
  bit_xor_cancel v (keystream h previous),
  decrypt_from-encrypt_from h (bit_xor v (keystream h previous)) clear,
)

encrypt_from-decrypt_from :
    (h : KeyHash) (previous : ℕ) (packet : Bytes)
    → encrypt_from h previous (decrypt_from h previous packet) ≡ packet
unfolding encrypt_from decrypt_from
encrypt_from-decrypt_from h previous [] = refl
encrypt_from-decrypt_from h previous (v ∷ packet) =
    rw (bit_xor_cancel v (keystream h previous)) (ap (◌∷◌ v) (encrypt_from-decrypt_from h v packet))

length-encrypt_from :
    (h : KeyHash) (previous : ℕ) (clear : Bytes)
    → length (encrypt_from h previous clear) ≡ length clear
unfolding encrypt_from
length-encrypt_from h previous [] = refl
length-encrypt_from h previous (v ∷ clear) =
    ap suc (length-encrypt_from h (bit_xor v (keystream h previous)) clear)

pub get_or-lt : (xs : Bytes) (i : ℕ) → IsBytes xs → get_or xs i 0 < 256
get_or-lt [] i h = omega arith
get_or-lt (x ∷ xs) zero h = h.0
get_or-lt (x ∷ xs) (suc i) h = get_or-lt xs i h.1

shuffle-IsBytes : IsBytes shuffle
unfolding shuffle
shuffle-IsBytes = omega arith

keystream-lt : (h : KeyHash) (previous : ℕ) → keystream h previous < 256
unfolding keystream
keystream-lt h previous =
    get_or-lt shuffle ((hash_at h (previous % 4) + previous) % 256) shuffle-IsBytes

encrypt_from-IsBytes :
    (h : KeyHash) (previous : ℕ) (clear : Bytes)
    → IsBytes clear
    → IsBytes (encrypt_from h previous clear)
unfolding encrypt_from
encrypt_from-IsBytes h previous [] b = b
encrypt_from-IsBytes h previous (v ∷ clear) b = (
  bit_xor-lt v _ b.0 (keystream-lt h previous),
  encrypt_from-IsBytes h (bit_xor v (keystream h previous)) clear b.1,
)

-- With the hash of the key at hand, the packet functions are the two loops.
module _ (key : Text) (h : KeyHash) (hashed : key_hash key ≡ ok h) where
  pub encrypt_packet_hashed :
      (clear : Bytes) → encrypt_packet key clear ≡ ok (encrypt_from h 0 clear)
  unfolding encrypt_packet
  encrypt_packet_hashed clear = ap (λ r. r >>= λ k. ok (encrypt_from k 0 clear)) hashed

  pub decrypt_packet_hashed :
      (clear : Bytes) → decrypt_packet key (encrypt_from h 0 clear) ≡ ok clear
  unfolding decrypt_packet
  decrypt_packet_hashed clear =
      ap (λ r. r >>= λ k. ok (decrypt_from k 0 (encrypt_from h 0 clear))) hashed
      ∙ ap ok (decrypt_from-encrypt_from h 0 clear)

-- With any key of ASCII characters, every byte string is encrypted to as many bytes, each below
-- 256, which decrypt to it again.
pub decrypt_packet-encrypt_packet :
    (key : Text) (clear : Bytes)
    → is_ascii key ≡ true
    → IsBytes clear
    → (sent : Bytes) × (encrypt_packet key clear ≡ ok sent)
      × (decrypt_packet key sent ≡ ok clear)
      × (length sent ≡ length clear)
      × IsBytes sent
unfolding encrypt_packet decrypt_packet
decrypt_packet-encrypt_packet key clear ascii b =
    let h = key_hash_onto zero_hash key in
    (
      encrypt_from h 0 clear,
      rw ascii,
      rw ascii (ap ok (decrypt_from-encrypt_from h 0 clear)),
      length-encrypt_from h 0 clear,
      encrypt_from-IsBytes h 0 clear b,
    )

-- Decryption loses nothing either: what it gives back encrypts to the packet that came in.
encrypt_packet-decrypt_packet :
    (key : Text) (packet clear : Bytes)
    → decrypt_packet key packet ≡ ok clear
    → encrypt_packet key clear ≡ ok packet
unfolding encrypt_packet decrypt_packet
encrypt_packet-decrypt_packet key packet clear h =
    ground (arith, encrypt_from-decrypt_from (key_hash_onto zero_hash key) 0 packet)
