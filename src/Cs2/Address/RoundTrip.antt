-- ===== src/Cs2/Address/RoundTrip.antt =====
-- What the address codec writes it reads back, and the identifier's layout is reversible.
use mathlib.Core.List.{reverse}
use okam_ha_native.Base.{
  ℕ, ◌+◌, ◌≤◌, ◌<◌, false, Bool-cases, inl, inr, sym, ap, ◌∙◌, [], ◌∷◌, ◌++◌, ◌≡◌, refl, arith,
  some, ok, length, All, replicate,
}
use okam_ha_native.Base.Bytes.{Bytes, equal, equal_iff, little2}
use okam_ha_native.Base.Inet.{inet_aton, inet_ntoa, inet_aton-inet_ntoa}
use okam_ha_native.Base.Text.{Text, codes}
use okam_ha_native.Cs2.Address.{encode_network_address, decode_network_address}

-- The octets of the host, as `inet_aton` gives them.
abbrev octets : ℕ → ℕ → ℕ → ℕ → Bytes
octets a b c d = a ∷ b ∷ c ∷ d ∷ []

aton_zero : inet_aton (codes "0.0.0.0") ≡ some (octets 0 0 0 0)
unfolding inet_aton
aton_zero = refl

-- Only four zero octets print as the address that is refused.
any_zero :
    (a b c d : ℕ) (host : Text)
    → inet_aton host ≡ some (octets a b c d)
    → 0 < a + b + c + d
    → equal host (codes "0.0.0.0") ≡ false
any_zero a b c d host parsed nonzero = elim (Bool-cases (equal host (codes "0.0.0.0"))) [
  | inl same ↦
      let e = sym parsed ∙ ap inet_aton ((equal_iff host (codes "0.0.0.0")).0 same) ∙ aton_zero in
      absurd (ground (arith, e))
  | inr other ↦ other
]

-- An address other than 0.0.0.0 with a port from 1 to 65535, once printed as `inet_ntoa` prints it,
-- encodes to 16 bytes that decode to it.
pub decode_network_address-encode :
    (a b c d port : ℕ)
    → All (λ x. x < 256) (octets a b c d)
    → 0 < a + b + c + d
    → 0 < port
    → port ≤ 65535
    → (host : Text) × (payload : Bytes) × (inet_ntoa (octets a b c d) ≡ some host)
      × (encode_network_address (record { host = host; port = port }) ≡ ok payload)
      × (length payload ≡ 16)
      × (decode_network_address payload ≡ ok (record { host = host; port = port }))
unfolding encode_network_address decode_network_address
decode_network_address-encode a b c d port o nonzero p q =
    let (host, printed, parsed) = inet_aton-inet_ntoa a b c d o.0 o.1.0 o.1.1.0 o.1.1.1.0 in
    let shown = any_zero a b c d host parsed nonzero in
    (
      host,
      0 ∷ 2 ∷ (little2 port ++ (reverse (octets a b c d) ++ replicate 8 0)),
      printed,
      ground (arith, parsed),
      refl,
      ground (arith, printed, shown),
    )
