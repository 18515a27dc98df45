-- ===== src/Cs2/Service/Decode.antt =====
-- What a service parameter that is accepted holds, and that every byte string can be sent in one.
use okam_ha_native.Base.{
  require-eq_ok, bind-eq_ok, ==_iff, All-append, subst, ℕ, zero, suc, ◌+◌, ◌-◌, ◌*◌, ◌/◌, ◌%◌, ◌≤◌,
  ◌<◌, Bool, true, ◌&&◌, List, [], ◌∷◌, ◌++◌, ◌≡◌, refl, ◌∙◌, ap, sym, arith, none, some, Option,
  ltb, leb, ◌==◌, length, all, is_some, Bool-cases, inl, inr, ok, ◌>>=◌, ◌>>◌, require, bit_xor,
  bit_or, get_or, append_assoc, append-nil,
}
use okam_ha_native.Base.Bytes.{Bytes, IsBytes}
use okam_ha_native.Base.Bits.{bit_xor_cancel, bit_xor-lt, bit_xor_comm}
use okam_ha_native.Base.Inet.{inet_aton}
use okam_ha_native.Base.Text.{Text}
use okam_ha_native.Cs2.Cipher.{is_ascii}
use okam_ha_native.Cs2.Cipher.RoundTrip.{get_or-lt}
use okam_ha_native.Cs2.Service.{
  Service, bad_parameter, decode_service_parameter, partition, decode_parts, check_servers,
  decode_pairs, decode_byte, chain, decode_lookup, is_nibble, strip_zeros, split_items,
}

-- What `decode_service_parameter` checks before it returns.
pub record ServiceChecked (servers : List Text) (key : Text) : Type 0 where
  pub some_server : 0 < length servers
  pub few_servers : length servers ≤ 16
  pub addresses : all (λ server. is_some (inet_aton server)) servers ≡ true
  pub some_key : 0 < length key
  pub short_key : length key ≤ 128
  pub ascii_key : is_ascii key ≡ true

check_servers-eq_ok :
    (servers : List Text) (key : Text) (service : Service)
    → check_servers servers key ≡ ok service
    → 0 < length key
    → length key ≤ 128
    → ServiceChecked service.0 service.1
unfolding check_servers
check_servers-eq_ok servers key service h a b =
    let named = all (λ server. is_some (inet_aton server)) servers && is_ascii key in
    let finish = require named bad_parameter >> ok (servers, key) in
    let (counted, rest) =
      require-eq_ok (ltb 0 (length servers) && leb (length servers) 16)
        "official P2P directory list is invalid" finish service h in
    let (fit, made) = require-eq_ok named bad_parameter (ok (servers, key)) service rest in
    let same : (servers, key) ≡ service = cc made in
    subst (λ (r : Service). ServiceChecked r.0 r.1) same
      (record {
        some_server = ground (arith, counted);
        few_servers = ground (arith, counted);
        addresses = ground (arith, fit);
        some_key = a;
        short_key = b;
        ascii_key = ground (arith, fit);
      })

decode_parts-eq_ok :
    (encoded : Text) (key : Option Text) (service : Service)
    → decode_parts encoded key ≡ ok service
    → ServiceChecked service.0 service.1
unfolding decode_parts
decode_parts-eq_ok encoded none service h = absurd (cc h)
decode_parts-eq_ok encoded (some key) service h =
    let on_text = λ (decoded : Bytes).
      require (is_ascii (strip_zeros decoded)) bad_parameter
      >> check_servers (split_items [] (strip_zeros decoded)) key in
    let on_encoded =
      require (ltb 0 (length encoded) && leb (length encoded) 4096) bad_parameter
      >> (decode_pairs [] encoded >>= on_text) in
    let (sizes, rest) =
      require-eq_ok (ltb 0 (length key) && leb (length key) 128 && length encoded % 2 == 0)
        bad_parameter on_encoded service h in
    let (size, decoding) =
      require-eq_ok (ltb 0 (length encoded) && leb (length encoded) 4096) bad_parameter
        (decode_pairs [] encoded >>= on_text) service rest in
    let (decoded, good, checking) = bind-eq_ok (decode_pairs [] encoded) on_text service decoding in
    let (ascii, checked) =
      require-eq_ok (is_ascii (strip_zeros decoded)) bad_parameter
        (check_servers (split_items [] (strip_zeros decoded)) key) service checking in
    check_servers-eq_ok (split_items [] (strip_zeros decoded)) key service checked
      (ground (arith, sizes)) (ground (arith, sizes))

pub decode_service_parameter-ServiceChecked :
    (value : Text) (service : Service)
    → decode_service_parameter value ≡ ok service
    → ServiceChecked service.0 service.1
unfolding decode_service_parameter
decode_service_parameter-ServiceChecked value service h =
    decode_parts-eq_ok (partition value).0 (partition value).1 service h

-- What a byte is XORed with, from the bytes before it.
unfoldable pub mask : Bytes → ℕ
unfolding decode_lookup chain
mask before = bit_xor (chain 57 before) (get_or decode_lookup (length before % 54) 0)

-- The two letters that stand for a byte, behind the bytes `before`.
abbrev pub letters_of : Bytes → ℕ → Text
letters_of before b =
    let masked = bit_xor b (mask before) in (65 + masked / 16) ∷ (65 + masked % 16) ∷ []

-- The letters that a server list is sent as.
abbrev pub letters : Bytes → Bytes → Text
letters before [] = []
letters before (b ∷ bs) = letters_of before b ++ letters (before ++ (b ∷ [])) bs

all_below : ℕ → (ℕ → Bool) → Bool
all_below zero test = true
all_below (suc n) test = test n && all_below n test

from_all_below : (n : ℕ) (test : ℕ → Bool) (m : ℕ) → all_below n test ≡ true → m < n → test m ≡ true
unfolding all_below
from_all_below zero test m h below = absurd (omega arith)
from_all_below (suc n) test m h below = elim (Bool-cases (m == n)) [
  | inl same ↦ subst (λ k. test k ≡ true) (sym ((==_iff m n).0 same)) (ground (arith, h))
  | inr other ↦ from_all_below n test m (ground (arith, h)) (ground (arith, other, below))
]

all_nibbles : all_below 256 (λ k. bit_or (k / 16 * 16) (k % 16) == k) ≡ true
unfolding all_below
all_nibbles = refl

nibbles_or : (m : ℕ) → m < 256 → bit_or (m / 16 * 16) (m % 16) ≡ m
nibbles_or m below =
    let test = λ (k : ℕ). bit_or (k / 16 * 16) (k % 16) == k in
    (==_iff (bit_or (m / 16 * 16) (m % 16)) m).0 (from_all_below 256 test m all_nibbles below)

chain-lt : (acc : ℕ) (before : Bytes) → acc < 256 → IsBytes before → chain acc before < 256
unfolding chain
chain-lt acc [] h b = h
chain-lt acc (x ∷ before) h b = chain-lt (bit_xor acc x) before (bit_xor-lt acc x h b.0) b.1

lookup-IsBytes : IsBytes decode_lookup
unfolding decode_lookup
lookup-IsBytes = omega arith

mask-lt : (before : Bytes) → IsBytes before → mask before < 256
unfolding mask
mask-lt before b =
    bit_xor-lt (chain 57 before) _ (chain-lt 57 before (omega arith) b)
      (get_or-lt decode_lookup (length before % 54) lookup-IsBytes)

decode_byte-letters :
    (before : Bytes) (b : ℕ)
    → b < 256
    → IsBytes before
    → decode_byte before (bit_xor b (mask before) / 16) (bit_xor b (mask before) % 16) ≡ b
unfolding decode_byte mask
decode_byte-letters before b below bytes =
    let masked = bit_xor b (mask before) in
    rw (nibbles_or masked (bit_xor-lt b (mask before) below (mask-lt before bytes)))
      (bit_xor_comm (mask before) masked ∙ bit_xor_cancel b (mask before))

is_nibble-letter : (n : ℕ) → n < 16 → (is_nibble (65 + n) ≡ true) × (65 + n - 65 ≡ n)
unfolding is_nibble
is_nibble-letter n h = ground arith

-- The letters of every byte string decode to it, behind whatever was decoded before.
pub decode_pairs-letters :
    (before bs : Bytes)
    → IsBytes before
    → IsBytes bs
    → decode_pairs before (letters before bs) ≡ ok (before ++ bs)
unfolding decode_pairs
decode_pairs-letters before [] p q = ap ok (sym (append-nil before))
decode_pairs-letters before (b ∷ bs) p q =
    let masked = bit_xor b (mask before) in
    let below = bit_xor-lt b (mask before) q.0 (mask-lt before p) in
    let (high, high') = is_nibble-letter (masked / 16) (omega (arith, below)) in
    let (low, low') = is_nibble-letter (masked % 16) (omega arith) in
    rw (high, low, high', low', decode_byte-letters before b q.0 p)
      (decode_pairs-letters (before ++ (b ∷ [])) bs
          (All-append (λ k. k < 256) before (b ∷ []) p (q.0, tt)) q.1
        ∙ ap ok (append_assoc before (b ∷ []) bs))
