-- ===== src/Cs2/Service.antt =====
-- `decode_service_parameter`: the directory list and the transport key.
pub mod Decode
use okam_ha_native.Base.{
  ℕ, zero, suc, ◌+◌, ◌-◌, ◌*◌, ◌/◌, ◌%◌, bit_xor, bit_or, Bool, true, false, not, ◌&&◌, ◌||◌, List,
  [], ◌∷◌, ◌++◌, Option, none, some, ltb, leb, ◌==◌, if◌then◌else◌, String, Result, ok, err,
  cs2_error, ◌>>=◌, ◌>>◌, require, length, get_or, all, is_some,
}
use okam_ha_native.Base.Bytes.{Bytes}
use okam_ha_native.Base.Inet.{inet_aton}
use okam_ha_native.Base.Text.{Text}
use okam_ha_native.Cs2.Cipher.{is_ascii}

pub decode_lookup : Bytes
decode_lookup =
    0x49 ∷ 0x59 ∷ 0x43 ∷ 0x3d ∷ 0xb5 ∷ 0xbf ∷ 0x6d ∷ 0xa3 ∷ 0x47 ∷ 0x53 ∷ 0x4f ∷ 0x61 ∷ 0x65 ∷ 0xe3
    ∷ 0x71 ∷ 0xe9 ∷ 0x67 ∷ 0x7f ∷ 0x02 ∷ 0x03 ∷ 0x0b ∷ 0xad ∷ 0xb3 ∷ 0x89 ∷ 0x2b ∷ 0x2f ∷ 0x35
    ∷ 0xc1 ∷ 0x6b ∷ 0x8b ∷ 0x95 ∷ 0x97 ∷ 0x11 ∷ 0xe5 ∷ 0xa7 ∷ 0x0d ∷ 0xef ∷ 0xf1 ∷ 0x05 ∷ 0x07
    ∷ 0x83 ∷ 0xfb ∷ 0x9d ∷ 0x3b ∷ 0xc5 ∷ 0xc7 ∷ 0x13 ∷ 0x17 ∷ 0x1d ∷ 0x1f ∷ 0x25 ∷ 0x29 ∷ 0xd3
    ∷ 0xdf ∷ []

abbrev pub bad_parameter : String
bad_parameter = "official P2P service parameter is invalid"

-- `value.partition(":")`: what stands before the first colon, and behind it if there is one.
unfoldable pub partition : Text → Text × Option Text
partition [] = ([], none)
partition (c ∷ s) =
    let (before, after) = partition s in if c == b':' then ([], some s) else (c ∷ before, after)

-- `57 ^ decoded[0] ^ …`
unfoldable pub chain : ℕ → Bytes → ℕ
chain acc [] = acc
chain acc (b ∷ bs) = chain (bit_xor acc b) bs

-- `0 <= ord(c) - ord("A") <= 15`
unfoldable pub is_nibble : ℕ → Bool
is_nibble c = leb b'A' c && leb c 80

-- The next byte, from the bytes before it and its two letters.
unfoldable pub decode_byte : Bytes → ℕ → ℕ → ℕ
unfolding chain decode_lookup
decode_byte decoded high low =
    bit_xor (bit_xor (chain 57 decoded) (get_or decode_lookup (length decoded % 54) 0))
      (bit_or (high * 16) low)

-- The loop over `index`; `decoded` is what is done.
unfoldable pub decode_pairs : Bytes → Text → Result Bytes
unfolding decode_byte is_nibble
decode_pairs decoded (h ∷ l ∷ rest) =
    if is_nibble h && is_nibble l
    then decode_pairs (decoded ++ (decode_byte decoded (h - b'A') (l - b'A') ∷ [])) rest
    else err (cs2_error bad_parameter)
decode_pairs decoded _ = ok decoded

-- `rstrip(b"\0")`
unfoldable pub strip_zeros : Bytes → Bytes
strip_zeros [] = []
strip_zeros (b ∷ bs) = elim (strip_zeros bs) [
  | [] ↦ if b == 0 then [] else b ∷ []
  | c ∷ cs ↦ b ∷ c ∷ cs
]

-- `split(",")`, without the empty items
unfoldable pub split_items : Text → Text → List Text
split_items item [] = if ltb 0 (length item) then item ∷ [] else []
split_items item (c ∷ s) =
    let last = split_items [] s in
    let longer = split_items (item ++ (c ∷ [])) s in
    if c == b',' then (if ltb 0 (length item) then item ∷ last else last) else longer

abbrev pub Service : Type 0
Service = List Text × Text

pub check_servers : List Text → Text → Result Service
check_servers servers key = do
  require (ltb 0 (length servers) && leb (length servers) 16)
      "official P2P directory list is invalid"
  require (all (λ server. is_some (inet_aton server)) servers && is_ascii key) bad_parameter
  ok (servers, key)

pub decode_parts : Text → Option Text → Result Service
decode_parts encoded none = err (cs2_error bad_parameter)
decode_parts encoded (some key) = do
  require (ltb 0 (length key) && leb (length key) 128 && length encoded % 2 == 0) bad_parameter
  require (ltb 0 (length encoded) && leb (length encoded) 4096) bad_parameter
  decoded ← decode_pairs [] encoded
  let text = strip_zeros decoded
  require (is_ascii text) bad_parameter
  check_servers (split_items [] text) key

unfoldable pub decode_service_parameter : Text → Result Service
unfolding decode_parts check_servers decode_pairs strip_zeros split_items partition
decode_service_parameter value = let (encoded, key) = partition value in decode_parts encoded key
