-- ===== src/P2p/Directory.antt =====
-- `_open_request`, `get_service_parameter` and `resolve_client_id`: the vendor's directory.
pub mod Family
use okam_ha_native.Base.{
  ℕ, zero, suc, ◌+◌, Bool, true, false, not, ◌&&◌, ◌||◌, List, [], ◌∷◌, ◌++◌, ◌≡◌, ◌≤◌, refl,
  Option, none, some, String, ltb, leb, ◌==◌, if◌then◌else◌, Error, Result, err, ok, p2p_error,
  ◌>>=◌, ◌>>◌, demand, bind-eq_ok, demand-eq_ok, length, all, take, drop, arith, Bool-cases, inl,
  inr, subst,
}
use okam_ha_native.Base.Bytes.{Bytes}
use okam_ha_native.Base.Text.{Text, codes}
use okam_ha_native.Base.Url.{quote_plus}
use okam_ha_native.Json.{
  Json, null, boolean, number, string, array, object, item, no_items, Members, no_members, member,
  get, as_string,
}

-- A request to the directory: the URL, and the JSON value of the body, if there is one.
pub record Query : Type 0 where
  pub url : Text
  pub body : Option Json

-- What an opener does: it returns a payload, raises a `P2PError`, or one of the errors of the network.
pub data Opened : Type 0 where
  payload : Bytes → Opened
  refused : String → Opened
  failed : Opened

abbrev pub max_response_bytes : ℕ
max_response_bytes = 65536

-- `_open_request`, of the status and the body of the response, or nothing where `urlopen` raises.
unfoldable pub open_request : Option (ℕ × Bytes) → Opened
open_request none = failed
open_request (some (status, body)) =
    if not (status == 200)
    then refused "official P2P directory rejected a request"
    else if ltb max_response_bytes (length (take (max_response_bytes + 1) body))
    then refused "official P2P directory response was too large"
    else payload (take (max_response_bytes + 1) body)

-- `json.loads(opener(…).decode("utf-8"))`, `loads` for both steps.
pub fetch : (Bytes → Option Json) → String → Opened → Result Json
fetch loads message (payload b) = elim (loads b) [ none ↦ err (p2p_error message) | some v ↦ ok v ]
fetch loads message (refused m) = err (p2p_error m)
fetch loads message failed = err (p2p_error message)

abbrev pub within : ℕ → ℕ → Text → Bool
within low high t = leb low (length t) && leb (length t) high

abbrev pub bad_identifier : Error
bad_identifier = p2p_error "camera device identifier is invalid"

-- The first item of a list, if it is a string.
abbrev first_string : Json → Option Text
first_string (array (item (string t) l)) = some t
first_string _ = none

-- The string, if its length is in the bounds.
abbrev pub bounded : ℕ → ℕ → Error → Option Text → Result Text
bounded low high e none = err e
bounded low high e (some t) = if within low high t then ok t else err e

abbrev bad_directory : Error
bad_directory = p2p_error "official P2P directory response was invalid"

abbrev pub bad_resolver : Error
bad_resolver = p2p_error "official virtual-device resolver response was invalid"

abbrev pub family_query : Text → Query
family_query family = record {
  url = codes "https://authentication.eye4.cn/getInitstring";
  body = some (object (member "uid" (array (item (string family) no_items)) no_members));
}

-- `is_alnum` is Python's test of a character, by the tables of Unicode; `opener` and `loads` are the
-- network and the JSON parser.
module _ (is_alnum : ℕ → Bool) (opener : Query → Opened) (loads : Bytes → Option Json) where
  unfoldable pub get_service_parameter : Text → Result Text
  unfolding fetch
  get_service_parameter uid = do
    demand (within 4 256 uid) bad_identifier
    let family = take 4 uid
    demand (all is_alnum family) (p2p_error "camera device family is invalid")
    result ← fetch loads "official P2P directory request failed" (opener (family_query family))
    bounded 16 4096 bad_directory (first_string result)

-- `[A-Za-z]`
abbrev is_letter : ℕ → Bool
is_letter c = (leb b'A' c && leb c b'Z') || (leb b'a' c && leb c b'z')

-- `.*[A-Za-z]$`: no line break, and a letter at the end.
letter_ends : Text → Bool
letter_ends [] = false
letter_ends (c ∷ []) = is_letter c
letter_ends (c ∷ d ∷ cs) = not (c == 0x0a) && letter_ends (d ∷ cs)

after_letters : Text → Text
after_letters [] = []
after_letters (c ∷ cs) = let rest = after_letters cs in if is_letter c then rest else c ∷ cs

abbrev pub uid_of : Json → Option Text
uid_of (object m) = as_string (get "uid" m)
uid_of _ = none

abbrev pub resolve_query : Text → Query
resolve_query quoted = record { url = codes "https://vuid.eye4.cn?vuid=" ++ quoted; body = none }

-- `is_digit` is `\d`, by the tables of Unicode.
module _ (is_digit : ℕ → Bool) where
  -- `\d{7,}` and what follows: digits over seven are taken by `.*` as well.
  seven_digits : Text → Bool
  unfolding letter_ends
  seven_digits t = (length (take 7 t) == 7) && (all is_digit (take 7 t) && letter_ends (drop 7 t))

  -- `VIRTUAL_ID_PATTERN.fullmatch(uid)`
  unfoldable pub is_virtual : Text → Bool
  unfolding seven_digits after_letters
  is_virtual [] = false
  is_virtual (c ∷ cs) = is_letter c && seven_digits (after_letters cs)

module _ (is_digit : ℕ → Bool) (opener : Query → Opened) (loads : Bytes → Option Json) where
  resolve_virtual : Text → Result Text
  unfolding fetch
  resolve_virtual uid = do
    quoted ← quote_plus uid
    result ←
        fetch loads "official virtual-device resolver request failed"
          (opener (resolve_query quoted))
    bounded 4 256 bad_resolver (uid_of result)

  unfoldable pub resolve_client_id : Text → Result Text
  unfolding resolve_virtual
  resolve_client_id uid =
      demand (within 4 256 uid) bad_identifier
      >> (if is_virtual is_digit uid then resolve_virtual uid else ok uid)
