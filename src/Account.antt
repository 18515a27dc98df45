-- ===== src/Account.antt =====
-- src/okam_native/account.py: the client that lists the cameras of an account.
pub mod Devices
use okam_ha_native.Base.{
  ℕ, zero, suc, ◌+◌, Bool, true, false, not, ◌&&◌, ◌||◌, List, [], ◌∷◌, ◌++◌, ◌≡◌, ◌≤◌, refl, subst,
  Option, none, some, String, ltb, leb, ◌==◌, if◌then◌else◌, Error, Result, err, ok, account_error,
  value_error, ◌>>=◌, ◌>>◌, demand, some_or_raise, bind-eq_ok, demand-eq_ok, length, all, any, take,
  arith, All, Bool-cases, inl, inr, leb→le,
}
use okam_ha_native.Base.Bytes.{Bytes, equal}
use okam_ha_native.Base.Int.{ℤ, pos, negsuc}
use okam_ha_native.Base.Names.{decimal}
use okam_ha_native.Base.Text.{Text, codes}
use okam_ha_native.Base.Utf8.{utf8_encode}
use okam_ha_native.Json.{
  Json, null, boolean, number, real, string, array, object, Items, no_items, item, Members, get,
  as_string,
}

pub record AccountDevice : Type 0 where
  pub uid : Text
  pub name : Text
  pub device_password : Text

-- A request: the method and the path, and the parameters, which stand in the query of a GET and in the
-- form of a POST.
pub record Request : Type 0 where
  pub method : String
  pub path : Text
  pub parameters : List (String × Text)

-- What an opener does: it returns a payload, raises an `AccountError`, or one of the network's errors.
pub data Opened : Type 0 where
  payload : Bytes → Opened
  refused : String → Opened
  failed : Opened

abbrev max_response_bytes : ℕ
max_response_bytes = 1048576

-- `_open_request`, of the status and the body of the response, or nothing where `urlopen` raises.
unfoldable pub open_request : Option (ℕ × Bytes) → Opened
open_request none = failed
open_request (some (status, body)) =
    if not (status == 200)
    then refused "official account service rejected a request"
    else if ltb max_response_bytes (length (take (max_response_bytes + 1) body))
    then refused "official account service response was too large"
    else payload (take (max_response_bytes + 1) body)

-- `"//" in path or ".." in path`, for the character that is doubled
doubled : ℕ → Text → Bool
doubled k [] = false
doubled k (c ∷ []) = false
doubled k (c ∷ d ∷ cs) = (c == k && d == k) || doubled k (d ∷ cs)

starts_slash : Text → Bool
starts_slash [] = false
starts_slash (c ∷ cs) = c == b'/'

abbrev request_failed : Error
request_failed = account_error "official account service request failed"

-- A string, or an integer in decimals, of digits only.
all_digits : (ℕ → Bool) → Text → Bool
all_digits is_digit [] = false
all_digits is_digit t = all is_digit t

digits_or_none : (ℕ → Bool) → Text → Option Text
unfolding all_digits
digits_or_none is_digit t = if all_digits is_digit t then some t else none

-- `str(user_id)`, if it is one. `str` of a Boolean or of a negative number has no digits only.
user_id_of : (ℕ → Bool) → Option Json → Option Text
unfolding digits_or_none
user_id_of is_digit (some (string t)) = digits_or_none is_digit t
user_id_of is_digit (some (number (pos n))) = some (codes (decimal n))
user_id_of is_digit _ = none

abbrev pub default_name : Text
default_name = codes "O-KAM camera"

abbrev name_of : Option Text → Text
name_of none = default_name
name_of (some []) = default_name
name_of (some (c ∷ cs)) = c ∷ cs

abbrev text_or_empty : Option Text → Text
text_or_empty none = []
text_or_empty (some t) = t

abbrev device_of : Members → Text → AccountDevice
device_of m uid = record {
  uid = uid;
  name = name_of (as_string (get "nickname" m));
  device_password = text_or_empty (as_string (get "password" m));
}

abbrev pub good_uid : Text → Bool
good_uid uid = leb 4 (length uid) && leb (length uid) 256

-- One item of the list, in front of the devices of the others.
with_device : Members → Option Text → List AccountDevice → List AccountDevice
with_device m none rest = rest
with_device m (some uid) rest = if good_uid uid then device_of m uid ∷ rest else rest

pub devices_of : Items → List AccountDevice
unfolding with_device
devices_of no_items = []
devices_of (item (object m) l) = with_device m (as_string (get "uid" m)) (devices_of l)
devices_of (item _ l) = devices_of l

abbrev members_or : String → Json → Result Members
members_or message (object m) = ok m
members_or message _ = err (account_error message)

abbrev items_or : String → Json → Result Items
items_or message (array l) = ok l
items_or message _ = err (account_error message)

-- `isinstance(login, dict) and isinstance(login.get("token"), str)`
abbrev has_token : Json → Bool
has_token (object m) = elim (as_string (get "token" m)) [ none ↦ false | some t ↦ true ]
has_token _ = false

abbrev good_credentials : Text → Text → Bool
good_credentials username password =
    ltb 0 (length username)
    && (ltb 0 (length password) && (leb (length username) 320 && leb (length password) 1024))

-- The network, the JSON parser, `str.isdigit` of a character, and the digits of an MD5 digest.
module _ (opener : Request → Opened) (loads : Bytes → Option Json) (is_digit : ℕ → Bool)
    (md5_hex : Bytes → Text) where
  answer_of : Opened → Result Json
  answer_of (payload b) = some_or_raise request_failed (loads b)
  answer_of (refused m) = err (account_error m)
  answer_of failed = err request_failed

  pub request_json : Request → Result Json
  unfolding doubled starts_slash answer_of
  request_json r =
      demand (starts_slash r.path && not (doubled b'/' r.path || doubled b'.' r.path))
        (account_error "invalid official account service path")
      >> answer_of (opener r)

  list_devices : Text → Text → Result Items
  unfolding request_json
  list_devices user_id digest = do
    shown ← request_json (record {
      method = "GET";
      path = codes "/PC/device/show";
      parameters = ("userid", user_id) ∷ ("pwd", digest) ∷ [];
    })
    items_or "official account device list was invalid" shown

  log_in : Text → Text → Result (Unit {0})
  unfolding request_json
  log_in user_id digest = do
    login ← request_json (record {
      method = "GET";
      path = codes "/login/token";
      parameters = ("userid", user_id) ∷ ("password", digest) ∷ ("type", codes "PC") ∷ [];
    })
    demand (has_token login) (account_error "O-KAM account credentials were rejected")

  find_user : Text → Result Text
  unfolding request_json user_id_of
  find_user username = do
    summary ← request_json (record {
      method = "POST";
      path = codes "/user/summary";
      parameters = ("name", username) ∷ ("oemid", codes "VSTC") ∷ [];
    })
    m ← members_or "official account summary was invalid" summary
    some_or_raise (account_error "official account summary omitted the user identifier")
        (user_id_of is_digit (get "userid" m))

  unfoldable pub enumerate : Text → Text → Result (List AccountDevice)
  unfolding find_user log_in list_devices devices_of
  enumerate username password = do
    demand (good_credentials username password)
        (account_error "O-KAM account credentials are invalid")
    user_id ← find_user username
    encoded ← some_or_raise value_error (utf8_encode password)
    logged_in ← log_in user_id (md5_hex encoded)
    items ← list_devices user_id (md5_hex encoded)
    ok (devices_of items)
