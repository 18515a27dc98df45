-- ===== src/Account/Devices.antt =====
-- What is known of the cameras that an account lists.
use okam_ha_native.Base.{
  ℕ, Bool, true, List, [], ◌∷◌, ◌≡◌, ◌≤◌, subst, Option, none, some, ok, account_error, value_error,
  ◌>>=◌, ◌>>◌, some_or_raise, bind-eq_ok, demand-eq_ok, length, All, Bool-cases, inl, inr, arith,
}
use okam_ha_native.Base.Bytes.{Bytes}
use okam_ha_native.Base.Text.{Text}
use okam_ha_native.Base.Utf8.{utf8_encode}
use okam_ha_native.Json.{
  Json, null, boolean, number, real, string, array, object, Items, no_items, item, Members, get,
  as_string,
}
use okam_ha_native.Account.{
  AccountDevice, Request, Opened, name_of, good_uid, with_device, devices_of, good_credentials,
  find_user, log_in, list_devices, enumerate,
}

-- A device with an identifier of 4 to 256 characters and a name.
pub record IsDevice (d : AccountDevice) : Type 0 where
  pub long : 4 ≤ length d.uid
  pub short : length d.uid ≤ 256
  pub named : 1 ≤ length d.name

name_of-length : (o : Option Text) → 1 ≤ length (name_of o)
name_of-length none = omega arith
name_of-length (some []) = omega arith
name_of-length (some (c ∷ cs)) = omega arith

good_uid-bounds : (uid : Text) → good_uid uid ≡ true → (4 ≤ length uid) × (length uid ≤ 256)
good_uid-bounds uid h = (ground arith, ground arith)

with_device-All :
    (m : Members) (o : Option Text) (rest : List AccountDevice)
    → All IsDevice rest
    → All IsDevice (with_device m o rest)
unfolding with_device
with_device-All m none rest h = h
with_device-All m (some uid) rest h = elim (Bool-cases (good_uid uid)) [
  | inl good ↦
      let (long, short) = good_uid-bounds uid good in
      rw good (
        record {
          long = long;
          short = short;
          named = name_of-length (as_string (get "nickname" m));
        },
        h,
      )
  | inr bad ↦ rw bad h
]

devices_of-All : (l : Items) → All IsDevice (devices_of l)
unfolding devices_of
devices_of-All no_items = tt
devices_of-All (item (object m) l) =
    with_device-All m (as_string (get "uid" m)) (devices_of l) (devices_of-All l)
devices_of-All (item null l) = devices_of-All l
devices_of-All (item (boolean b) l) = devices_of-All l
devices_of-All (item (number n) l) = devices_of-All l
devices_of-All (item (real r) l) = devices_of-All l
devices_of-All (item (string t) l) = devices_of-All l
devices_of-All (item (array a) l) = devices_of-All l

module _ (opener : Request → Opened) (loads : Bytes → Option Json) (is_digit : ℕ → Bool)
    (md5_hex : Bytes → Text) where
  -- Whatever the service answers, each device of a list that is returned has an identifier of 4 to 256
  -- characters and a name that is not empty.
  pub enumerate-All :
      (username password : Text) (devices : List AccountDevice)
      → enumerate opener loads is_digit md5_hex username password ≡ ok devices
      → All IsDevice devices
  unfolding enumerate
  enumerate-All username password devices h =
      let listed = λ (user_id : Text) (encoded : Bytes).
        list_devices opener loads is_digit md5_hex user_id (md5_hex encoded)
        >>= (λ items. ok (devices_of items)) in
      let entered = λ (user_id : Text) (encoded : Bytes).
        log_in opener loads is_digit md5_hex user_id (md5_hex encoded) >> listed user_id encoded in
      let found =
        λ (user_id : Text). some_or_raise value_error (utf8_encode password) >>= entered user_id in
      let (good, rest) =
        demand-eq_ok (good_credentials username password)
          (account_error "O-KAM account credentials are invalid")
          (find_user opener loads is_digit md5_hex username >>= found) devices h in
      let (user_id, finding, rest1) =
        bind-eq_ok (find_user opener loads is_digit md5_hex username) found devices rest in
      let (encoded, encoding, rest2) =
        bind-eq_ok (some_or_raise value_error (utf8_encode password)) (entered user_id) devices
          rest1 in
      let (u, entering, rest3) =
        bind-eq_ok (log_in opener loads is_digit md5_hex user_id (md5_hex encoded))
          (λ u. listed user_id encoded) devices rest2 in
      let (items, listing, made) =
        bind-eq_ok (list_devices opener loads is_digit md5_hex user_id (md5_hex encoded))
          (λ items. ok (devices_of items)) devices rest3 in
      let same : devices_of items ≡ devices = cc made in
      subst (All IsDevice) same (devices_of-All items)
