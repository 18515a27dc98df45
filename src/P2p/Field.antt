-- ===== src/P2p/Field.antt =====
-- `_field`, the framing of one input of the helper, and `select_camera_password`.
use okam_ha_native.Base.{
  ℕ, Bool, true, not, ◌&&◌, [], ◌∷◌, ◌++◌, ◌≡◌, Option, none, some, ltb, leb, Error, Result, err,
  ok, p2p_error, value_error, ◌>>=◌, ◌>>◌, demand, some_or_raise, bind-eq_ok, demand-eq_ok,
  some_or_raise-eq_ok, length, any,
}
use okam_ha_native.Base.Bytes.{Bytes, big4}
use okam_ha_native.Base.Text.{Text, codes}
use okam_ha_native.Base.Utf8.{utf8_encode}
use okam_ha_native.Json.{Json, null, string}

abbrev pub max_field_bytes : ℕ
max_field_bytes = 4096

abbrev bad_input : Error
bad_input = p2p_error "native P2P input was invalid"

-- `not encoded or len(encoded) > MAX_FIELD_BYTES or any(byte < 0x20 for byte in encoded)`
abbrev pub good_field : Bytes → Bool
good_field encoded =
    ltb 0 (length encoded)
    && (leb (length encoded) max_field_bytes && not (any (λ b. ltb b 0x20) encoded))

abbrev pub framed_if_good : Bytes → Result Bytes
framed_if_good encoded = do
  demand (good_field encoded) bad_input
  ok (big4 (length encoded) ++ encoded)

unfoldable pub field : Text → Result Bytes
field value = some_or_raise value_error (utf8_encode value) >>= framed_if_good

abbrev pub default_camera_password : Text
default_camera_password = codes "888888"

-- `_field(value)` and `return value`
checked : Text → Result Text
checked value = do framed ← field value; ok value

api_or_default : Option Text → Result Text
unfolding checked
api_or_default (some (c ∷ cs)) = checked (c ∷ cs)
api_or_default _ = ok default_camera_password

-- `configured_password` is any value of the options, or `None`.
unfoldable pub select_camera_password : Option Text → Option Json → Result Text
unfolding checked api_or_default
select_camera_password api none = api_or_default api
select_camera_password api (some null) = api_or_default api
select_camera_password api (some (string [])) = api_or_default api
select_camera_password api (some (string (c ∷ cs))) = checked (c ∷ cs)
select_camera_password api (some _) = err (p2p_error "configured camera credential is invalid")

-- What `_field` accepts.
pub record IsField (value : Text) (framed : Bytes) : Type 0 where
  pub encoded : Bytes
  pub encodes : utf8_encode value ≡ some encoded
  pub good : good_field encoded ≡ true
  pub frames : big4 (length encoded) ++ encoded ≡ framed

pub field-IsField : (value : Text) (framed : Bytes) → field value ≡ ok framed → IsField value framed
unfolding field
field-IsField value framed h =
    let (encoded, encodes, checking) =
      bind-eq_ok (some_or_raise value_error (utf8_encode value)) framed_if_good framed h in
    let (good, framing) =
      demand-eq_ok (good_field encoded) bad_input (ok (big4 (length encoded) ++ encoded)) framed
        checking in
    record {
      encoded = encoded;
      encodes = some_or_raise-eq_ok value_error (utf8_encode value) encoded encodes;
      good = good;
      frames = cc framing;
    }
