-- ===== src/Helper/Input.antt =====
-- `_read_field`: one framed input, from the bytes that stand on the helper's standard input.
use okam_ha_native.Base.{
  ℕ, true, false, not, ◌&&◌, ◌++◌, ◌≡◌, ◌≤◌, refl, subst, Option, none, some, ltb, leb, ◌==◌, ok,
  cs2_error, some_or_raise, length, any, take, drop, take-append, drop-append, arith, String,
  ◌>>=◌ as bind, ==_iff,
}
use okam_ha_native.Base.Action.{Action, lift, pure, check, ◌>>=◌, ◌>>◌}
use okam_ha_native.Base.Bytes.{Bytes, from_big, from_big-big4}
use okam_ha_native.Base.Text.{Text}
use okam_ha_native.Base.Utf8.{utf8_decode}
use okam_ha_native.Base.Utf8.RoundTrip.{decode-encode}
use okam_ha_native.Helper.Process.{Mode, connecting}
use okam_ha_native.P2p.Field.{field, good_field, field-IsField}

-- `sys.stdin.buffer.read(n)`: less than `n` bytes where the input ends.
abbrev read : ℕ → Action Bytes Bytes
read n s = (ok (take n s), drop n s)

abbrev pub bad_input : String
bad_input = "native P2P input is invalid"

read_value : ℕ → Action Bytes Text
read_value size = do
  check (ltb 0 size && leb size 4096) bad_input
  value ← read size
  check ((length value == size) && not (any (λ b. ltb b 0x20) value)) bad_input
  lift (some_or_raise (cs2_error bad_input) (utf8_decode value))

unfoldable pub read_field : Action Bytes Text
unfolding read_value
read_field = do
  size_bytes ← read 4
  check (length size_bytes == 4) bad_input
  read_value (from_big size_bytes)

-- The password is read in every mode but `connecting`.
read_password : Mode → Action Bytes (Option Text)
read_password connecting = pure none
read_password _ = do password ← read_field; pure (some password)

-- The three inputs of `main`.
unfoldable pub read_inputs : Mode → Action Bytes (Text × Text × Option Text)
unfolding read_password
read_inputs mode = do
  uid ← read_field
  service ← read_field
  password ← read_password mode
  pure (uid, service, password)

-- The three parts of `good_field`.
good_field-parts :
    (b : Bytes)
    → good_field b ≡ true
    → ((ltb 0 (length b) && leb (length b) 4096) ≡ true)
      × (any (λ c. ltb c 0x20) b ≡ false)
      × (length b ≤ 4096)
good_field-parts b h = (ground arith, ground arith, ground arith)

read_value-good :
    (encoded rest : Bytes) (value : Text)
    → good_field encoded ≡ true
    → utf8_decode encoded ≡ some value
    → read_value (length encoded) (encoded ++ rest) ≡ (ok value, rest)
unfolding read_value
read_value-good encoded rest value good decodes =
    let (sized, printable, small) = good_field-parts encoded good in
    rw
      (
        sized,
        take-append encoded rest,
        drop-append encoded rest,
        (==_iff _ _).1 refl,
        printable,
        decodes,
      )
      refl

-- A field that `p2p._field` wrote is read back by the helper, whatever stands behind it.
pub read_field-field :
    (value : Text) (framed rest : Bytes)
    → field value ≡ ok framed
    → read_field (framed ++ rest) ≡ (ok value, rest)
unfolding read_field
read_field-field value framed rest h =
    let wrote = field-IsField value framed h in
    let n = length wrote.encoded in
    let (sized, printable, small) = good_field-parts wrote.encoded wrote.good in
    subst (λ b. read_field (b ++ rest) ≡ (ok value, rest)) wrote.frames
      (rw (from_big-big4 n (omega arith)) (
        read_value-good wrote.encoded rest value wrote.good
          (decode-encode value wrote.encoded wrote.encodes)))

-- The password that a mode reads, of the one that was sent.
abbrev pub password_in : Mode → Text → Option Text
password_in connecting password = none
password_in _ password = some password
