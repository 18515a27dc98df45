-- ===== src/Base/Url.antt =====
-- `urllib.parse.quote(text, safe="")` and `quote_plus(text)`.
use okam_ha_native.Base.Bytes.{Bytes}
use okam_ha_native.Base.Errors.{Result, ok, value_error, some_or_raise, ◌>>=◌}
use okam_ha_native.Base.Lists.{any}
use okam_ha_native.Base.Tests.{ltb, leb, ◌==◌, if◌then◌else◌}
use okam_ha_native.Base.Text.{Text}
use okam_ha_native.Base.Utf8.{utf8_encode}
use Prim.Native.Nat.{ℕ, ◌+◌, ◌-◌, ◌/◌, ◌%◌}
use mathlib.Core.Bool.{Bool, true, false, ◌&&◌, ◌||◌}
use mathlib.Core.List.{[], ◌∷◌}

-- The characters that are left as they are.
abbrev unreserved : ℕ → Bool
unreserved c =
    (leb b'A' c && leb c b'Z')
    || ((leb b'a' c && leb c b'z')
        || ((leb b'0' c && leb c b'9') || any (λ k. k == c) (b'_' ∷ b'.' ∷ b'-' ∷ b'~' ∷ [])))

abbrev hex_digit : ℕ → ℕ
hex_digit n = if ltb n 10 then b'0' + n else b'A' + (n - 10)

-- `plus` writes a space as `+`.
quote_bytes : Bool → Bytes → Text
quote_bytes plus [] = []
quote_bytes plus (c ∷ cs) =
    let rest = quote_bytes plus cs in
    if unreserved c
    then c ∷ rest
    else if plus && c == b' '
    then b'+' ∷ rest
    else b'%' ∷ hex_digit (c / 16) ∷ hex_digit (c % 16) ∷ rest

unfoldable pub quote : Text → Result Text
unfolding quote_bytes
quote text = do
  encoded ← some_or_raise value_error (utf8_encode text)
  ok (quote_bytes false encoded)

unfoldable pub quote_plus : Text → Result Text
unfolding quote_bytes
quote_plus text = do
  encoded ← some_or_raise value_error (utf8_encode text)
  ok (quote_bytes true encoded)
