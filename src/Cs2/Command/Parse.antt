-- ===== src/Cs2/Command/Parse.antt =====
-- `parse_result`: the first well-formed `result = number` of a response.
use okam_ha_native.Base.{
  ℕ, ◌+◌, ◌-◌, ◌*◌, Bool, true, false, ◌&&◌, ◌||◌, [], ◌∷◌, Option, none, some, ltb, leb, ◌==◌,
  if◌then◌else◌, Result, ok, err, value_error, length, drop,
}
use okam_ha_native.Base.Bytes.{Bytes}
use okam_ha_native.Base.Int.{ℤ, pos, neg}
use okam_ha_native.Base.Text.{codes}

-- `payload.find(prefix)` stops where this holds.
unfoldable pub starts_with : Bytes → Bytes → Bool
starts_with [] s = true
starts_with (p ∷ ps) [] = false
starts_with (p ∷ ps) (c ∷ s) = p == c && starts_with ps s

-- `while payload[cursor] in b" \t": cursor += 1`, the cursor being the rest of the payload
pub skip_blanks : Bytes → Bytes
skip_blanks [] = []
skip_blanks (c ∷ s) = let rest = skip_blanks s in if c == b' ' || c == 9 then rest else c ∷ s

pub skip_quotes : Bytes → Bytes
skip_quotes [] = []
skip_quotes (c ∷ s) =
    let rest = skip_quotes s in if c == b' ' || c == 9 || (c == 34 || c == 39) then rest else c ∷ s

abbrev pub is_digit : ℕ → Bool
is_digit c = leb b'0' c && leb c b'9'

-- The digits at the front.
unfoldable pub digits : Bytes → Bytes
digits [] = []
digits (c ∷ s) = let rest = digits s in if is_digit c then c ∷ rest else []

unfoldable pub decimal_value : ℕ → Bytes → ℕ
decimal_value acc [] = acc
decimal_value acc (c ∷ s) = decimal_value (acc * 10 + (c - b'0')) s

-- `int(…)` refuses more digits than the interpreter's limit.
abbrev pub max_int_digits : ℕ
max_int_digits = 4300

number : (ℕ → ℤ) → Bytes → Result (Option ℤ)
number sign [] = ok none
number sign (d ∷ ds) =
    if ltb max_int_digits (length (d ∷ ds))
    then err value_error
    else ok (some (sign (decimal_value 0 (d ∷ ds))))

signed : Bytes → Result (Option ℤ)
signed [] = ok none
signed (c ∷ s) = if c == b'-' then number neg (digits s) else number pos (digits (c ∷ s))

after_blanks : Bytes → Result (Option ℤ)
after_blanks [] = ok none
after_blanks (c ∷ s) = if c == b'=' then signed (skip_quotes s) else ok none

-- The body of the `while`, behind a marker.
unfoldable pub after_marker : Bytes → Result (Option ℤ)
unfolding after_blanks signed number skip_blanks skip_quotes digits decimal_value
after_marker s = after_blanks (skip_blanks s)

abbrev pub or_else : Result (Option ℤ) → Result (Option ℤ) → Result (Option ℤ)
or_else (ok none) later = later
or_else found later = found

unfoldable pub parse_result : Bytes → Result (Option ℤ)
unfolding starts_with after_marker
parse_result [] = ok none
parse_result (c ∷ s) =
    let later = parse_result s in
    if starts_with (codes "result") (c ∷ s)
    then or_else (after_marker (drop 6 (c ∷ s))) later
    else later
