-- ===== src/Base/Inet.antt =====
-- `socket.inet_aton` and `socket.inet_ntoa` of the standard library, on IPv4 addresses of four
-- bytes. A part is read as C reads a number: hexadecimal behind `0x`, octal behind `0`.
use okam_ha_native.Base.Bytes.{Bytes}
use okam_ha_native.Base.Tests.{ltb, leb, ◌==◌, if◌then◌else◌}
use okam_ha_native.Base.Text.{Text}
use Prim.Native.Nat.{ℕ, zero, suc, ◌+◌, ◌-◌, ◌*◌, ◌/◌, ◌%◌, ◌^◌, ◌<◌}
use mathlib.Core.Path.{◌≡◌, refl, sym, ap, ◌∙◌}
use mathlib.Core.Bool.{Bool, true, ◌&&◌, ◌||◌}
use mathlib.Core.List.{[], ◌∷◌, ◌++◌, append-nil}
use mathlib.Core.Option
use mathlib.Core.Option.{Option, none, some}
use native.Mathlib.Omega.{arith}

-- A byte in decimal, with no leading zero.
pub decimal_byte : ℕ → Text
decimal_byte n =
    if ltb n 10
    then (48 + n) ∷ []
    else if ltb n 100
    then (48 + n / 10) ∷ (48 + n % 10) ∷ []
    else (48 + n / 100) ∷ (48 + n / 10 % 10) ∷ (48 + n % 10) ∷ []

-- `none` is the `OSError` for a string that has not four bytes.
unfoldable pub inet_ntoa : Bytes → Option Text
unfolding decimal_byte
inet_ntoa (a ∷ b ∷ c ∷ d ∷ []) = some (
    decimal_byte a
    ++ (b'.' ∷ (decimal_byte b ++ (b'.' ∷ (decimal_byte c ++ (b'.' ∷ decimal_byte d))))))
inet_ntoa _ = none

pub digit_value : ℕ → ℕ
digit_value c =
    if leb b'0' c && leb c b'9'
    then c - b'0'
    else if leb b'a' c && leb c b'f'
    then c - 87
    else if leb b'A' c && leb c b'F'
    then c - 55
    else 255

-- The longest run of digits of a base, and what follows it.
pub digits : ℕ → ℕ → Text → ℕ × Text
digits base acc [] = (acc, [])
digits base acc (c ∷ s) =
    let rest = digits base (acc * base + digit_value c) s in
    if ltb (digit_value c) base then rest else (acc, c ∷ s)

pub number_after_zero : Text → ℕ × Text
number_after_zero (x ∷ c ∷ s) =
    if (x == b'x' || x == b'X') && ltb (digit_value c) 16
    then digits 16 0 (c ∷ s)
    else digits 8 0 (x ∷ c ∷ s)
number_after_zero s = digits 8 0 s

pub number : Text → Option (ℕ × Text)
number [] = none
number (c ∷ s) =
    if c == b'0'
    then some (number_after_zero s)
    else if ltb (digit_value c) 10
    then some (digits 10 0 (c ∷ s))
    else none

-- `v` in `width` bytes, the highest first.
pub big_bytes : ℕ → ℕ → Bytes
big_bytes zero v = []
big_bytes (suc width) v = v / 256 ^ width % 256 ∷ big_bytes width v

-- A text may end, or go on behind white space.
pub ends : Text → Bool
ends [] = true
ends (c ∷ s) = c == b' ' || (leb 9 c && leb c 13)

-- The last part fills the bytes that are left.
pub last_part : ℕ → ℕ → Text → Option Bytes
last_part width v rest = if ends rest && ltb v (256 ^ width) then some (big_bytes width v) else none

pub part : ℕ → ℕ → Text → (Text → Option Bytes) → Option Bytes
part width v [] parts = last_part width v []
part width v (c ∷ s) parts =
    if c == b'.'
    then (if ltb v 256 then Option.map (λ bs. v ∷ bs) (parts s) else none)
    else last_part width v (c ∷ s)

pub parts : ℕ → Text → Option Bytes
parts zero s = none
parts (suc width) s = elim (number s) [
  | none ↦ none
  | some (v, rest) ↦ part (suc width) v rest (parts width)
]

unfoldable pub inet_aton : Text → Option Bytes
unfolding parts part last_part ends big_bytes number number_after_zero digits digit_value
inet_aton s = parts 4 s

abbrev Stops : Text → Type 0
Stops [] = Unit
Stops (c ∷ s) = c ≡ b'.'

number-decimal_byte :
    (n : ℕ) (rest : Text) → n < 256 → Stops rest → number (decimal_byte n ++ rest) ≡ some (n, rest)
unfolding number number_after_zero digits digit_value decimal_byte
number-decimal_byte n [] h s = ground arith
number-decimal_byte n (c ∷ rest) h s = ground arith

parts_dot :
    (width n : ℕ) (t : Text)
    → n < 256
    → parts (suc width) (decimal_byte n ++ (b'.' ∷ t)) ≡ Option.map (λ bs. n ∷ bs) (parts width t)
unfolding parts part
parts_dot width n t h = rw (number-decimal_byte n (b'.' ∷ t) h refl, parts) (ground arith)

parts_last : (n : ℕ) → n < 256 → parts 1 (decimal_byte n) ≡ some (n ∷ [])
unfolding parts part last_part ends big_bytes
parts_last n h =
    let e : number (decimal_byte n) ≡ some (n, []) =
      ap number (sym (append-nil (decimal_byte n))) ∙ number-decimal_byte n [] h tt in
    rw (e, parts) (ground arith)

-- Four bytes are read back from the text that they print as.
pub inet_aton-inet_ntoa :
    (a b c d : ℕ)
    → a < 256
    → b < 256
    → c < 256
    → d < 256
    → (host : Text) × (inet_ntoa (a ∷ b ∷ c ∷ d ∷ []) ≡ some host)
      × (inet_aton host ≡ some (a ∷ b ∷ c ∷ d ∷ []))
inet_aton-inet_ntoa a b c d ha hb hc hd = (
  decimal_byte a
      ++ (b'.' ∷ (decimal_byte b ++ (b'.' ∷ (decimal_byte c ++ (b'.' ∷ decimal_byte d))))),
  unfold inet_ntoa in refl,
  unfold inet_aton in
      rw (parts_dot 3 a _ ha, parts_dot 2 b _ hb, parts_dot 1 c _ hc, parts_last d hd),
)
