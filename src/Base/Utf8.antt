-- ===== src/Base/Utf8.antt =====
-- `str.encode("utf-8")` and the strict `bytes.decode("utf-8")` of Python.
pub mod RoundTrip
use okam_ha_native.Base.Bytes.{Bytes}
use okam_ha_native.Base.Tests.{ltb, leb, if◌then◌else◌, ltb→lt, ltb→le, Bool-cases}
use okam_ha_native.Base.Text.{Text}
use Prim.Native.Nat.{ℕ, suc, ◌+◌, ◌-◌, ◌*◌, ◌/◌, ◌%◌, ◌<◌, ◌≤◌}
use mathlib.Core.Path.{◌≡◌, refl, ap, subst, ◌∙◌}
use mathlib.Core.Logic.{inl, inr}
use mathlib.Core.Bool.{Bool, true, ◌&&◌, ◌||◌}
use mathlib.Core.List.{[], ◌∷◌, ◌++◌}
use mathlib.Core.Option.{Option, none, some}
use native.Mathlib.Omega.{arith}

-- A code point that UTF-8 can write: no surrogate.
abbrev pub is_scalar : ℕ → Bool
is_scalar c = ltb c 0xd800 || (leb 0xe000 c && ltb c 0x110000)

abbrev pub tail_byte : ℕ → ℕ
tail_byte n = 0x80 + n % 64

pub encode_point : ℕ → Bytes
encode_point c =
    if ltb c 0x80
    then c ∷ []
    else if ltb c 0x800
    then (0xc0 + c / 64) ∷ tail_byte c ∷ []
    else if ltb c 0x10000
    then (0xe0 + c / 4096) ∷ tail_byte (c / 64) ∷ tail_byte c ∷ []
    else (0xf0 + c / 262144) ∷ tail_byte (c / 4096) ∷ tail_byte (c / 64) ∷ tail_byte c ∷ []

abbrev pub cons_point : Bytes → Option Bytes → Option Bytes
cons_point p none = none
cons_point p (some b) = some (p ++ b)

-- `none` is the `UnicodeEncodeError` on a surrogate.
unfoldable pub utf8_encode : Text → Option Bytes
unfolding encode_point
utf8_encode [] = some []
utf8_encode (c ∷ cs) =
    let rest = utf8_encode cs in if is_scalar c then cons_point (encode_point c) rest else none

-- The decoder between two bytes: at a boundary, or with `left` more tail bytes after the next one,
-- the bits read so far, and the least point that needs this many bytes.
pub data Reading : Type 0 where
  boundary : Reading
  inside : ℕ → ℕ → ℕ → Reading

abbrev pub is_tail : ℕ → Bool
is_tail b = leb 0x80 b && ltb b 0xc0

pub lead : ℕ → Option (Text × Reading)
lead b =
    if ltb b 0x80
    then some (b ∷ [], boundary)
    else if ltb b 0xc0
    then none
    else if ltb b 0xe0
    then some ([], inside 0 (b - 0xc0) 0x80)
    else if ltb b 0xf0
    then some ([], inside 1 (b - 0xe0) 0x800)
    else if ltb b 0xf8
    then some ([], inside 2 (b - 0xf0) 0x10000)
    else none

pub step : Reading → ℕ → Option (Text × Reading)
unfolding lead
step boundary b = lead b
step (inside left bits least) b =
    let point = bits * 64 + (b - 0x80) in
    if is_tail b
    then (if ltb 0 left
        then some ([], inside (left - 1) point least)
        else if leb least point && is_scalar point
        then some (point ∷ [], boundary)
        else none)
    else none

abbrev pub prepend : Text → Option Text → Option Text
prepend out none = none
prepend out (some cs) = some (out ++ cs)

pub decode_from : Reading → Bytes → Option Text
decode_from boundary [] = some []
decode_from (inside left bits least) [] = none
decode_from r (b ∷ s) = elim (step r b) [
  | none ↦ none
  | some (out, next) ↦ prepend out (decode_from next s)
]

-- `none` is the `UnicodeDecodeError`.
unfoldable pub utf8_decode : Bytes → Option Text
unfolding decode_from step
utf8_decode = decode_from boundary
