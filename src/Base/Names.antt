-- ===== src/Base/Names.antt =====
-- Counter names: the texts that the code builds with `hex`, `str` and format strings.
use okam_ha_native.Base.Bytes.{Bytes}
use okam_ha_native.Base.Lists.{get_or}
use okam_ha_native.Base.Tests.{ltb}
use Prim.Native.Char.{Char}
use Prim.Native.Nat.{ℕ, zero, suc, ◌/◌, ◌%◌}
use Prim.Native.String.{String, [], ◌∷◌}
use mathlib.Core.Bool.{true, false}
use mathlib.Core.List

digit_chars : List.List Char
digit_chars = List.◌∷◌ "0" (
    List.◌∷◌ "1" (
      List.◌∷◌ "2" (
        List.◌∷◌ "3" (
          List.◌∷◌ "4" (
            List.◌∷◌ "5" (
              List.◌∷◌ "6" (
                List.◌∷◌ "7" (
                  List.◌∷◌ "8" (
                    List.◌∷◌ "9" (
                      List.◌∷◌ "a" (
                        List.◌∷◌ "b" (
                          List.◌∷◌ "c"
                            (List.◌∷◌ "d" (List.◌∷◌ "e" (List.◌∷◌ "f" List.[])))))))))))))))

digit_char : ℕ → Char
unfolding digit_chars
digit_char n = get_or digit_chars n "0"

-- `bytes.hex()`
unfoldable pub hex : Bytes → String
unfolding digit_char
hex List.[] = []
hex (List.◌∷◌ b bs) = digit_char (b / 16 % 16) ∷ (digit_char (b % 16) ∷ hex bs)

decimal_onto : ℕ → ℕ → String → String
decimal_onto zero n s = s
decimal_onto (suc fuel) n s = elim (ltb n 10) [
  | true ↦ digit_char n ∷ s
  | false ↦ decimal_onto fuel (n / 10) (digit_char (n % 10) ∷ s)
]

-- `str(n)`: a number has no more digits than it is large, but for 0.
unfoldable pub decimal : ℕ → String
unfolding decimal_onto digit_char
decimal n = decimal_onto (suc n) n []

-- `f"{n:04x}"` for n < 65536
unfoldable pub hex4 : ℕ → String
unfolding digit_char
hex4 n =
    digit_char (n / 4096 % 16)
    ∷ (digit_char (n / 256 % 16) ∷ (digit_char (n / 16 % 16) ∷ (digit_char (n % 16) ∷ [])))
