-- ===== src/Base/Bytes.antt =====
-- Byte strings as lists of numbers below 256, and integers written into them.
use okam_ha_native.Base.Lists.{take, drop, get_or, All}
use okam_ha_native.Base.Tests.{◌==◌}
use Prim.Native.Nat.{ℕ, ◌+◌, ◌*◌, ◌/◌, ◌%◌, ◌<◌}
use mathlib.Core.Path.{◌≡◌}
use mathlib.Core.Bool.{Bool, true, false, ◌&&◌}
use mathlib.Core.List.{List, [], ◌∷◌}
use mathlib.Core.Logic.{◌↔◌}
use native.Mathlib.Omega.{arith}

abbrev pub Bytes : Type 0
Bytes = List ℕ

abbrev pub IsBytes : Bytes → Type 0
IsBytes = All (λ b. b < 256)

-- `b[i]`; every use of the code is within range.
abbrev pub byte_at : Bytes → ℕ → ℕ
byte_at b i = get_or b i 0

-- `b[start:stop]`
abbrev pub slice : ℕ → ℕ → Bytes → Bytes
slice start stop b = drop start (take stop b)

-- `==` of two byte strings
unfoldable pub equal : Bytes → Bytes → Bool
equal [] [] = true
equal (x ∷ xs) (y ∷ ys) = x == y && equal xs ys
equal _ _ = false

pub equal_iff : (p q : Bytes) → (equal p q ≡ true) ↔ (p ≡ q)
unfolding equal
equal_iff [] q = ground arith
equal_iff (x ∷ p) [] = ground arith
equal_iff (x ∷ p) (y ∷ q) = ground (arith, equal_iff p q)

-- `n.to_bytes(2, "big")`, for n < 65536
abbrev pub big2 : ℕ → Bytes
big2 n = n / 256 % 256 ∷ n % 256 ∷ []

-- `n.to_bytes(4, "big")`, for n < 2 ** 32
abbrev pub big4 : ℕ → Bytes
big4 n = n / 16777216 % 256 ∷ n / 65536 % 256 ∷ n / 256 % 256 ∷ n % 256 ∷ []

-- `n.to_bytes(2, "little")`, for n < 65536
abbrev pub little2 : ℕ → Bytes
little2 n = n % 256 ∷ n / 256 % 256 ∷ []

-- `int.from_bytes(b, "big")`
pub from_big_onto : ℕ → Bytes → ℕ
from_big_onto acc [] = acc
from_big_onto acc (b ∷ bs) = from_big_onto (acc * 256 + b) bs

unfoldable pub from_big : Bytes → ℕ
unfolding from_big_onto
from_big = from_big_onto 0

-- `int.from_bytes(b, "little")`
unfoldable pub from_little : Bytes → ℕ
from_little [] = 0
from_little (b ∷ bs) = b + 256 * from_little bs

pub from_big-big2 : (n : ℕ) → n < 65536 → from_big (big2 n) ≡ n
unfolding from_big
from_big-big2 n h = omega arith

pub from_big-big4 : (n : ℕ) → n < 4294967296 → from_big (big4 n) ≡ n
unfolding from_big
from_big-big4 n h = omega arith

pub from_little-little2 : (n : ℕ) → n < 65536 → from_little (little2 n) ≡ n
unfolding from_little
from_little-little2 n h = omega arith
