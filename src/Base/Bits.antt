-- ===== src/Base/Bits.antt =====
-- Laws of `bit_xor` and of `& mask`, from the digit recursion that the native operations stand for.
use Prim.Native.Nat.{
  ℕ, zero, suc, ◌+◌, ◌*◌, ◌/◌, ◌%◌, ◌^◌, ◌≤◌, ◌<◌, bit_xor, digits, differ, bit_xor-bitwise,
}
use mathlib.Core.Path.{◌≡◌, refl, sym, ap, ◌∙◌}
use mathlib.Core.WellFounded.{Acc, WellFounded}
use native.Mathlib.Nat.{pow-suc}
use native.Mathlib.Omega.{arith}

Acc-below : (k n : ℕ) → n < k → Acc ◌<◌ n
Acc-below zero n h = elim h [ ]
Acc-below (suc k) n h = Acc.intro n (λ m hm. Acc-below k m (omega arith))

unfoldable pub lt_wf : WellFounded ◌<◌
unfolding Acc-below
lt_wf = record { apply = λ n. Acc-below (suc n) n (omega arith) }

-- The digits of `^` do not depend on the fuel, once there is enough.
abbrev xor_digits : ℕ → ℕ → ℕ → ℕ
xor_digits = digits (λ rest. rest) differ

xor_digits-zero : (fuel b : ℕ) → xor_digits fuel 0 b ≡ b
xor_digits-zero zero b = refl
xor_digits-zero (suc fuel) b = refl

xor_digits_enough :
    (more less a b : ℕ) → a ≤ less → less ≤ more → xor_digits more a b ≡ xor_digits less a b
xor_digits_enough more less zero b h k = xor_digits-zero more b ∙ sym (xor_digits-zero less b)
xor_digits_enough more zero (suc a) b h k = absurd (omega arith)
xor_digits_enough zero (suc less) (suc a) b h k = absurd (omega arith)
xor_digits_enough (suc more) (suc less) (suc a) b h k =
    ap (λ high. high * 2 + differ (suc a % 2) (b % 2))
      (xor_digits_enough more less (suc a / 2) (b / 2) (omega (arith, h)) (omega (arith, k)))

-- The lowest digit of `a ^ b`.
pub bit_xor_step : (a b : ℕ) → bit_xor a b ≡ bit_xor (a / 2) (b / 2) * 2 + differ (a % 2) (b % 2)
bit_xor_step zero b = simp bit_xor-bitwise (omega arith)
bit_xor_step (suc a) b =
    let half = suc a / 2 in
    let same = xor_digits_enough a half half (b / 2) (omega arith) (omega arith) in
    simp bit_xor-bitwise (omega (arith, same))

-- Two digits.
differ_digits : (x y : ℕ) → x < 2 → y < 2 → (differ x y < 2) × (differ (differ x y) y ≡ x)
differ_digits zero zero p q = (omega arith, refl)
differ_digits zero (suc zero) p q = (omega arith, refl)
differ_digits zero (suc (suc y)) p q = absurd (omega arith)
differ_digits (suc zero) zero p q = (omega arith, refl)
differ_digits (suc zero) (suc zero) p q = (omega arith, refl)
differ_digits (suc zero) (suc (suc y)) p q = absurd (omega arith)
differ_digits (suc (suc x)) y p q = absurd (omega arith)

differ_comm : (x y : ℕ) → x < 2 → y < 2 → differ x y ≡ differ y x
differ_comm zero zero p q = refl
differ_comm zero (suc y) p q = refl
differ_comm (suc zero) zero p q = refl
differ_comm (suc zero) (suc zero) p q = refl
differ_comm (suc zero) (suc (suc y)) p q = absurd (omega arith)
differ_comm (suc (suc x)) y p q = absurd (omega arith)

bit_xor_cancel_fuel : (n a s : ℕ) → a ≤ n → s ≤ n → bit_xor (bit_xor a s) s ≡ a
bit_xor_cancel_fuel zero zero zero p q = refl
bit_xor_cancel_fuel zero zero (suc s) p q = absurd (omega arith)
bit_xor_cancel_fuel zero (suc a) s p q = absurd (omega arith)
bit_xor_cancel_fuel (suc n) a s p q =
    let d = differ_digits (a % 2) (s % 2) (omega arith) (omega arith) in
    let half : bit_xor a s / 2 ≡ bit_xor (a / 2) (s / 2) = omega (arith, bit_xor_step a s, d) in
    let low : bit_xor a s % 2 ≡ differ (a % 2) (s % 2) = omega (arith, bit_xor_step a s, d) in
    let ih = bit_xor_cancel_fuel n (a / 2) (s / 2) (omega arith) (omega arith) in
    bit_xor_step (bit_xor a s) s ∙ rw (half, low, ih, d.1) (omega arith)

-- The same mask twice changes nothing.
pub bit_xor_cancel : (a s : ℕ) → bit_xor (bit_xor a s) s ≡ a
bit_xor_cancel a s = bit_xor_cancel_fuel (a + s) a s (omega arith) (omega arith)

bit_xor-lt-pow : (k a b : ℕ) → a < 2 ^ k → b < 2 ^ k → bit_xor a b < 2 ^ k
bit_xor-lt-pow zero zero zero p q = omega arith
bit_xor-lt-pow zero zero (suc b) p q = absurd (omega arith)
bit_xor-lt-pow zero (suc a) b p q = absurd (omega arith)
bit_xor-lt-pow (suc k) a b p q =
    let d = differ_digits (a % 2) (b % 2) (omega arith) (omega arith) in
    omega (
      arith,
      pow-suc 2 k,
      bit_xor_step a b,
      d,
      bit_xor-lt-pow k (a / 2) (b / 2) (omega (arith, pow-suc 2 k)) (omega (arith, pow-suc 2 k)),
    )

-- Two bytes give a byte.
pub bit_xor-lt : (a b : ℕ) → a < 256 → b < 256 → bit_xor a b < 256
bit_xor-lt a b p q = bit_xor-lt-pow 8 a b p q

bit_xor_comm_fuel : (n a b : ℕ) → a ≤ n → b ≤ n → bit_xor a b ≡ bit_xor b a
bit_xor_comm_fuel zero zero zero p q = refl
bit_xor_comm_fuel zero zero (suc b) p q = absurd (omega arith)
bit_xor_comm_fuel zero (suc a) b p q = absurd (omega arith)
bit_xor_comm_fuel (suc n) a b p q = omega (
  arith,
  bit_xor_step a b,
  bit_xor_step b a,
  differ_comm (a % 2) (b % 2) (omega arith) (omega arith),
  bit_xor_comm_fuel n (a / 2) (b / 2) (omega arith) (omega arith),
)

pub bit_xor_comm : (a b : ℕ) → bit_xor a b ≡ bit_xor b a
bit_xor_comm a b = bit_xor_comm_fuel (a + b) a b (omega arith) (omega arith)

-- Only the mask 0 leaves a number as it is.
pub bit_xor_fixed : (a s : ℕ) → bit_xor a s ≡ a → s ≡ 0
bit_xor_fixed a s h =
    sym (bit_xor_cancel s a)
    ∙ ap (λ x. bit_xor x a) (bit_xor_comm s a ∙ h ∙ sym (bit_xor-bitwise 0 a))
    ∙ bit_xor_cancel 0 a

pub bit_xor-zero : (a : ℕ) → bit_xor a 0 ≡ a
bit_xor-zero a = bit_xor_comm a 0 ∙ bit_xor-bitwise 0 a
