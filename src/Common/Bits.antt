-- ===== src/Common/Bits.antt =====
-- Facts about bytes by evaluation: a test that holds of every number below a bound.
use Prim.Native.Nat.{
  ℕ, zero, suc, ◌+◌, ◌*◌, ◌/◌, ◌≤◌, ◌<◌, ◌%◌, min, bit_and, digits, bit_and-bitwise,
}
use mathlib.Core.Path.{◌≡◌, refl, ◌∙◌}
use mathlib.Core.Bool.{Bool, true, ◌&&◌}
use native.Mathlib.Omega.{arith}
use bind.Common.Tests.{◌==◌, ==_iff}

unfoldable pub all_below : ℕ → (ℕ → Bool) → Bool
all_below zero test = true
all_below (suc limit) test = all_below limit test && test limit

-- Evaluating `all_below` settles the test at each number under the limit.
pub holds_at :
    (limit k : ℕ) (test : ℕ → Bool) → k < limit → all_below limit test ≡ true → test k ≡ true
unfolding all_below
holds_at zero k test small checked = absurd (omega arith)
holds_at (suc limit) k test small checked = ground (arith, holds_at limit k test)

-- Two functions that agree on every number below a bound, checked by evaluation.
pub agree_below :
    (n : ℕ) (f g : ℕ → ℕ) → all_below n (λ x. f x == g x) ≡ true → (x : ℕ) → x < n → f x ≡ g x
agree_below n f g h x lt = (==_iff _ _).0 (holds_at n x (λ y. f y == g y) lt h)

-- `k` ones, and the `k` lowest binary digits of a number.
abbrev ones : ℕ → ℕ
ones zero = 0
ones (suc k) = ones k * 2 + 1

abbrev low_digits : ℕ → ℕ → ℕ
low_digits zero a = 0
low_digits (suc k) a = low_digits k (a / 2) * 2 + a % 2

low_digits-zero : (k a : ℕ) → a ≤ 0 → 0 ≡ low_digits k a
low_digits-zero zero a h = refl
low_digits-zero (suc k) a h = omega (arith, low_digits-zero k (a / 2) (omega arith))

half-ones : (k : ℕ) → (ones k * 2 + 1) / 2 ≡ ones k
half-ones k = omega arith

-- `bit_and` goes through the digits of its first argument; the mask loses a digit at each.
mask-digits : (k n a : ℕ) → a ≤ n → digits (λ b. zero) min n a (ones k) ≡ low_digits k a
mask-digits k zero a h = low_digits-zero k a h
mask-digits k (suc n) zero h = low_digits-zero k 0 (omega arith)
mask-digits zero (suc n) (suc a) h = omega (arith, mask-digits zero n (suc a / 2) (omega arith))
mask-digits (suc k) (suc n) (suc a) h =
    rw (half-ones k) (omega (arith, mask-digits k n (suc a / 2) (omega arith)))

bit_and-ones : (k a : ℕ) → bit_and a (ones k) ≡ low_digits k a
bit_and-ones k a = bit_and-bitwise a (ones k) ∙ mask-digits k a a (omega arith)

pub low_nibble : (a : ℕ) → bit_and a 15 ≡ a % 16
low_nibble a = omega (arith, bit_and-ones 4 a)

pub low_byte : (a : ℕ) → bit_and a 0xFF ≡ a % 256
low_byte a = omega (arith, bit_and-ones 8 a)
