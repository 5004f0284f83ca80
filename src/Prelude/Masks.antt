-- ===== src/Prelude/Masks.antt =====
-- The low byte of a word by `& 0xFF`.
use Prim.Native.Nat.{ℕ, zero, suc, ◌+◌, ◌*◌, ◌/◌, ◌%◌, ◌≤◌, min, bit_and, digits, bit_and-bitwise}
use mathlib.Core.Path.{◌≡◌, refl}
use native.Mathlib.Omega.{arith}

abbrev and_rounds : ℕ → ℕ → ℕ → ℕ
and_rounds n a b = digits (λ b. zero) min n a b

and_rounds_enough : (n m a b : ℕ) → a ≤ n → a ≤ m → and_rounds n a b ≡ and_rounds m a b
and_rounds_enough zero zero a b p q = refl
and_rounds_enough zero (suc m) zero b p q = refl
and_rounds_enough zero (suc m) (suc a) b p q = absurd (omega arith)
and_rounds_enough (suc n) zero zero b p q = refl
and_rounds_enough (suc n) zero (suc a) b p q = absurd (omega arith)
and_rounds_enough (suc n) (suc m) zero b p q = refl
and_rounds_enough (suc n) (suc m) (suc a) b p q =
    omega (arith, and_rounds_enough n m (suc a / 2) (b / 2) (omega arith) (omega arith))

bit_and_halves : (a b : ℕ) → bit_and a b ≡ bit_and (a / 2) (b / 2) * 2 + min (a % 2) (b % 2)
bit_and_halves zero b = omega (arith, bit_and-bitwise 0 b, bit_and-bitwise 0 (b / 2))
bit_and_halves (suc a) b = omega (
  arith,
  bit_and-bitwise (suc a) b,
  bit_and-bitwise (suc a / 2) (b / 2),
  and_rounds_enough a (suc a / 2) (suc a / 2) (b / 2) (omega arith) (omega arith),
)

bit_and_none : (n a : ℕ) → a ≤ n → bit_and a 0 ≡ 0
bit_and_none n zero h = refl
bit_and_none zero (suc a) h = absurd (omega arith)
bit_and_none (suc n) (suc a) h =
    omega (arith, bit_and_halves (suc a) 0, bit_and_none n (suc a / 2) (omega arith))

low_1 : (a : ℕ) → bit_and a 1 ≡ a % 2
low_1 a = omega (arith, bit_and_halves a 1, bit_and_none (a / 2) (a / 2) (omega arith))

low_2 : (a : ℕ) → bit_and a 3 ≡ a % 4
low_2 a = omega (arith, bit_and_halves a 3, low_1 (a / 2))

low_3 : (a : ℕ) → bit_and a 7 ≡ a % 8
low_3 a = omega (arith, bit_and_halves a 7, low_2 (a / 2))

low_4 : (a : ℕ) → bit_and a 15 ≡ a % 16
low_4 a = omega (arith, bit_and_halves a 15, low_3 (a / 2))

low_5 : (a : ℕ) → bit_and a 31 ≡ a % 32
low_5 a = omega (arith, bit_and_halves a 31, low_4 (a / 2))

low_6 : (a : ℕ) → bit_and a 63 ≡ a % 64
low_6 a = omega (arith, bit_and_halves a 63, low_5 (a / 2))

low_7 : (a : ℕ) → bit_and a 127 ≡ a % 128
low_7 a = omega (arith, bit_and_halves a 127, low_6 (a / 2))

pub low_byte : (a : ℕ) → bit_and a 0xff ≡ a % 256
low_byte a = omega (arith, bit_and_halves a 255, low_7 (a / 2))
