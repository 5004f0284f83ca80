-- ===== src/Prelude/Bits.antt =====
-- Packing two fields into a word by `|`: the low field lies below the shifted high one.
use Prim.Native.Nat.{
  ℕ, zero, suc, ◌+◌, ◌*◌, ◌/◌, ◌%◌, ◌^◌, ◌≤◌, ◌<◌, max, bit_or, digits, bit_or-bitwise,
}
use mathlib.Core.Path.{◌≡◌, refl, ap}
use native.Mathlib.Omega.{arith}
use native.Mathlib.Nat.{pow-suc}

abbrev or_rounds : ℕ → ℕ → ℕ → ℕ
or_rounds n a b = digits (λ b. b) max n a b

-- Rounds beyond the number of digits change nothing.
or_rounds_enough : (n m a b : ℕ) → a ≤ n → a ≤ m → or_rounds n a b ≡ or_rounds m a b
or_rounds_enough zero zero a b p q = refl
or_rounds_enough zero (suc m) zero b p q = refl
or_rounds_enough zero (suc m) (suc a) b p q = absurd (omega arith)
or_rounds_enough (suc n) zero zero b p q = refl
or_rounds_enough (suc n) zero (suc a) b p q = absurd (omega arith)
or_rounds_enough (suc n) (suc m) zero b p q = refl
or_rounds_enough (suc n) (suc m) (suc a) b p q =
    omega (arith, or_rounds_enough n m (suc a / 2) (b / 2) (omega arith) (omega arith))

zero-bit_or : (b : ℕ) → bit_or 0 b ≡ b
zero-bit_or b = bit_or-bitwise 0 b

bit_or_halves : (a b : ℕ) → bit_or a b ≡ bit_or (a / 2) (b / 2) * 2 + max (a % 2) (b % 2)
bit_or_halves zero b = omega (arith, zero-bit_or b, zero-bit_or (b / 2))
bit_or_halves (suc a) b = omega (
  arith,
  bit_or-bitwise (suc a) b,
  bit_or-bitwise (suc a / 2) (b / 2),
  or_rounds_enough a (suc a / 2) (suc a / 2) (b / 2) (omega arith) (omega arith),
)

bit_or-zero_rounds : (n a : ℕ) → a ≤ n → bit_or a 0 ≡ a
bit_or-zero_rounds n zero h = refl
bit_or-zero_rounds zero (suc a) h = absurd (omega arith)
bit_or-zero_rounds (suc n) (suc a) h =
    omega (arith, bit_or_halves (suc a) 0, bit_or-zero_rounds n (suc a / 2) (omega arith))

double-bit_or : (a b : ℕ) → bit_or (a * 2) b ≡ bit_or a (b / 2) * 2 + b % 2
double-bit_or a b =
    let half : (a * 2) / 2 ≡ a = omega arith in
    let step : bit_or (a * 2) b ≡ bit_or a (b / 2) * 2 + max ((a * 2) % 2) (b % 2) =
      rw half at (bit_or_halves (a * 2) b) in
    omega (arith, step)

bit_or-double : (a b : ℕ) → bit_or b (a * 2) ≡ bit_or (b / 2) a * 2 + b % 2
bit_or-double a b =
    let half : (a * 2) / 2 ≡ a = omega arith in
    let step : bit_or b (a * 2) ≡ bit_or (b / 2) a * 2 + max (b % 2) ((a * 2) % 2) =
      rw half at (bit_or_halves b (a * 2)) in
    omega (arith, step)

mul-pow-suc : (a k : ℕ) → a * 2 ^ suc k ≡ (a * 2 ^ k) * 2
mul-pow-suc a k = omega (arith, pow-suc 2 k, ap (λ (t : ℕ). a * t) (pow-suc 2 k))

-- `(a << k) | d` adds, for every width.
pub bit_or_pack : (k a d : ℕ) → d < 2 ^ k → bit_or (a * 2 ^ k) d ≡ a * 2 ^ k + d
bit_or_pack zero a d h =
    let e : d ≡ 0 = omega arith in
    rw e (omega (arith, bit_or-zero_rounds (a * 2 ^ 0) (a * 2 ^ 0) (omega arith)))
bit_or_pack (suc k) a d h = rw (mul-pow-suc a k) (
    omega
      (arith, double-bit_or (a * 2 ^ k) d, bit_or_pack k a (d / 2) (omega (arith, pow-suc 2 k))))

-- `d | (a << k)`, the other way round.
pub bit_or_unpack : (k a d : ℕ) → d < 2 ^ k → bit_or d (a * 2 ^ k) ≡ a * 2 ^ k + d
bit_or_unpack zero a d h =
    let e : d ≡ 0 = omega arith in rw e (omega (arith, zero-bit_or (a * 2 ^ 0)))
bit_or_unpack (suc k) a d h = rw (mul-pow-suc a k) (
    omega
      (arith, bit_or-double (a * 2 ^ k) d, bit_or_unpack k a (d / 2) (omega (arith, pow-suc 2 k))))
