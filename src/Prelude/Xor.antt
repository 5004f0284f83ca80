-- ===== src/Prelude/Xor.antt =====
-- Laws of `^`: it is injective in each argument, and stays within a width.
use Prim.Native.Nat.{
  ℕ, zero, suc, ◌+◌, ◌*◌, ◌/◌, ◌%◌, ◌^◌, ◌≤◌, ◌<◌, bit_xor, digits, bit_xor-bitwise, differ,
}
use mathlib.Core.Path.{◌≡◌, refl}
use mathlib.Core.Logic.{◌≢◌}
use native.Mathlib.Omega.{arith}
use native.Mathlib.Nat.{pow-suc}

abbrev xor_rounds : ℕ → ℕ → ℕ → ℕ
xor_rounds n a b = digits (λ b. b) differ n a b

xor_rounds_enough : (n m a b : ℕ) → a ≤ n → a ≤ m → xor_rounds n a b ≡ xor_rounds m a b
xor_rounds_enough zero zero a b p q = refl
xor_rounds_enough zero (suc m) zero b p q = refl
xor_rounds_enough zero (suc m) (suc a) b p q = absurd (omega arith)
xor_rounds_enough (suc n) zero zero b p q = refl
xor_rounds_enough (suc n) zero (suc a) b p q = absurd (omega arith)
xor_rounds_enough (suc n) (suc m) zero b p q = refl
xor_rounds_enough (suc n) (suc m) (suc a) b p q =
    rw (xor_rounds_enough n m (suc a / 2) (b / 2) (omega arith) (omega arith))

differ-add : (a b : ℕ) → a < 2 → b < 2 → differ a b ≡ (a + b) % 2
differ-add zero b p q = omega arith
differ-add (suc zero) zero p q = refl
differ-add (suc zero) (suc zero) p q = refl
differ-add (suc zero) (suc (suc b)) p q = absurd (omega arith)
differ-add (suc (suc a)) b p q = absurd (omega arith)

zero-bit_xor : (b : ℕ) → bit_xor 0 b ≡ b
zero-bit_xor b = bit_xor-bitwise 0 b

xor_lowest : (a b : ℕ) → bit_xor a b ≡ bit_xor (a / 2) (b / 2) * 2 + differ (a % 2) (b % 2)
xor_lowest zero b = omega (arith, zero-bit_xor b, zero-bit_xor (b / 2))
xor_lowest (suc a) b = omega (
  arith,
  bit_xor-bitwise (suc a) b,
  bit_xor-bitwise (suc a / 2) (b / 2),
  xor_rounds_enough a (suc a / 2) (suc a / 2) (b / 2) (omega arith) (omega arith),
)

bit_xor_halves : (a b : ℕ) → bit_xor a b ≡ bit_xor (a / 2) (b / 2) * 2 + (a + b) % 2
bit_xor_halves a b =
    omega (arith, xor_lowest a b, differ-add (a % 2) (b % 2) (omega arith) (omega arith))

pub bit_xor-lt : (k a b : ℕ) → a < 2 ^ k → b < 2 ^ k → bit_xor a b < 2 ^ k
bit_xor-lt zero a b p q = let e : a ≡ 0 = omega arith in rw e (omega (arith, zero-bit_xor b))
bit_xor-lt (suc k) a b p q = omega (
  arith,
  bit_xor_halves a b,
  pow-suc 2 k,
  bit_xor-lt k (a / 2) (b / 2) (omega (arith, pow-suc 2 k)) (omega (arith, pow-suc 2 k)),
)

pub bit_xor-injective_right :
    (k a b c : ℕ) → b < 2 ^ k → c < 2 ^ k → bit_xor a b ≡ bit_xor a c → b ≡ c
bit_xor-injective_right zero a b c p q e = omega arith
bit_xor-injective_right (suc k) a b c p q e =
    let halves : bit_xor (a / 2) (b / 2) ≡ bit_xor (a / 2) (c / 2) =
      omega (arith, bit_xor_halves a b, bit_xor_halves a c) in
    omega (
      arith,
      bit_xor_halves a b,
      bit_xor_halves a c,
      bit_xor-injective_right k (a / 2) (b / 2) (c / 2) (omega (arith, pow-suc 2 k))
          (omega (arith, pow-suc 2 k)) halves,
    )

pub bit_xor-injective_left :
    (k a b c : ℕ) → a < 2 ^ k → b < 2 ^ k → bit_xor a c ≡ bit_xor b c → a ≡ b
bit_xor-injective_left zero a b c p q e = omega arith
bit_xor-injective_left (suc k) a b c p q e =
    let halves : bit_xor (a / 2) (c / 2) ≡ bit_xor (b / 2) (c / 2) =
      omega (arith, bit_xor_halves a c, bit_xor_halves b c) in
    omega (
      arith,
      bit_xor_halves a c,
      bit_xor_halves b c,
      bit_xor-injective_left k (a / 2) (b / 2) (c / 2) (omega (arith, pow-suc 2 k))
          (omega (arith, pow-suc 2 k)) halves,
    )

-- An odd operand changes the lowest bit.
pub bit_xor-odd : (a b : ℕ) → b % 2 ≡ 1 → bit_xor a b ≢ a
bit_xor-odd a b odd e = absurd (omega (arith, bit_xor_halves a b))
