-- ===== src/Prelude/Floats.antt =====
-- The `float` arithmetic that the program uses, as an interface: antt has no floats. What a theorem
-- needs of the operations it takes as hypotheses on this record.
use Prim.Native.Nat.{ℕ}
use mathlib.Core.Bool.{Bool}

-- `lit m e` is the literal m / 10^e, `of_nat` is static_cast<float> of an unsigned integer.
pub record FloatOps (F : Type 0) : Type 0 where
  pub lit : ℕ → ℕ → F
  pub of_nat : ℕ → F
  pub add : F → F → F
  pub sub : F → F → F
  pub mul : F → F → F
  pub div : F → F → F
  pub sqrt : F → F
  pub fabs : F → F
  pub lt : F → F → Bool
  pub le : F → F → Bool
  pub eq : F → F → Bool
