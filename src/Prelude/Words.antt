-- ===== src/Prelude/Words.antt =====
-- Machine words as native numbers, each operation with its wrap-around written out.
use Prim.Native.Nat.{ℕ, ◌%◌, ◌^◌}

abbrev pub u8 : ℕ → ℕ
u8 x = x % 2 ^ 8

abbrev pub u16 : ℕ → ℕ
u16 x = x % 2 ^ 16

abbrev pub u32 : ℕ → ℕ
u32 x = x % 2 ^ 32

abbrev pub u64 : ℕ → ℕ
u64 x = x % 2 ^ 64
