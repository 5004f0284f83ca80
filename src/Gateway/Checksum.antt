-- ===== src/Gateway/Checksum.antt =====
-- The checksum of frames, crc16 of components/c6_interface/c6_interface.cpp, and changed bytes.
use savantix_dali_edge_contr.Prelude.{
  ℕ, zero, suc, ◌+◌, ◌*◌, ◌^◌, ◌<◌, ◌≡◌, ◌≢◌, refl, sym, ap, ◌∙◌, true, List, [], ◌∷◌, arith, leb,
  ◌==◌, ==_iff, if◌then◌else◌, length, get_or, set, bit_xor, bit_xor-lt, bit_xor-injective_left,
  bit_xor-injective_right, u16, All, all_below, all_below-at,
}
use savantix_dali_edge_contr.Gateway.{crc_bit, crc_bits, crc_from, crc16}
use savantix_dali_edge_contr.Gateway.Bytes.{crc_bit-lt, crc_bits-lt}

-- A round of the inner loop can be taken back: the polynomial has the top bit set, so that bit tells
-- whether it was added.
crc_bit_back : ℕ → ℕ
crc_bit_back crc = if leb 0x8000 crc then bit_xor crc 0xa001 * 2 + 1 else crc * 2

back_table : all_below 65536 (λ x. crc_bit_back (crc_bit x) == x) ≡ true
unfolding all_below crc_bit crc_bit_back
back_table = refl

crc_bit-injective : (a b : ℕ) → a < 2 ^ 16 → b < 2 ^ 16 → crc_bit a ≡ crc_bit b → a ≡ b
crc_bit-injective a b p q e =
    let back = λ (x : ℕ) (h : x < 65536). (==_iff _ x).0 (all_below-at 65536 _ x back_table h) in
    sym (back a (omega arith)) ∙ ap crc_bit_back e ∙ back b (omega arith)

crc_bits-injective : (n a b : ℕ) → a < 2 ^ 16 → b < 2 ^ 16 → crc_bits n a ≡ crc_bits n b → a ≡ b
crc_bits-injective zero a b p q e = e
crc_bits-injective (suc n) a b p q e =
    crc_bit-injective a b p q
      (crc_bits-injective n (crc_bit a) (crc_bit b) (crc_bit-lt a) (crc_bit-lt b) e)

-- What the state is after one byte.
abbrev mixed : ℕ → ℕ → ℕ
mixed crc byte = u16 (bit_xor crc byte)

mixed-eq : (crc byte : ℕ) → crc < 2 ^ 16 → byte < 256 → mixed crc byte ≡ bit_xor crc byte
mixed-eq crc byte p q = omega (arith, bit_xor-lt 16 crc byte p (omega arith))

mixed-lt : (crc byte : ℕ) → mixed crc byte < 2 ^ 16
mixed-lt crc byte = omega arith

crc_from-injective :
    (bytes : List ℕ) (a b : ℕ)
    → All (λ byte. byte < 256) bytes
    → a < 2 ^ 16
    → b < 2 ^ 16
    → crc_from a bytes ≡ crc_from b bytes
    → a ≡ b
crc_from-injective [] a b h p q e = e
crc_from-injective (byte ∷ bytes) a b h p q e =
    let after =
      crc_from-injective bytes _ _ h.1 (crc_bits-lt 8 _ (mixed-lt a byte))
        (crc_bits-lt 8 _ (mixed-lt b byte)) e in
    let before = crc_bits-injective 8 _ _ (mixed-lt a byte) (mixed-lt b byte) after in
    bit_xor-injective_left 16 a b byte p q
      (sym (mixed-eq a byte p h.0) ∙ before ∙ mixed-eq b byte q h.0)

crc_from-set :
    (bytes : List ℕ) (crc i v : ℕ)
    → All (λ byte. byte < 256) bytes
    → crc < 2 ^ 16
    → v < 256
    → i < length bytes
    → crc_from crc bytes ≡ crc_from crc (set bytes i v)
    → get_or bytes i 0 ≡ v
crc_from-set [] crc i v h p q inside e = absurd (omega arith)
crc_from-set (byte ∷ bytes) crc zero v h p q inside e =
    let after =
      crc_from-injective bytes _ _ h.1 (crc_bits-lt 8 _ (mixed-lt crc byte))
        (crc_bits-lt 8 _ (mixed-lt crc v)) e in
    let before = crc_bits-injective 8 _ _ (mixed-lt crc byte) (mixed-lt crc v) after in
    bit_xor-injective_right 16 crc byte v (omega (arith, h.0)) (omega arith)
      (sym (mixed-eq crc byte p h.0) ∙ before ∙ mixed-eq crc v p q)
crc_from-set (byte ∷ bytes) crc (suc i) v h p q inside e =
    crc_from-set bytes _ i v h.1 (crc_bits-lt 8 _ (mixed-lt crc byte)) q (omega arith) e

-- Writing another byte into bytes changes their checksum.
pub crc16-set :
    (bytes : List ℕ) (i v : ℕ)
    → All (λ byte. byte < 256) bytes
    → v < 256
    → i < length bytes
    → v ≢ get_or bytes i 0
    → crc16 bytes ≢ crc16 (set bytes i v)
unfolding crc16
crc16-set bytes i v h q inside other e =
    other (sym (crc_from-set bytes 0xffff i v h (omega arith) q inside e))
