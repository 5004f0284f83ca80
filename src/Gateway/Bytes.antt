-- ===== src/Gateway/Bytes.antt =====
-- The bytes of an encoded frame: where each field and the checksum stand in it.
use savantix_dali_edge_contr.Prelude.{
  ℕ, zero, suc, ◌+◌, ◌*◌, ◌/◌, ◌^◌, ◌<◌, ◌≤◌, ◌≡◌, refl, ap, List, [], ◌∷◌, ◌++◌, arith, length,
  get_or, take, length-append, length-take, bit_and, bit_or, bit_or_unpack, low_byte, u8, u16,
}
use savantix_dali_edge_contr.Gateway.{
  Frame, maximum_payload, crc_bit, crc_bits, crc_from, crc16, body, trailer, wire, byte_at,
}

pub crc_bit-lt : (crc : ℕ) → crc_bit crc < 2 ^ 16
unfolding crc_bit
crc_bit-lt crc = ground arith

pub crc_bits-lt : (n crc : ℕ) → crc < 2 ^ 16 → crc_bits n crc < 2 ^ 16
crc_bits-lt zero crc h = h
crc_bits-lt (suc n) crc h = crc_bits-lt n (crc_bit crc) (crc_bit-lt crc)

pub crc_from-lt : (bytes : List ℕ) (crc : ℕ) → crc < 2 ^ 16 → crc_from crc bytes < 2 ^ 16
crc_from-lt [] crc h = h
crc_from-lt (byte ∷ bytes) crc h = crc_from-lt bytes _ (crc_bits-lt 8 _ (omega arith))

pub crc16-lt : (bytes : List ℕ) → crc16 bytes < 2 ^ 16
unfolding crc16
crc16-lt bytes = crc_from-lt bytes 0xffff (omega arith)

module _ {ℓ} {A : Type ℓ} where
  pub take-append : (xs ys : List A) (n : ℕ) → n ≡ length xs → take n (xs ++ ys) ≡ xs
  take-append [] ys n e = rw e refl
  take-append (x ∷ xs) ys zero e = absurd (omega arith)
  take-append (x ∷ xs) ys (suc n) e = ap (λ t. x ∷ t) (take-append xs ys n (omega arith))

  pub get_or-append_right :
      (xs ys : List A) (n i : ℕ) (d : A) → n ≡ length xs + i → get_or (xs ++ ys) n d ≡ get_or ys i d
  get_or-append_right [] ys n i d e = let same : n ≡ i = omega arith in rw same refl
  get_or-append_right (x ∷ xs) ys zero i d e = absurd (omega arith)
  get_or-append_right (x ∷ xs) ys (suc n) i d e = get_or-append_right xs ys n i d (omega arith)

-- A word sent low byte first is read back.
pub word_split :
    (w : ℕ) → w < 2 ^ 16 → u16 (bit_or (u8 (bit_and w 0xff)) (u8 (w / 2 ^ 8) * 2 ^ 8)) ≡ w
word_split w h =
    omega (arith, low_byte w, bit_or_unpack 8 (u8 (w / 2 ^ 8)) (u8 (bit_and w 0xff)) (omega arith))

module _ (frame : Frame) where
  pub length-body :
      length frame.payload ≡ maximum_payload
      → frame.payload_length ≤ maximum_payload
      → length (body frame) ≡ 6 + frame.payload_length
  length-body full fits = omega (arith, length-take frame.payload_length frame.payload)

  pub length-wire :
      length frame.payload ≡ maximum_payload
      → frame.payload_length ≤ maximum_payload
      → length (wire frame) ≡ 10 + frame.payload_length
  length-wire full fits =
      omega
        (arith, length-append (body frame) (trailer (crc16 (body frame))), length-body full fits)

  -- What stands `i` bytes after the body.
  pub wire-trailer :
      (n i : ℕ)
      → length (body frame) ≡ 6 + frame.payload_length
      → n ≡ 7 + frame.payload_length + i
      → byte_at (wire frame) n ≡ byte_at (trailer (crc16 (body frame))) i
  wire-trailer zero i sized e = absurd (omega arith)
  wire-trailer (suc n) i sized e =
      get_or-append_right (body frame) (trailer (crc16 (body frame))) n i 0 (omega arith)
