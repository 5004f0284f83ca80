-- ===== src/Gateway/Canonical.antt =====
-- decode accepts only what encode writes.
use savantix_dali_edge_contr.Prelude.{
  ℕ, suc, ◌+◌, ◌-◌, ◌≡◌, refl, ap, ap₂, sym, ◌∙◌, false, List, [], ◌∷◌, ◌++◌, some, arith, ltb,
  length, length-take, take, drop, All,
}
use savantix_dali_edge_contr.Gateway.{
  Frame, maximum_payload, maximum_encoded_size, start_byte, end_byte, crc16, copy_into, body,
  trailer, wire, encode, byte_at, word_at, decode_bytes,
}
use savantix_dali_edge_contr.Gateway.Bytes.{take-append}
use savantix_dali_edge_contr.Gateway.Acceptance.{
  IsByte, word_join, message_join, seven, last_three, byte_at-All, bad_ends, bad_length,
  bad_checksum, read_frame, decode_tests, three_tests, good_ends, good_length, good_checksum,
}

module _ (bytes : List ℕ) (old : Frame) where
  abbrev count : ℕ
  count = word_at bytes 5

  abbrev rest : List ℕ
  rest = drop 7 bytes

  -- The bytes 1 to 6 and the payload.
  abbrev middle : List ℕ
  middle =
      byte_at bytes 1
      ∷ byte_at bytes 2
      ∷ byte_at bytes 3
      ∷ byte_at bytes 4
      ∷ byte_at bytes 5
      ∷ byte_at bytes 6
      ∷ take count rest

  module _ (h : All IsByte bytes) (sized : length bytes ≡ count + 10) where
    whole :
        bytes
        ≡ byte_at bytes 0
          ∷ byte_at bytes 1
          ∷ byte_at bytes 2
          ∷ byte_at bytes 3
          ∷ byte_at bytes 4
          ∷ byte_at bytes 5
          ∷ byte_at bytes 6
          ∷ rest
    whole = seven bytes (omega (arith, sized))

    length-rest : length rest ≡ count + 3
    length-rest = omega (arith, sized, ap length whole)

    byte_behind : (i : ℕ) → byte_at bytes (7 + i) ≡ byte_at rest i
    byte_behind i =
        let k : 7 + i ≡ suc (suc (suc (suc (suc (suc (suc i)))))) = omega arith in
        ap (λ xs. byte_at xs (7 + i)) whole ∙ rw k refl

    middle-read : take (6 + count) (drop 1 bytes) ≡ middle
    middle-read =
        let k : 6 + count ≡ suc (suc (suc (suc (suc (suc count))))) = omega arith in
        ap (λ xs. take (6 + count) (drop 1 xs)) whole
        ∙ ap
            (λ (m : ℕ). take m (
              byte_at bytes 1
              ∷ byte_at bytes 2
              ∷ byte_at bytes 3
              ∷ byte_at bytes 4
              ∷ byte_at bytes 5
              ∷ byte_at bytes 6
              ∷ rest))
            k

    payload-read : take count (copy_into (take count rest) old.payload) ≡ take count rest
    payload-read =
        take-append (take count rest) _ count (omega (arith, length-take count rest, length-rest))

    is_byte : (i : ℕ) → IsByte (byte_at bytes i)
    is_byte i = byte_at-All bytes i h

    body-read : body (read_frame bytes old) ≡ middle
    body-read =
        let sequence = word_join (byte_at bytes 3) (byte_at bytes 4) (is_byte 3) (is_byte 4) in
        let size = word_join (byte_at bytes 5) (byte_at bytes 6) (is_byte 5) (is_byte 6) in
        ap (λ t. byte_at bytes 1 ∷ t)
          (ap₂ ◌∷◌ (message_join (byte_at bytes 2) (is_byte 2)) (
            ap₂ ◌∷◌ sequence.0 (ap₂ ◌∷◌ sequence.1 (ap₂ ◌∷◌ size.0 (ap₂ ◌∷◌ size.1 payload-read)))))

    end-read : byte_at bytes (length bytes - 1) ≡ byte_at rest (count + 2)
    end-read =
        let at : length bytes - 1 ≡ 7 + (count + 2) = omega (arith, sized) in
        ap (byte_at bytes) at ∙ byte_behind (count + 2)

    trailer-read :
        byte_at bytes (length bytes - 1) ≡ end_byte
        → trailer (word_at bytes (7 + count))
          ≡ byte_at rest count ∷ byte_at rest (count + 1) ∷ byte_at rest (count + 2) ∷ []
    trailer-read last =
        let sum =
          word_join (byte_at bytes (7 + count)) (byte_at bytes (7 + count + 1)) (is_byte _)
            (is_byte _) in
        let next : 7 + count + 1 ≡ 7 + (count + 1) = omega arith in
        ap₂ ◌∷◌ (sum.0 ∙ byte_behind count) (
          ap₂ ◌∷◌ (sum.1 ∙ (ap (byte_at bytes) next ∙ byte_behind (count + 1)))
            (ap (λ (b : ℕ). b ∷ []) (sym last ∙ end-read)))

    wire-read :
        byte_at bytes 0 ≡ start_byte
        → byte_at bytes (length bytes - 1) ≡ end_byte
        → word_at bytes (7 + count) ≡ crc16 (take (6 + count) (drop 1 bytes))
        → wire (read_frame bytes old) ≡ bytes
    wire-read first last checked =
        let sum : crc16 (body (read_frame bytes old)) ≡ word_at bytes (7 + count) =
          ap crc16 (body-read ∙ sym middle-read) ∙ sym checked in
        let tail = ap trailer sum ∙ trailer-read last in
        ap₂ ◌∷◌ (sym first) (
          ap₂ (λ (xs ys : List ℕ). xs ++ ys) body-read tail
          ∙ ap
              (λ t.
                byte_at bytes 1
                ∷ byte_at bytes 2
                ∷ byte_at bytes 3
                ∷ byte_at bytes 4
                ∷ byte_at bytes 5
                ∷ byte_at bytes 6
                ∷ t)
              (sym (last_three count rest length-rest)))
        ∙ sym whole

  pub accepted-wire :
      (frame : Frame) → All IsByte bytes → decode_bytes bytes old ≡ some frame → wire frame ≡ bytes
  accepted-wire frame h e =
      let (ends, lengths, sums, same) =
        three_tests (bad_ends bytes) (bad_length bytes) (bad_checksum bytes)
          (sym (decode_tests bytes old) ∙ e) in
      let (first, last) = good_ends bytes ends in
      let (fits, sized) = good_length bytes lengths in
      ap wire (sym same) ∙ wire-read h sized first last (good_checksum bytes sums)

  -- Bytes that decode accepts are exactly those that encode writes for the frame that it returns.
  pub encode-decode :
      (frame : Frame) (output : List ℕ)
      → All IsByte bytes
      → decode_bytes bytes old ≡ some frame
      → (written : List ℕ) × (encode frame output ≡ some (written, length bytes))
        × (take (length bytes) written ≡ bytes)
  unfolding encode
  encode-decode frame output h e =
      let (ends, lengths, sums, same) =
        three_tests (bad_ends bytes) (bad_length bytes) (bad_checksum bytes)
          (sym (decode_tests bytes old) ∙ e) in
      let (first, last) = good_ends bytes ends in
      let (fits, sized) = good_length bytes lengths in
      let read = wire-read h sized first last (good_checksum bytes sums) in
      let small : ltb maximum_payload count ≡ false = ground (arith, fits) in
      let room : ltb maximum_encoded_size (10 + count) ≡ false = ground (arith, fits) in
      let size : 7 + count + 3 ≡ length bytes = omega (arith, sized) in
      (
        copy_into bytes output,
        ap (λ f. encode f output) (sym same)
            ∙ rw (encode, small, room)
                (ap₂ (λ (xs : List ℕ) (n : ℕ). some (copy_into xs output, n)) read size),
        take-append bytes _ (length bytes) refl,
      )
