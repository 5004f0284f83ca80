-- ===== src/Gateway/RoundTrip.antt =====
-- What decode makes of what encode wrote.
use savantix_dali_edge_contr.Prelude.{
  ℕ, ◌+◌, ◌-◌, ◌^◌, ◌<◌, ◌≤◌, ◌≡◌, refl, ◌∙◌, true, false, List, some, arith, ltb, ◌==◌, ==_iff,
  length, take, drop, u8,
}
use savantix_dali_edge_contr.Gateway.{
  message_code, message_of, Frame, maximum_payload, maximum_encoded_size, start_byte, end_byte,
  crc16, copy_into, body, trailer, wire, encode, byte_at, word_at, decode_bytes,
}
use savantix_dali_edge_contr.Gateway.Bytes.{
  crc16-lt, take-append, word_split, length-body, length-wire, wire-trailer,
}

-- The frames that the program can hold: an array of 240 bytes, of which at most all are used, a byte for
-- the version, a message type that a byte names, 16 bits of sequence.
pub record IsFrame (frame : Frame) : Type 0 where
  pub sized : length frame.payload ≡ maximum_payload
  pub fits : frame.payload_length ≤ maximum_payload
  pub named : message_of (message_code frame.kind) ≡ frame.kind
  pub code : message_code frame.kind < 2 ^ 8
  pub word : frame.sequence < 2 ^ 16

-- What a receiver's frame becomes: the bytes past the payload stay as they were.
abbrev pub received : Frame → Frame → Frame
received frame old = record frame {
  payload = copy_into (take frame.payload_length frame.payload) old.payload;
}

small_byte : {n : ℕ} → n < 2 ^ 8 → u8 n ≡ n
small_byte h = omega arith

decode_accepts :
    (bytes : List ℕ) (old : Frame) (n : ℕ)
    → word_at bytes 5 ≡ n
    → ltb (length bytes) 10 ≡ false
    → byte_at bytes 0 ≡ start_byte
    → byte_at bytes (length bytes - 1) ≡ end_byte
    → ltb maximum_payload n ≡ false
    → (length bytes == n + 10) ≡ true
    → word_at bytes (7 + n) ≡ crc16 (take (6 + n) (drop 1 bytes))
    → decode_bytes bytes old
      ≡ some (record {
        version = byte_at bytes 1;
        kind = message_of (byte_at bytes 2);
        sequence = word_at bytes 3;
        payload = copy_into (take n (drop 7 bytes)) old.payload;
        payload_length = n;
      })
unfolding decode_bytes
decode_accepts bytes old n field long first last fits exact checksum =
    let same : (word_at bytes (7 + n) == crc16 (take (6 + n) (drop 1 bytes))) ≡ true =
      (==_iff _ _).1 checksum in
    rw (decode_bytes, field, long, first, last, fits, exact, same) refl

module _ (frame : Frame) (valid : IsFrame frame) where
  sized_body : length (body frame) ≡ 6 + frame.payload_length
  sized_body = length-body frame valid.sized valid.fits

  wire-crc : word_at (wire frame) (7 + frame.payload_length) ≡ crc16 (body frame)
  wire-crc =
      let low = wire-trailer frame (7 + frame.payload_length) 0 sized_body (omega arith) in
      let high = wire-trailer frame (7 + frame.payload_length + 1) 1 sized_body (omega arith) in
      rw (low, high) (word_split (crc16 (body frame)) (crc16-lt (body frame)))

  wire-end : byte_at (wire frame) (length (wire frame) - 1) ≡ end_byte
  wire-end =
      wire-trailer frame (length (wire frame) - 1) 2 sized_body
        (omega (arith, length-wire frame valid.sized valid.fits))

  wire-body : take (6 + frame.payload_length) (drop 1 (wire frame)) ≡ body frame
  wire-body = take-append (body frame) (trailer (crc16 (body frame))) _ (omega (arith, sized_body))

  wire-payload :
      take frame.payload_length (drop 7 (wire frame)) ≡ take frame.payload_length frame.payload
  wire-payload =
      take-append (take frame.payload_length frame.payload) (trailer (crc16 (body frame))) _
        (omega (arith, sized_body))

  wire-length_word : word_at (wire frame) 5 ≡ frame.payload_length
  wire-length_word = word_split frame.payload_length (omega (arith, valid.fits))

  pub decode_wire : (old : Frame) → decode_bytes (wire frame) old ≡ some (received frame old)
  decode_wire old =
      let accepted =
        decode_accepts (wire frame) old frame.payload_length wire-length_word
          (ground (arith, length-wire frame valid.sized valid.fits)) refl wire-end
          (ground (arith, valid.fits)) (ground (arith, length-wire frame valid.sized valid.fits))
          (rw wire-body wire-crc) in
      let kind : message_of (u8 (message_code frame.kind)) ≡ frame.kind =
        rw (small_byte valid.code) valid.named in
      let sequence : word_at (wire frame) 3 ≡ frame.sequence =
        word_split frame.sequence valid.word in
      accepted ∙ rw (kind, sequence, wire-payload) refl

  pub encode-wire :
      (output : List ℕ)
      → encode frame output ≡ some (copy_into (wire frame) output, 7 + frame.payload_length + 3)
  unfolding encode
  encode-wire output =
      let a : ltb maximum_payload frame.payload_length ≡ false = ground (arith, valid.fits) in
      let b : ltb maximum_encoded_size (10 + frame.payload_length) ≡ false =
        ground (arith, valid.fits) in
      rw (a, b, encode) refl

  pub taken_wire :
      (output : List ℕ)
      → take (7 + frame.payload_length + 3) (copy_into (wire frame) output) ≡ wire frame
  taken_wire output =
      take-append (wire frame) _ _ (omega (arith, length-wire frame valid.sized valid.fits))

  -- Every frame that the program can hold can be encoded, and decoding the bytes that encode says it wrote gives the frame back, with
  -- the receiver's own bytes past the payload.
  pub decode-encode :
      (output : List ℕ) (old : Frame)
      → (bytes : List ℕ) × (n : ℕ) × (encode frame output ≡ some (bytes, n))
        × (n ≡ 10 + frame.payload_length)
        × (decode_bytes (take n bytes) old ≡ some (received frame old))
  decode-encode output old =
      let n = 7 + frame.payload_length + 3 in
      (
        copy_into (wire frame) output,
        n,
        encode-wire output,
        omega arith,
        rw (taken_wire output) (decode_wire old),
      )
