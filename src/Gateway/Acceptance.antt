-- ===== src/Gateway/Acceptance.antt =====
-- The tests that decode makes, and the parts of the bytes that it reads.
use savantix_dali_edge_contr.Prelude.{
  ℕ, zero, suc, ◌+◌, ◌-◌, ◌*◌, ◌/◌, ◌^◌, ◌<◌, ◌≤◌, ◌≡◌, refl, ap, Bool, true, false, not, ◌||◌,
  List, [], ◌∷◌, ◌++◌, none, some, arith, ltb, ◌==◌, ==_iff, if◌then◌else◌, length, take, drop,
  bit_or, bit_and, bit_or_unpack, low_byte, u8, u16, All, all_below, all_below-at,
}
use savantix_dali_edge_contr.Gateway.{
  message_code, message_of, Frame, maximum_payload, start_byte, end_byte, crc16, copy_into, byte_at,
  word_at, decode_bytes,
}

abbrev pub IsByte : ℕ → Type 0
IsByte b = b < 256

-- The two bytes of a word that was read from them.
pub word_join :
    (b c : ℕ)
    → IsByte b
    → IsByte c
    → let w = u16 (bit_or b (c * 2 ^ 8)) in (u8 (bit_and w 0xff) ≡ b) × (u8 (w / 2 ^ 8) ≡ c)
word_join b c hb hc =
    let w = u16 (bit_or b (c * 2 ^ 8)) in
    let sum : w ≡ c * 2 ^ 8 + b = omega (arith, bit_or_unpack 8 c b (omega arith)) in
    (omega (arith, sum, low_byte w), omega (arith, sum))

message_table : all_below 256 (λ x. message_code (message_of x) == x) ≡ true
unfolding all_below
message_table = refl

pub message_join : (b : ℕ) → IsByte b → u8 (message_code (message_of b)) ≡ b
message_join b h =
    let same : message_code (message_of b) ≡ b =
      (==_iff _ b).0 (all_below-at 256 _ b message_table h) in
    omega (arith, same)

pub seven :
    (xs : List ℕ)
    → 7 ≤ length xs
    → xs
      ≡ byte_at xs 0
        ∷ byte_at xs 1
        ∷ byte_at xs 2
        ∷ byte_at xs 3
        ∷ byte_at xs 4
        ∷ byte_at xs 5
        ∷ byte_at xs 6
        ∷ drop 7 xs
seven [] h = absurd (omega arith)
seven (_ ∷ []) h = absurd (omega arith)
seven (_ ∷ _ ∷ []) h = absurd (omega arith)
seven (_ ∷ _ ∷ _ ∷ []) h = absurd (omega arith)
seven (_ ∷ _ ∷ _ ∷ _ ∷ []) h = absurd (omega arith)
seven (_ ∷ _ ∷ _ ∷ _ ∷ _ ∷ []) h = absurd (omega arith)
seven (_ ∷ _ ∷ _ ∷ _ ∷ _ ∷ _ ∷ []) h = absurd (omega arith)
seven (_ ∷ _ ∷ _ ∷ _ ∷ _ ∷ _ ∷ _ ∷ xs) h = refl

pub last_three :
    (n : ℕ) (xs : List ℕ)
    → length xs ≡ n + 3
    → xs ≡ take n xs ++ byte_at xs n ∷ byte_at xs (n + 1) ∷ byte_at xs (n + 2) ∷ []
last_three zero [] h = absurd (omega arith)
last_three zero (_ ∷ []) h = absurd (omega arith)
last_three zero (_ ∷ _ ∷ []) h = absurd (omega arith)
last_three zero (_ ∷ _ ∷ _ ∷ []) h = refl
last_three zero (_ ∷ _ ∷ _ ∷ _ ∷ _) h = absurd (omega arith)
last_three (suc n) [] h = absurd (omega arith)
last_three (suc n) (x ∷ xs) h =
    let one : suc n + 1 ≡ suc (n + 1) = omega arith in
    let two : suc n + 2 ≡ suc (n + 2) = omega arith in
    rw (one, two) (ap (λ t. x ∷ t) (last_three n xs (omega arith)))

pub byte_at-All : (xs : List ℕ) (i : ℕ) → All IsByte xs → IsByte (byte_at xs i)
byte_at-All [] i h = omega arith
byte_at-All (x ∷ xs) zero h = h.0
byte_at-All (x ∷ xs) (suc i) h = byte_at-All xs i h.1

not-false : (b : Bool) → not b ≡ false → b ≡ true
not-false true h = refl
not-false false h = cc h

abbrev pub bad_ends : List ℕ → Bool
bad_ends bytes =
    ltb (length bytes) 10
    || (not (byte_at bytes 0 == start_byte) || not (byte_at bytes (length bytes - 1) == end_byte))

abbrev pub bad_length : List ℕ → Bool
bad_length bytes =
    ltb maximum_payload (word_at bytes 5) || not (length bytes == word_at bytes 5 + 10)

abbrev pub bad_checksum : List ℕ → Bool
bad_checksum bytes =
    not (word_at bytes (7 + word_at bytes 5) == crc16 (take (6 + word_at bytes 5) (drop 1 bytes)))

-- The frame that decode reads from bytes that pass the tests.
abbrev pub read_frame : List ℕ → Frame → Frame
read_frame bytes old = record {
  version = byte_at bytes 1;
  kind = message_of (byte_at bytes 2);
  sequence = word_at bytes 3;
  payload = copy_into (take (word_at bytes 5) (drop 7 bytes)) old.payload;
  payload_length = word_at bytes 5;
}

pub decode_tests :
    (bytes : List ℕ) (old : Frame)
    → decode_bytes bytes old ≡ (
        if bad_ends bytes
        then none
        else if bad_length bytes
        then none
        else if bad_checksum bytes
        then none
        else some (read_frame bytes old))
unfolding decode_bytes
decode_tests bytes old = refl

pub three_tests :
    (a b c : Bool) {x y : Frame}
    → (if a then none else if b then none else if c then none else some x) ≡ some y
    → (a ≡ false) × (b ≡ false) × (c ≡ false) × (x ≡ y)
three_tests true b c e = cc e
three_tests false true c e = cc e
three_tests false false true e = cc e
three_tests false false false e = (refl, refl, refl, cc e)

pub good_ends :
    (bytes : List ℕ)
    → bad_ends bytes ≡ false
    → (byte_at bytes 0 ≡ start_byte) × (byte_at bytes (length bytes - 1) ≡ end_byte)
good_ends bytes h = ground arith

pub good_length :
    (bytes : List ℕ)
    → bad_length bytes ≡ false
    → (word_at bytes 5 ≤ maximum_payload) × (length bytes ≡ word_at bytes 5 + 10)
good_length bytes h = ground arith

pub good_checksum :
    (bytes : List ℕ)
    → bad_checksum bytes ≡ false
    → word_at bytes (7 + word_at bytes 5) ≡ crc16 (take (6 + word_at bytes 5) (drop 1 bytes))
good_checksum bytes h = (==_iff _ _).0 (not-false _ h)
