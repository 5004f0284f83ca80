-- ===== src/Gateway.antt =====
-- components/c6_interface/include/dali/c6/c6_interface.h and c6_interface.cpp: the frames exchanged
-- with the gateway, the mock transport and the session.
use savantix_dali_edge_contr.Prelude.{
  ℕ, zero, suc, ◌+◌, ◌-◌, ◌*◌, ◌/◌, ◌^◌, Bool, true, false, not, ◌||◌, List, [], ◌∷◌, ◌++◌, Option,
  none, some, ltb, ◌==◌, if◌then◌else◌, length, get_or, take, drop, replicate, bit_and, bit_or,
  bit_xor, u8, u16, u32,
}
pub mod Bytes
pub mod RoundTrip
pub mod Delivery
pub mod Acceptance
pub mod Canonical
pub mod Checksum
pub mod Detection

-- `unnamed` stands for the values that a cast from a byte gives beside the enumerators.
pub data MessageType : Type 0 where
  light_event light_status_response light_summary dali_bus_event : MessageType
  device_discovery_event command_ack command_nack heartbeat : MessageType
  unnamed : ℕ → MessageType

abbrev pub message_code : MessageType → ℕ
message_code MessageType.light_event = 1
message_code MessageType.light_status_response = 2
message_code MessageType.light_summary = 3
message_code MessageType.dali_bus_event = 4
message_code MessageType.device_discovery_event = 5
message_code MessageType.command_ack = 6
message_code MessageType.command_nack = 7
message_code MessageType.heartbeat = 8
message_code (MessageType.unnamed code) = code

-- `static_cast<MessageType>`
abbrev pub message_of : ℕ → MessageType
message_of code =
    if code == 1
    then MessageType.light_event
    else if code == 2
    then MessageType.light_status_response
    else if code == 3
    then MessageType.light_summary
    else if code == 4
    then MessageType.dali_bus_event
    else if code == 5
    then MessageType.device_discovery_event
    else if code == 6
    then MessageType.command_ack
    else if code == 7
    then MessageType.command_nack
    else if code == 8
    then MessageType.heartbeat
    else MessageType.unnamed code

abbrev pub maximum_payload : ℕ
maximum_payload = 240

abbrev pub maximum_encoded_size : ℕ
maximum_encoded_size = 250

abbrev pub start_byte : ℕ
start_byte = 0x7e

abbrev pub end_byte : ℕ
end_byte = 0x7f

-- `payload` is the array of 240 bytes.
pub record Frame : Type 0 where
  pub version : ℕ
  pub kind : MessageType
  pub sequence : ℕ
  pub payload : List ℕ
  pub payload_length : ℕ

abbrev pub default_frame : Frame
default_frame = record {
  version = 1;
  kind = MessageType.heartbeat;
  sequence = 0;
  payload = replicate maximum_payload 0;
  payload_length = 0;
}

-- The body of crc16's inner loop.
unfoldable pub crc_bit : ℕ → ℕ
crc_bit crc = if not (bit_and crc 1 == 0) then u16 (bit_xor (crc / 2) 0xa001) else u16 (crc / 2)

abbrev pub crc_bits : ℕ → ℕ → ℕ
crc_bits zero crc = crc
crc_bits (suc n) crc = crc_bits n (crc_bit crc)

abbrev pub crc_from : ℕ → List ℕ → ℕ
crc_from crc [] = crc
crc_from crc (byte ∷ bytes) = crc_from (crc_bits 8 (u16 (bit_xor crc byte))) bytes

-- `crc16(bytes, length)`, of the bytes that it reads.
unfoldable pub crc16 : List ℕ → ℕ
crc16 bytes = crc_from 0xffff bytes

-- `std::memcpy` to the start of an array.
abbrev pub copy_into : List ℕ → List ℕ → List ℕ
copy_into source target = source ++ drop (length source) target

-- The bytes 1 to 6 + payloadLength of the output, which the checksum is of.
abbrev pub body : Frame → List ℕ
body frame =
    frame.version
    ∷ u8 (message_code frame.kind)
    ∷ u8 (bit_and frame.sequence 0xff)
    ∷ u8 (frame.sequence / 2 ^ 8)
    ∷ u8 (bit_and frame.payload_length 0xff)
    ∷ u8 (frame.payload_length / 2 ^ 8)
    ∷ take frame.payload_length frame.payload

abbrev pub trailer : ℕ → List ℕ
trailer checksum = u8 (bit_and checksum 0xff) ∷ u8 (checksum / 2 ^ 8) ∷ end_byte ∷ []

abbrev pub wire : Frame → List ℕ
wire frame = start_byte ∷ (body frame ++ trailer (crc16 (body frame)))

-- `encode`: what `output` and `outputLength` hold where it returns true.
unfoldable pub encode : Frame → List ℕ → Option (List ℕ × ℕ)
encode frame output =
    if ltb maximum_payload frame.payload_length
    then none
    else if ltb maximum_encoded_size (10 + frame.payload_length)
    then none
    else some (copy_into (wire frame) output, 7 + frame.payload_length + 3)

-- `bytes[index]`
abbrev pub byte_at : List ℕ → ℕ → ℕ
byte_at bytes index = get_or bytes index 0

abbrev pub word_at : List ℕ → ℕ → ℕ
word_at bytes index = u16 (bit_or (byte_at bytes index) (byte_at bytes (index + 1) * 2 ^ 8))

-- `decode` of a pointer that is not null: what `frame` holds where it returns true.
unfoldable pub decode_bytes : List ℕ → Frame → Option Frame
decode_bytes bytes frame =
    let payload_length = word_at bytes 5 in
    let crc_offset = 7 + payload_length in
    if ltb (length bytes) 10
      || (not (byte_at bytes 0 == start_byte) || not (byte_at bytes (length bytes - 1) == end_byte))
    then none
    else if ltb maximum_payload payload_length || not (length bytes == payload_length + 10)
    then none
    else if not (word_at bytes crc_offset == crc16 (take (6 + payload_length) (drop 1 bytes)))
    then none
    else some (record {
      version = byte_at bytes 1;
      kind = message_of (byte_at bytes 2);
      sequence = word_at bytes 3;
      payload = copy_into (take payload_length (drop 7 bytes)) frame.payload;
      payload_length = payload_length;
    })

-- A null pointer is `none`.
abbrev pub decode : Option (List ℕ) → Frame → Option Frame
decode none frame = none
decode (some bytes) frame = decode_bytes bytes frame

-- Ic6Transport
pub record Ic6Transport (T : Type 0) : Type 0 where
  pub send : T → Option (List ℕ) → Bool × T

pub record MockC6Transport : Type 0 where
  pub last_frame : List ℕ
  pub last_length : ℕ
  pub sent_count : ℕ

abbrev pub empty_transport : MockC6Transport
empty_transport = record {
  last_frame = replicate maximum_encoded_size 0;
  last_length = 0;
  sent_count = 0;
}

-- std::size_t has the 32 bits of the target.
abbrev pub mock_send : MockC6Transport → Option (List ℕ) → Bool × MockC6Transport
mock_send t none = (false, t)
mock_send t (some bytes) = if ltb (length t.last_frame) (length bytes) then (false, t) else (
  true,
  record {
    last_frame = copy_into bytes t.last_frame;
    last_length = length bytes;
    sent_count = u32 (t.sent_count + 1);
  },
)

abbrev pub mock_transport : Ic6Transport MockC6Transport
mock_transport = record { send = mock_send }

pub record C6Session : Type 0 where
  pub maximum_retries : ℕ
  pub next_sequence : ℕ
  pub pending_sequence : ℕ
  pub pending : Bool

abbrev pub new_session : ℕ → C6Session
new_session maximum_retries = record {
  maximum_retries = maximum_retries;
  next_sequence = 1;
  pending_sequence = 0;
  pending = false;
}

-- `if (frame.sequence == 0U) frame.sequence = nextSequence_++`
abbrev pub sequenced : C6Session → Frame → Frame
sequenced session frame =
    if frame.sequence == 0 then record frame { sequence = session.next_sequence } else frame

abbrev pub advanced : C6Session → Frame → C6Session
advanced session frame =
    if frame.sequence == 0
    then record session { next_sequence = u16 (session.next_sequence + 1) }
    else session

module _ {T : Type 0} (api : Ic6Transport T) where
  unfoldable pub publish : C6Session → T → Frame → Bool × C6Session × T
  publish session transport frame =
      let sent = sequenced session frame in
      let session' = advanced session frame in
      if session.maximum_retries == 0
      then (false, session, transport)
      else elim (encode sent (replicate maximum_encoded_size 0)) [
        | none ↦ (false, session', transport)
        | some (output, output_length) ↦
            let (accepted, transport') = api.send transport (some (take output_length output)) in
            if accepted
            then (
              true,
              record session' { pending_sequence = sent.sequence; pending = true },
              transport',
            )
            else (false, session', transport')
      ]

unfoldable pub acknowledge : C6Session → ℕ → Bool × C6Session
acknowledge session sequence =
    if not session.pending || not (sequence == session.pending_sequence)
    then (false, session)
    else (true, record session { pending = false })

abbrev pub make_status_request : C6Session → ℕ → Frame × C6Session
make_status_request session address = (
  record {
    version = 1;
    kind = MessageType.light_status_response;
    sequence = session.next_sequence;
    payload = address ∷ replicate 239 0;
    payload_length = 1;
  },
  record session { next_sequence = u16 (session.next_sequence + 1) },
)
