-- ===== src/Gateway/Delivery.antt =====
-- A frame published over the mock transport, up to its acknowledgement.
use savantix_dali_edge_contr.Prelude.{
  ℕ, ◌+◌, ◌^◌, ◌<◌, ◌≡◌, ◌≢◌, refl, ap, ap₂, ◌∙◌, true, false, some, arith, ltb, ◌==◌, ==_iff, inl,
  inr, Bool-cases, length, take, u32, u16, if◌then◌else◌,
}
use savantix_dali_edge_contr.Gateway.{
  Frame, maximum_encoded_size, copy_into, wire, decode_bytes, MockC6Transport, mock_transport,
  C6Session, sequenced, advanced, publish, acknowledge,
}
use savantix_dali_edge_contr.Gateway.Bytes.{take-append, length-wire}
use savantix_dali_edge_contr.Gateway.RoundTrip.{
  IsFrame, received, decode_wire, encode-wire, taken_wire,
}

module _ (session : C6Session) (t : MockC6Transport) (frame : Frame) where
  pub sequenced-IsFrame :
      IsFrame frame → session.next_sequence < 2 ^ 16 → IsFrame (sequenced session frame)
  sequenced-IsFrame v h = elim (Bool-cases (frame.sequence == 0)) [
    | inl fresh ↦
        rw fresh
          (record { sized = v.sized; fits = v.fits; named = v.named; code = v.code; word = h })
    | inr own ↦ rw own v
  ]

  abbrev pub delivered : MockC6Transport
  delivered =
      let bytes = wire (sequenced session frame) in
      record {
        last_frame = copy_into bytes t.last_frame;
        last_length = length bytes;
        sent_count = u32 (t.sent_count + 1);
      }

  pub publish_sends :
      IsFrame (sequenced session frame)
      → session.maximum_retries ≢ 0
      → length t.last_frame ≡ maximum_encoded_size
      → publish mock_transport session t frame ≡ (
        true,
        record (advanced session frame) {
          pending_sequence = (sequenced session frame).sequence;
          pending = true;
        },
        delivered,
      )
  unfolding publish
  publish_sends v retries room =
      let sent = sequenced session frame in
      let some_retries : (session.maximum_retries == 0) ≡ false = ground arith in
      let fits : ltb (length t.last_frame) (length (wire sent)) ≡ false =
        ground (arith, length-wire sent v.sized v.fits, v.fits) in
      rw (publish, some_retries, encode-wire sent v _) (rw (taken_wire sent v _) (rw fits refl))

  -- The number that the frame goes out under: its own, or the session's next where it has none.
  abbrev pub number : ℕ
  number = if frame.sequence == 0 then session.next_sequence else frame.sequence

  sequenced-number : sequenced session frame ≡ record frame { sequence = number }
  sequenced-number = elim (Bool-cases (frame.sequence == 0)) [
    | inl fresh ↦ rw fresh refl
    | inr own ↦ rw own refl
  ]

  advanced_lem : advanced session frame ≡ record session {
    next_sequence =
        if frame.sequence == 0 then u16 (session.next_sequence + 1) else session.next_sequence;
  }
  advanced_lem = elim (Bool-cases (frame.sequence == 0)) [
    | inl fresh ↦ rw fresh refl
    | inr own ↦ rw own refl
  ]

  -- The session after the frame was sent.
  abbrev waiting : C6Session
  waiting = record session {
    next_sequence =
        if frame.sequence == 0 then u16 (session.next_sequence + 1) else session.next_sequence;
    pending_sequence = number;
    pending = true;
  }

  publish_waits :
      IsFrame frame
      → session.next_sequence < 2 ^ 16
      → session.maximum_retries ≢ 0
      → length t.last_frame ≡ maximum_encoded_size
      → publish mock_transport session t frame ≡ (true, waiting, delivered)
  publish_waits v h retries room =
      publish_sends (sequenced-IsFrame v h) retries room
      ∙ ap₂
          (λ (a : C6Session) (sent : Frame).
            (true, record a { pending_sequence = sent.sequence; pending = true }, delivered))
          advanced_lem sequenced-number

  heard_frame :
      (old : Frame)
      → IsFrame frame
      → session.next_sequence < 2 ^ 16
      → decode_bytes (take delivered.last_length delivered.last_frame) old
        ≡ some (received (record frame { sequence = number }) old)
  heard_frame old v h =
      let sent = sequenced session frame in
      let read : take (length (wire sent)) (copy_into (wire sent) t.last_frame) ≡ wire sent =
        take-append (wire sent) _ _ refl in
      ap (λ bytes. decode_bytes bytes old) read
      ∙ (decode_wire sent (sequenced-IsFrame v h) old
          ∙ ap (λ f. some (received f old)) sequenced-number)

  acknowledge_waiting :
      (n : ℕ)
      → acknowledge waiting n
        ≡ (if n == number then (true, record waiting { pending = false }) else (false, waiting))
  unfolding acknowledge
  acknowledge_waiting n = elim (Bool-cases (n == number)) [
    | inl own ↦ rw own refl
    | inr other ↦ rw other refl
  ]

  acknowledge_again : (again : ℕ) → (acknowledge (acknowledge waiting number).1 again).0 ≡ false
  unfolding acknowledge
  acknowledge_again again =
      let same : (number == number) ≡ true = (==_iff _ _).1 refl in
      let first : acknowledge waiting number ≡ (true, record waiting { pending = false }) =
        acknowledge_waiting number ∙ rw same refl in
      ap (λ r. (acknowledge r.1 again).0) first

  -- A session that allows retries sends every frame over the mock transport: the transport then holds bytes
  -- from which a receiver decodes the frame, under its own sequence number, or under the session's next if
  -- it has none, which is then used up. The session waits for that number. Of an acknowledgement of any
  -- number it accepts just that of the number it waits for, and waits no longer; any other leaves it as it
  -- was. After the right one it accepts no second one of any number.
  pub publish_delivers :
      (old : Frame) (n again : ℕ)
      → IsFrame frame
      → session.next_sequence < 2 ^ 16
      → session.maximum_retries ≢ 0
      → length t.last_frame ≡ maximum_encoded_size
      → let (done, session', t') = publish mock_transport session t frame in
        (done ≡ true)
        × (decode_bytes (take t'.last_length t'.last_frame) old
            ≡ some (received (record frame { sequence = number }) old))
        × (t'.sent_count ≡ u32 (t.sent_count + 1))
        × (session' ≡ record session {
          next_sequence =
              if frame.sequence == 0
              then u16 (session.next_sequence + 1)
              else session.next_sequence;
          pending_sequence = number;
          pending = true;
        })
        × (acknowledge session' n ≡ (
            if n == number then (true, record session' { pending = false }) else (false, session')))
        × ((acknowledge (acknowledge session' number).1 again).0 ≡ false)
  publish_delivers old n again v h retries room =
      rw (publish_waits v h retries room)
        (refl, heard_frame old v h, refl, refl, acknowledge_waiting n, acknowledge_again again)
