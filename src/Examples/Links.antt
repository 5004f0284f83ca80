-- ===== src/Examples/Links.antt =====
-- Examples of Gateway and Storage.
use savantix_dali_edge_contr.Prelude.{
  last_of, All, ℕ, ◌≡◌, refl, true, false, List, [], ◌∷◌, none, some, arith, set, replicate, take,
  map,
}
use savantix_dali_edge_contr.Gateway.{
  wire, MessageType, Frame, default_frame, encode, decode_bytes, empty_transport, mock_transport,
  new_session, publish, acknowledge,
}
use savantix_dali_edge_contr.Gateway.Acceptance.{IsByte}
use savantix_dali_edge_contr.Gateway.Canonical.{encode-decode}
use savantix_dali_edge_contr.Gateway.RoundTrip.{decode_wire, IsFrame, received, decode-encode}
use savantix_dali_edge_contr.Gateway.Delivery.{publish_delivers}
use savantix_dali_edge_contr.Gateway.Detection.{one_changed_byte}
use savantix_dali_edge_contr.Storage.{
  StoredEvent, default_stored, empty_history, sealed, recover, corrupt_newest_for_test,
}
use savantix_dali_edge_contr.Storage.Recovery.{append_all, latest}
use savantix_dali_edge_contr.Storage.Corruption.{recover-append_all}
use savantix_dali_edge_contr.Examples.Fixtures.{millionths}

abbrev notice : Frame
notice = record default_frame {
  kind = MessageType.light_event;
  payload = 7 ∷ 4 ∷ replicate 238 0;
  payload_length = 2;
}

notice-IsFrame : IsFrame notice
notice-IsFrame = record {
  sized = refl;
  fits = omega arith;
  named = refl;
  code = omega arith;
  word = omega arith;
}

decode-encode_example :
    (bytes : List ℕ) × (n : ℕ) × (encode notice (replicate 250 0) ≡ some (bytes, n))
    × (n ≡ 12)
    × (decode_bytes (take n bytes) default_frame ≡ some (received notice default_frame))
decode-encode_example = decode-encode notice notice-IsFrame (replicate 250 0) default_frame

abbrev notice_bytes : List ℕ
notice_bytes = wire notice

notice_bytes-All : All IsByte notice_bytes
notice_bytes-All = (
  omega arith,
  (
    omega arith,
    (
      omega arith,
      (
        omega arith,
        (
          omega arith,
          (
            omega arith,
            (
              omega arith,
              (omega arith, (omega arith, (omega arith, (omega arith, (omega arith, tt))))),
            ),
          ),
        ),
      ),
    ),
  ),
)

encode-decode_example :
    (written : List ℕ) × (encode (received notice default_frame) (replicate 250 0)
      ≡ some (written, 12))
    × (take 12 written ≡ notice_bytes)
encode-decode_example =
    encode-decode notice_bytes default_frame (received notice default_frame) (replicate 250 0)
      notice_bytes-All (decode_wire notice notice-IsFrame default_frame)

-- The lamp's address in the payload is 7, and arrives as 39.
one_changed_byte_example : decode_bytes (set notice_bytes 7 39) default_frame ≡ none
one_changed_byte_example =
    one_changed_byte notice_bytes default_frame (received notice default_frame) 7 39
      notice_bytes-All (decode_wire notice notice-IsFrame default_frame) (omega arith) (omega arith)
      (λ e. absurd (omega (arith, e)))

publish_delivers_example :
    let (done, session, t) = publish mock_transport (new_session 3) empty_transport notice in
    (done ≡ true)
    × (decode_bytes (take t.last_length t.last_frame) default_frame
        ≡ some (received (record notice { sequence = 1 }) default_frame))
    × (t.sent_count ≡ 1)
    × (session ≡ record (new_session 3) { next_sequence = 2; pending_sequence = 1; pending = true })
    × (acknowledge session 9 ≡ (false, session))
    × ((acknowledge (acknowledge session 1).1 1).0 ≡ false)
publish_delivers_example =
    publish_delivers (new_session 3) empty_transport notice default_frame 9 1 notice-IsFrame
      (omega arith) (omega arith) refl

-- A layout of which only the sequence number and the time are kept.
abbrev layout : StoredEvent ℕ → List ℕ
layout e = e.sequence ∷ e.timestamp ∷ []

abbrev first_stored : StoredEvent ℕ
first_stored = record (default_stored millionths) { sequence = 1; timestamp = 1000 }

recover-append_all_example :
    let history =
      append_all millionths layout (first_stored ∷ first_stored ∷ []) (empty_history millionths) in
    (recover millionths layout history
      ≡ latest (map (sealed millionths layout) (first_stored ∷ first_stored ∷ [])))
    × (recover millionths layout (corrupt_newest_for_test millionths history)
        ≡ last_of 127 (map (sealed millionths layout) (first_stored ∷ [])))
recover-append_all_example =
    recover-append_all millionths layout (first_stored ∷ []) first_stored (λ e c. refl)
