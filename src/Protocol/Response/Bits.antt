-- ===== src/Protocol/Response/Bits.antt =====
-- What the response parser promises: a status tells every bit of the byte, and nothing is read out of
-- a failed exchange.
use savantix_dali_edge_contr.Prelude.{
  ℕ, ◌+◌, ◌<◌, ◌≡◌, refl, Bool, true, arith, ◌==◌, ==_iff, if◌then◌else◌, all_below, all_below-at,
}
use savantix_dali_edge_contr.Core.{has_value}
use savantix_dali_edge_contr.Phy.{PhyResult, is_ok}
use savantix_dali_edge_contr.Protocol.Response.{
  BasicStatus, make_backward_response, status_bits, parse_basic_status,
}

abbrev bit : Bool → ℕ → ℕ
bit b weight = if b then weight else 0

-- The status byte that IEC 62386 lays out, lowest bit first.
abbrev pub status_byte : BasicStatus → ℕ
status_byte s =
    bit s.control_gear_failure 1
    + bit s.lamp_failure 2
    + bit s.lamp_power_on 4
    + bit s.limit_error 8
    + bit s.fade_running 16
    + bit s.reset_state 32
    + bit s.missing_short_address 64
    + bit s.power_failure 128

status_table : all_below 256 (λ v. status_byte (status_bits v) == v) ≡ true
unfolding all_below status_bits
status_table = refl

status_byte-status_bits : (v : ℕ) → v < 256 → status_byte (status_bits v) ≡ v
status_byte-status_bits v h =
    (==_iff (status_byte (status_bits v)) v).0 (all_below-at 256 _ v status_table h)

-- A byte received with result `ok` is decoded without loss: the reading has a value, and the status,
-- written out as a byte again, is that byte. After any other result the reading has no value, and its
-- status is all clear.
pub parse_basic_status_roundtrip :
    (result : PhyResult) (v : ℕ)
    → v < 256
    → let r = parse_basic_status (make_backward_response result v) in
      (has_value r ≡ is_ok result) × (status_byte r.value ≡ (if is_ok result then v else 0))
unfolding parse_basic_status
parse_basic_status_roundtrip result v h = ground (arith, status_byte-status_bits v h)
