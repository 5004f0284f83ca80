-- ===== src/Protocol/Response.antt =====
-- components/dali_protocol/dali_response_parser.cpp: backward frames to typed readings.
use savantix_dali_edge_contr.Prelude.{ℕ, Bool, true, false, not, ◌==◌, if◌then◌else◌, bit_and}
use savantix_dali_edge_contr.Core.{Reading, ReadingQuality, bare_reading, valid_reading}
use savantix_dali_edge_contr.Phy.{PhyResult}
pub mod Bits

pub record BackwardResponse : Type 0 where
  pub value : ℕ
  pub quality : ReadingQuality

pub record BasicStatus : Type 0 where
  pub control_gear_failure : Bool
  pub lamp_failure : Bool
  pub lamp_power_on : Bool
  pub limit_error : Bool
  pub fade_running : Bool
  pub reset_state : Bool
  pub missing_short_address : Bool
  pub power_failure : Bool

abbrev pub default_status : BasicStatus
default_status = record {
  control_gear_failure = false;
  lamp_failure = false;
  lamp_power_on = false;
  limit_error = false;
  fade_running = false;
  reset_state = false;
  missing_short_address = false;
  power_failure = false;
}

abbrev pub quality_from_phy_result : PhyResult → ReadingQuality
quality_from_phy_result PhyResult.ok = ReadingQuality.valid
quality_from_phy_result PhyResult.timeout = ReadingQuality.temporarily_unavailable
quality_from_phy_result PhyResult.busy = ReadingQuality.temporarily_unavailable
quality_from_phy_result PhyResult.collision = ReadingQuality.temporarily_unavailable
quality_from_phy_result PhyResult.bus_power_lost = ReadingQuality.invalid
quality_from_phy_result PhyResult.transceiver_fault = ReadingQuality.invalid
quality_from_phy_result PhyResult.invalid_argument = ReadingQuality.invalid
quality_from_phy_result PhyResult.not_initialised = ReadingQuality.invalid
quality_from_phy_result PhyResult.internal_error = ReadingQuality.invalid

abbrev pub make_backward_response : PhyResult → ℕ → BackwardResponse
make_backward_response result value = record {
  value = value;
  quality = quality_from_phy_result result;
}

-- `quality == ReadingQuality::Valid`
abbrev pub is_valid : ReadingQuality → Bool
is_valid ReadingQuality.valid = true
is_valid _ = false

unfoldable pub parse_yes_no : BackwardResponse → Reading Bool
parse_yes_no response =
    if not (is_valid response.quality)
    then bare_reading false response.quality
    else valid_reading (not (response.value == 0)) 0 0 false

-- `(value & mask) != 0U`
abbrev pub has_bit : ℕ → ℕ → Bool
has_bit value mask = not (bit_and value mask == 0)

unfoldable pub status_bits : ℕ → BasicStatus
status_bits value = record {
  control_gear_failure = has_bit value 0x01;
  lamp_failure = has_bit value 0x02;
  lamp_power_on = has_bit value 0x04;
  limit_error = has_bit value 0x08;
  fade_running = has_bit value 0x10;
  reset_state = has_bit value 0x20;
  missing_short_address = has_bit value 0x40;
  power_failure = has_bit value 0x80;
}

unfoldable pub parse_basic_status : BackwardResponse → Reading BasicStatus
parse_basic_status response =
    if not (is_valid response.quality)
    then bare_reading default_status response.quality
    else valid_reading (status_bits response.value) 0 0 false
