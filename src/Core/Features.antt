-- ===== src/Core/Features.antt =====
-- DaliCapabilities and LightFeatureVector of components/dali_core/include/dali/core/types.h: the records
-- for the anomaly interface, with the values that the member initialisers give.
use savantix_dali_edge_contr.Prelude.{Bool, false, FloatOps}
use savantix_dali_edge_contr.Core.Readings.{Reading, unknown_reading}

pub record DaliCapabilities : Type 0 where
  pub supports_basic_status : Bool
  pub supports_energy_data : Bool
  pub supports_input_power : Bool
  pub supports_output_power : Bool
  pub supports_input_voltage : Bool
  pub supports_input_current : Bool
  pub supports_output_current : Bool
  pub supports_temperature : Bool
  pub supports_operating_hours : Bool
  pub supports_start_counter : Bool
  pub supports_failure_counters : Bool
  pub supports_diagnostic_data : Bool
  pub supports_identification_data : Bool

abbrev pub default_capabilities : DaliCapabilities
default_capabilities = record {
  supports_basic_status = false;
  supports_energy_data = false;
  supports_input_power = false;
  supports_output_power = false;
  supports_input_voltage = false;
  supports_input_current = false;
  supports_output_current = false;
  supports_temperature = false;
  supports_operating_hours = false;
  supports_start_counter = false;
  supports_failure_counters = false;
  supports_diagnostic_data = false;
  supports_identification_data = false;
}

pub record LightFeatureVector (F : Type 0) : Type 0 where
  pub commanded_level : Reading F
  pub input_voltage : Reading F
  pub input_current : Reading F
  pub input_power : Reading F
  pub output_current : Reading F
  pub output_power : Reading F
  pub temperature : Reading F
  pub current_deviation : Reading F
  pub power_deviation : Reading F
  pub temperature_deviation : Reading F
  pub communication_error_rate : F
  pub start_frequency : F
  pub recent_failure_frequency : F
  pub seven_day_trend : Reading F
  pub thirty_day_trend : Reading F

abbrev pub default_features : {F : Type 0} → FloatOps F → LightFeatureVector F
default_features fl =
    let blank = unknown_reading (fl.lit 0 0) in
    record {
      commanded_level = blank;
      input_voltage = blank;
      input_current = blank;
      input_power = blank;
      output_current = blank;
      output_power = blank;
      temperature = blank;
      current_deviation = blank;
      power_deviation = blank;
      temperature_deviation = blank;
      communication_error_rate = fl.lit 0 0;
      start_frequency = fl.lit 0 0;
      recent_failure_frequency = fl.lit 0 0;
      seven_day_trend = blank;
      thirty_day_trend = blank;
    }
