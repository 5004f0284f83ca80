-- ===== src/Core/Lights.antt =====
-- The per-light records of components/dali_core/include/dali/core/types.h, over the type `F` of floats.
use savantix_dali_edge_contr.Prelude.{ℕ, Bool, false, List, replicate, FloatOps}
use savantix_dali_edge_contr.Core.Readings.{Reading, unknown_reading}
use savantix_dali_edge_contr.Core.Kinds.{LightState, EventSeverity, LightEventType}

pub record LightRealtimeData (F : Type 0) : Type 0 where
  pub short_address : ℕ
  pub present : Bool
  pub commanded_on : Bool
  pub commanded_level : ℕ
  pub actual_level : Reading ℕ
  pub lamp_failure : Reading Bool
  pub gear_failure : Reading Bool
  pub limit_error : Reading Bool
  pub fade_running : Reading Bool
  pub reset_state : Reading Bool
  pub input_voltage : Reading F
  pub input_current : Reading F
  pub input_power : Reading F
  pub output_current : Reading F
  pub output_power : Reading F
  pub temperature : Reading F
  pub timestamp_ms : ℕ

pub record LightLifetimeData : Type 0 where
  pub operating_hours : Reading ℕ
  pub light_source_hours : Reading ℕ
  pub start_count : Reading ℕ
  pub power_cycle_count : Reading ℕ
  pub lamp_failure_count : Reading ℕ
  pub gear_failure_count : Reading ℕ

pub record LightHealthData (F : Type 0) : Type 0 where
  pub health_score : F
  pub state : LightState
  pub current_deviation_percent : Reading F
  pub power_deviation_percent : Reading F
  pub temperature_deviation : Reading F
  pub communication_success_rate : F
  pub deterioration_detected : Bool
  pub intermittent_fault_detected : Bool
  pub last_healthy_timestamp : ℕ
  pub last_fault_timestamp : ℕ

-- `description` is the array of 160 chars.
pub record LightEvent (F : Type 0) : Type 0 where
  pub event_id : ℕ
  pub short_address : ℕ
  pub kind : LightEventType
  pub severity : EventSeverity
  pub timestamp : ℕ
  pub health_score : F
  pub active_fault_flags : ℕ
  pub snapshot : LightRealtimeData F
  pub description : List ℕ

abbrev pub default_lifetime : LightLifetimeData
default_lifetime = record {
  operating_hours = unknown_reading 0;
  light_source_hours = unknown_reading 0;
  start_count = unknown_reading 0;
  power_cycle_count = unknown_reading 0;
  lamp_failure_count = unknown_reading 0;
  gear_failure_count = unknown_reading 0;
}

-- The values that the member initialisers give.
module _ {F : Type 0} (fl : FloatOps F) where
  abbrev zero_reading : Reading F
  zero_reading = unknown_reading (fl.lit 0 0)

  abbrev pub default_realtime : LightRealtimeData F
  default_realtime = record {
    short_address = 0;
    present = false;
    commanded_on = false;
    commanded_level = 0;
    actual_level = unknown_reading 0;
    lamp_failure = unknown_reading false;
    gear_failure = unknown_reading false;
    limit_error = unknown_reading false;
    fade_running = unknown_reading false;
    reset_state = unknown_reading false;
    input_voltage = zero_reading;
    input_current = zero_reading;
    input_power = zero_reading;
    output_current = zero_reading;
    output_power = zero_reading;
    temperature = zero_reading;
    timestamp_ms = 0;
  }

  abbrev pub default_health : LightHealthData F
  default_health = record {
    health_score = fl.lit 100 0;
    state = LightState.unknown;
    current_deviation_percent = zero_reading;
    power_deviation_percent = zero_reading;
    temperature_deviation = zero_reading;
    communication_success_rate = fl.lit 0 0;
    deterioration_detected = false;
    intermittent_fault_detected = false;
    last_healthy_timestamp = 0;
    last_fault_timestamp = 0;
  }

  abbrev pub default_event : LightEvent F
  default_event = record {
    event_id = 0;
    short_address = 0;
    kind = LightEventType.health_score_changed;
    severity = EventSeverity.info;
    timestamp = 0;
    health_score = fl.lit 100 0;
    active_fault_flags = 0;
    snapshot = default_realtime;
    description = replicate 160 0;
  }
