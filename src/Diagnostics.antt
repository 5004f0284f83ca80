-- ===== src/Diagnostics.antt =====
-- DiagnosticEngine, of components/dali_diagnostics/include/dali/diagnostics/diagnostics.h and
-- diagnostics.cpp.
use savantix_dali_edge_contr.Prelude.{Bool, true, false, not, ◌||◌, if◌then◌else◌, FloatOps}
use savantix_dali_edge_contr.Core.{LightEventType, EventSeverity}
pub mod Agreement

pub record DiagnosticObservation (F : Type 0) : Type 0 where
  pub present : Bool
  pub commanded_on : Bool
  pub lamp_failure_flag : Bool
  pub gear_failure_flag : Bool
  pub temperature_c : F
  pub temperature_warning_c : F
  pub temperature_critical_c : F
  pub current_abnormal : Bool
  pub power_abnormal : Bool

pub record DiagnosticResult (F : Type 0) : Type 0 where
  pub confirmed : Bool
  pub warning : Bool
  pub critical : Bool
  pub event_type : LightEventType
  pub severity : EventSeverity
  pub confidence : F

module _ {F : Type 0} (fl : FloatOps F) where
  abbrev pub default_observation : DiagnosticObservation F
  default_observation = record {
    present = true;
    commanded_on = false;
    lamp_failure_flag = false;
    gear_failure_flag = false;
    temperature_c = fl.lit 0 0;
    temperature_warning_c = fl.lit 80 0;
    temperature_critical_c = fl.lit 90 0;
    current_abnormal = false;
    power_abnormal = false;
  }

  -- `{true, warning, true, eventType, EventSeverity::Critical, 1.0F}`
  abbrev pub confirmed_cause : Bool → LightEventType → DiagnosticResult F
  confirmed_cause warning event_type = record {
    confirmed = true;
    warning = warning;
    critical = true;
    event_type = event_type;
    severity = EventSeverity.critical;
    confidence = fl.lit 1 0;
  }

  -- `{false, true, false, eventType, EventSeverity::Warning, confidence}`
  abbrev pub suspected_cause : LightEventType → F → DiagnosticResult F
  suspected_cause event_type confidence = record {
    confirmed = false;
    warning = true;
    critical = false;
    event_type = event_type;
    severity = EventSeverity.warning;
    confidence = confidence;
  }

  abbrev pub no_cause : DiagnosticResult F
  no_cause = record {
    confirmed = false;
    warning = false;
    critical = false;
    event_type = LightEventType.health_score_changed;
    severity = EventSeverity.info;
    confidence = fl.lit 0 0;
  }

  -- `a >= b` is `b <= a`.
  unfoldable pub evaluate : DiagnosticObservation F → DiagnosticResult F
  evaluate o =
      if o.lamp_failure_flag
      then confirmed_cause false LightEventType.lamp_failure
      else if o.gear_failure_flag
      then confirmed_cause false LightEventType.control_gear_failure
      else if not o.present
      then confirmed_cause false LightEventType.device_missing
      else if fl.le o.temperature_critical_c o.temperature_c
      then confirmed_cause true LightEventType.thermal_critical
      else if fl.le o.temperature_warning_c o.temperature_c
      then suspected_cause LightEventType.thermal_warning (fl.lit 8 1)
      else if o.current_abnormal || o.power_abnormal
      then suspected_cause LightEventType.electrical_drift (fl.lit 5 1)
      else no_cause
