-- ===== src/Core/Kinds.antt =====
-- LightState, EventSeverity and LightEventType of components/dali_core/include/dali/core/types.h. The
-- code compares and casts enumerators by their underlying numbers.
use savantix_dali_edge_contr.Prelude.{ℕ, List, [], ◌∷◌, ◌≡◌, refl, some, get_elem?}

pub data LightState : Type 0 where
  unknown learning off_commanded on_healthy dimmed_healthy warning service_required : LightState
  failed missing communication_fault recovering : LightState

pub data EventSeverity : Type 0 where
  info warning critical : EventSeverity

abbrev pub severity_code : EventSeverity → ℕ
severity_code EventSeverity.info = 0
severity_code EventSeverity.warning = 1
severity_code EventSeverity.critical = 2

pub data LightEventType : Type 0 where
  device_discovered device_replaced device_missing device_recovered lamp_failure : LightEventType
  control_gear_failure possible_lamp_failure dali_bus_failure dali_bus_recovered : LightEventType
  communication_degraded communication_recovered thermal_warning : LightEventType
  thermal_critical electrical_drift intermittent_fault health_score_changed : LightEventType
  service_recommended baseline_established baseline_reset : LightEventType

abbrev pub event_code : LightEventType → ℕ
event_code LightEventType.device_discovered = 0
event_code LightEventType.device_replaced = 1
event_code LightEventType.device_missing = 2
event_code LightEventType.device_recovered = 3
event_code LightEventType.lamp_failure = 4
event_code LightEventType.control_gear_failure = 5
event_code LightEventType.possible_lamp_failure = 6
event_code LightEventType.dali_bus_failure = 7
event_code LightEventType.dali_bus_recovered = 8
event_code LightEventType.communication_degraded = 9
event_code LightEventType.communication_recovered = 10
event_code LightEventType.thermal_warning = 11
event_code LightEventType.thermal_critical = 12
event_code LightEventType.electrical_drift = 13
event_code LightEventType.intermittent_fault = 14
event_code LightEventType.health_score_changed = 15
event_code LightEventType.service_recommended = 16
event_code LightEventType.baseline_established = 17
event_code LightEventType.baseline_reset = 18

abbrev event_types : List LightEventType
event_types =
    LightEventType.device_discovered ∷ LightEventType.device_replaced
    ∷ LightEventType.device_missing ∷ LightEventType.device_recovered ∷ LightEventType.lamp_failure
    ∷ LightEventType.control_gear_failure ∷ LightEventType.possible_lamp_failure
    ∷ LightEventType.dali_bus_failure ∷ LightEventType.dali_bus_recovered
    ∷ LightEventType.communication_degraded ∷ LightEventType.communication_recovered
    ∷ LightEventType.thermal_warning ∷ LightEventType.thermal_critical
    ∷ LightEventType.electrical_drift ∷ LightEventType.intermittent_fault
    ∷ LightEventType.health_score_changed ∷ LightEventType.service_recommended
    ∷ LightEventType.baseline_established ∷ LightEventType.baseline_reset ∷ []

event_types-event_code : (t : LightEventType) → get_elem? event_types (event_code t) ≡ some t
event_types-event_code LightEventType.device_discovered = refl
event_types-event_code _ = refl

-- Comparing the numbers is comparing the enumerators.
pub event_code-injective : (s t : LightEventType) → event_code s ≡ event_code t → s ≡ t
event_code-injective s t e = cc (event_types-event_code s, event_types-event_code t)
