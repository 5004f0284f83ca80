-- ===== src/Diagnostics/Agreement.antt =====
-- DiagnosticEngine and LightHealthEngine on the same light.
use savantix_dali_edge_contr.Prelude.{ℕ, ◌≡◌, Bool, true, false, not, ◌||◌, ◌==◌, arith, FloatOps}
use savantix_dali_edge_contr.Core.{LightEventType, LightState}
use savantix_dali_edge_contr.Diagnostics.{DiagnosticObservation, evaluate}
use savantix_dali_edge_contr.Health.{HealthObservation, LightHealthEngine, default_observation}
use savantix_dali_edge_contr.Health
use savantix_dali_edge_contr.Health.Score.{has_flag}

-- The fault flag of a diagnosed cause, 0 for a cause that has none.
abbrev pub flag_of_cause : LightEventType → ℕ
flag_of_cause LightEventType.lamp_failure = 1
flag_of_cause LightEventType.control_gear_failure = 2
flag_of_cause LightEventType.device_missing = 4
flag_of_cause LightEventType.thermal_critical = 8
flag_of_cause LightEventType.thermal_warning = 16
flag_of_cause _ = 0

abbrev pub is_out : LightState → Bool
is_out LightState.failed = true
is_out LightState.missing = true
is_out _ = false

module _ {F : Type 0} (fl : FloatOps F) where
  -- What the health engine observes where the diagnostics observe `o`.
  abbrev pub seen_as : DiagnosticObservation F → HealthObservation
  seen_as o = record default_observation {
    present = o.present;
    commanded_on = o.commanded_on;
    lamp_failure = o.lamp_failure_flag;
    gear_failure = o.gear_failure_flag;
    thermal_warning = fl.le o.temperature_warning_c o.temperature_c;
    thermal_critical = fl.le o.temperature_critical_c o.temperature_c;
    current_drift = o.current_abnormal;
    power_drift = o.power_abnormal;
  }

  -- Given the same light, the health engine sets the flag of the cause that the diagnostics name, if that
  -- cause has one, and reports the light as failed or missing wherever they call the cause critical.
  pub evaluate-agrees :
      (o : DiagnosticObservation F) (engine : LightHealthEngine F)
      → let cause = evaluate fl o in
        let flag = flag_of_cause cause.event_type in
        let health = (Health.evaluate fl engine (seen_as o)).0 in
        ((flag == 0 || has_flag health.active_fault_flags flag) ≡ true)
        × ((not cause.critical || is_out health.state) ≡ true)
  unfolding evaluate Health.evaluate
  evaluate-agrees o engine = (ground arith, ground arith)
