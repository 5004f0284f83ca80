-- ===== src/Health.antt =====
-- FaultPersistence and LightHealthEngine, of components/light_health_engine.
use savantix_dali_edge_contr.Prelude.{
  ℕ, ◌+◌, ◌^◌, Bool, true, false, not, ◌&&◌, ◌||◌, ltb, leb, if◌then◌else◌, bit_or, u8, FloatOps,
}
use savantix_dali_edge_contr.Core.{LightState}
pub mod Persistence
pub mod Score
pub mod Deductions
pub mod Range

pub record FaultPersistence : Type 0 where
  pub warning_samples : ℕ
  pub fault_samples : ℕ
  pub recovery_samples : ℕ
  pub abnormal_count : ℕ
  pub consecutive_abnormal : ℕ
  pub consecutive_healthy : ℕ
  pub warning_active : Bool
  pub fault_active : Bool

abbrev pub new_persistence : ℕ → ℕ → ℕ → FaultPersistence
new_persistence warning_samples fault_samples recovery_samples = record {
  warning_samples = warning_samples;
  fault_samples = fault_samples;
  recovery_samples = recovery_samples;
  abnormal_count = 0;
  consecutive_abnormal = 0;
  consecutive_healthy = 0;
  warning_active = false;
  fault_active = false;
}

-- `if (x < 255U) ++x`
abbrev pub increment : ℕ → ℕ
increment x = if ltb x 255 then u8 (x + 1) else x

-- The if-else of `observe`.
abbrev pub counted : FaultPersistence → Bool → FaultPersistence
counted p true = record p {
  abnormal_count = increment p.abnormal_count;
  consecutive_abnormal = increment p.consecutive_abnormal;
  consecutive_healthy = 0;
}
counted p false =
    let healthy = increment p.consecutive_healthy in
    let recovered = leb p.recovery_samples healthy in
    record p {
      abnormal_count = 0;
      consecutive_abnormal = 0;
      consecutive_healthy = healthy;
      warning_active = if recovered then false else p.warning_active;
      fault_active = if recovered then false else p.fault_active;
    }

-- The two tests that follow it.
abbrev pub judged : FaultPersistence → FaultPersistence
judged p = record p {
  warning_active = if leb p.warning_samples p.abnormal_count then true else p.warning_active;
  fault_active = if leb p.fault_samples p.consecutive_abnormal then true else p.fault_active;
}

abbrev differs : Bool → Bool → Bool
differs true b = not b
differs false b = b

unfoldable pub observe : FaultPersistence → Bool → Bool × FaultPersistence
observe p abnormal =
    let p' = judged (counted p abnormal) in (differs p.warning_active p'.warning_active, p')

pub record HealthObservation : Type 0 where
  pub present : Bool
  pub commanded_on : Bool
  pub lamp_failure : Bool
  pub gear_failure : Bool
  pub thermal_warning : Bool
  pub thermal_critical : Bool
  pub current_drift : Bool
  pub power_drift : Bool
  pub intermittent_fault : Bool
  pub poor_communication : Bool

abbrev pub default_observation : HealthObservation
default_observation = record {
  present = true;
  commanded_on = false;
  lamp_failure = false;
  gear_failure = false;
  thermal_warning = false;
  thermal_critical = false;
  current_drift = false;
  power_drift = false;
  intermittent_fault = false;
  poor_communication = false;
}

pub record HealthScoringConfig (F : Type 0) : Type 0 where
  pub confirmed_lamp_failure : F
  pub confirmed_gear_failure : F
  pub device_missing : F
  pub critical_temperature : F
  pub intermittent_failure : F
  pub current_deviation : F
  pub power_deviation : F
  pub thermal_warning : F
  pub poor_communication : F
  pub recovery_step : F

pub record HealthEvaluation (F : Type 0) : Type 0 where
  pub health_score : F
  pub state : LightState
  pub active_fault_flags : ℕ

pub record LightHealthEngine (F : Type 0) : Type 0 where
  pub config : HealthScoringConfig F
  pub score : F

abbrev pub flag_if : Bool → ℕ → ℕ → ℕ
flag_if true bit flags = bit_or flags (2 ^ bit)
flag_if false bit flags = flags

abbrev pub flags_of : HealthObservation → ℕ
flags_of o =
    let lamp = flag_if o.lamp_failure 0 0 in
    let gear = flag_if o.gear_failure 1 lamp in
    let missing = flag_if (not o.present) 2 gear in
    if o.thermal_critical then bit_or missing (2 ^ 3) else flag_if o.thermal_warning 4 missing

module _ {F : Type 0} (fl : FloatOps F) where
  abbrev pub default_scoring : HealthScoringConfig F
  default_scoring = record {
    confirmed_lamp_failure = fl.lit 80 0;
    confirmed_gear_failure = fl.lit 80 0;
    device_missing = fl.lit 70 0;
    critical_temperature = fl.lit 60 0;
    intermittent_failure = fl.lit 40 0;
    current_deviation = fl.lit 25 0;
    power_deviation = fl.lit 25 0;
    thermal_warning = fl.lit 20 0;
    poor_communication = fl.lit 15 0;
    recovery_step = fl.lit 1 0;
  }

  -- The constructor of LightHealthEngine, with its default configuration.
  abbrev pub new_engine : LightHealthEngine F
  new_engine = record { config = default_scoring; score = fl.lit 100 0 }

  -- `std::max(a, b)` and `std::min(a, b)`
  abbrev pub max : F → F → F
  max a b = if fl.lt a b then b else a

  abbrev pub min : F → F → F
  min a b = if fl.lt b a then b else a

  -- `if (present) deductions += amount`
  abbrev pub deduct : Bool → F → F → F
  deduct true amount deductions = fl.add deductions amount
  deduct false amount deductions = deductions

  abbrev pub thermal_deduction : HealthObservation → HealthScoringConfig F → F → F
  thermal_deduction o config deductions =
      if o.thermal_critical
      then fl.add deductions config.critical_temperature
      else deduct o.thermal_warning config.thermal_warning deductions

  abbrev pub deductions_of : HealthObservation → HealthScoringConfig F → F
  deductions_of o config =
      let lamp = deduct o.lamp_failure config.confirmed_lamp_failure (fl.lit 0 0) in
      let gear = deduct o.gear_failure config.confirmed_gear_failure lamp in
      let missing = deduct (not o.present) config.device_missing gear in
      let thermal = thermal_deduction o config missing in
      let intermittent = deduct o.intermittent_fault config.intermittent_failure thermal in
      let current = deduct o.current_drift config.current_deviation intermittent in
      let power = deduct o.power_drift config.power_deviation current in
      deduct o.poor_communication config.poor_communication power

  -- The score that `evaluate` leaves.
  abbrev pub next_score : HealthScoringConfig F → F → F → F
  next_score config deductions score =
      let target = max (fl.lit 0 0) (fl.sub (fl.lit 100 0) deductions) in
      if fl.lt target score
      then max target (fl.sub score deductions)
      else if fl.lt score (fl.lit 100 0) && fl.eq deductions (fl.lit 0 0)
      then min (fl.lit 100 0) (fl.add score config.recovery_step)
      else score

  abbrev pub state_of : HealthObservation → F → F → LightState
  state_of o deductions score =
      if not o.present
      then LightState.missing
      else if o.lamp_failure || o.gear_failure
      then LightState.failed
      else if o.thermal_critical || fl.lt score (fl.lit 20 0)
      then LightState.failed
      else if fl.lt score (fl.lit 50 0)
      then LightState.service_required
      else if fl.lt (fl.lit 0 0) deductions
      then LightState.warning
      else if not o.commanded_on
      then LightState.off_commanded
      else LightState.on_healthy

  unfoldable pub evaluate :
      LightHealthEngine F → HealthObservation → HealthEvaluation F × LightHealthEngine F
  evaluate engine o =
      let deductions = deductions_of o engine.config in
      let score = next_score engine.config deductions engine.score in
      (
        record {
          health_score = score;
          state = state_of o deductions score;
          active_fault_flags = flags_of o;
        },
        record engine { score = score },
      )
