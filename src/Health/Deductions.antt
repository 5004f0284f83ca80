-- ===== src/Health/Deductions.antt =====
-- The deductions from the health score, and what is asked of floats for them.
use savantix_dali_edge_contr.Prelude.{
  ℕ, ◌≡◌, Bool, true, false, not, ◌||◌, inl, inr, Bool-cases, arith, FloatOps,
}
use savantix_dali_edge_contr.Health.{
  HealthObservation, HealthScoringConfig, deduct, thermal_deduction, deductions_of,
}

-- What floats that are numbers keep to: their order, and sums and differences that rounding and overflow
-- do not carry past the values that they started from.
pub record IsOrdered {F : Type 0} (fl : FloatOps F) (IsNumber : F → Type 0) : Type 0 where
  pub lit_number : (m e : ℕ) → IsNumber (fl.lit m e)
  pub le_refl : (a : F) → IsNumber a → fl.le a a ≡ true
  pub le_trans : (a b c : F) → fl.le a b ≡ true → fl.le b c ≡ true → fl.le a c ≡ true
  pub lt_le : (a b : F) → fl.lt a b ≡ true → fl.le a b ≡ true
  pub lt_trans : (a b c : F) → fl.lt a b ≡ true → fl.le b c ≡ true → fl.lt a c ≡ true
  pub not_lt : (a b : F) → IsNumber a → IsNumber b → fl.lt a b ≡ false → fl.le b a ≡ true
  pub lt_irrefl : (a : F) → fl.lt a a ≡ false
  pub lt_ne : (a b : F) → fl.lt a b ≡ true → fl.eq b a ≡ false
  pub hundred : fl.le (fl.lit 0 0) (fl.lit 100 0) ≡ true
  pub add_up :
      (a b : F)
      → fl.le (fl.lit 0 0) a ≡ true
      → fl.le (fl.lit 0 0) b ≡ true
      → IsNumber (fl.add a b) × (fl.le a (fl.add a b) ≡ true) × (fl.le b (fl.add a b) ≡ true)
  pub sub_down :
      (a b : F)
      → fl.le (fl.lit 0 0) a ≡ true
      → fl.le a (fl.lit 100 0) ≡ true
      → fl.le (fl.lit 0 0) b ≡ true
      → IsNumber (fl.sub a b) × (fl.le (fl.sub a b) a ≡ true)
  pub sub_zero : fl.le (fl.lit 100 0) (fl.sub (fl.lit 100 0) (fl.lit 0 0)) ≡ true

-- Whether anything is wrong with the light.
abbrev pub is_faulty : HealthObservation → Bool
is_faulty o =
    o.poor_communication
    || (o.power_drift
        || (o.current_drift
            || (o.intermittent_fault
                || (o.thermal_critical
                    || (o.thermal_warning
                        || (not o.present || (o.gear_failure || (o.lamp_failure || false))))))))

module _ {F : Type 0} (fl : FloatOps F) where
  -- The deductions are above 0, and the step of the recovery is not below it.
  pub record IsScoring (config : HealthScoringConfig F) : Type 0 where
    pub lamp : fl.lt (fl.lit 0 0) config.confirmed_lamp_failure ≡ true
    pub gear : fl.lt (fl.lit 0 0) config.confirmed_gear_failure ≡ true
    pub missing : fl.lt (fl.lit 0 0) config.device_missing ≡ true
    pub critical : fl.lt (fl.lit 0 0) config.critical_temperature ≡ true
    pub intermittent : fl.lt (fl.lit 0 0) config.intermittent_failure ≡ true
    pub current : fl.lt (fl.lit 0 0) config.current_deviation ≡ true
    pub power : fl.lt (fl.lit 0 0) config.power_deviation ≡ true
    pub thermal : fl.lt (fl.lit 0 0) config.thermal_warning ≡ true
    pub communication : fl.lt (fl.lit 0 0) config.poor_communication ≡ true
    pub step : fl.le (fl.lit 0 0) config.recovery_step ≡ true

module _ {F : Type 0} (fl : FloatOps F) (IsNumber : F → Type 0) (laws : IsOrdered fl IsNumber) where
  -- A sum of deductions: not below 0, and above it once anything was `found`.
  pub record Sum (found : Bool) (d : F) : Type 0 where
    pub low : fl.le (fl.lit 0 0) d ≡ true
    pub positive : found ≡ true → fl.lt (fl.lit 0 0) d ≡ true

  deduct-Sum :
      (present found : Bool) (amount d : F)
      → Sum found d
      → fl.lt (fl.lit 0 0) amount ≡ true
      → Sum (present || found) (deduct fl present amount d)
  deduct-Sum false found amount d sum above = sum
  deduct-Sum true found amount d sum above =
      let (_, _, more) = laws.add_up d amount sum.low (laws.lt_le _ _ above) in
      record {
        low = laws.le_trans _ _ _ (laws.lt_le _ _ above) more;
        positive = λ _. laws.lt_trans _ _ _ above more;
      }

  thermal-Sum :
      (o : HealthObservation) (config : HealthScoringConfig F) (found : Bool) (d : F)
      → Sum found d
      → IsScoring fl config
      → Sum (o.thermal_critical || (o.thermal_warning || found)) (thermal_deduction fl o config d)
  thermal-Sum o config found d sum c = elim (Bool-cases o.thermal_critical) [
    | inl hot ↦ rw hot (deduct-Sum true found config.critical_temperature d sum c.critical)
    | inr cool ↦ rw cool (deduct-Sum o.thermal_warning found config.thermal_warning d sum c.thermal)
  ]

  pub deductions-Sum :
      (o : HealthObservation) (config : HealthScoringConfig F)
      → IsScoring fl config
      → Sum (is_faulty o) (deductions_of fl o config)
  deductions-Sum o config c =
      let none_yet : Sum false (fl.lit 0 0) = record {
        low = laws.le_refl _ (laws.lit_number 0 0);
        positive = λ e. absurd (cc e);
      } in
      let lamp = deduct-Sum o.lamp_failure false _ _ none_yet c.lamp in
      let gear = deduct-Sum o.gear_failure _ _ _ lamp c.gear in
      let missing = deduct-Sum (not o.present) _ _ _ gear c.missing in
      let thermal = thermal-Sum o config _ _ missing c in
      let intermittent = deduct-Sum o.intermittent_fault _ _ _ thermal c.intermittent in
      let current = deduct-Sum o.current_drift _ _ _ intermittent c.current in
      let power = deduct-Sum o.power_drift _ _ _ current c.power in
      deduct-Sum o.poor_communication _ _ _ power c.communication

  pub deductions-faultless :
      (o : HealthObservation) (config : HealthScoringConfig F)
      → is_faulty o ≡ false
      → deductions_of fl o config ≡ fl.lit 0 0
  deductions-faultless o config fine = ground arith
