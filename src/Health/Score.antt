-- ===== src/Health/Score.antt =====
-- The fault flags and the state that LightHealthEngine reports.
use savantix_dali_edge_contr.Prelude.{ℕ, ◌≡◌, arith, Bool, not, ◌&&◌, ◌==◌, bit_and, FloatOps}
use savantix_dali_edge_contr.Health.{HealthObservation, LightHealthEngine, flags_of, evaluate}

-- Whether the flag of a bit is set.
abbrev pub has_flag : ℕ → ℕ → Bool
has_flag flags mask = not (bit_and flags mask == 0)

abbrev flags_from : Bool → Bool → Bool → Bool → Bool → HealthObservation → HealthObservation
flags_from lamp gear present critical warm o = record o {
  lamp_failure = lamp;
  gear_failure = gear;
  present = present;
  thermal_critical = critical;
  thermal_warning = warm;
}

abbrev Readable : HealthObservation → Type 0
Readable o =
    (has_flag (flags_of o) 1 ≡ o.lamp_failure)
    × (has_flag (flags_of o) 2 ≡ o.gear_failure)
    × (has_flag (flags_of o) 4 ≡ not o.present)
    × (has_flag (flags_of o) 8 ≡ o.thermal_critical)
    × (has_flag (flags_of o) 16 ≡ (o.thermal_warning && not o.thermal_critical))

readable :
    (lamp gear present critical warm : Bool) (o : HealthObservation)
    → Readable (flags_from lamp gear present critical warm o)
readable lamp gear present critical warm o = ground arith

-- The flags that `evaluate` returns tell a lamp failure, a gear failure, a missing device and a critical
-- temperature each by a bit of its own; the bit of the thermal warning is not set at a critical temperature.
pub flags_readable :
    {F : Type 0} (fl : FloatOps F) (engine : LightHealthEngine F) (o : HealthObservation)
    → let flags = (evaluate fl engine o).0.active_fault_flags in
      (has_flag flags 1 ≡ o.lamp_failure)
      × (has_flag flags 2 ≡ o.gear_failure)
      × (has_flag flags 4 ≡ not o.present)
      × (has_flag flags 8 ≡ o.thermal_critical)
      × (has_flag flags 16 ≡ (o.thermal_warning && not o.thermal_critical))
unfolding evaluate
flags_readable fl engine o =
    readable o.lamp_failure o.gear_failure o.present o.thermal_critical o.thermal_warning o
