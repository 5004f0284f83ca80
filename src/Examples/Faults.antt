-- ===== src/Examples/Faults.antt =====
-- Examples of Health and System.
use savantix_dali_edge_contr.Prelude.{ℕ, ◌≡◌, refl, true, false, leb, if◌then◌else◌, [], ◌∷◌, arith}
use savantix_dali_edge_contr.Health.{
  FaultPersistence, new_persistence, HealthObservation, LightHealthEngine, default_scoring,
  default_observation, new_engine, evaluate,
}
use savantix_dali_edge_contr.Health.Deductions.{IsOrdered, IsScoring, is_faulty}
use savantix_dali_edge_contr.Health.Range.{IsScore, evaluate_all, evaluate-score}
use savantix_dali_edge_contr.Health.Persistence.{IsValid, observe_run, hysteresis}
use savantix_dali_edge_contr.System.{SystemMonitor, set_expected_task_count, heartbeat, new_monitor}
use savantix_dali_edge_contr.Examples.Fixtures.{millionths}

abbrev fault_watch : FaultPersistence
fault_watch = new_persistence 3 5 10

fault_watch-IsValid : IsValid fault_watch
fault_watch-IsValid = record {
  warning_in = (omega arith, omega arith);
  fault_in = (omega arith, omega arith);
  recovery_in = (omega arith, omega arith);
  abnormal_in = omega arith;
  consecutive_in = omega arith;
  healthy_in = omega arith;
}

hysteresis_example :
    let raised = observe_run true 5 fault_watch in
    let after = observe_run false 9 raised in
    (raised.warning_active ≡ true)
    × (raised.fault_active ≡ true)
    × (after.warning_active ≡ true)
    × (after.fault_active ≡ true)
hysteresis_example = hysteresis 5 9 fault_watch fault_watch-IsValid (omega arith) (omega arith)

abbrev hot_lamp : HealthObservation
hot_lamp = record {
  present = true;
  commanded_on = true;
  lamp_failure = true;
  gear_failure = false;
  thermal_warning = true;
  thermal_critical = false;
  current_drift = false;
  power_drift = false;
  intermittent_fault = false;
  poor_communication = false;
}

abbrev engine : LightHealthEngine ℕ
engine = record { config = default_scoring millionths; score = 100000000 }

abbrev watched : SystemMonitor
watched = heartbeat (set_expected_task_count new_monitor 1) 0 1000

abbrev IsNumber : ℕ → Type 0
IsNumber x = x ≡ x

millionths-IsOrdered : IsOrdered millionths IsNumber
millionths-IsOrdered = record {
  lit_number = λ m e. refl;
  le_refl = λ a n. ground arith;
  le_trans = λ a b c p q. ground arith;
  lt_le = λ a b p. ground arith;
  lt_irrefl = λ a. ground arith;
  lt_trans = λ a b c p q. ground arith;
  not_lt = λ a b n n' p. ground arith;
  lt_ne = λ a b p. ground arith;
  hundred = refl;
  add_up = λ a b p q. (refl, ground arith, ground arith);
  sub_down = λ a b p q r. (refl, ground arith);
  sub_zero = refl;
}

default_scoring-IsScoring : IsScoring millionths (default_scoring millionths)
default_scoring-IsScoring = record {
  lamp = refl;
  gear = refl;
  missing = refl;
  critical = refl;
  intermittent = refl;
  current = refl;
  power = refl;
  thermal = refl;
  communication = refl;
  step = refl;
}

abbrev hot : HealthObservation
hot = record default_observation { thermal_warning = true }

evaluate-score_example :
    let before = evaluate_all millionths (hot ∷ default_observation ∷ []) (new_engine millionths) in
    let new = (evaluate millionths before hot).0.health_score in
    IsScore millionths IsNumber new
    × ((if is_faulty hot then leb new before.score else leb before.score new) ≡ true)
evaluate-score_example =
    evaluate-score millionths IsNumber millionths-IsOrdered (hot ∷ default_observation ∷ []) hot
      (new_engine millionths) default_scoring-IsScoring
      (record { number = refl; low = refl; high = refl })
