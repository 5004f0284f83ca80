-- ===== src/Examples/Measurements.antt =====
-- Examples of Baseline, Trend and Diagnostics.
use savantix_dali_edge_contr.Prelude.{
  ℕ, ◌≡◌, true, false, not, ◌||◌, [], ◌∷◌, arith, ltb, ◌==◌, ◌&&◌,
}
use savantix_dali_edge_contr.Core.{valid_reading, estimated_reading}
use savantix_dali_edge_contr.Baseline.{
  LevelBand, band_for, BaselineObservation, default_stats, new_store, mean_input_power,
  mean_output_current, sample_count,
}
use savantix_dali_edge_contr.Baseline.Bands.{update_all, accumulate_all, update_all-bands}
use savantix_dali_edge_contr.Trend.{Sample, new_series, minimum, maximum, evaluate}
use savantix_dali_edge_contr.Trend.Extremes.{IsStrict, IsExtreme, add_all, after, add_all-extremes}
use savantix_dali_edge_contr.Trend.Window.{add_samples, evaluate-recent}
use savantix_dali_edge_contr.Diagnostics.{DiagnosticObservation, default_observation}
use savantix_dali_edge_contr.Diagnostics
use savantix_dali_edge_contr.Diagnostics.Agreement.{flag_of_cause, is_out, seen_as, evaluate-agrees}
use savantix_dali_edge_contr.Health.{new_engine}
use savantix_dali_edge_contr.Health
use savantix_dali_edge_contr.Health.Score.{has_flag}
use savantix_dali_edge_contr.Examples.Fixtures.{millionths}

abbrev measured : BaselineObservation ℕ
measured = record {
  stable = true;
  healthy = true;
  communication_acceptable = true;
  input_power = valid_reading 20000000 1000 0 false;
  output_current = estimated_reading 300000 1000;
}

abbrev disturbed : BaselineObservation ℕ
disturbed = record measured { stable = false }

update_all-bands_example :
    let store =
      update_all millionths
        ((50, measured) ∷ (10, measured) ∷ (50, disturbed) ∷ [])
        (new_store millionths) in
    let own = accumulate_all millionths (measured ∷ []) (default_stats millionths) in
    (sample_count millionths store LevelBand.band3 ≡ own.count)
    × (mean_input_power millionths store LevelBand.band3 ≡ own.input_power_mean)
    × (mean_output_current millionths store LevelBand.band3 ≡ own.output_current_mean)
unfolding band_for
update_all-bands_example =
    update_all-bands millionths ((50, measured) ∷ (10, measured) ∷ (50, disturbed) ∷ [])
      LevelBand.band3

ltb-IsStrict : IsStrict ltb
ltb-IsStrict = record { irrefl = λ x. ground arith; trans = λ x y z p q. ground arith }

add_all-extremes_example :
    let b = add_all millionths (7 ∷ 9 ∷ 4 ∷ []) in
    (b.count ≡ 3)
    × IsExtreme ltb (minimum millionths b) (7 ∷ 9 ∷ 4 ∷ [])
    × IsExtreme (after millionths) (maximum millionths b) (7 ∷ 9 ∷ 4 ∷ [])
add_all-extremes_example = add_all-extremes millionths ltb-IsStrict 7 (9 ∷ 4 ∷ []) (omega arith)

abbrev old_sample : Sample ℕ
old_sample = record { timestamp_ms = 1000; value = 5000000 }

abbrev new_sample : Sample ℕ
new_sample = record { timestamp_ms = 3000000000; value = 6000000 }

evaluate-recent_example :
    let result =
      evaluate millionths
        (add_samples millionths (old_sample ∷ new_sample ∷ []) (new_series millionths))
        3000001000 in
    (result.sample_count ≡ 1) × ((result.statistically_meaningful && true) ≡ false)
evaluate-recent_example = evaluate-recent millionths (old_sample ∷ new_sample ∷ []) 3000001000

abbrev overheated : DiagnosticObservation ℕ
overheated = record (default_observation millionths) { temperature_c = 95000000 }

evaluate-agrees_example :
    let cause = Diagnostics.evaluate millionths overheated in
    let flag = flag_of_cause cause.event_type in
    let health =
      (Health.evaluate millionths (new_engine millionths) (seen_as millionths overheated)).0 in
    ((flag == 0 || has_flag health.active_fault_flags flag) ≡ true)
    × ((not cause.critical || is_out health.state) ≡ true)
evaluate-agrees_example = evaluate-agrees millionths overheated (new_engine millionths)
