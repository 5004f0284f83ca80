-- ===== src/Timing.antt =====
-- EspTimeSource, of components/time_service/include/dali/time/esp_time_source.h and esp_time_source.cpp.
-- Every method takes its values in one critical section, so it is one step on the state. What
-- esp_timer_get_time returns is the argument `micros`.
use savantix_dali_edge_contr.Prelude.{
  ℕ, ◌+◌, ◌-◌, ◌/◌, Bool, true, false, not, ltb, if◌then◌else◌, u64,
}
pub mod Clock

pub record EspTimeSource : Type 0 where
  pub unix_at_sync_seconds : ℕ
  pub uptime_at_sync_ms : ℕ
  pub synchronised : Bool

abbrev pub new_time_source : EspTimeSource
new_time_source = record { unix_at_sync_seconds = 0; uptime_at_sync_ms = 0; synchronised = false }

unfoldable pub uptime_ms : ℕ → ℕ
uptime_ms micros = micros / 1000

unfoldable pub unix_time_valid : EspTimeSource → Bool
unix_time_valid source = source.synchronised

unfoldable pub unix_time_seconds : EspTimeSource → ℕ → ℕ
unfolding uptime_ms
unix_time_seconds source micros =
    let current_uptime = uptime_ms micros in
    if not source.synchronised
    then 0
    else if ltb current_uptime source.uptime_at_sync_ms
    then source.unix_at_sync_seconds
    else u64 (source.unix_at_sync_seconds + (current_uptime - source.uptime_at_sync_ms) / 1000)

unfoldable pub synchronise_unix_time : EspTimeSource → ℕ → ℕ → EspTimeSource
synchronise_unix_time source unix_seconds uptime_at_sync_ms = record {
  unix_at_sync_seconds = unix_seconds;
  uptime_at_sync_ms = uptime_at_sync_ms;
  synchronised = true;
}
