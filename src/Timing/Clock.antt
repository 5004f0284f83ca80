-- ===== src/Timing/Clock.antt =====
-- The readings of the clock of EspTimeSource.
use savantix_dali_edge_contr.Prelude.{ℕ, ◌+◌, ◌-◌, ◌/◌, ◌^◌, ◌≤◌, ◌<◌, ◌≡◌, refl, true, arith}
use savantix_dali_edge_contr.Timing.{
  EspTimeSource, uptime_ms, unix_time_valid, unix_time_seconds, synchronise_unix_time,
}

-- Once synchronised to a time that leaves the 64 bits room for the uptime, the clock is valid, has not gone
-- back at a later reading of the timer, and has gone on by the seconds between the two readings or by one
-- second more at most. Readings before the synchronisation give its time.
pub synchronise_unix_time-monotone :
    (source : EspTimeSource) (unix_seconds uptime_at_sync_ms earlier later : ℕ)
    → earlier ≤ later
    → unix_seconds + later / 1000000 < 2 ^ 64
    → let source' = synchronise_unix_time source unix_seconds uptime_at_sync_ms in
      let before = unix_time_seconds source' earlier in
      let after = unix_time_seconds source' later in
      (unix_time_valid source' ≡ true)
      × (unix_seconds ≤ before)
      × (before ≤ after)
      × (after ≤ before + (later - earlier) / 1000000 + 1)
unfolding unix_time_valid unix_time_seconds synchronise_unix_time
synchronise_unix_time-monotone source unix_seconds uptime_at_sync_ms earlier later order room =
    (refl, ground arith, ground arith, ground arith)

-- Synchronising the clock to its own reading sets it back by one second at most, and never forward.
pub resynchronise :
    (source : EspTimeSource) (now later : ℕ)
    → source.synchronised ≡ true
    → now ≤ later
    → source.uptime_at_sync_ms ≤ now / 1000
    → source.unix_at_sync_seconds + later / 1000000 < 2 ^ 64
    → let source' = synchronise_unix_time source (unix_time_seconds source now) (uptime_ms now) in
      (unix_time_seconds source' later ≤ unix_time_seconds source later)
      × (unix_time_seconds source later ≤ unix_time_seconds source' later + 1)
unfolding uptime_ms unix_time_seconds synchronise_unix_time
resynchronise source now later valid order synced room = (ground arith, ground arith)
