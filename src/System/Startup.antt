-- ===== src/System/Startup.antt =====
-- What a start of the program that succeeds has checked.
use savantix_dali_edge_contr.Prelude.{
  ◌≤◌, ◌<◌, ◌≡◌, ◌↔◌, true, false, arith, if◌then◌else◌, FloatOps,
}
use savantix_dali_edge_contr.Phy.{is_ok, IDaliPhy}
use savantix_dali_edge_contr.Protocol.Transaction.{absolute_max_retries}
use savantix_dali_edge_contr.System.{
  SmartLightConfig, FoundationResult, validate, initialise_foundation,
}

module _ {F : Type 0} (fl : FloatOps F) where
  -- A configuration that is accepted has from 1 to 64 lights, and as many retries as a transaction accepts
  -- at most; its poll periods and its persistence samples are not 0.
  pub validate_bounds :
      (c : SmartLightConfig F)
      → validate fl c ≡ true
      → (0 < c.maximum_lights)
        × (c.maximum_lights ≤ 64)
        × (c.max_command_retries ≤ absolute_max_retries)
        × (0 < c.on_status_poll_ms)
        × (0 < c.off_status_poll_ms)
        × (0 < c.warning_status_poll_ms)
        × (0 < c.warning_persistence_samples)
        × (0 < c.fault_persistence_samples)
        × (0 < c.recovery_persistence_samples)
  unfolding validate
  validate_bounds c h = ground arith

  -- The start reports `ready` just when the configuration is accepted, the PHY's `init` answers `ok`, and
  -- the PHY is then initialised, powered and healthy with no stuck line; the PHY is initialised only under a
  -- configuration that is accepted.
  pub initialise_foundation_ready :
      {S : Type 0} (api : IDaliPhy S) (c : SmartLightConfig F) (phy : S)
      → let out = initialise_foundation fl api c phy in
        let health = api.health (api.init phy).1 in
        ((out.0 ≡ FoundationResult.ready) ↔ (
          (validate fl c ≡ true)
          × (is_ok (api.init phy).0 ≡ true)
          × (health.initialised ≡ true)
          × (health.bus_powered ≡ true)
          × (health.transceiver_healthy ≡ true)
          × (health.line_stuck_high ≡ false)
          × (health.line_stuck_low ≡ false)))
        × (out.1 ≡ (if validate fl c then (api.init phy).1 else phy))
  unfolding initialise_foundation
  initialise_foundation_ready api c phy = ground arith
