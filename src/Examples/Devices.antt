-- ===== src/Examples/Devices.antt =====
-- Examples of Device/Scan and Device/Capabilities.
use savantix_dali_edge_contr.Prelude.{
  ℕ, ◌+◌, ◌≡◌, refl, true, false, [], ◌∷◌, some, none, arith, replicate,
}
use savantix_dali_edge_contr.Core.{ShortAddress, unavailable_reading, valid_reading}
use savantix_dali_edge_contr.Phy.{PhyResult}
use savantix_dali_edge_contr.Protocol.Query.{DaliQueryOutcome, DaliQueryResult, IDaliQueryClient}
use savantix_dali_edge_contr.Device.Registry.{
  DeviceLifecycle, CapabilityState, CapabilityFeature, at, DaliDeviceRecord, DaliDeviceRegistry,
  find, new_record,
}
use savantix_dali_edge_contr.Device.Scan.{
  Scan, DiscoveryChangeType, take_answer, empty_batch, add, change_at,
}
use savantix_dali_edge_contr.Device.Scan.Hysteresis.{feed, missing_after_three}
use savantix_dali_edge_contr.Device.Scan.Recovery.{back, recovery_after_collision_unreported}
use savantix_dali_edge_contr.Device.Capabilities.{Destination, conclude}
use savantix_dali_edge_contr.Device.Capabilities.Probes.{unsupported_after_two}
use savantix_dali_edge_contr.Examples.Fixtures.{millionths}

abbrev silence : DaliQueryResult
silence = record {
  outcome = DaliQueryOutcome.no_response;
  response = unavailable_reading 0;
  attempts = 4;
  phy_result = PhyResult.timeout;
}

abbrev clash : DaliQueryResult
clash = record silence { outcome = DaliQueryOutcome.collision; phy_result = PhyResult.collision }

abbrev answer : DaliQueryResult
answer = record {
  outcome = DaliQueryOutcome.ok;
  response = valid_reading 4 0 0 false;
  attempts = 1;
  phy_result = PhyResult.ok;
}

abbrev silent_line : IDaliQueryClient ℕ
silent_line = record { query = λ n address command priority. (silence, n + 1) }

abbrev lamp : ShortAddress
lamp = record { value = 0 }

abbrev known : DaliDeviceRecord ℕ
known = record (new_record millionths lamp 10) {
  lifecycle = DeviceLifecycle.present;
  present = true;
}

abbrev lost : DaliDeviceRecord ℕ
lost = record known {
  lifecycle = DeviceLifecycle.missing;
  present = false;
  missed_presence_checks = 3;
}

abbrev registry_of : DaliDeviceRecord ℕ → DaliDeviceRegistry ℕ
registry_of r = record { records = some r ∷ replicate 63 none; count = 1 }

abbrev scan_of : DaliDeviceRecord ℕ → Scan ℕ ℕ
scan_of r = record {
  client = 0;
  registry = registry_of r;
  duplicate_reported = replicate 64 false;
  batch = empty_batch;
}

missing_after_three_example :
    let s' =
      feed millionths silent_line 99 lamp (silence ∷ silence ∷ silence ∷ []) (scan_of known) in
    (find s'.registry lamp
      ≡ some (record known {
        missed_presence_checks = 3;
        lifecycle = DeviceLifecycle.missing;
        present = false;
      }))
    × (s'.batch
        ≡ (add empty_batch
            (change_at millionths silent_line 99 DiscoveryChangeType.device_missing lamp)).1)
missing_after_three_example =
    missing_after_three millionths silent_line 99 lamp (silence ∷ silence ∷ silence ∷ [])
      (scan_of known) known ((refl, refl), ((refl, refl), ((refl, refl), tt))) refl refl
      (omega arith) refl

recovery_after_collision_unreported_example :
    let s1 = take_answer millionths silent_line 99 (scan_of lost) lamp clash in
    let s2 = take_answer millionths silent_line 99 s1 lamp answer in
    (find s2.registry lamp ≡ some (back millionths silent_line 99 lamp lost))
    × (s2.batch ≡ s1.batch)
recovery_after_collision_unreported_example =
    recovery_after_collision_unreported millionths silent_line 99 lamp (scan_of lost) lost clash
      answer (omega arith) refl refl refl refl refl

unsupported_after_two_example :
    let r1 = conclude 99 CapabilityFeature.version Destination.version silence known in
    let r2 = conclude 99 CapabilityFeature.version Destination.version silence r1 in
    ((at r1.capabilities CapabilityFeature.version).state ≡ CapabilityState.unknown)
    × ((at r2.capabilities CapabilityFeature.version).state ≡ CapabilityState.unsupported)
unsupported_after_two_example =
    unsupported_after_two 99 CapabilityFeature.version Destination.version known silence silence
      refl refl (refl, refl) (refl, refl)

abbrev mute : DaliDeviceRecord ℕ
mute = record known {
  capabilities =
      replicate 12 (record { state = CapabilityState.unsupported; consecutive_no_responses = 2 });
}
