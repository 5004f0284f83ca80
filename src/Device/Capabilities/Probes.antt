-- ===== src/Device/Capabilities/Probes.antt =====
-- When a capability is written off, and that it is then not asked for again.
use savantix_dali_edge_contr.Prelude.{
  ℕ, ◌+◌, ◌<◌, ◌≡◌, true, false, ◌||◌, some, arith, leb, if◌then◌else◌, length, get_or-set_self,
  length-set, ◌∙◌, ap,
}
use savantix_dali_edge_contr.Core.{ShortAddress}
use savantix_dali_edge_contr.Protocol.Commands.{DaliCommand}
use savantix_dali_edge_contr.Protocol.Query.{DaliQueryResult, IDaliQueryClient}
use savantix_dali_edge_contr.Device.Registry.{
  CapabilityState, CapabilityFeature, CapabilityEntry, feature_code, feature_count, at,
  default_entry, DaliDeviceRecord, DaliDeviceRegistry, find, write,
}
use savantix_dali_edge_contr.Device.Scan.{is_valid_response, is_bus_failure, outcome_is_collision}
use savantix_dali_edge_contr.Device.Capabilities.{
  is_unsupported, Destination, conclude, probe, probe_all, detect_core_capabilities,
}

-- A failure that counts: no valid response, no bus failure and no collision.
abbrev pub IsRefusal : DaliQueryResult → Type 0
IsRefusal x =
    (is_valid_response x ≡ false) × ((is_bus_failure x || outcome_is_collision x.outcome) ≡ false)

feature_code-lt : (f : CapabilityFeature) → feature_code f < feature_count
feature_code-lt CapabilityFeature.basic_status = omega arith
feature_code-lt _ = omega arith

module _ {F : Type 0} (now : ℕ) (f : CapabilityFeature) (dest : Destination) where
  refusal :
      (r : DaliDeviceRecord F) (x : DaliQueryResult) (n : ℕ)
      → IsRefusal x
      → length r.capabilities ≡ feature_count
      → (at r.capabilities f).consecutive_no_responses ≡ n
      → n < 2
      → let r' = conclude now f dest x r in
        (length r'.capabilities ≡ feature_count)
        × (at r'.capabilities f ≡ record {
          state =
              if leb 2 (n + 1) then CapabilityState.unsupported else (at r.capabilities f).state;
          consecutive_no_responses = n + 1;
        })
  unfolding conclude
  refusal r x n q size e h =
      rw (q.0, q.1)
        (
          omega (arith, size, length-set r.capabilities (feature_code f) _),
          get_or-set_self r.capabilities (feature_code f) _ default_entry
                (omega (arith, feature_code-lt f))
              ∙ rw e (ground arith),
        )

  -- Two refusals in a row, the first of a row, write one of a record's 12 capabilities off: the first leaves its state as it was, the second makes
  -- it unsupported. Bus failures and collisions are not refusals.
  pub unsupported_after_two :
      (r : DaliDeviceRecord F) (x y : DaliQueryResult)
      → length r.capabilities ≡ feature_count
      → (at r.capabilities f).consecutive_no_responses ≡ 0
      → IsRefusal x
      → IsRefusal y
      → let r1 = conclude now f dest x r in
        let r2 = conclude now f dest y r1 in
        ((at r1.capabilities f).state ≡ (at r.capabilities f).state)
        × ((at r2.capabilities f).state ≡ CapabilityState.unsupported)
  unsupported_after_two r x y size e qx qy =
      let (size1, e1) = refusal r x 0 qx size e (omega arith) in
      let count1 = ap (λ (c : CapabilityEntry). c.consecutive_no_responses) e1 in
      let (size2, e2) = refusal (conclude now f dest x r) y 1 qy size1 count1 (omega arith) in
      (ap (λ (c : CapabilityEntry). c.state) e1, ap (λ (c : CapabilityEntry). c.state) e2)

module _ {C F : Type 0} (api : IDaliQueryClient C) (a : ShortAddress) (now : ℕ) (client : C) where
  abbrev WrittenOff : CapabilityFeature → DaliDeviceRecord F → Type 0
  WrittenOff f r = is_unsupported (at r.capabilities f).state ≡ true

  probe_skips :
      (f : CapabilityFeature) (c : DaliCommand) (dest : Destination) (r : DaliDeviceRecord F)
      → WrittenOff f r
      → probe api a now f c dest (client, r) ≡ (client, r)
  unfolding probe
  probe_skips f c dest r u = rw u

  probe_all_skips :
      (r : DaliDeviceRecord F)
      → WrittenOff CapabilityFeature.basic_status r
      → WrittenOff CapabilityFeature.device_type r
      → WrittenOff CapabilityFeature.version r
      → WrittenOff CapabilityFeature.physical_minimum r
      → probe_all api a now (client, r) ≡ (client, r)
  unfolding probe_all
  probe_all_skips r u1 u2 u3 u4 = rw (
    probe_skips CapabilityFeature.basic_status DaliCommand.query_status Destination.nowhere r u1,
    probe_skips CapabilityFeature.device_type DaliCommand.query_device_type Destination.device_type
        r u2,
    probe_skips CapabilityFeature.version DaliCommand.query_version_number Destination.version r u3,
    probe_skips CapabilityFeature.physical_minimum DaliCommand.query_physical_minimum
        Destination.physical_minimum r u4,
  )

  -- A device whose four core capabilities are written off is not asked again: the client is not called,
  -- and its record stays as it was.
  pub detect-WrittenOff :
      (registry : DaliDeviceRegistry F) (r : DaliDeviceRecord F)
      → find registry a ≡ some r
      → WrittenOff CapabilityFeature.basic_status r
      → WrittenOff CapabilityFeature.device_type r
      → WrittenOff CapabilityFeature.version r
      → WrittenOff CapabilityFeature.physical_minimum r
      → detect_core_capabilities api a now client registry ≡ (client, write registry a r)
  unfolding detect_core_capabilities
  detect-WrittenOff registry r found u1 u2 u3 u4 =
      rw (found, detect_core_capabilities) (rw (probe_all_skips r u1 u2 u3 u4))
