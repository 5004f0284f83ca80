-- ===== src/Device/Capabilities.antt =====
-- DaliDeviceManager::detectCoreCapabilities of components/dali_device_manager/dali_device_manager.cpp.
use savantix_dali_edge_contr.Prelude.{
  ℕ, ◌+◌, Bool, true, false, ◌||◌, none, some, ltb, leb, if◌then◌else◌, set, u8,
}
use savantix_dali_edge_contr.Core.{ShortAddress, Reading, valid_reading}
use savantix_dali_edge_contr.Protocol.Commands.{DaliCommand}
use savantix_dali_edge_contr.Protocol.Queue.{CommandPriority}
use savantix_dali_edge_contr.Protocol.Query.{DaliQueryResult, IDaliQueryClient}
use savantix_dali_edge_contr.Device.Registry.{
  CapabilityState, CapabilityFeature, CapabilityEntry, feature_code, at, DaliDeviceRecord,
  DaliDeviceRegistry, find, write,
}
use savantix_dali_edge_contr.Device.Scan.{is_valid_response, is_bus_failure, outcome_is_collision}
pub mod Probes

abbrev pub is_unsupported : CapabilityState → Bool
is_unsupported CapabilityState.unsupported = true
is_unsupported _ = false

-- The pointer `destination`: null, or a field of the record.
pub data Destination : Type 0 where
  nowhere device_type version physical_minimum : Destination

module _ {F : Type 0} where
  abbrev pub store : Destination → Reading ℕ → DaliDeviceRecord F → DaliDeviceRecord F
  store Destination.nowhere reading r = r
  store Destination.device_type reading r = record r { device_type = reading }
  store Destination.version reading r = record r { version = reading }
  store Destination.physical_minimum reading r = record r { physical_minimum = reading }

  -- A write through the reference `entry`.
  abbrev pub set_entry :
      CapabilityFeature → CapabilityEntry → DaliDeviceRecord F → DaliDeviceRecord F
  set_entry feature entry r = record r {
    capabilities = set r.capabilities (feature_code feature) entry;
  }

  -- The lambda `probe`, after its query.
  unfoldable pub conclude :
      ℕ
      → CapabilityFeature
      → Destination
      → DaliQueryResult
      → DaliDeviceRecord F
      → DaliDeviceRecord F
  conclude now_ms feature destination result r =
      let entry = at r.capabilities feature in
      if is_valid_response result
      then store destination (valid_reading result.response.value now_ms 0 false) (
          set_entry feature
            (record { state = CapabilityState.supported; consecutive_no_responses = 0 }) r)
      else if is_bus_failure result || outcome_is_collision result.outcome
      then r
      else let count =
          if ltb entry.consecutive_no_responses 2
          then u8 (entry.consecutive_no_responses + 1)
          else entry.consecutive_no_responses in
        set_entry feature
          (record {
            state = if leb 2 count then CapabilityState.unsupported else entry.state;
            consecutive_no_responses = count;
          })
          r

module _ {C F : Type 0} (api : IDaliQueryClient C) (address : ShortAddress) (now_ms : ℕ) where
  -- The lambda `probe`.
  unfoldable pub probe :
      CapabilityFeature
      → DaliCommand
      → Destination
      → C × DaliDeviceRecord F
      → C × DaliDeviceRecord F
  probe feature command destination (client, r) =
      let (result, client') = api.query client address command CommandPriority.high in
      if is_unsupported (at r.capabilities feature).state
      then (client, r)
      else (client', conclude now_ms feature destination result r)

  unfoldable pub probe_all : C × DaliDeviceRecord F → C × DaliDeviceRecord F
  probe_all s0 =
      let s1 =
        probe CapabilityFeature.basic_status DaliCommand.query_status Destination.nowhere s0 in
      let s2 =
        probe CapabilityFeature.device_type DaliCommand.query_device_type Destination.device_type
          s1 in
      let s3 =
        probe CapabilityFeature.version DaliCommand.query_version_number Destination.version s2 in
      probe CapabilityFeature.physical_minimum DaliCommand.query_physical_minimum
        Destination.physical_minimum s3

  -- The batch of changes that the source returns is always empty.
  unfoldable pub detect_core_capabilities : C → DaliDeviceRegistry F → C × DaliDeviceRegistry F
  detect_core_capabilities client registry = elim (find registry address) [
    | none ↦ (client, registry)
    | some r ↦ let (client', r') = probe_all (client, r) in (client', write registry address r')
  ]
