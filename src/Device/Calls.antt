-- ===== src/Device/Calls.antt =====
-- Sequences of calls of DaliDeviceManager, over any query client.
use savantix_dali_edge_contr.Prelude.{
  ℕ, ◌≡◌, refl, ◌∙◌, Bool, List, [], ◌∷◌, ◌++◌, inl, inr, Bool-cases, Option-cases, FloatOps, ◌||◌,
}
use savantix_dali_edge_contr.Core.{ShortAddress, Reading}
use savantix_dali_edge_contr.Protocol.Commands.{DaliCommand}
use savantix_dali_edge_contr.Protocol.Query.{DaliQueryResult, IDaliQueryClient}
use savantix_dali_edge_contr.Device.Registry.{
  CapabilityFeature, DaliDeviceRecord, DaliDeviceRegistry, find, at,
}
use savantix_dali_edge_contr.Device.Registry.Count.{IsValid, write-IsValid}
use savantix_dali_edge_contr.Device.Scan.{
  DiscoveryBatch, scan_presence, is_valid_response, is_bus_failure, outcome_is_collision,
}
use savantix_dali_edge_contr.Device.Scan.Slots.{scan_presence-IsValid}
use savantix_dali_edge_contr.Device.Capabilities.{
  Destination, is_unsupported, store, conclude, probe, probe_all, detect_core_capabilities,
}

-- The calls of the device manager, each with the time that it is given.
pub data Call : Type 0 where
  scan : ℕ → Call
  detect : ShortAddress → ℕ → Call

-- What the device manager keeps between two calls, and its client.
pub record Managed (C F : Type 0) : Type 0 where
  pub client : C
  pub registry : DaliDeviceRegistry F
  pub duplicate_reported : List Bool

module _ {C F : Type 0} (fl : FloatOps F) (api : IDaliQueryClient C) where
  -- A call, with the batch of changes that a scan returns.
  abbrev pub call : Call → Managed C F → List DiscoveryBatch × Managed C F
  call (Call.scan now) m =
      let s = scan_presence fl api now m.client m.registry m.duplicate_reported in
      (
        s.batch ∷ [],
        record {
          client = s.client;
          registry = s.registry;
          duplicate_reported = s.duplicate_reported;
        },
      )
  call (Call.detect address now) m =
      let (client', registry') = detect_core_capabilities api address now m.client m.registry in
      ([], record m { client = client'; registry = registry' })

  abbrev pub run : List Call → Managed C F → List DiscoveryBatch × Managed C F
  run [] m = ([], m)
  run (c ∷ calls) m =
      let (batches, m') = call c m in let (later, m'') = run calls m' in (batches ++ later, m'')

-- A probe leaves the address of the record.
module _ {F : Type 0} where
  store-address :
      (destination : Destination) (reading : Reading ℕ) (r : DaliDeviceRecord F)
      → (store destination reading r).address ≡ r.address
  store-address Destination.nowhere reading r = refl
  store-address Destination.device_type reading r = refl
  store-address Destination.version reading r = refl
  store-address Destination.physical_minimum reading r = refl

  conclude-address :
      (now : ℕ) (feature : CapabilityFeature) (destination : Destination) (result : DaliQueryResult)
      (r : DaliDeviceRecord F)
      → (conclude now feature destination result r).address ≡ r.address
  unfolding conclude
  conclude-address now feature destination result r = elim (Bool-cases (is_valid_response result)) [
    | inl valid ↦ rw valid (store-address destination _ _)
    | inr other ↦ elim (Bool-cases (is_bus_failure result || outcome_is_collision result.outcome)) [
      | inl skip ↦ rw (other, skip) refl
      | inr counts ↦ rw (other, counts) refl
    ]
  ]

module _ {C F : Type 0} (api : IDaliQueryClient C) (address : ShortAddress) (now : ℕ) where
  probe-address :
      (feature : CapabilityFeature) (command : DaliCommand) (destination : Destination)
      (s : C × DaliDeviceRecord F)
      → (probe api address now feature command destination s).1.address ≡ s.1.address
  unfolding probe
  probe-address feature command destination (c, r) =
      elim (Bool-cases (is_unsupported (at r.capabilities feature).state)) [
        | inl off ↦ rw off refl
        | inr on ↦ rw on (conclude-address now feature destination _ r)
      ]

  probe_all-address :
      (s : C × DaliDeviceRecord F) → (probe_all api address now s).1.address ≡ s.1.address
  unfolding probe_all
  probe_all-address s =
      probe-address _ _ _ _
      ∙ (probe-address _ _ _ _ ∙ (probe-address _ _ _ _ ∙ probe-address _ _ _ s))

  detect-IsValid :
      (client : C) (registry : DaliDeviceRegistry F)
      → IsValid registry
      → IsValid (detect_core_capabilities api address now client registry).1
  unfolding detect_core_capabilities
  detect-IsValid client registry v = elim (Option-cases (find registry address)) [
    | inl absent ↦ rw (absent, detect_core_capabilities) v
    | inr (r, there) ↦
        rw (there, detect_core_capabilities)
          (write-IsValid registry address r _ v there (probe_all-address (client, r)))
  ]

module _ {C F : Type 0} (fl : FloatOps F) (api : IDaliQueryClient C) where
  call-IsValid :
      (c : Call) (m : Managed C F) → IsValid m.registry → IsValid (call fl api c m).1.registry
  call-IsValid (Call.scan now) m v =
      scan_presence-IsValid fl api now m.client m.registry m.duplicate_reported v
  call-IsValid (Call.detect address now) m v = detect-IsValid api address now m.client m.registry v

  -- No sequence of presence scans and capability probes makes a valid registry invalid, whatever the client
  -- answers: it has 64 slots, each record in the slot of its own address, and the count is that of the
  -- occupied slots.
  pub run-IsValid :
      (calls : List Call) (m : Managed C F)
      → IsValid m.registry
      → IsValid (run fl api calls m).1.registry
  run-IsValid [] m v = v
  run-IsValid (c ∷ calls) m v = run-IsValid calls (call fl api c m).1 (call-IsValid c m v)
