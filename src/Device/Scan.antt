-- ===== src/Device/Scan.antt =====
-- DaliDeviceManager::scanPresence of components/dali_device_manager/dali_device_manager.cpp.
use savantix_dali_edge_contr.Prelude.{
  ℕ, zero, suc, ◌+◌, Bool, true, false, not, ◌&&◌, ◌||◌, List, Option, none, some, ltb, leb, ◌==◌,
  if◌then◌else◌, get_or, set, replicate, u8, FloatOps,
}
use savantix_dali_edge_contr.Core.{ShortAddress, has_value}
use savantix_dali_edge_contr.Phy.{is_bus_power_lost}
use savantix_dali_edge_contr.Protocol.Commands.{DaliCommand}
use savantix_dali_edge_contr.Protocol.Queue.{CommandPriority}
use savantix_dali_edge_contr.Protocol.Query.{
  DaliQueryOutcome, DaliQueryResult, IDaliQueryClient, outcome_is_ok,
}
use savantix_dali_edge_contr.Device.Registry.{
  DeviceLifecycle, DaliDeviceRecord, DaliDeviceRegistry, capacity, find, write, upsert,
}
pub mod Slots
pub mod Hysteresis
pub mod Recovery

pub data DiscoveryChangeType : Type 0 where
  device_discovered device_missing device_recovered : DiscoveryChangeType
  duplicate_address_suspected : DiscoveryChangeType

pub record DiscoveryChange : Type 0 where
  pub kind : DiscoveryChangeType
  pub address : ShortAddress
  pub uptime_ms : ℕ

abbrev pub default_change : DiscoveryChange
default_change = record {
  kind = DiscoveryChangeType.device_discovered;
  address = record { value = 0 };
  uptime_ms = 0;
}

pub record DiscoveryBatch : Type 0 where
  pub changes : List DiscoveryChange
  pub size : ℕ

abbrev pub batch_capacity : ℕ
batch_capacity = 64

abbrev pub empty_batch : DiscoveryBatch
empty_batch = record { changes = replicate batch_capacity default_change; size = 0 }

unfoldable pub add : DiscoveryBatch → DiscoveryChange → Bool × DiscoveryBatch
add batch change =
    if batch.size == batch_capacity
    then (false, batch)
    else (true, record { changes = set batch.changes batch.size change; size = batch.size + 1 })

abbrev pub is_valid_response : DaliQueryResult → Bool
is_valid_response result = outcome_is_ok result.outcome && has_value result.response

abbrev pub outcome_is_collision : DaliQueryOutcome → Bool
outcome_is_collision DaliQueryOutcome.collision = true
outcome_is_collision _ = false

abbrev pub outcome_is_bus_failure : DaliQueryOutcome → Bool
outcome_is_bus_failure DaliQueryOutcome.bus_failure = true
outcome_is_bus_failure _ = false

abbrev pub is_bus_failure : DaliQueryResult → Bool
is_bus_failure result = outcome_is_bus_failure result.outcome || is_bus_power_lost result.phy_result

abbrev pub is_missing : DeviceLifecycle → Bool
is_missing DeviceLifecycle.missing = true
is_missing _ = false

-- The variables of the scan: the client behind its interface, the registry, the static array
-- `duplicateReported`, which outlives the call, and the batch.
pub record Scan (C F : Type 0) : Type 0 where
  pub client : C
  pub registry : DaliDeviceRegistry F
  pub duplicate_reported : List Bool
  pub batch : DiscoveryBatch

module _ {C F : Type 0} (fl : FloatOps F) (api : IDaliQueryClient C) (now_ms : ℕ) where
  abbrev pub change_at : DiscoveryChangeType → ShortAddress → DiscoveryChange
  change_at kind address = record { kind = kind; address = address; uptime_ms = now_ms }

  -- `batch.add(...)`, whose result is ignored.
  abbrev pub report : Scan C F → DiscoveryChangeType → ShortAddress → Scan C F
  report s kind address = record s { batch = (add s.batch (change_at kind address)).1 }

  abbrev pub mark_present : DaliDeviceRecord F → DaliDeviceRecord F
  mark_present r = record r {
    lifecycle = DeviceLifecycle.present;
    present = true;
    missed_presence_checks = 0;
  }

  -- A valid response, with `slot` what `find` gave.
  abbrev pub responded : Scan C F → ShortAddress → Option (DaliDeviceRecord F) → Scan C F
  responded s address none =
      let (fresh, registry') = upsert fl s.registry address now_ms in
      report (record s { registry = write registry' address (mark_present fresh) })
        DiscoveryChangeType.device_discovered address
  responded s address (some r) =
      let s' = record s {
        registry =
            write s.registry address (record (mark_present r) { last_seen_uptime_ms = now_ms });
      } in
      if is_missing r.lifecycle then report s' DiscoveryChangeType.device_recovered address else s'

  -- A collision.
  abbrev pub collided : Scan C F → ShortAddress → Option (DaliDeviceRecord F) → Scan C F
  collided s address slot =
      let s' : Scan C F = elim slot [
        | none ↦ s
        | some r ↦ record s {
          registry =
              write s.registry address (record r { lifecycle = DeviceLifecycle.duplicate_address });
        }
      ] in
      if not (get_or s.duplicate_reported address.value false)
      then report (record s' { duplicate_reported = set s.duplicate_reported address.value true })
          DiscoveryChangeType.duplicate_address_suspected address
      else s'

  -- Any other response.
  abbrev pub silent :
      Scan C F → ShortAddress → DaliQueryResult → Option (DaliDeviceRecord F) → Scan C F
  silent s address result none = s
  silent s address result (some r) =
      if is_bus_failure result || is_missing r.lifecycle
      then s
      else let missed =
          if ltb r.missed_presence_checks 3
          then u8 (r.missed_presence_checks + 1)
          else r.missed_presence_checks in
        let counted = record r { missed_presence_checks = missed } in
        if leb 3 missed
        then report
            (record s {
              registry =
                  write s.registry address
                    (record counted { lifecycle = DeviceLifecycle.missing; present = false });
            })
            DiscoveryChangeType.device_missing address
        else record s { registry = write s.registry address counted }

  -- The body of the loop, after the query.
  unfoldable pub take_answer : Scan C F → ShortAddress → DaliQueryResult → Scan C F
  take_answer s address result =
      let slot = find s.registry address in
      if is_valid_response result
      then responded
          (record s { duplicate_reported = set s.duplicate_reported address.value false }) address
          slot
      else if outcome_is_collision result.outcome
      then collided s address slot
      else silent s address result slot

  -- The body of the loop.
  unfoldable pub scan_address : ℕ → Scan C F → Scan C F
  scan_address raw s =
      let address : ShortAddress = record { value = raw } in
      let (result, client') =
        api.query s.client address DaliCommand.query_control_gear_present CommandPriority.high in
      take_answer (record s { client = client' }) address result

  -- `for (raw = 0; raw < kCapacity; ++raw)`, with `n` rounds left.
  unfoldable pub scan_from : ℕ → ℕ → Scan C F → Scan C F
  scan_from zero raw s = s
  scan_from (suc n) raw s = scan_from n (raw + 1) (scan_address raw s)

  unfoldable pub scan_presence : C → DaliDeviceRegistry F → List Bool → Scan C F
  scan_presence client registry duplicate_reported = scan_from capacity 0 (record {
    client = client;
    registry = registry;
    duplicate_reported = duplicate_reported;
    batch = empty_batch;
  })
