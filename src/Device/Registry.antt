-- ===== src/Device/Registry.antt =====
-- DaliDeviceRegistry and its records, of
-- components/dali_device_manager/include/dali/device/dali_device_manager.h and dali_device_manager.cpp.
use savantix_dali_edge_contr.Prelude.{
  ℕ, ◌+◌, Bool, false, List, Option, none, some, get_or, set, replicate, FloatOps,
}
use savantix_dali_edge_contr.Core.{
  ShortAddress, Reading, unknown_reading, LightRealtimeData, LightLifetimeData, LightHealthData,
  default_realtime, default_lifetime, default_health,
}
pub mod Count

pub data DeviceLifecycle : Type 0 where
  unknown present missing duplicate_address : DeviceLifecycle

pub data CapabilityState : Type 0 where
  unknown supported unsupported : CapabilityState

pub data CapabilityFeature : Type 0 where
  basic_status device_type version physical_minimum energy power current : CapabilityFeature
  temperature operating_hours failure_counters diagnostics identification : CapabilityFeature

abbrev pub feature_code : CapabilityFeature → ℕ
feature_code CapabilityFeature.basic_status = 0
feature_code CapabilityFeature.device_type = 1
feature_code CapabilityFeature.version = 2
feature_code CapabilityFeature.physical_minimum = 3
feature_code CapabilityFeature.energy = 4
feature_code CapabilityFeature.power = 5
feature_code CapabilityFeature.current = 6
feature_code CapabilityFeature.temperature = 7
feature_code CapabilityFeature.operating_hours = 8
feature_code CapabilityFeature.failure_counters = 9
feature_code CapabilityFeature.diagnostics = 10
feature_code CapabilityFeature.identification = 11

-- `CapabilityFeature::Count`
abbrev pub feature_count : ℕ
feature_count = 12

pub record CapabilityEntry : Type 0 where
  pub state : CapabilityState
  pub consecutive_no_responses : ℕ

abbrev pub default_entry : CapabilityEntry
default_entry = record { state = CapabilityState.unknown; consecutive_no_responses = 0 }

-- The entries of DaliCapabilityMap, and its `at`.
abbrev pub DaliCapabilityMap : Type 0
DaliCapabilityMap = List CapabilityEntry

abbrev pub at : DaliCapabilityMap → CapabilityFeature → CapabilityEntry
at entries feature = get_or entries (feature_code feature) default_entry

pub record DaliDeviceRecord (F : Type 0) : Type 0 where
  pub address : ShortAddress
  pub lifecycle : DeviceLifecycle
  pub present : Bool
  pub missed_presence_checks : ℕ
  pub first_seen_uptime_ms : ℕ
  pub last_seen_uptime_ms : ℕ
  pub capabilities : DaliCapabilityMap
  pub realtime : LightRealtimeData F
  pub lifetime : LightLifetimeData
  pub health : LightHealthData F
  pub device_type : Reading ℕ
  pub version : Reading ℕ
  pub physical_minimum : Reading ℕ

pub record DaliDeviceRegistry (F : Type 0) : Type 0 where
  pub records : List (Option (DaliDeviceRecord F))
  pub count : ℕ

abbrev pub capacity : ℕ
capacity = 64

abbrev pub empty_registry : {F : Type 0} → DaliDeviceRegistry F
empty_registry = record { records = replicate capacity none; count = 0 }

-- `records_[address.value()]`
abbrev pub find : {F : Type 0} → DaliDeviceRegistry F → ShortAddress → Option (DaliDeviceRecord F)
find registry address = get_or registry.records address.value none

-- A write through the pointer that `find` returned.
abbrev pub write :
    {F : Type 0} → DaliDeviceRegistry F → ShortAddress → DaliDeviceRecord F → DaliDeviceRegistry F
write registry address r = record registry { records = set registry.records address.value (some r) }

module _ {F : Type 0} (fl : FloatOps F) where
  -- The constructor of DaliDeviceRecord.
  abbrev pub new_record : ShortAddress → ℕ → DaliDeviceRecord F
  new_record address now_ms = record {
    address = address;
    lifecycle = DeviceLifecycle.unknown;
    present = false;
    missed_presence_checks = 0;
    first_seen_uptime_ms = now_ms;
    last_seen_uptime_ms = now_ms;
    capabilities = replicate feature_count default_entry;
    realtime = record (default_realtime fl) { short_address = address.value };
    lifetime = default_lifetime;
    health = default_health fl;
    device_type = unknown_reading 0;
    version = unknown_reading 0;
    physical_minimum = unknown_reading 0;
  }

  -- The record that `upsert` returns a reference to, and the registry.
  unfoldable pub upsert :
      DaliDeviceRegistry F → ShortAddress → ℕ → DaliDeviceRecord F × DaliDeviceRegistry F
  upsert registry address now_ms = elim (find registry address) [
    | none ↦
        let fresh = new_record address now_ms in
        (
          fresh,
          record {
            records = set registry.records address.value (some fresh);
            count = registry.count + 1;
          },
        )
    | some r ↦
        let seen = record r { last_seen_uptime_ms = now_ms } in (seen, write registry address seen)
  ]
