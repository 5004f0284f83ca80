-- ===== src/Demo.antt =====
-- DemoController, of components/demo_controller/include/dali/demo/demo_controller.h and
-- demo_controller.cpp: the device manager, the event manager, the gateway session and four health engines
-- over a simulated client.
use savantix_dali_edge_contr.Prelude.{
  ℕ, zero, suc, ◌+◌, ◌/◌, ◌%◌, Bool, true, false, ◌&&◌, ◌||◌, List, Option, none, some, ltb, leb,
  ◌==◌, if◌then◌else◌, get_or, set, replicate, u32, FloatOps,
}
use savantix_dali_edge_contr.Core.{
  ShortAddress, LightEvent, LightEventType, EventSeverity, event_code, severity_code, default_event,
  valid_reading, unavailable_reading,
}
use savantix_dali_edge_contr.Phy.{PhyResult}
use savantix_dali_edge_contr.Protocol.Commands.{DaliCommand, command_code}
use savantix_dali_edge_contr.Protocol.Queue.{CommandPriority}
use savantix_dali_edge_contr.Protocol.Query.{DaliQueryOutcome, DaliQueryResult, IDaliQueryClient}
use savantix_dali_edge_contr.Device.Registry.{DaliDeviceRegistry, empty_registry}
use savantix_dali_edge_contr.Device.Scan.{
  DiscoveryChangeType, DiscoveryChange, DiscoveryBatch, default_change, scan_presence,
}
use savantix_dali_edge_contr.Events.{EventTransition, EventManager, empty_manager, active_count}
use savantix_dali_edge_contr.Events
use savantix_dali_edge_contr.Gateway.{
  MessageType, Frame, default_frame, MockC6Transport, empty_transport, mock_transport, C6Session,
  new_session,
}
use savantix_dali_edge_contr.Gateway
use savantix_dali_edge_contr.Health.{
  HealthObservation, HealthEvaluation, LightHealthEngine, default_observation, new_engine, evaluate,
}
pub mod Discovery
pub mod Announcements
pub mod Consistency

-- DemoQueryClient is the time that it was last told.
abbrev pub DemoQueryClient : Type 0
DemoQueryClient = ℕ

-- `(nowMs / 2000U) % 2U == 1U`
abbrev pub is_away : ℕ → Bool
is_away now_ms = (now_ms / 2000) % 2 == 1

abbrev pub is_presence_query : DaliCommand → Bool
is_presence_query DaliCommand.query_control_gear_present = true
is_presence_query _ = false

unfoldable pub demo_query :
    DemoQueryClient
    → ShortAddress
    → DaliCommand
    → CommandPriority
    → DaliQueryResult × DemoQueryClient
demo_query now_ms address command priority =
    if ltb 3 address.value || (address.value == 3 && (is_presence_query command && is_away now_ms))
    then (
      record {
        outcome = DaliQueryOutcome.no_response;
        response = unavailable_reading 0;
        attempts = 1;
        phy_result = PhyResult.timeout;
      },
      now_ms,
    )
    else (
      record {
        outcome = DaliQueryOutcome.ok;
        response = valid_reading 0 now_ms 0 false;
        attempts = 1;
        phy_result = PhyResult.ok;
      },
      now_ms,
    )

unfoldable pub demo_client : IDaliQueryClient DemoQueryClient
demo_client = record { query = demo_query }

-- `duplicate_reported` is the static array of the device manager.
pub record DemoController (F : Type 0) : Type 0 where
  pub client : DemoQueryClient
  pub registry : DaliDeviceRegistry F
  pub duplicate_reported : List Bool
  pub events : EventManager F
  pub transport : MockC6Transport
  pub c6 : C6Session
  pub health : List (LightHealthEngine F)
  pub discovered_lights : ℕ

-- The type of the event that a change is raised as.
abbrev pub event_type_of : DiscoveryChangeType → LightEventType
event_type_of DiscoveryChangeType.device_missing = LightEventType.device_missing
event_type_of DiscoveryChangeType.device_recovered = LightEventType.device_recovered
event_type_of _ = LightEventType.device_discovered

abbrev pub severity_of : DiscoveryChangeType → EventSeverity
severity_of DiscoveryChangeType.device_missing = EventSeverity.critical
severity_of _ = EventSeverity.info

abbrev pub is_discovery : DiscoveryChange → Bool
is_discovery change = elim (change.kind) [
  | DiscoveryChangeType.device_discovered ↦ true
  | _ ↦ false
]

-- What is observed of the light at an address.
abbrev pub observed : ℕ → ℕ → HealthObservation
observed address now_ms = record default_observation {
  commanded_on = true;
  lamp_failure = address == 1;
  thermal_warning = address == 2 && leb 1000 now_ms;
  intermittent_fault = address == 3 && is_away now_ms;
}

abbrev pub has_fault : HealthObservation → Bool
has_fault o = o.lamp_failure || (o.thermal_warning || o.intermittent_fault)

abbrev pub fault_type : HealthObservation → LightEventType
fault_type o =
    if o.lamp_failure
    then LightEventType.lamp_failure
    else if o.thermal_warning
    then LightEventType.thermal_warning
    else LightEventType.intermittent_fault

module _ {F : Type 0} (fl : FloatOps F) where
  abbrev pub new_controller : DemoController F
  new_controller = record {
    client = 0;
    registry = empty_registry;
    duplicate_reported = replicate 64 false;
    events = empty_manager fl;
    transport = empty_transport;
    c6 = new_session 3;
    health = replicate 4 (new_engine fl);
    discovered_lights = 0;
  }

  abbrev pub event_frame : LightEvent F → Frame
  event_frame event = record default_frame {
    kind = MessageType.light_event;
    payload =
        set (set (set default_frame.payload 0 event.short_address) 1 (event_code event.kind)) 2
          (severity_code event.severity);
    payload_length = 3;
  }

  unfoldable pub publish : DemoController F → LightEvent F → DemoController F
  publish d event =
      let (_, c6', transport') =
        Gateway.publish mock_transport d.c6 d.transport (event_frame event) in
      record d { c6 = c6'; transport = transport' }

  -- `if (events_.raise(event).has_value()) publish(event);`
  unfoldable pub announce : DemoController F → LightEvent F → DemoController F
  announce d event =
      let (transition, events') = Events.raise fl d.events event in
      let d' = record d { events = events' } in
      elim transition [ none ↦ d' | some t ↦ publish d' event ]

  abbrev pub change_event : ℕ → DiscoveryChange → LightEvent F
  change_event now_ms change = record (default_event fl) {
    short_address = change.address.value;
    timestamp = now_ms;
    kind = event_type_of change.kind;
    severity = severity_of change.kind;
  }

  -- The body of the first loop.
  unfoldable pub take_change : ℕ → DemoController F → DiscoveryChange → DemoController F
  take_change now_ms d change =
      let d' = announce d (change_event now_ms change) in
      if is_discovery change
      then record d' { discovered_lights = u32 (d'.discovered_lights + 1) }
      else d'

  -- The first loop, with `n` rounds left from `i` on.
  abbrev pub take_changes : ℕ → List DiscoveryChange → ℕ → ℕ → DemoController F → DemoController F
  take_changes now_ms changes zero i d = d
  take_changes now_ms changes (suc n) i d =
      take_changes now_ms changes n (i + 1) (take_change now_ms d (get_or changes i default_change))

  abbrev pub fault_event : ℕ → ℕ → HealthEvaluation F → LightEvent F
  fault_event address now_ms evaluation =
      let o = observed address now_ms in
      record (default_event fl) {
        short_address = address;
        timestamp = now_ms;
        health_score = evaluation.health_score;
        active_fault_flags = evaluation.active_fault_flags;
        kind = fault_type o;
        severity = if o.lamp_failure then EventSeverity.critical else EventSeverity.warning;
      }

  -- The body of the second loop.
  unfoldable pub check_light : ℕ → ℕ → DemoController F → DemoController F
  check_light now_ms address d =
      let o = observed address now_ms in
      let (evaluation, engine') = evaluate fl (get_or d.health address (new_engine fl)) o in
      let d' = record d { health = set d.health address engine' } in
      if has_fault o then announce d' (fault_event address now_ms evaluation) else d'

  -- The second loop, with `n` lights left from `address` on.
  abbrev pub check_lights : ℕ → ℕ → ℕ → DemoController F → DemoController F
  check_lights now_ms zero address d = d
  check_lights now_ms (suc n) address d =
      check_lights now_ms n (address + 1) (check_light now_ms address d)

  unfoldable pub step : DemoController F → ℕ → DemoController F
  step d now_ms =
      let scan = scan_presence fl demo_client now_ms now_ms d.registry d.duplicate_reported in
      let d' = record d {
        client = scan.client;
        registry = scan.registry;
        duplicate_reported = scan.duplicate_reported;
      } in
      check_lights now_ms 4 0 (take_changes now_ms scan.batch.changes scan.batch.size 0 d')

  abbrev pub health_score : DemoController F → ℕ → F
  health_score d address =
      if ltb address 4 then (get_or d.health address (new_engine fl)).score else fl.lit 0 0

abbrev pub c6_messages_sent : {F : Type 0} → DemoController F → ℕ
c6_messages_sent d = d.transport.sent_count

abbrev pub active_fault_events : {F : Type 0} → DemoController F → ℕ
active_fault_events d = active_count d.events
