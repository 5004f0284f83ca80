-- ===== src/Events.antt =====
-- EventManager, of components/event_manager/include/dali/events/event_manager.h and event_manager.cpp.
use savantix_dali_edge_contr.Prelude.{
  ℕ, ◌+◌, ◌-◌, Bool, true, false, not, ◌&&◌, ◌||◌, List, Option, none, some, ltb, ◌==◌,
  if◌then◌else◌, get_or, set, replicate, find_index, count_if, u32, FloatOps,
}
use savantix_dali_edge_contr.Core.{
  LightEvent, LightEventType, event_code, severity_code, default_event,
}
pub mod Slots
pub mod Updates
pub mod Ledger
pub mod Closing
pub mod Calls
pub mod Reminders

pub data EventAction : Type 0 where
  activated escalated cleared reminder : EventAction

pub record EventTransition (F : Type 0) : Type 0 where
  pub event : LightEvent F
  pub action : EventAction
  pub acknowledged : Bool

pub record Active (F : Type 0) : Type 0 where
  pub used : Bool
  pub event : LightEvent F
  pub acknowledged : Bool
  pub last_emitted : ℕ

pub record EventManager (F : Type 0) : Type 0 where
  pub active : List (Active F)
  pub next_event_id : ℕ

abbrev pub event_capacity : ℕ
event_capacity = 128

-- The test of `find`'s loop.
abbrev pub matches : {F : Type 0} → ℕ → LightEventType → Active F → Bool
matches address kind item =
    item.used
    && (item.event.short_address == address && event_code item.event.kind == event_code kind)

-- The place of the slot that `find` returns a pointer to.
abbrev pub find_slot : {F : Type 0} → EventManager F → ℕ → LightEventType → Option ℕ
find_slot manager address kind = find_index (matches address kind) manager.active

abbrev pub is_used : {F : Type 0} → Active F → Bool
is_used item = item.used

-- Whether `reminder` passes the slot over.
abbrev pub skips : {F : Type 0} → ℕ → ℕ → Active F → Bool
skips timestamp interval_ms item =
    not item.used
    || (ltb timestamp item.last_emitted || ltb (timestamp - item.last_emitted) interval_ms)

abbrev pub active_count : {F : Type 0} → EventManager F → ℕ
active_count manager = count_if is_used manager.active

module _ {F : Type 0} (fl : FloatOps F) where
  abbrev pub idle : Active F
  idle = record { used = false; event = default_event fl; acknowledged = false; last_emitted = 0 }

  abbrev pub empty_manager : EventManager F
  empty_manager = record { active = replicate event_capacity idle; next_event_id = 1 }

  abbrev pub slot_at : EventManager F → ℕ → Active F
  slot_at manager i = get_or manager.active i idle

  abbrev pub put : EventManager F → ℕ → Active F → EventManager F
  put manager i item = record manager { active = set manager.active i item }

  -- `if (event.eventId == 0U) event.eventId = nextEventId_++`
  abbrev pub identified : EventManager F → LightEvent F → LightEvent F
  identified manager event =
      if event.event_id == 0 then record event { event_id = manager.next_event_id } else event

  abbrev pub next_id : EventManager F → LightEvent F → ℕ
  next_id manager event =
      if event.event_id == 0 then u32 (manager.next_event_id + 1) else manager.next_event_id

  -- `raise` where `find` found nothing.
  unfoldable pub activate :
      EventManager F → LightEvent F → Option (EventTransition F) × EventManager F
  activate manager event = elim (find_index (λ item. not (is_used item)) manager.active) [
    | none ↦ (none, manager)
    | some i ↦
        let named = identified manager event in
        (
          some (record { event = named; action = EventAction.activated; acknowledged = false }),
          record {
            active = set manager.active i (record {
              used = true;
              event = named;
              acknowledged = false;
              last_emitted = event.timestamp;
            });
            next_event_id = next_id manager event;
          },
        )
  ]

  -- `raise` where `find` found the slot `i`.
  abbrev pub raise_again :
      EventManager F → LightEvent F → ℕ → Option (EventTransition F) × EventManager F
  raise_again manager event i =
      let existing = slot_at manager i in
      if ltb (severity_code existing.event.severity) (severity_code event.severity)
      then (
        some (record {
          event = event;
          action = EventAction.escalated;
          acknowledged = existing.acknowledged;
        }),
        put manager i (record existing { event = event; last_emitted = event.timestamp }),
      )
      else (none, put manager i (record existing { event = event }))

  unfoldable pub raise : EventManager F → LightEvent F → Option (EventTransition F) × EventManager F
  raise manager event = elim (find_slot manager event.short_address event.kind) [
    | none ↦ activate manager event
    | some i ↦ raise_again manager event i
  ]

  unfoldable pub clear :
      EventManager F → ℕ → LightEventType → ℕ → Option (EventTransition F) × EventManager F
  clear manager address kind timestamp = elim (find_slot manager address kind) [
    | none ↦ (none, manager)
    | some i ↦
        let existing = slot_at manager i in
        let stamped = record existing.event { timestamp = timestamp } in
        (
          some (record {
            event = stamped;
            action = EventAction.cleared;
            acknowledged = existing.acknowledged;
          }),
          put manager i (record existing { event = stamped; used = false }),
        )
  ]

  unfoldable pub acknowledge : EventManager F → ℕ → LightEventType → Bool × EventManager F
  acknowledge manager address kind = elim (find_slot manager address kind) [
    | none ↦ (false, manager)
    | some i ↦ (true, put manager i (record (slot_at manager i) { acknowledged = true }))
  ]

  unfoldable pub next_reminder :
      EventManager F → ℕ → ℕ → Option (EventTransition F) × EventManager F
  next_reminder manager timestamp interval_ms =
      elim (find_index (λ item. not (skips timestamp interval_ms item)) manager.active) [
        | none ↦ (none, manager)
        | some i ↦
            let item = slot_at manager i in
            let stamped = record item.event { timestamp = timestamp } in
            (
              some (record {
                event = stamped;
                action = EventAction.reminder;
                acknowledged = item.acknowledged;
              }),
              put manager i (record item { last_emitted = timestamp; event = stamped }),
            )
      ]
