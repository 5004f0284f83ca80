-- ===== src/Examples/Alarms.antt =====
-- Examples of Events.
use savantix_dali_edge_contr.Prelude.{
  map, keep_if, count_if, List, [], ℕ, ◌≡◌, refl, subst, false, ◌∷◌, some, none, arith, replicate,
}
use savantix_dali_edge_contr.Core.{LightEvent, LightEventType, EventSeverity, default_event}
use savantix_dali_edge_contr.Events.{
  next_reminder, EventAction, Active, EventManager, idle, empty_manager, activate, raise, clear,
}
use savantix_dali_edge_contr.Events.Calls.{Op, after_all, after_all-IsValid}
use savantix_dali_edge_contr.Events.Slots.{IsValid, lookup, empty-IsValid}
use savantix_dali_edge_contr.Events.Updates.{raised, announced}
use savantix_dali_edge_contr.Events.Ledger.{raise_refines}
use savantix_dali_edge_contr.Events.Closing.{clear_refines}
use savantix_dali_edge_contr.Events.Reminders.{
  is_due, reminder_of, reminded_if, remind_all, reminders_finish,
}
use savantix_dali_edge_contr.Examples.Fixtures.{millionths}

abbrev failure : LightEvent ℕ
failure = record (default_event millionths) {
  short_address = 7;
  kind = LightEventType.lamp_failure;
  severity = EventSeverity.critical;
  timestamp = 1000;
}

abbrev none_active : EventManager ℕ
none_active = empty_manager millionths

-- The entry of the failure, under the id 1.
abbrev failing : Active ℕ
failing = raised 1 none failure

raise_refines_example :
    let out = raise millionths none_active failure in
    IsValid millionths out.1
    × (out.0 ≡ announced 1 none failure)
    × (lookup millionths out.1 7 LightEventType.lamp_failure ≡ some failing)
raise_refines_example =
    raise_refines millionths none_active failure 7 LightEventType.lamp_failure
      (empty-IsValid millionths) (omega arith)

-- The manager that has the failure in its first slot.
abbrev one_active : EventManager ℕ
one_active = record { active = failing ∷ replicate 127 (idle millionths); next_event_id = 2 }

first_raised : (raise millionths none_active failure).1 ≡ one_active
unfolding raise activate
first_raised = refl

one_active-IsValid : IsValid millionths one_active
one_active-IsValid = subst (IsValid millionths) first_raised raise_refines_example.0

clear_refines_example :
    let out = clear millionths one_active 7 LightEventType.lamp_failure 2000 in
    IsValid millionths out.1
    × (out.0
        ≡ some (record {
          event = record failing.event { timestamp = 2000 };
          action = EventAction.cleared;
          acknowledged = false;
        }))
    × (lookup millionths out.1 7 LightEventType.lamp_failure ≡ none)
clear_refines_example =
    clear_refines millionths one_active 7 LightEventType.lamp_failure 2000 7
      LightEventType.lamp_failure one_active-IsValid

reminders_finish_example :
    let due = keep_if (is_due 9000 3000) one_active.active in
    let (told, m) =
      remind_all millionths 9000 3000 (count_if (is_due 9000 3000) one_active.active) one_active in
    (told ≡ map (λ item. some (reminder_of 9000 3000 item)) due)
    × (m ≡ record one_active { active = map (reminded_if 9000 3000) one_active.active })
    × (next_reminder millionths m 9000 3000 ≡ (none, m))
reminders_finish_example = reminders_finish millionths 9000 3000 one_active (omega arith)

abbrev ops : List (Op ℕ)
ops =
    Op.rise failure
    ∷ Op.rise failure
    ∷ Op.remind 9000 3000
    ∷ Op.confirm 7 LightEventType.lamp_failure
    ∷ []

after_all-IsValid_example : IsValid millionths (after_all millionths ops none_active)
after_all-IsValid_example = after_all-IsValid millionths ops
