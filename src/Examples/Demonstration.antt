-- ===== src/Examples/Demonstration.antt =====
-- Examples of Demo.
use savantix_dali_edge_contr.Prelude.{ℕ, ◌≡◌, none, ◌∷◌, some, arith, drop}
use savantix_dali_edge_contr.Core.{LightEvent, LightEventType, EventSeverity, default_event}
use savantix_dali_edge_contr.Events.Slots.{lookup}
use savantix_dali_edge_contr.Events.Updates.{raised}
use savantix_dali_edge_contr.Gateway.{MessageType, default_frame}
use savantix_dali_edge_contr.Demo.{DemoController, new_controller, announce}
use savantix_dali_edge_contr.Demo.Announcements.{told, announce_delivers, new_controller-IsReady}
use savantix_dali_edge_contr.Examples.Fixtures.{millionths}

abbrev fresh : DemoController ℕ
fresh = new_controller millionths

abbrev blown : LightEvent ℕ
blown = record (default_event millionths) {
  short_address = 1;
  kind = LightEventType.lamp_failure;
  severity = EventSeverity.critical;
  timestamp = 500;
}

announce_delivers_example :
    let out = announce millionths fresh blown in
    (lookup millionths out.events 1 LightEventType.lamp_failure ≡ some (raised 1 none blown))
    × (out.transport.sent_count ≡ 1)
    × (told millionths out default_frame
        ≡ some (record {
          version = 1;
          kind = MessageType.light_event;
          sequence = 1;
          payload = 1 ∷ 4 ∷ 2 ∷ drop 3 default_frame.payload;
          payload_length = 3;
        }))
announce_delivers_example =
    announce_delivers millionths fresh blown default_frame 1 LightEventType.lamp_failure
      (new_controller-IsReady millionths) (omega arith)
