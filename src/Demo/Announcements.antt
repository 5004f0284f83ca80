-- ===== src/Demo/Announcements.antt =====
-- What an announcement of DemoController does: the event manager decides, the gateway is told.
use savantix_dali_edge_contr.Prelude.{
  length-drop, ℕ, ◌+◌, ◌^◌, ◌<◌, ◌≡◌, refl, ap, ◌∙◌, true, ◌∷◌, Option, some, arith, if◌then◌else◌,
  inl, inr, Option-cases, length, length-append, drop, take, u16, u32, FloatOps,
}
use savantix_dali_edge_contr.Core.{LightEvent, LightEventType, event_code, severity_code}
use savantix_dali_edge_contr.Protocol.Query.{is_some}
use savantix_dali_edge_contr.Events.{event_capacity, active_count}
use savantix_dali_edge_contr.Events.Slots.{lookup}
use savantix_dali_edge_contr.Events.Updates.{same_event, raised, announced}
use savantix_dali_edge_contr.Events.Ledger.{raise_refines}
use savantix_dali_edge_contr.Events
use savantix_dali_edge_contr.Events.Slots
use savantix_dali_edge_contr.Events.Calls.{raise-IsValid}
use savantix_dali_edge_contr.Gateway.{
  MessageType, decode_bytes, Frame, maximum_encoded_size, copy_into, wire, sequenced,
}
use savantix_dali_edge_contr.Gateway.Bytes.{take-append, length-wire}
use savantix_dali_edge_contr.Gateway.RoundTrip.{IsFrame, decode_wire}
use savantix_dali_edge_contr.Gateway.Delivery.{sequenced-IsFrame, delivered, publish_sends}
use savantix_dali_edge_contr.Demo.{DemoController, new_controller, event_frame, publish, announce}

module _ {F : Type 0} (fl : FloatOps F) where
  -- What the event manager, the session and the transport keep to.
  pub record IsReady (d : DemoController F) : Type 0 where
    pub events : Slots.IsValid fl d.events
    pub buffer : length d.transport.last_frame ≡ maximum_encoded_size
    pub retries : d.c6.maximum_retries ≡ 3
    pub sequence : d.c6.next_sequence < 2 ^ 16

  pub event_frame-IsFrame : (event : LightEvent F) → IsFrame (event_frame fl event)
  event_frame-IsFrame event = record {
    sized = refl;
    fits = omega arith;
    named = refl;
    code = omega arith;
    word = omega arith;
  }

  -- Every event frame goes out.
  pub publish_lem :
      (d : DemoController F) (event : LightEvent F)
      → IsReady d
      → publish fl d event ≡ record d {
        c6 = record d.c6 {
          next_sequence = u16 (d.c6.next_sequence + 1);
          pending_sequence = d.c6.next_sequence;
          pending = true;
        };
        transport = delivered d.c6 d.transport (event_frame fl event);
      }
  unfolding publish
  publish_lem d event r =
      rw
        (publish_sends d.c6 d.transport (event_frame fl event)
          (sequenced-IsFrame d.c6 d.transport (event_frame fl event) (event_frame-IsFrame event)
            r.sequence)
          (λ e. absurd (omega (arith, e, r.retries))) r.buffer)
        refl

  publish-IsReady :
      (d : DemoController F) (event : LightEvent F) → IsReady d → IsReady (publish fl d event)
  publish-IsReady d event r =
      let sent = sequenced d.c6 (event_frame fl event) in
      rw (publish_lem d event r) (record {
        events = r.events;
        buffer = omega (
          arith,
          length-append (wire sent) (drop (length (wire sent)) d.transport.last_frame),
          length-drop (length (wire sent)) d.transport.last_frame,
          length-wire sent refl (omega arith),
          r.buffer,
        );
        retries = r.retries;
        sequence = omega arith;
      })

  -- An announcement leaves the registry, the count of lights and the engines alone.
  pub record Announced (d d' : DemoController F) : Type 0 where
    pub ready : IsReady d'
    pub registry : d'.registry ≡ d.registry
    pub lights : d'.discovered_lights ≡ d.discovered_lights
    pub engines : d'.health ≡ d.health

  pub announce-Announced :
      (d : DemoController F) (event : LightEvent F) → IsReady d → Announced d (announce fl d event)
  unfolding announce
  announce-Announced d event r =
      let d' : DemoController F = record d { events = (Events.raise fl d.events event).1 } in
      let r' : IsReady d' = record {
        events = raise-IsValid fl d.events event r.events;
        buffer = r.buffer;
        retries = r.retries;
        sequence = r.sequence;
      } in
      elim (Option-cases (Events.raise fl d.events event).0) [
        | inl unchanged ↦
            rw (unchanged, announce)
              (record { ready = r'; registry = refl; lights = refl; engines = refl })
        | inr (t, told) ↦
            let sent = publish_lem d' event r' in
            rw (told, announce)
              (record {
                ready = publish-IsReady d' event r';
                registry = ap (λ x. x.registry) sent;
                lights = ap (λ x. x.discovered_lights) sent;
                engines = ap (λ x. x.health) sent;
              })
      ]

  -- What a receiver reads from the bytes that were sent last.
  abbrev pub told : DemoController F → Frame → Option Frame
  told d old = decode_bytes (take d.transport.last_length d.transport.last_frame) old

  told-publish :
      (d : DemoController F) (event : LightEvent F) (old : Frame)
      → IsReady d
      → told (publish fl d event) old
        ≡ some (record {
          version = 1;
          kind = MessageType.light_event;
          sequence = d.c6.next_sequence;
          payload =
              event.short_address
              ∷ event_code event.kind
              ∷ severity_code event.severity
              ∷ drop 3 old.payload;
          payload_length = 3;
        })
  told-publish d event old r =
      let frame = event_frame fl event in
      let sent = sequenced d.c6 frame in
      let v = sequenced-IsFrame d.c6 d.transport frame (event_frame-IsFrame event) r.sequence in
      let read : take (length (wire sent)) (copy_into (wire sent) d.transport.last_frame)
          ≡ wire sent =
        take-append (wire sent) (drop (length (wire sent)) d.transport.last_frame) _ refl in
      rw (publish_lem d event r) (rw read (decode_wire sent v old))

  -- With a slot left, announcing an event makes its entry the raised one and leaves all others. Just when
  -- that activates or escalates the event is one message more sent, and a receiver reads from it the
  -- device, the type and the severity under the session's next sequence number; else nothing is sent.
  pub announce_delivers :
      (d : DemoController F) (event : LightEvent F) (old : Frame) (a : ℕ) (k : LightEventType)
      → IsReady d
      → active_count d.events < event_capacity
      → let id = d.events.next_event_id in
        let was = lookup fl d.events event.short_address event.kind in
        let heard = is_some (announced id was event) in
        let out = announce fl d event in
        (lookup fl out.events a k
          ≡ (if same_event a k event then some (raised id was event) else lookup fl d.events a k))
        × (out.transport.sent_count
            ≡ (if heard then u32 (d.transport.sent_count + 1) else d.transport.sent_count))
        × (told out old ≡ (
            if heard
            then some (record {
              version = 1;
              kind = MessageType.light_event;
              sequence = d.c6.next_sequence;
              payload =
                  event.short_address
                  ∷ event_code event.kind
                  ∷ severity_code event.severity
                  ∷ drop 3 old.payload;
              payload_length = 3;
            })
            else told d old))
  unfolding announce
  announce_delivers d event old a k r room =
      let (_, heard, entry) = raise_refines fl d.events event a k r.events room in
      let d' : DemoController F = record d { events = (Events.raise fl d.events event).1 } in
      let r' : IsReady d' = record {
        events = raise-IsValid fl d.events event r.events;
        buffer = r.buffer;
        retries = r.retries;
        sequence = r.sequence;
      } in
      elim (Option-cases (Events.raise fl d.events event).0) [
        | inl unchanged ↦ rw (announce, ← heard, unchanged) (entry, refl, refl)
        | inr (t, said) ↦
            let sent = publish_lem d' event r' in
            rw (announce, ← heard, said)
              (
                ap (λ x. lookup fl x.events a k) sent ∙ entry,
                ap (λ x. x.transport.sent_count) sent,
                told-publish d' event old r',
              )
      ]

  pub new_controller-IsReady : IsReady (new_controller fl)
  new_controller-IsReady = record {
    events = Slots.empty-IsValid fl;
    buffer = refl;
    retries = refl;
    sequence = omega arith;
  }
