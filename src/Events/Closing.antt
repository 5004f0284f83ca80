-- ===== src/Events/Closing.antt =====
-- What clear and acknowledge do to the events of a manager.
use savantix_dali_edge_contr.Prelude.{
  split_and, ℕ, ◌≡◌, refl, sym, ap, subst, ◌∙◌, true, false, ◌&&◌, none, some, ◌==◌, ==_iff,
  if◌then◌else◌, inl, inr, Bool-cases, Option-cases, find_index-some, FloatOps,
}
use savantix_dali_edge_contr.Core.{LightEventType, event_code, event_code-injective}
use savantix_dali_edge_contr.Events.{
  EventAction, Active, EventManager, matches, find_slot, idle, slot_at, put, clear, acknowledge,
}
use savantix_dali_edge_contr.Events.Slots.{IsValid, lookup}
use savantix_dali_edge_contr.Events.Updates.{holds_own, update_lem, lookup_absent}

module _ {F : Type 0} (fl : FloatOps F) (m : EventManager F) where
  -- An event that is not active is found neither before nor after.
  absent_stays :
      (b : ℕ) (l : LightEventType) (a : ℕ) (k : LightEventType)
      → find_slot m b l ≡ none
      → lookup fl m a k ≡ (if b == a && event_code l == event_code k then none else lookup fl m a k)
  absent_stays b l a k unknown = elim (Bool-cases (b == a && event_code l == event_code k)) [
    | inl same ↦
        let (p, q) = split_and (b == a) _ same in
        let eb : b ≡ a = (==_iff _ _).0 p in
        let el : l ≡ k = event_code-injective _ _ ((==_iff _ _).0 q) in
        rw same (
          subst (λ t. lookup fl m t k ≡ none) eb
            (subst (λ t. lookup fl m b t ≡ none) el (rw (unknown, lookup) refl)))
    | inr other ↦ rw other refl
  ]

  clear_absent :
      (b : ℕ) (l : LightEventType) (now : ℕ)
      → find_slot m b l ≡ none
      → clear fl m b l now ≡ (none, m)
  unfolding clear
  clear_absent b l now unknown = rw (unknown, clear) refl

  clear_found :
      (b : ℕ) (l : LightEventType) (now i : ℕ)
      → find_slot m b l ≡ some i
      → let old = slot_at fl m i in
        let stamped = record old.event { timestamp = now } in
        clear fl m b l now ≡ (
          some (record {
            event = stamped;
            action = EventAction.cleared;
            acknowledged = old.acknowledged;
          }),
          put fl m i (record old { event = stamped; used = false }),
        )
  unfolding clear
  clear_found b l now i found = rw (found, clear) refl

  -- `clear` keeps the manager valid, ends the one entry of the event, if it had one, and announces it with
  -- the time of the call; the entries of all other events stay.
  pub clear_refines :
      (b : ℕ) (l : LightEventType) (now a : ℕ) (k : LightEventType)
      → IsValid fl m
      → let out = clear fl m b l now in
        IsValid fl out.1
        × (out.0 ≡ (elim (lookup fl m b l) [
          | none ↦ none
          | some old ↦ some (record {
            event = record old.event { timestamp = now };
            action = EventAction.cleared;
            acknowledged = old.acknowledged;
          })
        ]))
        × (lookup fl out.1 a k
            ≡ (if b == a && event_code l == event_code k then none else lookup fl m a k))
  clear_refines b l now a k v = elim (Option-cases (find_slot m b l)) [
    | inl unknown ↦
        rw (clear_absent b l now unknown, lookup_absent fl m b l unknown)
          (v, refl, absent_stays b l a k unknown)
    | inr (i, found) ↦
        let (held, inside) = find_index-some (matches b l) m.active i (idle fl) found in
        let (_, eb, el) = holds_own (slot_at fl m i) b l held in
        let (v', was, e) =
          update_lem fl m i
            (record (slot_at fl m i) {
              event = record (slot_at fl m i).event { timestamp = now };
              used = false;
            })
            a k b l v found eb el in
        rw (clear_found b l now i found, was) (v', refl, e)
  ]

  pub acknowledge_found :
      (b : ℕ) (l : LightEventType) (i : ℕ)
      → find_slot m b l ≡ some i
      → acknowledge fl m b l ≡ (true, put fl m i (record (slot_at fl m i) { acknowledged = true }))
  unfolding acknowledge
  acknowledge_found b l i found = rw (found, acknowledge) refl

  -- Acknowledging an event that is active keeps the manager valid, marks that entry, and changes no other
  -- entry.
  pub acknowledge_refines :
      (b : ℕ) (l : LightEventType) (old : Active F) (a : ℕ) (k : LightEventType)
      → IsValid fl m
      → lookup fl m b l ≡ some old
      → let out = acknowledge fl m b l in
        IsValid fl out.1
        × (out.0 ≡ true)
        × (lookup fl out.1 a k ≡ (
            if b == a && event_code l == event_code k
            then some (record old { acknowledged = true })
            else lookup fl m a k))
  acknowledge_refines b l old a k v active = elim (Option-cases (find_slot m b l)) [
    | inl unknown ↦ cc (lookup_absent fl m b l unknown, active)
    | inr (i, found) ↦
        let now : Active F = record (slot_at fl m i) { acknowledged = true } in
        let (held, inside) = find_index-some (matches b l) m.active i (idle fl) found in
        let (used, eb, el) = holds_own (slot_at fl m i) b l held in
        let (v', was, kept) = update_lem fl m i now a k b l v found eb el in
        let same : slot_at fl m i ≡ old = cc (was, active) in
        rw (acknowledge_found b l i found, sym same)
          (
            v',
            refl,
            kept
                ∙ ap
                    (λ u.
                      if b == a && event_code l == event_code k
                      then if u then some now else none
                      else lookup fl m a k)
                    used,
          )
  ]
