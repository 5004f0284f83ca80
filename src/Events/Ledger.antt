-- ===== src/Events/Ledger.antt =====
-- What raise does to the events of a manager, as a function from a device and an event type to the entry
-- that is active.
use savantix_dali_edge_contr.Prelude.{
  ℕ, ◌<◌, ◌≡◌, refl, ap, ◌∙◌, true, false, not, none, some, arith, ltb, ◌==◌, if◌then◌else◌, inl,
  inr, Bool-cases, Option-cases, count_if-set, count_if-le, set, length-set, find_index-not-none,
  find_index, find_index-some, FloatOps,
}
use savantix_dali_edge_contr.Core.{LightEvent, LightEventType, severity_code}
use savantix_dali_edge_contr.Events.{
  Active, EventManager, event_capacity, matches, find_slot, is_used, active_count, idle, slot_at,
  put, raise, activate, next_id,
}
use savantix_dali_edge_contr.Events.Slots.{IsValid, lookup}
use savantix_dali_edge_contr.Events.Updates.{
  same_event, raised, announced, holds_own, update_lem, fill_lem, lookup_present,
}

module _ {F : Type 0} (fl : FloatOps F) (m : EventManager F) where
  abbrev entry : LightEvent F → Active F
  entry e = raised m.next_event_id (lookup fl m e.short_address e.kind) e

  pub IsValid-next :
      (m' : EventManager F) (n : ℕ) → IsValid fl m' → IsValid fl (record m' { next_event_id = n })
  IsValid-next m' n v = record { sized = v.sized; unique = v.unique }

  pub fresh_keeps :
      (e : LightEvent F)
      → let fresh = raised m.next_event_id none e in
        (fresh.event.short_address ≡ e.short_address) × (fresh.event.kind ≡ e.kind)
  fresh_keeps e = elim (Bool-cases (e.event_id == 0)) [
    | inl zero_id ↦ rw zero_id (refl, refl)
    | inr own_id ↦ rw own_id (refl, refl)
  ]

  pub raise_found :
      (e : LightEvent F) (i : ℕ)
      → find_slot m e.short_address e.kind ≡ some i
      → raise fl m e ≡ (
        announced m.next_event_id (some (slot_at fl m i)) e,
        put fl m i (raised m.next_event_id (some (slot_at fl m i)) e),
      )
  unfolding raise
  raise_found e i found =
      rw (found, raise)
        (elim (Bool-cases
          (ltb (severity_code (slot_at fl m i).event.severity) (severity_code e.severity))) [
            | inl higher ↦ rw higher refl
            | inr lower ↦ rw lower refl
          ])

  pub raise_fresh :
      (e : LightEvent F) (i : ℕ)
      → find_slot m e.short_address e.kind ≡ none
      → find_index (λ item. not (is_used item)) m.active ≡ some i
      → raise fl m e ≡ (
        announced m.next_event_id none e,
        record (put fl m i (raised m.next_event_id none e)) { next_event_id = next_id fl m e },
      )
  unfolding raise activate
  raise_fresh e i unknown free = rw (unknown, raise) (rw (free, activate) refl)

  -- With a slot left, `raise` keeps the manager valid: no two slots hold the same event of one device.
  -- The event's entry becomes the raised one (a new entry, or the old one with the event replaced), the
  -- entries of all other events stay, and the transition is `activated` for a new entry, `escalated` for
  -- a higher severity, and none otherwise.
  pub raise_refines :
      (e : LightEvent F) (a : ℕ) (k : LightEventType)
      → IsValid fl m
      → active_count m < event_capacity
      → let out = raise fl m e in
        let old = lookup fl m e.short_address e.kind in
        IsValid fl out.1
        × (out.0 ≡ announced m.next_event_id old e)
        × (lookup fl out.1 a k
            ≡ (if same_event a k e then some (raised m.next_event_id old e) else lookup fl m a k))
  raise_refines e a k v room = elim (Option-cases (find_slot m e.short_address e.kind)) [
    | inr (i, found) ↦
        let old = slot_at fl m i in
        let (held, inside) =
          find_index-some (matches e.short_address e.kind) m.active i (idle fl) found in
        let (used, _, _) = holds_own old e.short_address e.kind held in
        let (v', was, kept) =
          update_lem fl m i (raised m.next_event_id (some old) e) a k e.short_address e.kind v found
            refl refl in
        rw (raise_found e i found, was)
          (
            v',
            refl,
            kept
                ∙ ap
                    (λ u.
                      if same_event a k e
                      then if u then some (raised m.next_event_id (some old) e) else none
                      else lookup fl m a k)
                    used,
          )
    | inl unknown ↦ elim (Option-cases (find_index (λ item. not (is_used item)) m.active)) [
      | inl full ↦ absurd (omega (arith, find_index-not-none is_used m.active full, v.sized))
      | inr (i, free) ↦
          let (own, kind) = fresh_keeps e in
          let (v', was, kept) =
            fill_lem fl m i (raised m.next_event_id none e) a k e.short_address e.kind v unknown
              free refl own kind in
          rw (raise_fresh e i unknown free, was) (IsValid-next _ (next_id fl m e) v', refl, kept)
    ]
  ]

  -- In a valid manager that is not full, an event that is raised again without an id replaces the entry's event whole: whatever id the entry had
  -- been given, it is 0 from then on.
  pub raise_again_loses_id :
      (e : LightEvent F) (old : Active F)
      → IsValid fl m
      → active_count m < event_capacity
      → e.event_id ≡ 0
      → lookup fl m e.short_address e.kind ≡ some old
      → (new : Active F) × (lookup fl (raise fl m e).1 e.short_address e.kind ≡ some new)
        × (new.event.event_id ≡ 0)
  raise_again_loses_id e old v room anonymous active =
      let (_, _, found) = raise_refines e e.short_address e.kind v room in
      let own : same_event e.short_address e.kind e ≡ true = ground arith in
      (raised m.next_event_id (some old) e, rw (own, active) at found, anonymous)

  -- With all 128 slots in use, an event that is not active is dropped, without a transition.
  pub raise_full :
      (e : LightEvent F)
      → IsValid fl m
      → active_count m ≡ event_capacity
      → lookup fl m e.short_address e.kind ≡ none
      → raise fl m e ≡ (none, m)
  unfolding raise activate
  raise_full e v full absent = elim (Option-cases (find_slot m e.short_address e.kind)) [
    | inr (i, found) ↦ cc (lookup_present fl m e.short_address e.kind i found, absent)
    | inl unknown ↦ elim (Option-cases (find_index (λ item. not (is_used item)) m.active)) [
      | inl none_free ↦ rw (unknown, raise) (rw (none_free, activate) refl)
      | inr (i, free) ↦
          let (spare, inside) =
            find_index-some (λ item. not (is_used item)) m.active i (idle fl) free in
          let taken : Active F = record (idle fl) { used = true } in
          let unused : is_used (slot_at fl m i) ≡ false = ground arith in
          let more = rw unused at (count_if-set is_used m.active i taken (idle fl) inside) in
          absurd (
            omega (
              arith,
              more,
              v.sized,
              length-set m.active i taken,
              count_if-le is_used (set m.active i taken),
            ))
    ]
  ]
