-- ===== src/Events/Calls.antt =====
-- EventManager over any sequence of calls.
use savantix_dali_edge_contr.Prelude.{
  ℕ, ◌==◌, ==_iff, ◌≡◌, refl, true, List, [], ◌∷◌, none, some, arith, not, inl, inr, Option-cases,
  find_index, find_index-some, FloatOps,
}
use savantix_dali_edge_contr.Core.{LightEvent, LightEventType, event_code}
use savantix_dali_edge_contr.Events.{
  EventManager, matches, find_slot, is_used, skips, idle, empty_manager, slot_at, next_id, activate,
  raise, clear, acknowledge, next_reminder,
}
use savantix_dali_edge_contr.Events.Slots.{IsValid, empty-IsValid, find_slot_here}
use savantix_dali_edge_contr.Events.Updates.{raised, holds_own, update_lem, fill_lem}
use savantix_dali_edge_contr.Events.Ledger.{raise_found, raise_fresh, fresh_keeps, IsValid-next}
use savantix_dali_edge_contr.Events.Closing.{acknowledge_found, clear_refines}

pub data Op (F : Type 0) : Type 0 where
  rise : LightEvent F → Op F
  close : ℕ → LightEventType → ℕ → Op F
  confirm : ℕ → LightEventType → Op F
  remind : ℕ → ℕ → Op F

module _ {F : Type 0} (fl : FloatOps F) where
  -- What a call leaves of the manager.
  abbrev pub after : Op F → EventManager F → EventManager F
  after (Op.rise e) m = (raise fl m e).1
  after (Op.close a k now) m = (clear fl m a k now).1
  after (Op.confirm a k) m = (acknowledge fl m a k).1
  after (Op.remind now interval) m = (next_reminder fl m now interval).1

  abbrev pub after_all : List (Op F) → EventManager F → EventManager F
  after_all [] m = m
  after_all (op ∷ ops) m = after_all ops (after op m)

  pub raise-IsValid :
      (m : EventManager F) (e : LightEvent F) → IsValid fl m → IsValid fl (raise fl m e).1
  unfolding raise activate
  raise-IsValid m e v = elim (Option-cases (find_slot m e.short_address e.kind)) [
    | inr (i, found) ↦
        rw (raise_found fl m e i found)
          (update_lem fl m i (raised m.next_event_id (some (slot_at fl m i)) e) 0 e.kind
            e.short_address e.kind v found refl refl).0
    | inl unknown ↦ elim (Option-cases (find_index (λ item. not (is_used item)) m.active)) [
      | inl full ↦ rw (unknown, raise) (rw (full, activate) v)
      | inr (i, free) ↦
          let (own, kind) = fresh_keeps fl m e in
          rw (raise_fresh fl m e i unknown free) (
            IsValid-next fl m _ (next_id fl m e)
              (fill_lem fl m i (raised m.next_event_id none e) 0 e.kind e.short_address e.kind v
                unknown free refl own kind).0)
    ]
  ]

  acknowledge-IsValid :
      (m : EventManager F) (a : ℕ) (k : LightEventType)
      → IsValid fl m
      → IsValid fl (acknowledge fl m a k).1
  unfolding acknowledge
  acknowledge-IsValid m a k v = elim (Option-cases (find_slot m a k)) [
    | inl unknown ↦ rw (unknown, acknowledge) v
    | inr (i, found) ↦
        let (held, inside) = find_index-some (matches a k) m.active i (idle fl) found in
        let (used, own, kind) = holds_own (slot_at fl m i) a k held in
        rw (acknowledge_found fl m a k i found)
          (update_lem fl m i (record (slot_at fl m i) { acknowledged = true }) a k a k v found own
            kind).0
  ]

  -- A slot in use is the one that `find` finds for its event.
  used-found :
      (m : EventManager F) (i : ℕ)
      → IsValid fl m
      → (slot_at fl m i).used ≡ true
      → let event = (slot_at fl m i).event in find_slot m event.short_address event.kind ≡ some i
  used-found m i v used =
      let event = (slot_at fl m i).event in
      let same : (event.short_address == event.short_address) ≡ true = (==_iff _ _).1 refl in
      let kind : (event_code event.kind == event_code event.kind) ≡ true = (==_iff _ _).1 refl in
      find_slot_here fl m event.short_address event.kind i v (rw (used, same, kind) refl)

  reminder-IsValid :
      (m : EventManager F) (now interval : ℕ)
      → IsValid fl m
      → IsValid fl (next_reminder fl m now interval).1
  unfolding next_reminder
  reminder-IsValid m now interval v =
      elim (Option-cases (find_index (λ item. not (skips now interval item)) m.active)) [
        | inl nothing ↦ rw (nothing, next_reminder) v
        | inr (i, found) ↦
            let item = slot_at fl m i in
            let (due, inside) =
              find_index-some (λ x. not (skips now interval x)) m.active i (idle fl) found in
            let used : item.used ≡ true = ground arith in
            rw (found, next_reminder)
              (update_lem fl m i
                (record item { last_emitted = now; event = record item.event { timestamp = now } })
                0 item.event.kind item.event.short_address item.event.kind v (used-found m i v used)
                refl refl).0
      ]

  after-IsValid : (op : Op F) (m : EventManager F) → IsValid fl m → IsValid fl (after op m)
  after-IsValid (Op.rise e) m v = raise-IsValid m e v
  after-IsValid (Op.close a k now) m v = (clear_refines fl m a k now a k v).0
  after-IsValid (Op.confirm a k) m v = acknowledge-IsValid m a k v
  after-IsValid (Op.remind now interval) m v = reminder-IsValid m now interval v

  after_all-kept :
      (ops : List (Op F)) (m : EventManager F) → IsValid fl m → IsValid fl (after_all ops m)
  after_all-kept [] m v = v
  after_all-kept (op ∷ ops) m v = after_all-kept ops (after op m) (after-IsValid op m v)

  -- No sequence of calls on a new manager gives two slots to the same event of one device, a full manager
  -- included; the slots stay 128.
  pub after_all-IsValid : (ops : List (Op F)) → IsValid fl (after_all ops (empty_manager fl))
  after_all-IsValid ops = after_all-kept ops (empty_manager fl) (empty-IsValid fl)
