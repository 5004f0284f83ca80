-- ===== src/Events/Reminders.antt =====
-- Reminders: each call of `reminder` serves the first of the events that are due.
use savantix_dali_edge_contr.Prelude.{
  ℕ, zero, suc, ◌+◌, ◌<◌, ◌≡◌, refl, sym, ap, ◌∙◌, Bool, false, ◌&&◌, not, List, [], ◌∷◌, map,
  Option, none, some, arith, leb, inl, inr, Bool-cases, Option-cases, if◌then◌else◌, find_index,
  shift, count_if, keep_if, get_or, set, FloatOps,
}
use savantix_dali_edge_contr.Events.{
  EventAction, EventTransition, Active, EventManager, skips, idle, next_reminder,
}

module _ {F : Type 0} (now interval : ℕ) where
  -- An event in use whose last announcement is at least the interval ago.
  abbrev pub is_due : Active F → Bool
  is_due item = item.used && leb (item.last_emitted + interval) now

  -- The reminder of an entry, and the entry after it.
  abbrev pub reminder_of : Active F → EventTransition F
  reminder_of item = record {
    event = record item.event { timestamp = now };
    action = EventAction.reminder;
    acknowledged = item.acknowledged;
  }

  abbrev pub reminded : Active F → Active F
  reminded item = record item { last_emitted = now; event = record item.event { timestamp = now } }

  abbrev pub reminded_if : Active F → Active F
  reminded_if item = if is_due item then reminded item else item

  not_skipped : (item : Active F) → not (skips now interval item) ≡ is_due item
  not_skipped item = ground arith

  reminded-over : (item : Active F) → 0 < interval → is_due (reminded item) ≡ false
  reminded-over item h = ground arith

  -- A call, on the list of the entries.
  abbrev serve : List (Active F) → Option (EventTransition F) × List (Active F)
  serve [] = (none, [])
  serve (item ∷ items) =
      let (told, items') = serve items in
      if is_due item
      then (some (reminder_of item), reminded item ∷ items)
      else (told, item ∷ items')

  -- `n` calls.
  abbrev serve_all : ℕ → List (Active F) → List (Option (EventTransition F)) × List (Active F)
  serve_all zero items = ([], items)
  serve_all (suc n) items =
      let (told, items') = serve items in
      let (later, items'') = serve_all n items' in (told ∷ later, items'')

  serve_past :
      (item : Active F) (items : List (Active F))
      → is_due item ≡ false
      → serve (item ∷ items) ≡ ((serve items).0, item ∷ (serve items).1)
  serve_past item items h = rw h refl

  serve_all_past :
      (n : ℕ) (item : Active F) (items : List (Active F))
      → is_due item ≡ false
      → serve_all n (item ∷ items) ≡ ((serve_all n items).0, item ∷ (serve_all n items).1)
  serve_all_past zero item items h = refl
  serve_all_past (suc n) item items h =
      rw (serve_past item items h) (rw (serve_all_past n item (serve items).1 h) refl)

  served-all :
      (items : List (Active F))
      → 0 < interval
      → serve_all (count_if is_due items) items
        ≡ (map (λ item. some (reminder_of item)) (keep_if is_due items), map reminded_if items)
  served-all [] h = refl
  served-all (item ∷ items) h = elim (Bool-cases (is_due item)) [
    | inl ready ↦
        let n = count_if is_due items in
        let counted : count_if is_due (item ∷ items) ≡ suc n = rw ready refl in
        let first : serve (item ∷ items) ≡ (some (reminder_of item), reminded item ∷ items) =
          rw ready refl in
        let rest =
          serve_all_past n (reminded item) items (reminded-over item h)
          ∙ ap (λ r. (r.0, reminded item ∷ r.1)) (served-all items h) in
        ap (λ k. serve_all k (item ∷ items)) counted
        ∙ (ap (λ s. (s.0 ∷ (serve_all n s.1).0, (serve_all n s.1).1)) first
            ∙ (ap (λ r. (some (reminder_of item) ∷ r.0, r.1)) rest ∙ sym (rw ready refl)))
    | inr waits ↦
        let n = count_if is_due items in
        let counted : count_if is_due (item ∷ items) ≡ n = rw waits refl in
        ap (λ k. serve_all k (item ∷ items)) counted
        ∙ (serve_all_past n item items waits
            ∙ (ap (λ r. (r.0, item ∷ r.1)) (served-all items h) ∙ sym (rw waits refl)))
  ]

  reminded_if-over : (item : Active F) → 0 < interval → is_due (reminded_if item) ≡ false
  reminded_if-over item h = elim (Bool-cases (is_due item)) [
    | inl ready ↦
        let same : reminded_if item ≡ reminded item = rw ready refl in
        ap is_due same ∙ reminded-over item h
    | inr waits ↦ let same : reminded_if item ≡ item = rw waits refl in ap is_due same ∙ waits
  ]

  serve_quiet :
      (item : Active F) (items : List (Active F))
      → is_due item ≡ false
      → serve items ≡ (none, items)
      → serve (item ∷ items) ≡ (none, item ∷ items)
  serve_quiet item items waits rest = serve_past item items waits ∙ ap (λ r. (r.0, item ∷ r.1)) rest

  -- Once reminded, no entry is served again.
  serve_idle :
      (items : List (Active F))
      → 0 < interval
      → serve (map reminded_if items) ≡ (none, map reminded_if items)
  serve_idle [] h = refl
  serve_idle (item ∷ items) h =
      serve_quiet (reminded_if item) (map reminded_if items) (reminded_if-over item h)
        (serve_idle items h)

  -- A call by the place that `find_index` gives.
  abbrev put_at :
      List (Active F) → Active F → Option ℕ → Option (EventTransition F) × List (Active F)
  put_at items d none = (none, items)
  put_at items d (some i) =
      (some (reminder_of (get_or items i d)), set items i (reminded (get_or items i d)))

  put_at-shift :
      (item d : Active F) (items : List (Active F)) (place : Option ℕ)
      → put_at (item ∷ items) d (shift place)
        ≡ ((put_at items d place).0, item ∷ (put_at items d place).1)
  put_at-shift item d items none = refl
  put_at-shift item d items (some i) = refl

  serve_place :
      (items : List (Active F)) (d : Active F)
      → put_at items d (find_index (λ item. not (skips now interval item)) items) ≡ serve items
  serve_place [] d = refl
  serve_place (item ∷ items) d = elim (Bool-cases (is_due item)) [
    | inl ready ↦ rw (not_skipped item, ready) refl
    | inr waits ↦
        rw (not_skipped item, waits) (rw (put_at-shift item d items _, serve_place items d) refl)
  ]

module _ {F : Type 0} (fl : FloatOps F) (now interval : ℕ) where
  next_reminder-serve :
      (m : EventManager F)
      → next_reminder fl m now interval ≡ (
          let (told, active') = serve now interval m.active in
          (told, record m { active = active' }))
  unfolding next_reminder
  next_reminder-serve m =
      let place = serve_place now interval m.active (idle fl) in
      elim (Option-cases (find_index (λ item. not (skips now interval item)) m.active)) [
        | inl nothing ↦ rw (← place, nothing, next_reminder) refl
        | inr (i, found) ↦ rw (← place, found, next_reminder) refl
      ]

  -- `n` calls at one time: what they return, and the manager after them.
  abbrev pub remind_all : ℕ → EventManager F → List (Option (EventTransition F)) × EventManager F
  remind_all zero m = ([], m)
  remind_all (suc n) m =
      let (told, m') = next_reminder fl m now interval in
      let (later, m'') = remind_all n m' in (told ∷ later, m'')

  remind_all-serve_all :
      (n : ℕ) (m : EventManager F)
      → remind_all n m ≡ (
          let (told, active') = serve_all now interval n m.active in
          (told, record m { active = active' }))
  remind_all-serve_all zero m = refl
  remind_all-serve_all (suc n) m =
      rw (next_reminder-serve m)
        (rw (remind_all-serve_all n (record m { active = (serve now interval m.active).1 })) refl)

  -- With an interval above 0, calls at one time, as many as there are events due, return the reminder of
  -- each event that is due, once and in the order of the slots, under that time; each of these entries then
  -- has that time for its last announcement, and all others are as they were. One more call returns
  -- nothing and changes nothing.
  pub reminders_finish :
      (m : EventManager F)
      → 0 < interval
      → let due = keep_if (is_due now interval) m.active in
        let (told, m') = remind_all (count_if (is_due now interval) m.active) m in
        (told ≡ map (λ item. some (reminder_of now interval item)) due)
        × (m' ≡ record m { active = map (reminded_if now interval) m.active })
        × (next_reminder fl m' now interval ≡ (none, m'))
  reminders_finish m h =
      let calls = remind_all-serve_all (count_if (is_due now interval) m.active) m in
      let all = served-all now interval m.active h in
      let m' : EventManager F = record m { active = map (reminded_if now interval) m.active } in
      let last : next_reminder fl m' now interval ≡ (none, m') =
        next_reminder-serve m' ∙ rw (serve_idle now interval m.active h) refl in
      rw calls (rw all (refl, refl, last))
