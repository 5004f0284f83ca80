-- ===== src/Events/Updates.antt =====
-- What one write to the slots of a manager does to the events that it holds.
use savantix_dali_edge_contr.Prelude.{
  split_and, ℕ, ◌≡◌, refl, sym, ap, subst, ◌∙◌, Bool, true, false, not, ◌&&◌, Option, none, some,
  arith, ltb, ◌==◌, ==_iff, if◌then◌else◌, find_index, find_index-some, find_index-none, FloatOps,
}
use savantix_dali_edge_contr.Core.{
  LightEvent, LightEventType, event_code, severity_code, event_code-injective,
}
use savantix_dali_edge_contr.Events.{
  EventAction, EventTransition, Active, EventManager, matches, find_slot, is_used, idle, slot_at,
  put,
}
use savantix_dali_edge_contr.Events.Slots.{IsValid, lookup, Admits, put-IsValid, lookup-put}

abbrev pub same_event : {F : Type 0} → ℕ → LightEventType → LightEvent F → Bool
same_event a k e = e.short_address == a && event_code e.kind == event_code k

-- The entry that an event makes of what was active for it.
abbrev pub raised : {F : Type 0} → ℕ → Option (Active F) → LightEvent F → Active F
raised id none e = record {
  used = true;
  event = if e.event_id == 0 then record e { event_id = id } else e;
  acknowledged = false;
  last_emitted = e.timestamp;
}
raised id (some old) e = record old {
  event = e;
  last_emitted =
      if ltb (severity_code old.event.severity) (severity_code e.severity)
      then e.timestamp
      else old.last_emitted;
}

-- What `raise` announces of it.
abbrev pub announced :
    {F : Type 0} → ℕ → Option (Active F) → LightEvent F → Option (EventTransition F)
announced id none e = some (record {
  event = if e.event_id == 0 then record e { event_id = id } else e;
  action = EventAction.activated;
  acknowledged = false;
})
announced id (some old) e =
    if ltb (severity_code old.event.severity) (severity_code e.severity)
    then some
        (record { event = e; action = EventAction.escalated; acknowledged = old.acknowledged })
    else none

regroup :
    {A : Type 0} (u same : Bool) (x y z : A)
    → (if u && same then x else if same then y else z) ≡ (if same then if u then x else y else z)
regroup true true x y z = refl
regroup true false x y z = refl
regroup false true x y z = refl
regroup false false x y z = refl

-- The test of `find` on an entry whose device and type are known.
matches_lem :
    {F : Type 0} (x : Active F) (a : ℕ) (k : LightEventType) (b : ℕ) (l : LightEventType)
    → x.event.short_address ≡ b
    → x.event.kind ≡ l
    → matches a k x ≡ (x.used && (b == a && event_code l == event_code k))
matches_lem x a k b l eb el = rw (eb, el, matches) refl

matches_used :
    {F : Type 0} (x : Active F) (a : ℕ) (k : LightEventType) (b : ℕ) (l : LightEventType)
    → x.used ≡ true
    → x.event.short_address ≡ b
    → x.event.kind ≡ l
    → matches a k x ≡ (b == a && event_code l == event_code k)
matches_used x a k b l used eb el =
    matches_lem x a k b l eb el ∙ ap (λ u. u && (b == a && event_code l == event_code k)) used

-- A slot holds the event of its own device and type.
pub holds_own :
    {F : Type 0} (x : Active F) (a : ℕ) (k : LightEventType)
    → matches a k x ≡ true
    → (x.used ≡ true) × (x.event.short_address ≡ a) × (x.event.kind ≡ k)
holds_own x a k h =
    let (u, s) = split_and x.used _ h in
    let (p, q) = split_and (x.event.short_address == a) _ s in
    (u, (==_iff _ _).0 p, event_code-injective _ _ ((==_iff _ _).0 q))

pub unused_holds_nothing :
    {F : Type 0} (x : Active F) (a : ℕ) (k : LightEventType)
    → not (is_used x) ≡ true
    → matches a k x ≡ false
unused_holds_nothing x a k h = ground (arith)

module _ {F : Type 0} (fl : FloatOps F) (m : EventManager F) (i : ℕ) (x : Active F) where
  -- Slot `i` is given an entry of the event that it holds.
  pub update_lem :
      (a : ℕ) (k : LightEventType) (b : ℕ) (l : LightEventType)
      → IsValid fl m
      → find_slot m b l ≡ some i
      → x.event.short_address ≡ b
      → x.event.kind ≡ l
      → IsValid fl (put fl m i x)
        × (lookup fl m b l ≡ some (slot_at fl m i))
        × (lookup fl (put fl m i x) a k ≡ (
            if b == a && event_code l == event_code k
            then if x.used then some x else none
            else lookup fl m a k))
  update_lem a k b l v found eb el =
      let (held, inside) = find_index-some (matches b l) m.active i (idle fl) found in
      let (old_used, old_b, old_l) = holds_own (slot_at fl m i) b l held in
      let admits : Admits fl m i x = λ j c o p q.
        (let (_, eb', el') = holds_own x c o p in
          v.unique i j b l held (
            subst (λ t. matches t l (slot_at fl m j) ≡ true) (sym eb' ∙ eb)
              (subst (λ t. matches c t (slot_at fl m j) ≡ true) (sym el' ∙ el) q))) in
      let new : matches a k x ≡ (x.used && (b == a && event_code l == event_code k)) =
        matches_lem x a k b l eb el in
      let old : matches a k (slot_at fl m i) ≡ (b == a && event_code l == event_code k) =
        matches_used (slot_at fl m i) a k b l old_used old_b old_l in
      (
        put-IsValid fl m i x v inside admits,
        rw (found, lookup) refl,
        rw (lookup-put fl m i x a k v inside admits, new, old) (regroup x.used _ _ _ _),
      )

  -- A free slot is given an entry of an event that is not active.
  pub fill_lem :
      (a : ℕ) (k : LightEventType) (b : ℕ) (l : LightEventType)
      → IsValid fl m
      → find_slot m b l ≡ none
      → find_index (λ item. not (is_used item)) m.active ≡ some i
      → x.used ≡ true
      → x.event.short_address ≡ b
      → x.event.kind ≡ l
      → IsValid fl (put fl m i x)
        × (lookup fl m b l ≡ none)
        × (lookup fl (put fl m i x) a k
            ≡ (if b == a && event_code l == event_code k then some x else lookup fl m a k))
  fill_lem a k b l v unknown free used eb el =
      let (spare, inside) =
        find_index-some (λ item. not (is_used item)) m.active i (idle fl) free in
      let admits : Admits fl m i x = λ j c o p q.
        (let (_, eb', el') = holds_own x c o p in
          let holds : matches b l (slot_at fl m j) ≡ true =
            subst (λ t. matches t l (slot_at fl m j) ≡ true) (sym eb' ∙ eb)
              (subst (λ t. matches c t (slot_at fl m j) ≡ true) (sym el' ∙ el) q) in
          cc (find_index-none (matches b l) m.active (idle fl) unknown refl j, holds)) in
      let new : matches a k x ≡ (b == a && event_code l == event_code k) =
        matches_used x a k b l used eb el in
      (
        put-IsValid fl m i x v inside admits,
        rw (unknown, lookup) refl,
        rw
            (
              lookup-put fl m i x a k v inside admits,
              new,
              unused_holds_nothing (slot_at fl m i) a k spare,
            )
            refl,
      )

module _ {F : Type 0} (fl : FloatOps F) (m : EventManager F) where
  pub lookup_absent : (b : ℕ) (l : LightEventType) → find_slot m b l ≡ none → lookup fl m b l ≡ none
  lookup_absent b l unknown = rw (unknown, lookup) refl

  pub lookup_present :
      (b : ℕ) (l : LightEventType) (i : ℕ)
      → find_slot m b l ≡ some i
      → lookup fl m b l ≡ some (slot_at fl m i)
  lookup_present b l i found = rw (found, lookup) refl
