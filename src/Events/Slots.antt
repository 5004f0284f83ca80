-- ===== src/Events/Slots.antt =====
-- The slots of EventManager: where `find` stops when no two slots hold the same event.
use savantix_dali_edge_contr.Prelude.{
  ℕ, ◌<◌, ◌≡◌, ◌≢◌, refl, sym, ap, subst, ◌∙◌, ◌⊎◌, true, false, Option, none, some, arith, ◌==◌,
  if◌then◌else◌, inl, inr, Bool-cases, Option-cases, length, length-set, get_or-set_self,
  get_or-set_ne, get_or-replicate, length-replicate, find_index-some, find_index-none, ℕ_discrete,
  FloatOps,
}
use savantix_dali_edge_contr.Core.{LightEventType}
use savantix_dali_edge_contr.Events.{
  Active, EventManager, event_capacity, matches, find_slot, idle, empty_manager, slot_at, put,
}

module _ {F : Type 0} (fl : FloatOps F) where
  -- 128 slots, and no two of them hold the same event of the same device.
  pub record IsValid (m : EventManager F) : Type 0 where
    pub sized : length m.active ≡ event_capacity
    pub unique :
        (i j a : ℕ) (k : LightEventType)
        → matches a k (slot_at fl m i) ≡ true
        → matches a k (slot_at fl m j) ≡ true
        → i ≡ j

  -- The event of a device that is active, as `find` finds it.
  abbrev pub lookup : EventManager F → ℕ → LightEventType → Option (Active F)
  lookup m a k = elim (find_slot m a k) [ none ↦ none | some i ↦ some (slot_at fl m i) ]

  pub empty-IsValid : IsValid (empty_manager fl)
  empty-IsValid = record {
    sized = length-replicate event_capacity (idle fl);
    unique = λ i j a k p q. cc (rw (get_or-replicate event_capacity i (idle fl)) at p);
  }

  pub find_slot_here :
      (m : EventManager F) (a : ℕ) (k : LightEventType) (i : ℕ)
      → IsValid m
      → matches a k (slot_at fl m i) ≡ true
      → find_slot m a k ≡ some i
  find_slot_here m a k i v h = elim (Option-cases (find_slot m a k)) [
    | inl e ↦ cc (find_index-none (matches a k) m.active (idle fl) e refl i, h)
    | inr (j, e) ↦
        let there = find_index-some (matches a k) m.active j (idle fl) e in
        cc (v.unique i j a k h there.0, e)
  ]

  pub lookup_here :
      (m : EventManager F) (a : ℕ) (k : LightEventType) (i : ℕ)
      → IsValid m
      → matches a k (slot_at fl m i) ≡ true
      → lookup m a k ≡ some (slot_at fl m i)
  lookup_here m a k i v h = rw (find_slot_here m a k i v h, lookup) refl

  pub lookup_nowhere :
      (m : EventManager F) (a : ℕ) (k : LightEventType)
      → ((i : ℕ) → matches a k (slot_at fl m i) ≡ false)
      → lookup m a k ≡ none
  lookup_nowhere m a k h = elim (Option-cases (find_slot m a k)) [
    | inl e ↦ rw (e, lookup) refl
    | inr (j, e) ↦ cc (h j, (find_index-some (matches a k) m.active j (idle fl) e).0)
  ]

  -- A write to a slot inside the array.
  pub slot_at-put :
      (m : EventManager F) (i j : ℕ) (x : Active F)
      → i < length m.active
      → slot_at fl (put fl m i x) j ≡ (if i == j then x else slot_at fl m j)
  slot_at-put m i j x h = elim (ℕ_discrete i j) [
    | yes e ↦
        let t : (i == j) ≡ true = ground arith in
        rw (t, sym e) (get_or-set_self m.active i x (idle fl) h)
    | no ne ↦
        let t : (i == j) ≡ false = ground arith in rw t (get_or-set_ne m.active x (idle fl) ne)
  ]

  -- No slot but `i` holds the event of `x`.
  abbrev pub Admits : EventManager F → ℕ → Active F → Type 0
  Admits m i x =
      (j a : ℕ) (k : LightEventType)
      → matches a k x ≡ true
      → matches a k (slot_at fl m j) ≡ true
      → i ≡ j

  matches-put_holder :
      (m : EventManager F) (i j : ℕ) (x : Active F) (a : ℕ) (k : LightEventType)
      → i < length m.active
      → matches a k (slot_at fl (put fl m i x) j) ≡ true
      → ((i ≡ j) × (matches a k x ≡ true)) ⊎ ((i ≢ j) × (matches a k (slot_at fl m j) ≡ true))
  matches-put_holder m i j x a k h p = elim (ℕ_discrete i j) [
    | yes e ↦
        let t : (i == j) ≡ true = ground arith in
        inl (e, subst (λ (y : Active F). matches a k y ≡ true) (rw t at (slot_at-put m i j x h)) p)
    | no ne ↦
        let t : (i == j) ≡ false = ground arith in
        inr (ne, subst (λ (y : Active F). matches a k y ≡ true) (rw t at (slot_at-put m i j x h)) p)
  ]

  pub put-IsValid :
      (m : EventManager F) (i : ℕ) (x : Active F)
      → IsValid m
      → i < length m.active
      → Admits m i x
      → IsValid (put fl m i x)
  put-IsValid m i x v h admits = record {
    sized = omega (arith, v.sized, length-set m.active i x);
    unique = λ p q a k hp hq. elim (matches-put_holder m i p x a k h hp) [
      | inl (ep, xp) ↦ elim (matches-put_holder m i q x a k h hq) [
        | inl (eq, _) ↦ cc (ep, eq)
        | inr (_, yq) ↦ cc (ep, admits q a k xp yq)
      ]
      | inr (_, yp) ↦ elim (matches-put_holder m i q x a k h hq) [
        | inl (eq, xq) ↦ cc (eq, admits p a k xq yp)
        | inr (_, yq) ↦ v.unique p q a k yp yq
      ]
    ];
  }

  lookup-put_other :
      (m : EventManager F) (i j : ℕ) (x : Active F) (a : ℕ) (k : LightEventType)
      → IsValid m
      → IsValid (put fl m i x)
      → i ≢ j
      → matches a k (slot_at fl m j) ≡ true
      → lookup (put fl m i x) a k ≡ lookup m a k
  lookup-put_other m i j x a k v v' ne held =
      let same : slot_at fl (put fl m i x) j ≡ slot_at fl m j =
        get_or-set_ne m.active x (idle fl) ne in
      lookup_here (put fl m i x) a k j v' (rw same held)
      ∙ (ap some same ∙ sym (lookup_here m a k j v held))

  -- A slot found after the write held its event before.
  still_held :
      (m : EventManager F) (i j : ℕ) (x : Active F) (a : ℕ) (k : LightEventType)
      → i < length m.active
      → matches a k x ≡ false
      → find_slot (put fl m i x) a k ≡ some j
      → (i ≢ j) × (matches a k (slot_at fl m j) ≡ true)
  still_held m i j x a k h stale e =
      let there = find_index-some (matches a k) (put fl m i x).active j (idle fl) e in
      elim (matches-put_holder m i j x a k h there.0) [
        | inl (_, new) ↦ cc (new, stale)
        | inr held ↦ held
      ]

  -- Nothing found after the write of an event elsewhere: nothing was found before.
  nowhere :
      (m : EventManager F) (i : ℕ) (x : Active F) (a : ℕ) (k : LightEventType)
      → matches a k (slot_at fl m i) ≡ false
      → find_slot (put fl m i x) a k ≡ none
      → (j : ℕ) → matches a k (slot_at fl m j) ≡ false
  nowhere m i x a k was e j = elim (ℕ_discrete i j) [
    | yes same ↦ subst (λ t. matches a k (slot_at fl m t) ≡ false) same was
    | no ne ↦
        rw (sym (get_or-set_ne m.active x (idle fl) ne))
          (find_index-none (matches a k) (put fl m i x).active (idle fl) e refl j)
  ]

  lookup-put_stale :
      (m : EventManager F) (i : ℕ) (x : Active F) (a : ℕ) (k : LightEventType)
      → IsValid m
      → i < length m.active
      → IsValid (put fl m i x)
      → matches a k x ≡ false
      → lookup (put fl m i x) a k ≡ (if matches a k (slot_at fl m i) then none else lookup m a k)
  lookup-put_stale m i x a k v h v' stale = elim (Option-cases (find_slot (put fl m i x) a k)) [
    | inl e ↦ elim (Bool-cases (matches a k (slot_at fl m i))) [
      | inl was ↦ rw (was, e, lookup) refl
      | inr was ↦ rw (was, e, lookup) (sym (lookup_nowhere m a k (nowhere m i x a k was e)))
    ]
    | inr (j, e) ↦ elim (Bool-cases (matches a k (slot_at fl m i))) [
      | inl was ↦
          let (ne, held) = still_held m i j x a k h stale e in
          absurd (ne (v.unique i j a k was held))
      | inr was ↦
          let (ne, held) = still_held m i j x a k h stale e in
          rw was (lookup-put_other m i j x a k v v' ne held)
    ]
  ]

  -- What is found after a write: the new entry where it is asked for, nothing where the old one was.
  pub lookup-put :
      (m : EventManager F) (i : ℕ) (x : Active F) (a : ℕ) (k : LightEventType)
      → IsValid m
      → i < length m.active
      → Admits m i x
      → lookup (put fl m i x) a k ≡ (
          if matches a k x
          then some x
          else if matches a k (slot_at fl m i)
          then none
          else lookup m a k)
  lookup-put m i x a k v h admits =
      let v' = put-IsValid m i x v h admits in
      let self : slot_at fl (put fl m i x) i ≡ x = get_or-set_self m.active i x (idle fl) h in
      elim (Bool-cases (matches a k x)) [
        | inl new ↦ rw new (lookup_here (put fl m i x) a k i v' (rw self new) ∙ ap some self)
        | inr stale ↦ rw stale (lookup-put_stale m i x a k v h v' stale)
      ]
