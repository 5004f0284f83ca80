-- ===== src/Device/Registry/Count.antt =====
-- The invariant of DaliDeviceRegistry: 64 slots, a record in the slot of its own address, and `count_`
-- the number of occupied slots.
use savantix_dali_edge_contr.Prelude.{
  ℕ, zero, suc, ◌+◌, ◌<◌, ◌≡◌, refl, List, [], ◌∷◌, Option, none, some, arith, length, get_or, set,
  length-set, length-replicate, replicate, FloatOps, Option-cases, inl, inr, get_or-set_self,
}
use savantix_dali_edge_contr.Core.{ShortAddress, IsShort}
use savantix_dali_edge_contr.Device.Registry.{
  DaliDeviceRecord, DaliDeviceRegistry, new_record, capacity, find, write, upsert, empty_registry,
}

module _ {F : Type 0} where
  abbrev pub occupied : List (Option (DaliDeviceRecord F)) → ℕ
  occupied [] = 0
  occupied (none ∷ rs) = occupied rs
  occupied (some r ∷ rs) = suc (occupied rs)

  -- From slot `i` on, every record is that of its slot's address.
  abbrev pub Placed : ℕ → List (Option (DaliDeviceRecord F)) → Type 0
  Placed i [] = Unit {0}
  Placed i (none ∷ rs) = Placed (suc i) rs
  Placed i (some r ∷ rs) = (r.address.value ≡ i) × Placed (suc i) rs

  pub record IsValid (registry : DaliDeviceRegistry F) : Type 0 where
    pub sized : length registry.records ≡ capacity
    pub counted : registry.count ≡ occupied registry.records
    pub placed : Placed 0 registry.records

  occupied-set_new :
      (rs : List (Option (DaliDeviceRecord F))) (i : ℕ) (r : DaliDeviceRecord F)
      → i < length rs
      → get_or rs i none ≡ none
      → occupied (set rs i (some r)) ≡ suc (occupied rs)
  occupied-set_new [] i r h e = absurd (omega arith)
  occupied-set_new (none ∷ rs) zero r h e = refl
  occupied-set_new (some x ∷ rs) zero r h e = cc
  occupied-set_new (none ∷ rs) (suc i) r h e = occupied-set_new rs i r (omega arith) e
  occupied-set_new (some x ∷ rs) (suc i) r h e =
      omega (arith, occupied-set_new rs i r (omega arith) e)

  occupied-set_old :
      (rs : List (Option (DaliDeviceRecord F))) (i : ℕ) (old r : DaliDeviceRecord F)
      → get_or rs i none ≡ some old
      → occupied (set rs i (some r)) ≡ occupied rs
  occupied-set_old [] i old r e = cc
  occupied-set_old (none ∷ rs) zero old r e = cc
  occupied-set_old (some x ∷ rs) zero old r e = refl
  occupied-set_old (none ∷ rs) (suc i) old r e = occupied-set_old rs i old r e
  occupied-set_old (some x ∷ rs) (suc i) old r e = omega (arith, occupied-set_old rs i old r e)

  set-Placed :
      (rs : List (Option (DaliDeviceRecord F))) (base i : ℕ) (r : DaliDeviceRecord F)
      → r.address.value ≡ base + i
      → Placed base rs
      → Placed base (set rs i (some r))
  set-Placed [] base i r e p = tt
  set-Placed (none ∷ rs) base zero r e p = (omega arith, p)
  set-Placed (some x ∷ rs) base zero r e p = (omega arith, p.1)
  set-Placed (none ∷ rs) base (suc i) r e p = set-Placed rs (suc base) i r (omega arith) p
  set-Placed (some x ∷ rs) base (suc i) r e p =
      (p.0, set-Placed rs (suc base) i r (omega arith) p.1)

  Placed-at :
      (rs : List (Option (DaliDeviceRecord F))) (base i : ℕ) (r : DaliDeviceRecord F)
      → Placed base rs
      → get_or rs i none ≡ some r
      → r.address.value ≡ base + i
  Placed-at [] base i r p e = cc
  Placed-at (none ∷ rs) base zero r p e = cc
  Placed-at (some x ∷ rs) base zero r p e = ground arith
  Placed-at (none ∷ rs) base (suc i) r p e = omega (arith, Placed-at rs (suc base) i r p e)
  Placed-at (some x ∷ rs) base (suc i) r p e = omega (arith, Placed-at rs (suc base) i r p.1 e)

  -- Where the record found is the device's own.
  pub find-address :
      (registry : DaliDeviceRegistry F) (a : ShortAddress) (r : DaliDeviceRecord F)
      → IsValid registry
      → find registry a ≡ some r
      → r.address.value ≡ a.value
  find-address registry a r v e = omega (arith, Placed-at registry.records 0 a.value r v.placed e)

  -- Writing an update of the record that was found there.
  pub write-IsValid :
      (registry : DaliDeviceRegistry F) (a : ShortAddress) (old new : DaliDeviceRecord F)
      → IsValid registry
      → find registry a ≡ some old
      → new.address ≡ old.address
      → IsValid (write registry a new)
  write-IsValid registry a old new v e same = record {
    sized = omega (arith, v.sized, length-set registry.records a.value (some new));
    counted = omega (arith, v.counted, occupied-set_old registry.records a.value old new e);
    placed =
        set-Placed registry.records 0 a.value new
          (rw same (omega (arith, find-address registry a old v e))) v.placed;
  }

  -- The registry with a new record in an empty slot.
  abbrev pub filled :
      DaliDeviceRegistry F → ShortAddress → DaliDeviceRecord F → DaliDeviceRegistry F
  filled registry a r = record {
    records = set registry.records a.value (some r);
    count = registry.count + 1;
  }

  pub filled-IsValid :
      (registry : DaliDeviceRegistry F) (a : ShortAddress) (r : DaliDeviceRecord F)
      → IsValid registry
      → IsShort a
      → find registry a ≡ none
      → r.address.value ≡ a.value
      → IsValid (filled registry a r)
  filled-IsValid registry a r v h empty own = record {
    sized = omega (arith, v.sized, length-set registry.records a.value (some r));
    counted = omega (
      arith,
      v.counted,
      occupied-set_new registry.records a.value r (omega (arith, v.sized)) empty,
    );
    placed = set-Placed registry.records 0 a.value r (omega arith) v.placed;
  }

module _ {F : Type 0} (fl : FloatOps F) where
  pub upsert_new :
      (registry : DaliDeviceRegistry F) (a : ShortAddress) (now : ℕ)
      → find registry a ≡ none
      → upsert fl registry a now ≡ (new_record fl a now, filled registry a (new_record fl a now))
  unfolding upsert
  upsert_new registry a now empty = rw (empty, upsert)

  upsert_old :
      (registry : DaliDeviceRegistry F) (a : ShortAddress) (now : ℕ) (old : DaliDeviceRecord F)
      → find registry a ≡ some old
      → let seen = record old { last_seen_uptime_ms = now } in
        upsert fl registry a now ≡ (seen, write registry a seen)
  unfolding upsert
  upsert_old registry a now old found = rw (found, upsert)

  -- `upsert` keeps the registry valid, and leaves the record that it returns in the address's slot. The
  -- count grows by one just when the slot was empty.
  pub upsert-IsValid :
      (registry : DaliDeviceRegistry F) (a : ShortAddress) (now : ℕ)
      → IsValid registry
      → IsShort a
      → let (r, registry') = upsert fl registry a now in
        IsValid registry'
        × (find registry' a ≡ some r)
        × (r.address.value ≡ a.value)
        × (r.last_seen_uptime_ms ≡ now)
        × (registry'.count ≡ registry.count + elim (find registry a) [ none ↦ 1 | some old ↦ 0 ])
  upsert-IsValid registry a now v h = elim (Option-cases (find registry a)) [
    | inl empty ↦
        let fresh = new_record fl a now in
        rw (upsert_new registry a now empty, empty)
          (
            filled-IsValid registry a fresh v h empty refl,
            get_or-set_self registry.records a.value (some fresh) none (omega (arith, v.sized)),
            refl,
            refl,
            refl,
          )
    | inr (old, found) ↦
        let seen : DaliDeviceRecord F = record old { last_seen_uptime_ms = now } in
        rw (upsert_old registry a now old found, found)
          (
            write-IsValid registry a old seen v found refl,
            get_or-set_self registry.records a.value (some seen) none (omega (arith, v.sized)),
            find-address registry a old v found,
            refl,
            omega arith,
          )
  ]

module _ (F : Type 0) where
  occupied-replicate : (n : ℕ) → occupied {F = F} (replicate n none) ≡ 0
  occupied-replicate zero = refl
  occupied-replicate (suc n) = occupied-replicate n

  replicate-Placed : (n base : ℕ) → Placed {F = F} base (replicate n none)
  replicate-Placed zero base = tt
  replicate-Placed (suc n) base = replicate-Placed n (suc base)

  pub empty_registry-IsValid : IsValid (empty_registry {F = F})
  empty_registry-IsValid = record {
    sized = length-replicate {A = Option (DaliDeviceRecord F)} capacity none;
    counted = omega (arith, occupied-replicate capacity);
    placed = replicate-Placed capacity 0;
  }
