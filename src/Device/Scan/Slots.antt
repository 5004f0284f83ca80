-- ===== src/Device/Scan/Slots.antt =====
-- What one answer does to the registry: it stays valid, and only the slot asked for changes.
use savantix_dali_edge_contr.Prelude.{
  ℕ, zero, suc, ◌+◌, ◌≡◌, ◌≢◌, refl, Bool, true, false, not, ◌||◌, List, [], ◌∷◌, ap, Option, none,
  some, arith, ltb, leb, u8, if◌then◌else◌, inl, inr, Bool-cases, get_or, set, get_or-set_ne,
  FloatOps,
}
use savantix_dali_edge_contr.Core.{ShortAddress, IsShort}
use savantix_dali_edge_contr.Protocol.Query.{DaliQueryResult, IDaliQueryClient}
use savantix_dali_edge_contr.Device.Registry.{
  DeviceLifecycle, DaliDeviceRecord, DaliDeviceRegistry, capacity, find, write, new_record,
}
use savantix_dali_edge_contr.Device.Registry.Count.{
  IsValid, write-IsValid, filled, filled-IsValid, upsert_new,
}
use savantix_dali_edge_contr.Device.Scan.{
  Scan, is_valid_response, outcome_is_collision, is_bus_failure, is_missing, mark_present,
  responded, collided, silent, take_answer, scan_address, scan_from, scan_presence,
}

module _ {F : Type 0} where
  -- What an answer may do to the registry: nothing, an update of the device's record, or a new record
  -- in its empty slot.
  data Update (a : ShortAddress) (old new : DaliDeviceRegistry F) : Type 0 where
    kept : new ≡ old → Update a old new
    rewritten :
        (r r' : DaliDeviceRecord F)
        → find old a ≡ some r
        → r'.address ≡ r.address
        → new ≡ write old a r'
        → Update a old new
    added :
        (r' : DaliDeviceRecord F)
        → find old a ≡ none
        → r'.address ≡ a
        → new ≡ filled old a r'
        → Update a old new

  Update-IsValid :
      {a : ShortAddress} {old new : DaliDeviceRegistry F}
      → IsShort a
      → IsValid old
      → Update a old new
      → IsValid new
  Update-IsValid h v (kept e) = rw e v
  Update-IsValid {a} {old} h v (rewritten r r' found same e) =
      rw e (write-IsValid old a r r' v found same)
  Update-IsValid {a} {old} h v (added r' empty own e) =
      rw e (filled-IsValid old a r' v h empty (rw own refl))

  Update-elsewhere :
      {a : ShortAddress} {old new : DaliDeviceRegistry F} (b : ShortAddress)
      → a.value ≢ b.value
      → Update a old new
      → find new b ≡ find old b
  Update-elsewhere b ne (kept e) = rw e refl
  Update-elsewhere {old} b ne (rewritten r r' found same e) =
      rw e (get_or-set_ne old.records (some r') none ne)
  Update-elsewhere {old} b ne (added r' empty own e) =
      rw e (get_or-set_ne old.records (some r') none ne)

set-set : {A : Type 0} (xs : List A) (i : ℕ) (u v : A) → set (set xs i u) i v ≡ set xs i v
set-set [] i u v = refl
set-set (x ∷ xs) zero u v = refl
set-set (x ∷ xs) (suc i) u v = ap (λ l. x ∷ l) (set-set xs i u v)

registry-if :
    {C F : Type 0} (b : Bool) (s t : Scan C F) {registry : DaliDeviceRegistry F}
    → s.registry ≡ registry
    → t.registry ≡ registry
    → (if b then s else t).registry ≡ registry
registry-if true s t e e' = e
registry-if false s t e e' = e'

module _ {C F : Type 0} (fl : FloatOps F) (api : IDaliQueryClient C) (now : ℕ) where
  responded-Update :
      (s : Scan C F) (a : ShortAddress) (slot : Option (DaliDeviceRecord F))
      → find s.registry a ≡ slot
      → Update a s.registry (responded fl api now s a slot).registry
  responded-Update s a none empty =
      let fresh = new_record fl a now in
      added (mark_present fl api now fresh) empty refl (
        rw (upsert_new fl s.registry a now empty) (
          ap (λ rs. record { records = rs; count = s.registry.count + 1 })
            (set-set s.registry.records a.value (some fresh)
              (some (mark_present fl api now fresh)))))
  responded-Update s a (some r) found =
      rewritten r (record (mark_present fl api now r) { last_seen_uptime_ms = now }) found refl
        (registry-if (is_missing r.lifecycle) _ _ refl refl)

  collided-Update :
      (s : Scan C F) (a : ShortAddress) (slot : Option (DaliDeviceRecord F))
      → find s.registry a ≡ slot
      → Update a s.registry (collided fl api now s a slot).registry
  collided-Update s a none empty =
      kept (registry-if (not (get_or s.duplicate_reported a.value false)) _ _ refl refl)
  collided-Update s a (some r) found =
      rewritten r (record r { lifecycle = DeviceLifecycle.duplicate_address }) found refl
        (registry-if (not (get_or s.duplicate_reported a.value false)) _ _ refl refl)

  -- The record after one more missed check.
  abbrev counted : DaliDeviceRecord F → DaliDeviceRecord F
  counted r = record r {
    missed_presence_checks =
        if ltb r.missed_presence_checks 3
        then u8 (r.missed_presence_checks + 1)
        else r.missed_presence_checks;
  }

  silent-Update :
      (s : Scan C F) (a : ShortAddress) (result : DaliQueryResult)
      (slot : Option (DaliDeviceRecord F))
      → find s.registry a ≡ slot
      → Update a s.registry (silent fl api now s a result slot).registry
  silent-Update s a result none empty = kept refl
  silent-Update s a result (some r) found =
      elim (Bool-cases (is_bus_failure result || is_missing r.lifecycle)) [
        | inl skip ↦ rw skip (kept refl)
        | inr check ↦ elim (Bool-cases (leb 3 (counted r).missed_presence_checks)) [
          | inl gone ↦
              rw (check, gone)
                (rewritten r
                  (record (counted r) { lifecycle = DeviceLifecycle.missing; present = false })
                  found refl refl)
          | inr still ↦ rw (check, still) (rewritten r (counted r) found refl refl)
        ]
      ]

  take_answer-Update :
      (s : Scan C F) (a : ShortAddress) (result : DaliQueryResult)
      → Update a s.registry (take_answer fl api now s a result).registry
  unfolding take_answer
  take_answer-Update s a result = elim (Bool-cases (is_valid_response result)) [
    | inl heard ↦ rw heard (
        responded-Update (record s { duplicate_reported = set s.duplicate_reported a.value false })
          a _ refl)
    | inr other ↦ elim (Bool-cases (outcome_is_collision result.outcome)) [
      | inl clash ↦ rw (other, clash) (collided-Update s a _ refl)
      | inr quiet ↦ rw (other, quiet) (silent-Update s a result _ refl)
    ]
  ]

  scan_from-IsValid :
      (n raw : ℕ) (s : Scan C F)
      → n + raw ≡ capacity
      → IsValid s.registry
      → IsValid (scan_from fl api now n raw s).registry
  unfolding scan_from scan_address
  scan_from-IsValid zero raw s e v = v
  scan_from-IsValid (suc n) raw s e v =
      scan_from-IsValid n (raw + 1) _ (omega arith)
        (Update-IsValid (omega arith) v (take_answer-Update _ (record { value = raw }) _))

  -- A presence scan keeps the registry valid, whatever the client answers: 64 slots, each record in the
  -- slot of its own address, and the count that of the occupied slots.
  pub scan_presence-IsValid :
      (client : C) (registry : DaliDeviceRegistry F) (reported : List Bool)
      → IsValid registry
      → IsValid (scan_presence fl api now client registry reported).registry
  unfolding scan_presence
  scan_presence-IsValid client registry reported v = scan_from-IsValid capacity 0 _ refl v

  -- The answer for one address changes no other device's record.
  pub take_answer_elsewhere :
      (s : Scan C F) (a b : ShortAddress) (result : DaliQueryResult)
      → a.value ≢ b.value
      → find (take_answer fl api now s a result).registry b ≡ find s.registry b
  take_answer_elsewhere s a b result ne = Update-elsewhere b ne (take_answer-Update s a result)
