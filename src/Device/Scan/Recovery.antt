-- ===== src/Device/Scan/Recovery.antt =====
-- When scanPresence reports that a missing device is back.
use savantix_dali_edge_contr.Prelude.{
  ◌<◌, ◌≡◌, refl, true, false, some, none, arith, length, get_or, get_or-set_self, length-set,
  FloatOps, Bool-cases, inl, inr, if◌then◌else◌, ℕ,
}
use savantix_dali_edge_contr.Core.{ShortAddress}
use savantix_dali_edge_contr.Protocol.Query.{DaliQueryResult, IDaliQueryClient}
use savantix_dali_edge_contr.Device.Registry.{DeviceLifecycle, DaliDeviceRecord, find}
use savantix_dali_edge_contr.Device.Scan.{
  Scan, DiscoveryChangeType, add, change_at, is_valid_response, outcome_is_collision, is_missing,
  mark_present, take_answer,
}

module _ {C F : Type 0} (fl : FloatOps F) (api : IDaliQueryClient C) (now : ℕ)
    (a : ShortAddress) where
  -- The record of a device that has just answered.
  abbrev pub back : DaliDeviceRecord F → DaliDeviceRecord F
  back r = record (mark_present fl api now r) { last_seen_uptime_ms = now }

  -- A known device that answers is marked present. The answer is reported, as a recovery, just when
  -- its record read missing.
  pub answer_of_known :
      (s : Scan C F) (r : DaliDeviceRecord F) (v : DaliQueryResult)
      → a.value < length s.registry.records
      → find s.registry a ≡ some r
      → is_valid_response v ≡ true
      → let s' = take_answer fl api now s a v in
        (find s'.registry a ≡ some (back r))
        × (s'.batch ≡ (
            if is_missing r.lifecycle
            then (add s.batch (change_at fl api now DiscoveryChangeType.device_recovered a)).1
            else s.batch))
  unfolding take_answer
  answer_of_known s r v h found heard = elim (Bool-cases (is_missing r.lifecycle)) [
    | inl e ↦
        rw (heard, found, e)
          (get_or-set_self s.registry.records a.value (some (back r)) none h, refl)
    | inr e ↦
        rw (heard, found, e)
          (get_or-set_self s.registry.records a.value (some (back r)) none h, refl)
  ]

  clash_slot :
      (s : Scan C F) (r : DaliDeviceRecord F) (c : DaliQueryResult)
      → a.value < length s.registry.records
      → find s.registry a ≡ some r
      → is_valid_response c ≡ false
      → outcome_is_collision c.outcome ≡ true
      → let s' = take_answer fl api now s a c in
        (find s'.registry a ≡ some (record r { lifecycle = DeviceLifecycle.duplicate_address }))
        × (length s'.registry.records ≡ length s.registry.records)
  unfolding take_answer
  clash_slot s r c h found unheard clash =
      let r' : DaliDeviceRecord F = record r { lifecycle = DeviceLifecycle.duplicate_address } in
      elim (Bool-cases (get_or s.duplicate_reported a.value false)) [
        | inl e ↦
            rw (unheard, clash, found, e)
              (
                get_or-set_self s.registry.records a.value (some r') none h,
                length-set s.registry.records a.value (some r'),
              )
        | inr e ↦
            rw (unheard, clash, found, e)
              (
                get_or-set_self s.registry.records a.value (some r') none h,
                length-set s.registry.records a.value (some r'),
              )
      ]

  -- A collision between hides the recovery: a device that was missing, then collides and then answers, is
  -- marked present with no report that it is back.
  pub recovery_after_collision_unreported :
      (s : Scan C F) (r : DaliDeviceRecord F) (c v : DaliQueryResult)
      → a.value < length s.registry.records
      → find s.registry a ≡ some r
      → is_missing r.lifecycle ≡ true
      → is_valid_response c ≡ false
      → outcome_is_collision c.outcome ≡ true
      → is_valid_response v ≡ true
      → let s1 = take_answer fl api now s a c in
        let s2 = take_answer fl api now s1 a v in
        (find s2.registry a ≡ some (back r)) × (s2.batch ≡ s1.batch)
  recovery_after_collision_unreported s r c v h found gone unheard clash heard =
      let (slot, size) = clash_slot s r c h found unheard clash in
      answer_of_known (take_answer fl api now s a c)
        (record r { lifecycle = DeviceLifecycle.duplicate_address }) v (omega (arith, size)) slot
        heard
