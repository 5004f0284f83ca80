-- ===== src/Device/Scan/Hysteresis.antt =====
-- When scanPresence declares a device missing: the third check in a row that it does not answer, bus
-- failures not counted.
use savantix_dali_edge_contr.Prelude.{
  ℕ, zero, suc, ◌+◌, ◌<◌, ◌≡◌, refl, false, ◌&&◌, List, [], ◌∷◌, none, some, arith, ltb, leb,
  if◌then◌else◌, inl, inr, Bool-cases, length, length-set, get_or-set_self, FloatOps, ◌∙◌, ap, All,
  subst, sym,
}
use native.Mathlib.Nat.{zero-add}
use savantix_dali_edge_contr.Core.{ShortAddress}
use savantix_dali_edge_contr.Protocol.Query.{DaliQueryResult, IDaliQueryClient}
use savantix_dali_edge_contr.Device.Registry.{DeviceLifecycle, DaliDeviceRecord, find}
use savantix_dali_edge_contr.Device.Scan.{
  Scan, DiscoveryBatch, DiscoveryChangeType, add, change_at, is_valid_response,
  outcome_is_collision, is_bus_failure, is_missing, silent, take_answer,
}

-- No answer, and no collision.
abbrev pub IsQuiet : DaliQueryResult → Type 0
IsQuiet r = (is_valid_response r ≡ false) × (outcome_is_collision r.outcome ≡ false)

-- The checks that count against the device.
abbrev pub misses : List DaliQueryResult → ℕ
misses [] = 0
misses (r ∷ rs) = if is_bus_failure r then misses rs else suc (misses rs)

-- The record of a device that answered last `n` counted checks ago.
abbrev pub after : {F : Type 0} → ℕ → DaliDeviceRecord F → DaliDeviceRecord F
after zero r = record r { missed_presence_checks = 0 }
after (suc zero) r = record r { missed_presence_checks = 1 }
after (suc (suc zero)) r = record r { missed_presence_checks = 2 }
after (suc (suc (suc n))) r = record r {
  missed_presence_checks = 3;
  lifecycle = DeviceLifecycle.missing;
  present = false;
}

after_lem :
    {F : Type 0} (n : ℕ) (r : DaliDeviceRecord F)
    → after n r ≡ (
        if ltb n 3 then record r { missed_presence_checks = n } else record r {
          missed_presence_checks = 3;
          lifecycle = DeviceLifecycle.missing;
          present = false;
        })
after_lem zero r = refl
after_lem (suc zero) r = refl
after_lem (suc (suc zero)) r = refl
after_lem (suc (suc (suc n))) r =
    let e : ltb (suc (suc (suc n))) 3 ≡ false = ground arith in rw e refl

module _ {C F : Type 0} (fl : FloatOps F) (api : IDaliQueryClient C) (now : ℕ)
    (a : ShortAddress) where
  -- The answers of one device over the scans.
  pub feed : List DaliQueryResult → Scan C F → Scan C F
  feed [] s = s
  feed (r ∷ rs) s = feed rs (take_answer fl api now s a r)

  abbrev missing_reported : DiscoveryBatch → DiscoveryBatch
  missing_reported batch = (add batch (change_at fl api now DiscoveryChangeType.device_missing a)).1

  -- Declared missing between check `n` and check `m`.
  abbrev reported_between : ℕ → ℕ → DiscoveryBatch → DiscoveryBatch
  reported_between n m batch = if ltb n 3 && leb 3 m then missing_reported batch else batch

  quiet-silent :
      (s : Scan C F) (r : DaliDeviceRecord F) (result : DaliQueryResult)
      → IsQuiet result
      → find s.registry a ≡ some r
      → take_answer fl api now s a result ≡ silent fl api now s a result (some r)
  unfolding take_answer
  quiet-silent s r result q found = rw (q.0, q.1, found)

  -- One quiet answer at `n` missed checks.
  abbrev Stepped : Scan C F → DaliDeviceRecord F → ℕ → ℕ → Scan C F → Type 0
  Stepped s r n m s' =
      (find s'.registry a ≡ some (after m r))
      × (length s'.registry.records ≡ length s.registry.records)
      × (s'.batch ≡ reported_between n m s.batch)

  -- A check that counts, of a device not yet missing.
  counted_step :
      (s : Scan C F) (r : DaliDeviceRecord F) (n : ℕ) (result : DaliQueryResult)
      → is_bus_failure result ≡ false
      → is_missing r.lifecycle ≡ false
      → a.value < length s.registry.records
      → find s.registry a ≡ some (after n r)
      → Stepped s r n (suc n) (silent fl api now s a result (some (after n r)))
  counted_step s r zero result b l h found =
      rw (b, l)
        (
          get_or-set_self s.registry.records a.value (some (after 1 r)) none h,
          length-set s.registry.records a.value (some (after 1 r)),
          refl,
        )
  counted_step s r (suc zero) result b l h found =
      rw (b, l)
        (
          get_or-set_self s.registry.records a.value (some (after 2 r)) none h,
          length-set s.registry.records a.value (some (after 2 r)),
          refl,
        )
  counted_step s r (suc (suc zero)) result b l h found =
      rw (b, l)
        (
          get_or-set_self s.registry.records a.value (some (after 3 r)) none h,
          length-set s.registry.records a.value (some (after 3 r)),
          refl,
        )
  counted_step s r (suc (suc (suc n))) result b l h found = rw b (found, refl, ground arith)

  quiet_step :
      (s : Scan C F) (r : DaliDeviceRecord F) (n : ℕ) (result : DaliQueryResult)
      → IsQuiet result
      → is_missing r.lifecycle ≡ false
      → a.value < length s.registry.records
      → find s.registry a ≡ some (after n r)
      → Stepped s r n
          (if is_bus_failure result then n else suc n)
          (take_answer fl api now s a result)
  quiet_step s r n result q l h found = elim (Bool-cases (is_bus_failure result)) [
    | inl b ↦ rw (quiet-silent s (after n r) result q found, b) (found, refl, ground arith)
    | inr b ↦
        subst (λ m. Stepped s r n m (take_answer fl api now s a result)) (choice b)
          (rw (quiet-silent s (after n r) result q found) (counted_step s r n result b l h found))
  ]
    where
      choice : is_bus_failure result ≡ false → suc n ≡ (if is_bus_failure result then n else suc n)
      choice b = rw b

  feed_from :
      (results : List DaliQueryResult) (s : Scan C F) (r : DaliDeviceRecord F) (n : ℕ)
      → All IsQuiet results
      → is_missing r.lifecycle ≡ false
      → a.value < length s.registry.records
      → find s.registry a ≡ some (after n r)
      → let s' = feed results s in
        (find s'.registry a ≡ some (after (misses results + n) r))
        × (s'.batch ≡ reported_between n (misses results + n) s.batch)
  unfolding feed
  feed_from [] s r n q l h found = (rw (zero-add n) found, rw (zero-add n) (ground arith))
  feed_from (x ∷ xs) s r n q l h found = elim (Bool-cases (is_bus_failure x)) [
    | inl b ↦
        let st : Stepped s r n n (take_answer fl api now s a x) =
          rw b at (quiet_step s r n x q.0 l h found) in
        let (slot, batch) =
          feed_from xs (take_answer fl api now s a x) r n q.1 l (omega (arith, st.1)) st.0 in
        rw b (slot, ground (arith, batch, st.2))
    | inr b ↦
        let st : Stepped s r n (suc n) (take_answer fl api now s a x) =
          rw b at (quiet_step s r n x q.0 l h found) in
        let (slot, batch) =
          feed_from xs (take_answer fl api now s a x) r (suc n) q.1 l (omega (arith, st.1)) st.0 in
        let e : misses xs + suc n ≡ suc (misses xs) + n = omega arith in
        rw (b, ← e) (slot, ground (arith, batch, st.2))
  ]

  reported_between_lem :
      (n : ℕ) (batch : DiscoveryBatch)
      → reported_between 0 n batch ≡ (if ltb n 3 then batch else missing_reported batch)
  reported_between_lem n batch = ground arith

  -- A device that answered last, and then gives a run of quiet answers, is declared missing at the third
  -- that is no bus failure, once: its record then reads missing and not present. Before that only its
  -- count of missed checks changes.
  pub missing_after_three :
      (results : List DaliQueryResult) (s : Scan C F) (r : DaliDeviceRecord F)
      → All IsQuiet results
      → is_missing r.lifecycle ≡ false
      → r.missed_presence_checks ≡ 0
      → a.value < length s.registry.records
      → find s.registry a ≡ some r
      → let s' = feed results s in
        (find s'.registry a
          ≡ some (
              if ltb (misses results) 3
              then record r { missed_presence_checks = misses results }
              else record r {
                missed_presence_checks = 3;
                lifecycle = DeviceLifecycle.missing;
                present = false;
              }))
        × (s'.batch ≡ (
            if ltb (misses results) 3
            then s.batch
            else (add s.batch (change_at fl api now DiscoveryChangeType.device_missing a)).1))
  missing_after_three results s r q l e h found =
      let same : after 0 r ≡ r = ap (λ k. record r { missed_presence_checks = k }) (sym e) in
      let (slot, batch) = feed_from results s r 0 q l h (rw (same, found)) in
      let whole : misses results + 0 ≡ misses results = omega arith in
      (
        slot ∙ ap some (rw whole (after_lem (misses results) r)),
        batch ∙ rw whole (reported_between_lem (misses results) s.batch),
      )
