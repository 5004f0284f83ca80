-- ===== src/Demo/Discovery.antt =====
-- The changes that a presence scan reports, against what it does to the registry.
use savantix_dali_edge_contr.Prelude.{
  count_if-append, take-set_next, ℕ, zero, suc, ◌+◌, ◌<◌, ◌≤◌, ◌≡◌, refl, ap, subst, ◌∙◌, Bool,
  true, false, not, ◌||◌, List, [], ◌∷◌, Option, none, some, arith, ltb, leb, ◌==◌, if◌then◌else◌,
  inl, inr, Bool-cases, length, length-set, get_or, set, take, count_if, u8, FloatOps,
}
use savantix_dali_edge_contr.Core.{ShortAddress}
use savantix_dali_edge_contr.Protocol.Query.{DaliQueryResult, IDaliQueryClient}
use savantix_dali_edge_contr.Device.Registry.{
  DeviceLifecycle, DaliDeviceRecord, DaliDeviceRegistry, capacity, find, write,
}
use savantix_dali_edge_contr.Device.Registry.Count.{upsert_new}
use savantix_dali_edge_contr.Device.Scan.{
  DiscoveryChangeType, DiscoveryChange, DiscoveryBatch, batch_capacity, Scan, add,
  is_valid_response, outcome_is_collision, is_bus_failure, is_missing, report, mark_present,
  change_at, responded, collided, silent, take_answer, scan_address, scan_from, scan_presence,
}
use savantix_dali_edge_contr.Demo.{is_discovery}

-- The discoveries among the changes of a batch.
abbrev pub discoveries : DiscoveryBatch → ℕ
discoveries batch = count_if is_discovery (take batch.size batch.changes)

-- After `raw` addresses of a scan of a registry that held `before` devices: each change is in the
-- batch, and the discoveries among them are the devices that the registry holds more.
pub record IsTallied (before raw : ℕ) (batch : DiscoveryBatch) (count : ℕ) : Type 0 where
  pub sized : length batch.changes ≡ batch_capacity
  pub within : batch.size ≤ raw
  pub counted : count ≡ before + discoveries batch

abbrev one_if : Bool → ℕ
one_if b = if b then 1 else 0

add-IsTallied :
    {before raw count : ℕ} (batch : DiscoveryBatch) (change : DiscoveryChange)
    → raw < batch_capacity
    → IsTallied before raw batch count
    → IsTallied before (raw + 1) (add batch change).1 (count + one_if (is_discovery change))
unfolding add
add-IsTallied batch change room t =
    let open_end : (batch.size == batch_capacity) ≡ false = ground (arith, t.within) in
    rw open_end (record {
      sized = length-set batch.changes batch.size change ∙ t.sized;
      within = omega (arith, t.within);
      counted = omega (
        arith,
        t.counted,
        ap (count_if is_discovery)
            (take-set_next batch.size batch.changes change (omega (arith, t.within, t.sized))),
        count_if-append is_discovery (take batch.size batch.changes) (change ∷ []),
      );
    })

keep-IsTallied :
    {before raw count : ℕ} {batch : DiscoveryBatch}
    → IsTallied before raw batch count
    → IsTallied before (raw + 1) batch count
keep-IsTallied t = record { sized = t.sized; within = omega (arith, t.within); counted = t.counted }

module _ {C F : Type 0} (fl : FloatOps F) (api : IDaliQueryClient C) (now before raw : ℕ) where
  abbrev pub Tallied : ℕ → Scan C F → Type 0
  Tallied n s = IsTallied before n s.batch s.registry.count

  plain_report :
      (s : Scan C F) (kind : DiscoveryChangeType) (a : ShortAddress) (b : Bool)
      → raw < batch_capacity
      → is_discovery (change_at fl api now kind a) ≡ false
      → Tallied raw s
      → Tallied (raw + 1) (if b then report fl api now s kind a else s)
  plain_report s kind a false room other t = keep-IsTallied t
  plain_report s kind a true room other t =
      let same : s.registry.count + one_if (is_discovery (change_at fl api now kind a))
          ≡ s.registry.count =
        rw other (omega arith) in
      subst (λ n. IsTallied before (raw + 1) (add s.batch (change_at fl api now kind a)).1 n) same
        (add-IsTallied s.batch (change_at fl api now kind a) room t)

  responded-Tallied :
      (s : Scan C F) (a : ShortAddress) (slot : Option (DaliDeviceRecord F))
      → raw < batch_capacity
      → find s.registry a ≡ slot
      → Tallied raw s
      → Tallied (raw + 1) (responded fl api now s a slot)
  responded-Tallied s a none room empty t =
      rw (upsert_new fl s.registry a now empty) (
        add-IsTallied s.batch (change_at fl api now DiscoveryChangeType.device_discovered a) room t)
  responded-Tallied s a (some r) room found t =
      let seen : DaliDeviceRecord F = record (mark_present fl api now r) {
        last_seen_uptime_ms = now;
      } in
      plain_report (record s { registry = write s.registry a seen })
        DiscoveryChangeType.device_recovered a (is_missing r.lifecycle) room refl t

  collided-Tallied :
      (s : Scan C F) (a : ShortAddress) (slot : Option (DaliDeviceRecord F))
      → raw < batch_capacity
      → Tallied raw s
      → Tallied (raw + 1) (collided fl api now s a slot)
  collided-Tallied s a none room t =
      elim (Bool-cases (not (get_or s.duplicate_reported a.value false))) [
        | inl fresh ↦ rw fresh (
            plain_report (record s { duplicate_reported = set s.duplicate_reported a.value true })
              DiscoveryChangeType.duplicate_address_suspected a true room refl t)
        | inr told ↦ rw told (keep-IsTallied t)
      ]
  collided-Tallied s a (some r) room t =
      let marked : DaliDeviceRecord F = record r {
        lifecycle = DeviceLifecycle.duplicate_address;
      } in
      elim (Bool-cases (not (get_or s.duplicate_reported a.value false))) [
        | inl fresh ↦ rw fresh (
            plain_report
              (record s {
                registry = write s.registry a marked;
                duplicate_reported = set s.duplicate_reported a.value true;
              })
              DiscoveryChangeType.duplicate_address_suspected a true room refl t)
        | inr told ↦ rw told (keep-IsTallied t)
      ]

  silent-Tallied :
      (s : Scan C F) (a : ShortAddress) (result : DaliQueryResult)
      (slot : Option (DaliDeviceRecord F))
      → raw < batch_capacity
      → Tallied raw s
      → Tallied (raw + 1) (silent fl api now s a result slot)
  silent-Tallied s a result none room t = keep-IsTallied t
  silent-Tallied s a result (some r) room t =
      let missed =
        if ltb r.missed_presence_checks 3
        then u8 (r.missed_presence_checks + 1)
        else r.missed_presence_checks in
      let gone : DaliDeviceRecord F = record r {
        missed_presence_checks = missed;
        lifecycle = DeviceLifecycle.missing;
        present = false;
      } in
      elim (Bool-cases (is_bus_failure result || is_missing r.lifecycle)) [
        | inl skip ↦ rw skip (keep-IsTallied t)
        | inr check ↦ elim (Bool-cases (leb 3 missed)) [
          | inl third ↦
              rw (check, third)
                (plain_report (record s { registry = write s.registry a gone })
                  DiscoveryChangeType.device_missing a true room refl t)
          | inr still ↦ rw (check, still) (keep-IsTallied t)
        ]
      ]

  take_answer-Tallied :
      (s : Scan C F) (a : ShortAddress) (result : DaliQueryResult)
      → raw < batch_capacity
      → Tallied raw s
      → Tallied (raw + 1) (take_answer fl api now s a result)
  unfolding take_answer
  take_answer-Tallied s a result room t = elim (Bool-cases (is_valid_response result)) [
    | inl heard ↦ rw heard (
        responded-Tallied (record s { duplicate_reported = set s.duplicate_reported a.value false })
          a _ room refl t)
    | inr other ↦ elim (Bool-cases (outcome_is_collision result.outcome)) [
      | inl clash ↦ rw (other, clash) (collided-Tallied s a _ room t)
      | inr quiet ↦ rw (other, quiet) (silent-Tallied s a result _ room t)
    ]
  ]

module _ {C F : Type 0} (fl : FloatOps F) (api : IDaliQueryClient C) (now before : ℕ) where
  scan_from-Tallied :
      (n raw : ℕ) (s : Scan C F)
      → n + raw ≡ capacity
      → IsTallied before raw s.batch s.registry.count
      → let s' = scan_from fl api now n raw s in
        IsTallied before capacity s'.batch s'.registry.count
  unfolding scan_from scan_address
  scan_from-Tallied zero raw s e t =
      let all : raw ≡ capacity = omega arith in
      subst (λ n. IsTallied before n s.batch s.registry.count) all t
  scan_from-Tallied (suc n) raw s e t =
      scan_from-Tallied n (raw + 1) _ (omega arith)
        (take_answer-Tallied fl api now before raw _ (record { value = raw }) _ (omega arith) t)

-- A presence scan loses no change, and the registry holds as many devices more as it reports discoveries.
pub scan_presence-IsTallied :
    {C F : Type 0} (fl : FloatOps F) (api : IDaliQueryClient C) (now : ℕ) (client : C)
    (registry : DaliDeviceRegistry F) (reported : List Bool)
    → let s = scan_presence fl api now client registry reported in
      IsTallied registry.count capacity s.batch s.registry.count
unfolding scan_presence
scan_presence-IsTallied fl api now client registry reported =
    scan_from-Tallied fl api now registry.count capacity 0 _ refl
      (record { sized = refl; within = omega arith; counted = omega arith })
