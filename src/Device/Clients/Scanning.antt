-- ===== src/Device/Clients/Scanning.antt =====
-- scanPresence over a client and over its view.
use savantix_dali_edge_contr.Prelude.{
  ℕ, zero, suc, ◌+◌, ◌≡◌, refl, sym, ap, subst, ◌∙◌, false, ◌||◌, none, some, Option, leb, ltb,
  if◌then◌else◌, inl, inr, Bool-cases, get_or, u8, FloatOps,
}
use savantix_dali_edge_contr.Core.{ShortAddress}
use savantix_dali_edge_contr.Protocol.Commands.{DaliCommand}
use savantix_dali_edge_contr.Protocol.Queue.{CommandPriority}
use savantix_dali_edge_contr.Protocol.Query.{DaliQueryResult, IDaliQueryClient}
use savantix_dali_edge_contr.Device.Registry.{DaliDeviceRecord, find}
use savantix_dali_edge_contr.Device.Clients.{IsView}
use savantix_dali_edge_contr.Device.Scan.{
  Scan, responded, collided, silent, take_answer, scan_address, scan_from, is_valid_response,
  outcome_is_collision, is_bus_failure, is_missing,
}

module _ {C E F : Type 0} (fl : FloatOps F) (api : IDaliQueryClient C) (api' : IDaliQueryClient E)
    (view : C → E) (now : ℕ) where
  abbrev pub seen : Scan C F → Scan E F
  seen s = record {
    client = view s.client;
    registry = s.registry;
    duplicate_reported = s.duplicate_reported;
    batch = s.batch;
  }

  -- Two scans that go the same way.
  abbrev Alike : Scan C F → Scan C F → Scan E F → Type 0
  Alike s s' t' = (t' ≡ seen s') × (s'.client ≡ s.client)

  responded-Alike :
      (s : Scan C F) (a : ShortAddress) (slot : Option (DaliDeviceRecord F))
      → Alike s (responded fl api now s a slot) (responded fl api' now (seen s) a slot)
  responded-Alike s a none = (refl, refl)
  responded-Alike s a (some r) = elim (Bool-cases (is_missing r.lifecycle)) [
    | inl missing ↦ rw missing (refl, refl)
    | inr here ↦ rw here (refl, refl)
  ]

  collided-Alike :
      (s : Scan C F) (a : ShortAddress) (slot : Option (DaliDeviceRecord F))
      → Alike s (collided fl api now s a slot) (collided fl api' now (seen s) a slot)
  collided-Alike s a none = elim (Bool-cases (get_or s.duplicate_reported a.value false)) [
    | inl reported ↦ rw reported (refl, refl)
    | inr new ↦ rw new (refl, refl)
  ]
  collided-Alike s a (some r) = elim (Bool-cases (get_or s.duplicate_reported a.value false)) [
    | inl reported ↦ rw reported (refl, refl)
    | inr new ↦ rw new (refl, refl)
  ]

  silent-Alike :
      (s : Scan C F) (a : ShortAddress) (result : DaliQueryResult)
      (slot : Option (DaliDeviceRecord F))
      → Alike s (silent fl api now s a result slot) (silent fl api' now (seen s) a result slot)
  silent-Alike s a result none = (refl, refl)
  silent-Alike s a result (some r) =
      elim (Bool-cases (is_bus_failure result || is_missing r.lifecycle)) [
        | inl skip ↦ rw skip (refl, refl)
        | inr check ↦
            let missed =
              if ltb r.missed_presence_checks 3
              then u8 (r.missed_presence_checks + 1)
              else r.missed_presence_checks in
            elim (Bool-cases (leb 3 missed)) [
              | inl gone ↦ rw (check, gone) (refl, refl)
              | inr still ↦ rw (check, still) (refl, refl)
            ]
      ]

  take_answer-Alike :
      (s : Scan C F) (a : ShortAddress) (result : DaliQueryResult)
      → Alike s (take_answer fl api now s a result) (take_answer fl api' now (seen s) a result)
  unfolding take_answer
  take_answer-Alike s a result =
      let slot = find s.registry a in
      elim (Bool-cases (is_valid_response result)) [
        | inl valid ↦ rw valid (responded-Alike _ a slot)
        | inr other ↦ elim (Bool-cases (outcome_is_collision result.outcome)) [
          | inl clash ↦ rw (other, clash) (collided-Alike s a slot)
          | inr quiet ↦ rw (other, quiet) (silent-Alike s a result slot)
        ]
      ]

  module _ (Good : C → Type 0) (is_view : IsView api api' view Good) where
    scan_address-seen :
        (raw : ℕ) (s : Scan C F)
        → Good s.client
        → (scan_address fl api' now raw (seen s) ≡ seen (scan_address fl api now raw s))
          × Good (scan_address fl api now raw s).client
    unfolding scan_address
    scan_address-seen raw s good =
        let a : ShortAddress = record { value = raw } in
        let command = DaliCommand.query_control_gear_present in
        let (result, c) = api.query s.client a command CommandPriority.high in
        let (same, kept) = take_answer-Alike (record s { client = c }) a result in
        (
          rw (is_view.answered s.client a command CommandPriority.high good) same,
          subst Good (sym kept) (is_view.stays_good s.client a command CommandPriority.high good),
        )

    pub scan_from-seen :
        (n raw : ℕ) (s : Scan C F)
        → Good s.client
        → (scan_from fl api' now n raw (seen s) ≡ seen (scan_from fl api now n raw s))
          × Good (scan_from fl api now n raw s).client
    unfolding scan_from
    scan_from-seen zero raw s good = (refl, good)
    scan_from-seen (suc n) raw s good =
        let (first, good') = scan_address-seen raw s good in
        let (rest, good'') = scan_from-seen n (raw + 1) (scan_address fl api now raw s) good' in
        (ap (scan_from fl api' now n (raw + 1)) first ∙ rest, good'')
