-- ===== src/Device/Clients/Probing.antt =====
-- detectCoreCapabilities over a client and over its view.
use savantix_dali_edge_contr.Prelude.{ℕ, ◌≡◌, refl, inl, inr, Bool-cases, Option-cases}
use savantix_dali_edge_contr.Core.{ShortAddress}
use savantix_dali_edge_contr.Protocol.Commands.{DaliCommand}
use savantix_dali_edge_contr.Protocol.Queue.{CommandPriority}
use savantix_dali_edge_contr.Protocol.Query.{IDaliQueryClient}
use savantix_dali_edge_contr.Device.Registry.{
  CapabilityFeature, DaliDeviceRecord, DaliDeviceRegistry, at, find,
}
use savantix_dali_edge_contr.Device.Capabilities.{
  Destination, is_unsupported, probe, probe_all, detect_core_capabilities,
}
use savantix_dali_edge_contr.Device.Clients.{IsView}

module _ {C E : Type 0} (api : IDaliQueryClient C) (api' : IDaliQueryClient E) (view : C → E)
    (Good : C → Type 0) (is_view : IsView api api' view Good) (address : ShortAddress)
    (now : ℕ) where
  abbrev viewed : {A : Type 0} → C × A → E × A
  viewed (c, a) = (view c, a)

  -- Two results that are the same, the first with a good client.
  abbrev Same : {A : Type 0} → C × A → E × A → Type 0
  Same s t = (t ≡ viewed s) × Good s.0

  module _ {F : Type 0} where
    probe-Same :
        (feature : CapabilityFeature) (command : DaliCommand) (destination : Destination)
        (s : C × DaliDeviceRecord F) (t : E × DaliDeviceRecord F)
        → Same s t
        → Same
            (probe api address now feature command destination s)
            (probe api' address now feature command destination t)
    unfolding probe
    probe-Same feature command destination (c, r) t (same, good) =
        let told = is_view.answered c address command CommandPriority.high good in
        elim (Bool-cases (is_unsupported (at r.capabilities feature).state)) [
          | inl off ↦ rw (same, off) (refl, good)
          | inr on ↦
              rw (same, on, told)
                (refl, is_view.stays_good c address command CommandPriority.high good)
        ]

    probe_all-Same :
        (s : C × DaliDeviceRecord F) (t : E × DaliDeviceRecord F)
        → Same s t
        → Same (probe_all api address now s) (probe_all api' address now t)
    unfolding probe_all
    probe_all-Same s t same =
        probe-Same _ _ _ _ _
          (probe-Same _ _ _ _ _ (probe-Same _ _ _ _ _ (probe-Same _ _ _ s t same)))

    pub detect-Same :
        (c : C) (registry : DaliDeviceRegistry F)
        → Good c
        → Same
            (detect_core_capabilities api address now c registry)
            (detect_core_capabilities api' address now (view c) registry)
    unfolding detect_core_capabilities
    detect-Same c registry good = elim (Option-cases (find registry address)) [
      | inl absent ↦ rw (absent, detect_core_capabilities) (refl, good)
      | inr (r, there) ↦
          let (same, good') = probe_all-Same (c, r) (view c, r) (refl, good) in
          rw (there, same, detect_core_capabilities) (refl, good')
    ]
