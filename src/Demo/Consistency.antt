-- ===== src/Demo/Consistency.antt =====
-- The parts of DemoController over a step.
use savantix_dali_edge_contr.Prelude.{
  take-drop, ℕ, zero, suc, ◌+◌, ◌≤◌, ◌≡◌, refl, sym, ap, subst, ◌∙◌, List, [], ◌∷◌, Option, none,
  some, arith, if◌then◌else◌, inl, inr, Bool-cases, length, length-set, drop, take, count_if,
  get_or, set, FloatOps,
}
use savantix_dali_edge_contr.Device.Registry.{DaliDeviceRecord, DaliDeviceRegistry, capacity}
use savantix_dali_edge_contr.Device.Registry.Count
use savantix_dali_edge_contr.Device.Scan.{DiscoveryChange, default_change, scan_presence}
use savantix_dali_edge_contr.Device.Scan.Slots.{scan_presence-IsValid}
use savantix_dali_edge_contr.Health.{new_engine, evaluate}
use savantix_dali_edge_contr.Demo.{
  DemoController, new_controller, is_discovery, change_event, take_change, take_changes, observed,
  has_fault, fault_event, check_light, check_lights, demo_client, step,
}
use savantix_dali_edge_contr.Demo.Discovery.{scan_presence-IsTallied}
use savantix_dali_edge_contr.Demo.Announcements.{
  IsReady, announce-Announced, new_controller-IsReady,
}

module _ {F : Type 0} where
  occupied-le : (rs : List (Option (DaliDeviceRecord F))) → Count.occupied rs ≤ length rs
  occupied-le [] = omega arith
  occupied-le (none ∷ rs) = omega (arith, occupied-le rs)
  occupied-le (some r ∷ rs) = omega (arith, occupied-le rs)

  count-le-capacity :
      (registry : DaliDeviceRegistry F) → Count.IsValid registry → registry.count ≤ capacity
  count-le-capacity registry v = omega (arith, v.counted, v.sized, occupied-le registry.records)

module _ {F : Type 0} (fl : FloatOps F) where
  -- The state between two steps.
  pub record IsConsistent (d : DemoController F) : Type 0 where
    pub ready : IsReady fl d
    pub registry : Count.IsValid d.registry
    pub lights : d.discovered_lights ≡ d.registry.count
    pub engines : length d.health ≡ 4

  -- What the loops leave: the parts ready, the registry as it was, as many engines.
  record Looped (lights : ℕ) (d d' : DemoController F) : Type 0 where
    ready : IsReady fl d'
    registry : d'.registry ≡ d.registry
    lights_now : d'.discovered_lights ≡ lights
    engines : length d'.health ≡ length d.health

  take_change-Looped :
      (now : ℕ) (d : DemoController F) (change : DiscoveryChange)
      → IsReady fl d
      → d.discovered_lights ≤ capacity
      → Looped
          (d.discovered_lights + (if is_discovery change then 1 else 0))
          d
          (take_change fl now d change)
  unfolding take_change
  take_change-Looped now d change r room =
      let a = announce-Announced fl d (change_event fl now change) r in
      elim (Bool-cases (is_discovery change)) [
        | inl new ↦
            rw (new, take_change)
              (record {
                ready = record {
                  events = a.ready.events;
                  buffer = a.ready.buffer;
                  retries = a.ready.retries;
                  sequence = a.ready.sequence;
                };
                registry = a.registry;
                lights_now = omega (arith, a.lights);
                engines = ap (λ t. length t) a.engines;
              })
        | inr old ↦
            rw (old, take_change)
              (record {
                ready = a.ready;
                registry = a.registry;
                lights_now = omega (arith, a.lights);
                engines = ap (λ t. length t) a.engines;
              })
      ]

  take_changes-Looped :
      (now : ℕ) (changes : List DiscoveryChange) (n i : ℕ) (d : DemoController F)
      → IsReady fl d
      → i + n ≤ length changes
      → d.discovered_lights + count_if is_discovery (take n (drop i changes)) ≤ capacity
      → Looped
          (d.discovered_lights + count_if is_discovery (take n (drop i changes)))
          d
          (take_changes fl now changes n i d)
  take_changes-Looped now changes zero i d r inside room = record {
    ready = r;
    registry = refl;
    lights_now = omega arith;
    engines = refl;
  }
  take_changes-Looped now changes (suc n) i d r inside room =
      let change = get_or changes i default_change in
      let split = ap (count_if is_discovery) (take-drop n i changes default_change (omega arith)) in
      let first : d.discovered_lights
            + (if is_discovery change then 1 else 0)
            + count_if is_discovery (take n (drop (i + 1) changes))
          ≡ d.discovered_lights + count_if is_discovery (take (suc n) (drop i changes)) =
        ground (arith, split) in
      let one = take_change-Looped now d change r (omega arith) in
      let rest =
        take_changes-Looped now changes n (i + 1) (take_change fl now d change) one.ready
          (omega arith) (omega (arith, first, one.lights_now)) in
      record {
        ready = rest.ready;
        registry = rest.registry ∙ one.registry;
        lights_now = omega (arith, rest.lights_now, one.lights_now, first);
        engines = rest.engines ∙ one.engines;
      }

  check_light-Looped :
      (now address : ℕ) (d : DemoController F)
      → IsReady fl d
      → Looped d.discovered_lights d (check_light fl now address d)
  unfolding check_light
  check_light-Looped now address d r =
      let old = get_or d.health address (new_engine fl) in
      let (evaluation, engine) = evaluate fl old (observed address now) in
      let d' : DemoController F = record d { health = set d.health address engine } in
      let r' : IsReady fl d' = record {
        events = r.events;
        buffer = r.buffer;
        retries = r.retries;
        sequence = r.sequence;
      } in
      let size = length-set d.health address engine in
      elim (Bool-cases (has_fault (observed address now))) [
        | inl fault ↦
            let a = announce-Announced fl d' (fault_event fl address now evaluation) r' in
            rw (fault, check_light)
              (record {
                ready = a.ready;
                registry = a.registry;
                lights_now = a.lights;
                engines = ap (λ t. length t) a.engines ∙ size;
              })
        | inr fine ↦
            rw (fine, check_light)
              (record { ready = r'; registry = refl; lights_now = refl; engines = size })
      ]

  check_lights-Looped :
      (now n address : ℕ) (d : DemoController F)
      → IsReady fl d
      → Looped d.discovered_lights d (check_lights fl now n address d)
  check_lights-Looped now zero address d r = record {
    ready = r;
    registry = refl;
    lights_now = refl;
    engines = refl;
  }
  check_lights-Looped now (suc n) address d r =
      let one = check_light-Looped now address d r in
      let rest = check_lights-Looped now n (address + 1) (check_light fl now address d) one.ready in
      record {
        ready = rest.ready;
        registry = rest.registry ∙ one.registry;
        lights_now = rest.lights_now ∙ one.lights_now;
        engines = rest.engines ∙ one.engines;
      }

  pub step-IsConsistent :
      (d : DemoController F) (now : ℕ) → IsConsistent d → IsConsistent (step fl d now)
  unfolding step
  step-IsConsistent d now c =
      let scan = scan_presence fl demo_client now now d.registry d.duplicate_reported in
      let valid =
        scan_presence-IsValid fl demo_client now now d.registry d.duplicate_reported c.registry in
      let tally = scan_presence-IsTallied fl demo_client now now d.registry d.duplicate_reported in
      let full = count-le-capacity scan.registry valid in
      let d' : DemoController F = record d {
        client = scan.client;
        registry = scan.registry;
        duplicate_reported = scan.duplicate_reported;
      } in
      let r' : IsReady fl d' = record {
        events = c.ready.events;
        buffer = c.ready.buffer;
        retries = c.ready.retries;
        sequence = c.ready.sequence;
      } in
      let first =
        take_changes-Looped now scan.batch.changes scan.batch.size 0 d' r'
          (omega (arith, tally.sized, tally.within))
          (omega (arith, tally.counted, c.lights, full)) in
      let second = check_lights-Looped now 4 0 _ first.ready in
      let kept = second.registry ∙ first.registry in
      record {
        ready = second.ready;
        registry = subst (λ g. Count.IsValid g) (sym kept) valid;
        lights = omega (
          arith,
          second.lights_now,
          first.lights_now,
          tally.counted,
          c.lights,
          ap (λ g. g.count) kept,
        );
        engines = second.engines ∙ (first.engines ∙ c.engines);
      }

  pub new_controller-IsConsistent : IsConsistent (new_controller fl)
  new_controller-IsConsistent = record {
    ready = new_controller-IsReady fl;
    registry = Count.empty_registry-IsValid F;
    lights = refl;
    engines = refl;
  }
