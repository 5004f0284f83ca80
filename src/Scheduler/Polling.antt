-- ===== src/Scheduler/Polling.antt =====
-- What the scheduler's `next` returns.
use savantix_dali_edge_contr.Prelude.{
  split_and, ℕ, ◌+◌, ◌%◌, ◌<◌, ◌≡◌, refl, sym, ap, ap₂, subst, ◌∙◌, true, false, Option, none, some,
  arith, leb, inl, inr, Bool-cases, Option-cases, u8, FloatOps,
}
use savantix_dali_edge_contr.Scheduler.{
  PollKind, kinds, PollRequest, DaliScheduler, maximum_lights, light_at, due_at, poll_request, next,
  is_count,
}
use savantix_dali_edge_contr.Scheduler.Rounds.{
  byte_of, at_offset, distance, at_distance, admits, is_ready, light_poll, lights_poll, light_some,
  inner-some, kinds_polled, light_ready, lights_some, lights_none,
}

module _ {F : Type 0} (fl : FloatOps F) (now : ℕ)
    (utilisation normal_limit diagnostic_limit : F) where
  abbrev pub step : DaliScheduler → Option PollRequest × DaliScheduler
  step = next fl now utilisation normal_limit diagnostic_limit

  next_some :
      (s : DaliScheduler) (a : ℕ) (r : PollRequest)
      → lights_poll fl now utilisation normal_limit diagnostic_limit s maximum_lights 0
        ≡ some (a, r)
      → step s ≡ (some r, record s { round_robin_cursor = u8 ((a + 1) % maximum_lights) })
  unfolding next
  next_some s a r e = rw (next, e) refl

  next_idle :
      (s : DaliScheduler)
      → lights_poll fl now utilisation normal_limit diagnostic_limit s maximum_lights 0 ≡ none
      → step s ≡ (none, s)
  unfolding next
  next_idle s e = rw (next, e) refl

  from_zero :
      (s : DaliScheduler) (i : ℕ)
      → light_poll fl now utilisation normal_limit diagnostic_limit s (at_offset s (0 + i)) ≡ none
      → light_poll fl now utilisation normal_limit diagnostic_limit s (at_offset s i) ≡ none
  from_zero s i h =
      let e : 0 + i ≡ i = omega arith in
      subst
        (λ t. light_poll fl now utilisation normal_limit diagnostic_limit s (at_offset s t) ≡ none)
        e h

  pub next_at :
      (s : DaliScheduler) (r : PollRequest)
      → (step s).0 ≡ some r
      → (j : ℕ) × (j < maximum_lights)
        × (light_poll fl now utilisation normal_limit diagnostic_limit s (at_offset s j) ≡ some r)
        × (step s
            ≡ (some r, record s { round_robin_cursor = (at_offset s j + 1) % maximum_lights }))
        × ((i : ℕ)
            → i < j
            → light_poll fl now utilisation normal_limit diagnostic_limit s (at_offset s i) ≡ none)
  next_at s r e =
      elim (Option-cases
        (lights_poll fl now utilisation normal_limit diagnostic_limit s maximum_lights 0)) [
          | inl nothing ↦
              let clash : none ≡ some r = sym (ap (λ p. p.0) (next_idle s nothing)) ∙ e in cc clash
          | inr ((a, r'), found) ↦
              let (j, inside, place, poll, before) =
                lights_some fl now utilisation normal_limit diagnostic_limit s maximum_lights 0 a r'
                  found in
              let at_j : a ≡ at_offset s j = omega (arith, place) in
              let served : some r' ≡ some r = sym (ap (λ p. p.0) (next_some s a r' found)) ∙ e in
              let same : r' ≡ r = cc served in
              let cursor : u8 ((a + 1) % maximum_lights) ≡ (at_offset s j + 1) % maximum_lights =
                omega (arith, at_j) in
              let moved =
                next_some s a r' found
                ∙ ap₂ (λ q (c : ℕ). (some q, record s { round_robin_cursor = c })) same cursor in
              (
                j,
                inside,
                subst
                    (λ t. light_poll fl now utilisation normal_limit diagnostic_limit s t ≡ some r)
                    at_j (poll ∙ ap some same),
                moved,
                λ i h. from_zero s i (before i h),
              )
        ]

  abbrev Served : DaliScheduler → PollRequest → ℕ → Type 0
  Served s r a =
      let slot = light_at s a in
      (a < maximum_lights)
      × (slot.configured ≡ true)
      × (is_count r.kind ≡ false)
      × (leb (due_at slot r.kind) now ≡ true)
      × (admits fl now utilisation normal_limit diagnostic_limit r ≡ true)
      × (r ≡ poll_request a r.kind slot)
      × ((step s).1 ≡ record s { round_robin_cursor = (a + 1) % maximum_lights })

  -- What `next` returns is the request of a light that is configured, for a poll that is due and that the
  -- limits admit. Only the cursor changes: it moves behind that light.
  pub next_sound :
      (s : DaliScheduler) (r : PollRequest)
      → (step s).0 ≡ some r
      → let slot = light_at s r.address in
        (r.address < maximum_lights)
        × (slot.configured ≡ true)
        × (is_count r.kind ≡ false)
        × (leb (due_at slot r.kind) now ≡ true)
        × (admits fl now utilisation normal_limit diagnostic_limit r ≡ true)
        × (r ≡ poll_request r.address r.kind slot)
        × ((step s).1 ≡ record s { round_robin_cursor = (r.address + 1) % maximum_lights })
  next_sound s r e =
      let (j, inside, poll, moved, before) = next_at s r e in
      let (on, loop) =
        light_some fl now utilisation normal_limit diagnostic_limit s (at_offset s j) r poll in
      let (k, real, h, own) =
        inner-some fl now utilisation normal_limit diagnostic_limit (at_offset s j)
          (light_at s (at_offset s j)) kinds r
          (kinds_polled fl now utilisation normal_limit diagnostic_limit) loop in
      let a = at_offset s j in
      let inside : a < maximum_lights = omega arith in
      let same : r.address ≡ a = ap (λ q. q.address) own ∙ byte_of inside in
      let kind : r.kind ≡ k = ap (λ q. q.kind) own in
      let (due, allowed) = split_and _ _ h in
      let goal : Served s r a = (
        inside,
        on,
        rw kind real,
        rw kind due,
        subst (λ q. admits fl now utilisation normal_limit diagnostic_limit q ≡ true) (sym own)
            allowed,
        own ∙ ap (λ q. poll_request a q (light_at s a)) (sym kind),
        ap (λ p. p.1) moved,
      ) in
      subst (λ t. Served s r t) (sym same) goal

  pub idle_quiet :
      (s : DaliScheduler) (a : ℕ)
      → (step s).0 ≡ none
      → s.round_robin_cursor < maximum_lights
      → a < maximum_lights
      → (light_poll fl now utilisation normal_limit diagnostic_limit s a ≡ none)
        × (step s ≡ (none, s))
  idle_quiet s a e c h =
      elim (Option-cases
        (lights_poll fl now utilisation normal_limit diagnostic_limit s maximum_lights 0)) [
          | inr ((a', r'), found) ↦
              let clash : some r' ≡ none = sym (ap (λ p. p.0) (next_some s a' r' found)) ∙ e in
              cc clash
          | inl nothing ↦
              let quiet = from_zero s (distance s a) (
                lights_none fl now utilisation normal_limit diagnostic_limit s maximum_lights 0
                  nothing (distance s a) (omega arith)) in
              (
                subst (λ t. light_poll fl now utilisation normal_limit diagnostic_limit s t ≡ none)
                    (at_distance s a c h) quiet,
                next_idle s nothing,
              )
        ]

  pub poll_address :
      (s : DaliScheduler) (a : ℕ) (r : PollRequest)
      → light_poll fl now utilisation normal_limit diagnostic_limit s a ≡ some r
      → a < maximum_lights
      → r.address ≡ a
  poll_address s a r e h =
      let (k, real, ready_now, own) =
        inner-some fl now utilisation normal_limit diagnostic_limit a (light_at s a) kinds r
          (kinds_polled fl now utilisation normal_limit diagnostic_limit)
          (light_some fl now utilisation normal_limit diagnostic_limit s a r e).1 in
      ap (λ q. q.address) own ∙ byte_of h

  -- With the cursor in range, `next` returns nothing, and changes nothing, only where no poll of any light is ready: each poll of each
  -- configured light is not due yet, or not admitted under the limits.
  pub next_complete :
      (s : DaliScheduler) (a : ℕ) (k : PollKind)
      → (step s).0 ≡ none
      → s.round_robin_cursor < maximum_lights
      → a < maximum_lights
      → (light_at s a).configured ≡ true
      → is_count k ≡ false
      → (is_ready fl now utilisation normal_limit diagnostic_limit (light_at s a) a k ≡ false)
        × (step s ≡ (none, s))
  next_complete s a k e c h on real =
      let (quiet, idle) = idle_quiet s a e c h in
      elim (Bool-cases
        (is_ready fl now utilisation normal_limit diagnostic_limit (light_at s a) a k)) [
          | inr waiting ↦ (waiting, idle)
          | inl ready_now ↦ absurd (
              light_ready fl now utilisation normal_limit diagnostic_limit s a k on real ready_now
                quiet)
        ]
