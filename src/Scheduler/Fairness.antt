-- ===== src/Scheduler/Fairness.antt =====
-- The round robin of the scheduler: a light with a poll that is ready is not passed over for ever.
use savantix_dali_edge_contr.Prelude.{
  ℕ, zero, suc, ◌+◌, ◌%◌, ◌<◌, ◌≤◌, ◌≡◌, ◌≢◌, sym, ap, subst, ◌∙◌, ◌⊎◌, true, false, Option, none,
  some, arith, inl, inr, Option-cases, FloatOps, ℕ_discrete, dec_lt,
}
use savantix_dali_edge_contr.Scheduler.{
  PollKind, PollRequest, DaliScheduler, maximum_lights, light_at, is_count, poll_light,
}
use savantix_dali_edge_contr.Scheduler.Rounds.{
  is_ready, light_poll, at_offset, light_ready, distance, at_distance,
}
use savantix_dali_edge_contr.Scheduler.Polling.{step, next_at, idle_quiet, poll_address}

module _ {F : Type 0} (fl : FloatOps F) (now : ℕ)
    (utilisation normal_limit diagnostic_limit : F) where
  abbrev pub call : DaliScheduler → Option PollRequest × DaliScheduler
  call = step fl now utilisation normal_limit diagnostic_limit

  -- The scheduler after `n` calls at one time.
  abbrev pub after_calls : ℕ → DaliScheduler → DaliScheduler
  after_calls zero s = s
  after_calls (suc n) s = after_calls n (call s).1

  abbrev pub poll : DaliScheduler → ℕ → Option PollRequest
  poll = light_poll fl now utilisation normal_limit diagnostic_limit

  -- A light with a poll that is ready is served at once, or the cursor comes nearer to it.
  pub nearer :
      (s : DaliScheduler) (b : ℕ) (r : PollRequest)
      → s.round_robin_cursor < maximum_lights
      → b < maximum_lights
      → (call s).0 ≡ some r
      → poll s b ≢ none
      → ((poll s b ≡ some r))
        ⊎ ((c : ℕ) × (c < maximum_lights)
            × ((call s).1 ≡ record s { round_robin_cursor = c })
            × (distance (record s { round_robin_cursor = c }) b < distance s b))
  nearer s b r c h e ready_light =
      let (j, inside, served, moved, before) =
        next_at fl now utilisation normal_limit diagnostic_limit s r e in
      let far : at_offset s (distance s b) ≡ b = at_distance s b c h in
      elim (ℕ_discrete j (distance s b)) [
        | yes same ↦ inl (subst (λ t. poll s t ≡ some r) (ap (at_offset s) same ∙ far) served)
        | no other ↦ elim (dec_lt j (distance s b)) [
          | yes earlier ↦
              inr (
                (at_offset s j + 1) % maximum_lights,
                omega arith,
                ap (λ p. p.1) moved,
                omega arith,
              )
          | no later ↦
              absurd (
                ready_light
                  (subst (λ t. poll s t ≡ none) far (before (distance s b) (omega arith))))
        ]
      ]

  served_soon :
      (d : ℕ) (s : DaliScheduler) (b : ℕ)
      → distance s b ≤ d
      → s.round_robin_cursor < maximum_lights
      → b < maximum_lights
      → poll s b ≢ none
      → (n : ℕ) × (n ≤ d)
        × (r : PollRequest) × ((call (after_calls n s)).0 ≡ some r)
        × (poll s b ≡ some r)
  unfolding poll_light
  served_soon zero s b near c h ready_light = elim (Option-cases (call s).0) [
    | inl nothing ↦ absurd (
        ready_light (idle_quiet fl now utilisation normal_limit diagnostic_limit s b nothing c h).0)
    | inr (r, e) ↦ elim (nearer s b r c h e ready_light) [
      | inl own ↦ (0, omega arith, r, e, own)
      | inr (c', inside, moved, closer) ↦ absurd (omega arith)
    ]
  ]
  served_soon (suc d) s b near c h ready_light = elim (Option-cases (call s).0) [
    | inl nothing ↦ absurd (
        ready_light (idle_quiet fl now utilisation normal_limit diagnostic_limit s b nothing c h).0)
    | inr (r, e) ↦ elim (nearer s b r c h e ready_light) [
      | inl own ↦ (0, omega arith, r, e, own)
      | inr (c', inside, moved, closer) ↦
          let s' = record s { round_robin_cursor = c' } in
          let (n, within, r', found, own) = served_soon d s' b (omega arith) inside h ready_light in
          (
            suc n,
            omega arith,
            r',
            subst (λ t. (call (after_calls n t)).0 ≡ some r') (sym moved) found,
            own,
          )
    ]
  ]

  -- With the cursor in range, a configured light below 64, one of whose polls is due and admitted, is returned by one of the next 64 calls of
  -- `next` at that time.
  pub served_within :
      (s : DaliScheduler) (b : ℕ) (k : PollKind)
      → s.round_robin_cursor < maximum_lights
      → b < maximum_lights
      → (light_at s b).configured ≡ true
      → is_count k ≡ false
      → is_ready fl now utilisation normal_limit diagnostic_limit (light_at s b) b k ≡ true
      → (n : ℕ) × (n < maximum_lights)
        × (r : PollRequest) × ((call (after_calls n s)).0 ≡ some r)
        × (r.address ≡ b)
  served_within s b k c h on real ready_now =
      let ready_light =
        light_ready fl now utilisation normal_limit diagnostic_limit s b k on real ready_now in
      let (n, within, r, found, own) =
        served_soon (distance s b) s b (omega arith) c h ready_light in
      (
        n,
        omega arith,
        r,
        found,
        poll_address fl now utilisation normal_limit diagnostic_limit s b r own h,
      )
