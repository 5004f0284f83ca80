-- ===== src/Scheduler/Turns.antt =====
-- The scheduler over turns at different times, with the polls that are completed between them.
use savantix_dali_edge_contr.Prelude.{
  ℕ, suc, ◌-◌, ◌<◌, ◌≤◌, ◌≡◌, ◌≢◌, refl, sym, ap, subst, ◌∙◌, Bool, true, false, List, [], ◌∷◌,
  Option, none, some, arith, inl, inr, Option-cases, Bool-cases, FloatOps, ℕ_discrete, length,
  get_elem?, get_or-set_ne, All, leb, ◌||◌,
}
use savantix_dali_edge_contr.Scheduler.{
  PollKind, PollRequest, Slot, DaliScheduler, maximum_lights, light_at, is_count, complete,
  default_slot,
}
use savantix_dali_edge_contr.Scheduler.Rounds.{is_ready, light_poll, light_ready, distance}
use savantix_dali_edge_contr.Scheduler.Polling.{step, idle_quiet, poll_address}
use savantix_dali_edge_contr.Scheduler.Fairness.{nearer}

-- One call of `next`, and the time at which the poll that it returns is completed before the next turn, if
-- it is.
pub record Turn (F : Type 0) : Type 0 where
  pub now : ℕ
  pub utilisation : F
  pub normal_limit : F
  pub diagnostic_limit : F
  pub completed : Option ℕ

abbrev pub settle : DaliScheduler → Option PollRequest → Option ℕ → DaliScheduler
settle s (some request) (some at) = complete s request at
settle s _ _ = s

-- The light of another request is left alone, and so is the cursor.
complete_elsewhere :
    (s : DaliScheduler) (r : PollRequest) (at b : ℕ)
    → r.address ≢ b
    → (light_at (complete s r at) b ≡ light_at s b)
      × ((complete s r at).round_robin_cursor ≡ s.round_robin_cursor)
unfolding complete
complete_elsewhere s r at b other =
    elim (Bool-cases (leb maximum_lights r.address || is_count r.kind)) [
      | inl refused ↦ rw refused (refl, refl)
      | inr taken ↦ elim (Bool-cases (light_at s r.address).configured) [
        | inl on ↦ rw (taken, on) (get_or-set_ne s.slots _ default_slot other, refl)
        | inr off ↦ rw (taken, off) (refl, refl)
      ]
    ]

settle_elsewhere :
    (s : DaliScheduler) (r : PollRequest) (at : Option ℕ) (b : ℕ)
    → r.address ≢ b
    → (light_at (settle s (some r) at) b ≡ light_at s b)
      × ((settle s (some r) at).round_robin_cursor ≡ s.round_robin_cursor)
settle_elsewhere s r none b other = (refl, refl)
settle_elsewhere s r (some at) b other = complete_elsewhere s r at b other

module _ {F : Type 0} (fl : FloatOps F) where
  abbrev pub ready_at : Turn F → Slot → ℕ → PollKind → Bool
  ready_at t = is_ready fl t.now t.utilisation t.normal_limit t.diagnostic_limit

  abbrev pub returned : Turn F → DaliScheduler → Option PollRequest × DaliScheduler
  returned t = step fl t.now t.utilisation t.normal_limit t.diagnostic_limit

  -- What the calls of `next` return.
  abbrev pub take_turns : List (Turn F) → DaliScheduler → List (Option PollRequest)
  take_turns [] s = []
  take_turns (t ∷ turns) s =
      let (request, s') = returned t s in request ∷ take_turns turns (settle s' request t.completed)

  -- Some turn returns a request for the light `b`, after at most `d` others.
  abbrev Serves : ℕ → ℕ → List (Option PollRequest) → Type 0
  Serves b d results =
      (n : ℕ) × (n ≤ d)
      × (r : PollRequest) × (get_elem? results n ≡ some (some r))
      × (r.address ≡ b)

  -- A turn of another light brings the cursor nearer.
  turn_passes :
      (t : Turn F) (s : DaliScheduler) (b : ℕ) (r : PollRequest)
      → s.round_robin_cursor < maximum_lights
      → b < maximum_lights
      → (returned t s).0 ≡ some r
      → light_poll fl t.now t.utilisation t.normal_limit t.diagnostic_limit s b ≢ none
      → r.address ≢ b
      → let s' = settle (returned t s).1 (some r) t.completed in
        (light_at s' b ≡ light_at s b)
        × (s'.round_robin_cursor < maximum_lights)
        × (distance s' b < distance s b)
  turn_passes t s b r c h e open_light other =
      elim (nearer fl t.now t.utilisation t.normal_limit t.diagnostic_limit s b r c h e
        open_light) [
          | inl own ↦ absurd (
              other
                (poll_address fl t.now t.utilisation t.normal_limit t.diagnostic_limit s b r own h))
          | inr (c', inside, moved, closer) ↦
              let (light, cursor) = settle_elsewhere (returned t s).1 r t.completed b other in
              let now_at = cursor ∙ ap (λ (x : DaliScheduler). x.round_robin_cursor) moved in
              (
                light ∙ ap (λ x. light_at x b) moved,
                omega (arith, now_at, inside),
                omega (arith, now_at, inside, closer),
              )
        ]

  turns_serve :
      (turns : List (Turn F)) (d : ℕ) (s : DaliScheduler) (b : ℕ) (k : PollKind)
      → distance s b ≤ d
      → d < length turns
      → s.round_robin_cursor < maximum_lights
      → b < maximum_lights
      → (light_at s b).configured ≡ true
      → is_count k ≡ false
      → All (λ t. ready_at t (light_at s b) b k ≡ true) turns
      → Serves b d (take_turns turns s)
  turns_serve [] d s b k near enough c h on real ready = absurd (omega arith)
  turns_serve (t ∷ turns) d s b k near enough c h on real (ready, later) =
      let open_light =
        light_ready fl t.now t.utilisation t.normal_limit t.diagnostic_limit s b k on real ready in
      elim (Option-cases (returned t s).0) [
        | inl nothing ↦ absurd (
            open_light
              (idle_quiet fl t.now t.utilisation t.normal_limit t.diagnostic_limit s b nothing c
                h).0)
        | inr (r, e) ↦ elim (ℕ_discrete r.address b) [
          | yes own ↦ (0, omega arith, r, ap some e, own)
          | no other ↦
              let (light, cursor, closer) = turn_passes t s b r c h e open_light other in
              let s' = settle (returned t s).1 (some r) t.completed in
              let (n, within, r', found, own) =
                turns_serve turns (d - 1) s' b k (omega (arith, closer)) (omega (arith, closer))
                  cursor h (ap (λ x. x.configured) light ∙ on) real
                  (subst (λ x. All (λ u. ready_at u x b k ≡ true) turns) (sym light) later) in
              (
                suc n,
                omega (arith, closer),
                r',
                subst
                    (λ q.
                      get_elem? (take_turns turns (settle (returned t s).1 q t.completed)) n
                      ≡ some (some r'))
                    (sym e) found,
                own,
              )
        ]
      ]

  -- With the cursor in range, take 64 or more turns at any times and under any limits, after each of which
  -- the poll returned is completed or not. A configured light below 64 with a poll that, as the light
  -- stands at first, is due and admitted at each of these turns is returned by one of the first 64.
  pub served_in_turn :
      (turns : List (Turn F)) (s : DaliScheduler) (b : ℕ) (k : PollKind)
      → maximum_lights ≤ length turns
      → s.round_robin_cursor < maximum_lights
      → b < maximum_lights
      → (light_at s b).configured ≡ true
      → is_count k ≡ false
      → All (λ t. ready_at t (light_at s b) b k ≡ true) turns
      → (n : ℕ) × (n < maximum_lights)
        × (r : PollRequest) × (get_elem? (take_turns turns s) n ≡ some (some r))
        × (r.address ≡ b)
  served_in_turn turns s b k enough c h on real ready =
      let (n, within, r, found, own) =
        turns_serve turns (distance s b) s b k (omega arith) (omega arith) c h on real ready in
      (n, omega arith, r, found, own)
