-- ===== src/Scheduler/Rounds.antt =====
-- The loops of the scheduler's `next`: which light and which poll they stop at.
use savantix_dali_edge_contr.Prelude.{
  ℕ, zero, suc, ◌+◌, ◌-◌, ◌%◌, ◌<◌, ◌≡◌, ◌≢◌, refl, sym, ap, subst, ◌∙◌, Bool, true, false, ◌&&◌,
  List, [], ◌∷◌, Option, none, some, arith, leb, if◌then◌else◌, inl, inr, Bool-cases, Option-cases,
  u8, FloatOps, All,
}
use savantix_dali_edge_contr.Scheduler.{
  PollKind, kinds, PollRequest, Slot, DaliScheduler, maximum_lights, light_at, due_at, poll_request,
  admit, poll_kinds, poll_light, poll_lights, is_count,
}

pub byte_of : {n : ℕ} → n < maximum_lights → u8 n ≡ n
byte_of h = omega arith

abbrev pub at_offset : DaliScheduler → ℕ → ℕ
at_offset s o = (s.round_robin_cursor + o) % maximum_lights

-- The offset of the light `a` from the cursor.
abbrev pub distance : DaliScheduler → ℕ → ℕ
distance s a = (a + maximum_lights - s.round_robin_cursor) % maximum_lights

pub at_distance :
    (s : DaliScheduler) (a : ℕ)
    → s.round_robin_cursor < maximum_lights
    → a < maximum_lights
    → at_offset s (distance s a) ≡ a
at_distance s a c h = omega arith

module _ {F : Type 0} (fl : FloatOps F) (now : ℕ)
    (utilisation normal_limit diagnostic_limit : F) where
  abbrev pub admits : PollRequest → Bool
  admits r = admit fl r utilisation normal_limit diagnostic_limit

  -- A poll that is due and that the limits admit.
  abbrev pub is_ready : Slot → ℕ → PollKind → Bool
  is_ready slot address kind = leb (due_at slot kind) now && admits (poll_request address kind slot)

  abbrev inner : ℕ → Slot → List PollKind → Option PollRequest
  inner = poll_kinds fl now utilisation normal_limit diagnostic_limit

  abbrev pub light_poll : DaliScheduler → ℕ → Option PollRequest
  light_poll = poll_light fl now utilisation normal_limit diagnostic_limit

  abbrev pub lights_poll : DaliScheduler → ℕ → ℕ → Option (ℕ × PollRequest)
  lights_poll = poll_lights fl now utilisation normal_limit diagnostic_limit

  inner_step :
      (a : ℕ) (slot : Slot) (k : PollKind) (rest : List PollKind)
      → inner a slot (k ∷ rest)
        ≡ (if is_ready slot a k then some (poll_request a k slot) else inner a slot rest)
  inner_step a slot k rest = ground arith

  inner_hit :
      (a : ℕ) (slot : Slot) (k : PollKind) (rest : List PollKind)
      → is_ready slot a k ≡ true
      → inner a slot (k ∷ rest) ≡ some (poll_request a k slot)
  inner_hit a slot k rest h = inner_step a slot k rest ∙ rw h refl

  inner_miss :
      (a : ℕ) (slot : Slot) (k : PollKind) (rest : List PollKind)
      → is_ready slot a k ≡ false
      → inner a slot (k ∷ rest) ≡ inner a slot rest
  inner_miss a slot k rest h = inner_step a slot k rest ∙ rw h refl

  pub inner-some :
      (a : ℕ) (slot : Slot) (ks : List PollKind) (r : PollRequest)
      → All (λ k. is_count k ≡ false) ks
      → inner a slot ks ≡ some r
      → (k : PollKind) × (is_count k ≡ false)
        × (is_ready slot a k ≡ true)
        × (r ≡ poll_request a k slot)
  inner-some a slot [] r real e = cc e
  inner-some a slot (k ∷ rest) r real e = elim (Bool-cases (is_ready slot a k)) [
    | inl yes_ready ↦ (k, real.0, yes_ready, cc (sym (inner_hit a slot k rest yes_ready) ∙ e))
    | inr no_ready ↦ inner-some a slot rest r real.1 (sym (inner_miss a slot k rest no_ready) ∙ e)
  ]

  inner-none :
      (a : ℕ) (slot : Slot) (ks : List PollKind)
      → inner a slot ks ≡ none
      → All (λ k. is_ready slot a k ≡ false) ks
  inner-none a slot [] e = tt
  inner-none a slot (k ∷ rest) e = elim (Bool-cases (is_ready slot a k)) [
    | inl yes_ready ↦ cc (inner_hit a slot k rest yes_ready, e)
    | inr no_ready ↦
        (no_ready, inner-none a slot rest (sym (inner_miss a slot k rest no_ready) ∙ e))
  ]

  -- A light whose every poll waits has none that is ready.
  none_ready :
      (a : ℕ) (slot : Slot) (k : PollKind)
      → inner a slot kinds ≡ none
      → is_count k ≡ false
      → is_ready slot a k ≡ false
  none_ready a slot PollKind.status e real = (inner-none a slot kinds e).0
  none_ready a slot PollKind.presence e real = (inner-none a slot kinds e).1.0
  none_ready a slot PollKind.electrical e real = (inner-none a slot kinds e).1.1.0
  none_ready a slot PollKind.temperature e real = (inner-none a slot kinds e).1.1.1.0
  none_ready a slot PollKind.lifetime e real = (inner-none a slot kinds e).1.1.1.1.0
  none_ready a slot PollKind.identity e real = (inner-none a slot kinds e).1.1.1.1.1.0
  none_ready a slot PollKind.count e real = cc real

  pub kinds_polled : All (λ k. is_count k ≡ false) kinds
  kinds_polled = (refl, (refl, (refl, (refl, (refl, (refl, tt))))))

  pub light_some :
      (s : DaliScheduler) (a : ℕ) (r : PollRequest)
      → light_poll s a ≡ some r
      → ((light_at s a).configured ≡ true) × (inner a (light_at s a) kinds ≡ some r)
  unfolding poll_light
  light_some s a r e = elim (Bool-cases (light_at s a).configured) [
    | inl on ↦ (on, sym (rw on refl) ∙ e)
    | inr off ↦ cc (rw off at e)
  ]

  pub light_ready :
      (s : DaliScheduler) (a : ℕ) (k : PollKind)
      → (light_at s a).configured ≡ true
      → is_count k ≡ false
      → is_ready (light_at s a) a k ≡ true
      → light_poll s a ≢ none
  unfolding poll_light
  light_ready s a k on real h e = cc (none_ready a (light_at s a) k (sym (rw on refl) ∙ e) real, h)

  lights_hit :
      (s : DaliScheduler) (n o : ℕ) (r : PollRequest)
      → light_poll s (at_offset s o) ≡ some r
      → lights_poll s (suc n) o ≡ some (at_offset s o, r)
  lights_hit s n o r h = rw (h, poll_lights) refl

  lights_miss :
      (s : DaliScheduler) (n o : ℕ)
      → light_poll s (at_offset s o) ≡ none
      → lights_poll s (suc n) o ≡ lights_poll s n (o + 1)
  lights_miss s n o h = rw (h, poll_lights) refl

  at_later :
      (s : DaliScheduler) (o j : ℕ) {a : ℕ}
      → a ≡ at_offset s (o + 1 + j)
      → a ≡ at_offset s (o + suc j)
  at_later s o j e = omega (arith, e)

  -- The offset `o` and those after it.
  passed :
      (s : DaliScheduler) (o j i : ℕ)
      → light_poll s (at_offset s o) ≡ none
      → ((i : ℕ) → i < j → light_poll s (at_offset s (o + 1 + i)) ≡ none)
      → i < suc j
      → light_poll s (at_offset s (o + i)) ≡ none
  passed s o j zero pass before h = let here : o + 0 ≡ o = omega arith in rw here pass
  passed s o j (suc i) pass before h =
      let there : o + suc i ≡ o + 1 + i = omega arith in rw there (before i (omega arith))

  -- The loop returns at the first offset where a light has a poll.
  pub lights_some :
      (s : DaliScheduler) (n o a : ℕ) (r : PollRequest)
      → lights_poll s n o ≡ some (a, r)
      → (j : ℕ) × (j < n)
        × (a ≡ at_offset s (o + j))
        × (light_poll s a ≡ some r)
        × ((i : ℕ) → i < j → light_poll s (at_offset s (o + i)) ≡ none)
  lights_some s zero o a r e = cc e
  lights_some s (suc n) o a r e = elim (Option-cases (light_poll s (at_offset s o))) [
    | inl pass ↦
        let (j, inside, place, found, before) =
          lights_some s n (o + 1) a r (sym (lights_miss s n o pass) ∙ e) in
        (suc j, omega arith, at_later s o j place, found, λ i h. passed s o j i pass before h)
    | inr (r', hit) ↦
        let same : some (at_offset s o, r') ≡ some (a, r) = sym (lights_hit s n o r' hit) ∙ e in
        let place : at_offset s o ≡ a = cc same in
        let found : r' ≡ r = cc same in
        (
          0,
          omega arith,
          omega (arith, place),
          subst (λ t. light_poll s t ≡ some r) place (hit ∙ ap some found),
          λ i h. absurd (omega arith),
        )
  ]

  pub lights_none :
      (s : DaliScheduler) (n o : ℕ)
      → lights_poll s n o ≡ none
      → (j : ℕ) → j < n
      → light_poll s (at_offset s (o + j)) ≡ none
  lights_none s zero o e j h = absurd (omega arith)
  lights_none s (suc n) o e j h = elim (Option-cases (light_poll s (at_offset s o))) [
    | inl pass ↦ passed s o n j pass (lights_none s n (o + 1) (sym (lights_miss s n o pass) ∙ e)) h
    | inr (r', hit) ↦ cc (lights_hit s n o r' hit, e)
  ]
