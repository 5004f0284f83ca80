-- ===== src/Scheduler/Calls.antt =====
-- Sequences of calls of DaliScheduler.
use savantix_dali_edge_contr.Prelude.{
  ℕ, zero, suc, ◌+◌, ◌^◌, ◌<◌, ◌≤◌, ◌≡◌, refl, true, false, ◌&&◌, ◌||◌, List, [], ◌∷◌, arith, leb,
  ltb, replicate, length-replicate, ◌==◌, if◌then◌else◌, inl, inr, Bool-cases, Option-cases, length,
  length-set, get_or, set, FloatOps, All, All-set, All-get_or,
}
use savantix_dali_edge_contr.Scheduler.{
  PollKind, kind_code, LightPollContext, PollRequest, Slot, DaliScheduler, maximum_lights,
  default_slot, new_scheduler, light_at, due_at, is_count, interval_for, first_due, poll_lights,
}
use savantix_dali_edge_contr.Scheduler
use savantix_dali_edge_contr.Scheduler.Completion.{complete_postpones}

get_or-beyond : {A : Type 0} (xs : List A) (i : ℕ) (d : A) → length xs ≤ i → get_or xs i d ≡ d
get_or-beyond [] i d h = refl
get_or-beyond (x ∷ xs) zero d h = absurd (omega arith)
get_or-beyond (x ∷ xs) (suc i) d h = get_or-beyond xs i d (omega arith)

-- A time for each of the six kinds of poll.
abbrev pub HasTimes : Slot → Type 0
HasTimes slot = length slot.due_ms ≡ 6

pub record IsValid (s : DaliScheduler) : Type 0 where
  pub sized : length s.slots ≡ maximum_lights
  pub times : All HasTimes s.slots
  pub cursor_in : s.round_robin_cursor < maximum_lights

pub data Call (F : Type 0) : Type 0 where
  configure : ℕ → LightPollContext → ℕ → Call F
  next : ℕ → F → F → F → Call F
  complete : PollRequest → ℕ → Call F

times_at : (s : DaliScheduler) (a : ℕ) → IsValid s → HasTimes (light_at s a)
times_at s a v = All-get_or HasTimes s.slots a default_slot v.times refl

rewritten-IsValid :
    (s : DaliScheduler) (a : ℕ) (slot : Slot)
    → IsValid s
    → HasTimes slot
    → IsValid (record s { slots = set s.slots a slot })
rewritten-IsValid s a slot v h = record {
  sized = omega (arith, v.sized, length-set s.slots a slot);
  times = All-set HasTimes s.slots a slot v.times h;
  cursor_in = v.cursor_in;
}

configure-IsValid :
    (s : DaliScheduler) (a : ℕ) (context : LightPollContext) (now : ℕ)
    → IsValid s
    → IsValid (Scheduler.configure s a context now)
unfolding Scheduler.configure
configure-IsValid s a context now v = elim (Bool-cases (leb maximum_lights a)) [
  | inl beyond ↦ rw beyond v
  | inr inside ↦ rw inside (rewritten-IsValid s a _ v refl)
]

complete-IsValid :
    (s : DaliScheduler) (r : PollRequest) (now : ℕ)
    → IsValid s
    → IsValid (Scheduler.complete s r now)
unfolding Scheduler.complete
complete-IsValid s r now v = elim (Bool-cases (leb maximum_lights r.address || is_count r.kind)) [
  | inl refused ↦ rw refused v
  | inr taken ↦ elim (Bool-cases (light_at s r.address).configured) [
    | inl on ↦
        rw (taken, on)
          (rewritten-IsValid s r.address _ v (
            omega (
              arith,
              times_at s r.address v,
              length-set (light_at s r.address).due_ms (kind_code r.kind) _,
            )))
    | inr off ↦ rw (taken, off) v
  ]
]

module _ {F : Type 0} (fl : FloatOps F) where
  next-IsValid :
      (s : DaliScheduler) (now : ℕ) (utilisation normal_limit diagnostic_limit : F)
      → IsValid s
      → IsValid (Scheduler.next fl now utilisation normal_limit diagnostic_limit s).1
  unfolding Scheduler.next
  next-IsValid s now utilisation normal_limit diagnostic_limit v =
      elim (Option-cases
        (poll_lights fl now utilisation normal_limit diagnostic_limit s maximum_lights 0)) [
          | inl nothing ↦ rw (nothing, Scheduler.next) v
          | inr ((a, r), found) ↦
              rw (found, Scheduler.next)
                (record { sized = v.sized; times = v.times; cursor_in = omega arith })
        ]

  abbrev pub call : Call F → DaliScheduler → DaliScheduler
  call (Call.configure a context now) s = Scheduler.configure s a context now
  call (Call.next now utilisation normal_limit diagnostic_limit) s =
      (Scheduler.next fl now utilisation normal_limit diagnostic_limit s).1
  call (Call.complete r now) s = Scheduler.complete s r now

  abbrev pub run : List (Call F) → DaliScheduler → DaliScheduler
  run [] s = s
  run (c ∷ calls) s = run calls (call c s)

  run-kept : (calls : List (Call F)) (s : DaliScheduler) → IsValid s → IsValid (run calls s)
  run-kept [] s v = v
  run-kept (Call.configure a context now ∷ calls) s v =
      run-kept calls _ (configure-IsValid s a context now v)
  run-kept (Call.next now utilisation normal_limit diagnostic_limit ∷ calls) s v =
      run-kept calls _ (next-IsValid s now utilisation normal_limit diagnostic_limit v)
  run-kept (Call.complete r now ∷ calls) s v = run-kept calls _ (complete-IsValid s r now v)

  times-replicate : (n : ℕ) → All HasTimes (replicate n default_slot)
  times-replicate zero = tt
  times-replicate (suc n) = (refl, times-replicate n)

  new_scheduler-IsValid : IsValid new_scheduler
  new_scheduler-IsValid = record {
    sized = length-replicate maximum_lights default_slot;
    times = times-replicate maximum_lights;
    cursor_in = omega arith;
  }

  -- Every call keeps the cursor in range, so that `next` polls the lights in turn.
  pub run-IsValid : (calls : List (Call F)) → IsValid (run calls new_scheduler)
  run-IsValid calls = run-kept calls new_scheduler new_scheduler-IsValid

  -- After any sequence of calls of configure, next and complete on a new scheduler, completing a poll of a
  -- configured light, a day or more before the 64-bit counter of milliseconds wraps, makes that poll due
  -- after its interval, which is 2 seconds or more; no other poll of this or another light is moved.
  pub complete-due_at :
      (calls : List (Call F)) (r : PollRequest) (now b : ℕ) (k : PollKind)
      → let s = run calls new_scheduler in
        is_count r.kind ≡ false
        → (light_at s r.address).configured ≡ true
        → now + 86400000 < 2 ^ 64
        → let due = now + interval_for r.kind (light_at s r.address).context now in
          (now + 2000 ≤ due)
          × (due_at (light_at (Scheduler.complete s r now) b) k ≡ (
              if r.address == b && kind_code r.kind == kind_code k
              then due
              else due_at (light_at s b) k))
  complete-due_at calls r now b k real on clock =
      let s = run calls new_scheduler in
      let v = run-IsValid calls in
      let inside : r.address < maximum_lights = elim (Bool-cases (ltb r.address maximum_lights)) [
        | inl within ↦ ground arith
        | inr past ↦
            let beyond = get_or-beyond s.slots r.address default_slot (ground (arith, v.sized)) in
            absurd (cc (beyond, on))
      ] in
      complete_postpones s r now b k v.sized (times_at s r.address v) inside real on clock
