-- ===== src/Scheduler/Completion.antt =====
-- What `complete` does to the times at which polls are due.
use savantix_dali_edge_contr.Prelude.{
  ℕ, List, ◌+◌, ◌^◌, ◌<◌, ◌≤◌, ◌≡◌, refl, sym, ap, ap₂, ==_iff, ◌∙◌, Bool, true, false, ◌&&◌, arith,
  leb, ◌==◌, if◌then◌else◌, length, get_or, set, get_or-set_self, get_or-set_ne, u64, ℕ_discrete,
}
use savantix_dali_edge_contr.Scheduler.{
  PollKind, kind_code, LightPollContext, PollRequest, Slot, DaliScheduler, maximum_lights,
  default_slot, light_at, due_at, is_count, interval_for, complete,
}

-- Every kind of poll waits at least two seconds.
interval-least :
    (k : PollKind) (context : LightPollContext) (now : ℕ)
    → is_count k ≡ false
    → 2000 ≤ interval_for k context now
unfolding interval_for
interval-least PollKind.status context now h = ground arith
interval-least PollKind.presence context now h = ground arith
interval-least PollKind.electrical context now h = ground arith
interval-least PollKind.temperature context now h = ground arith
interval-least PollKind.lifetime context now h = ground arith
interval-least PollKind.identity context now h = ground arith
interval-least PollKind.count context now h = cc h

interval-most :
    (k : PollKind) (context : LightPollContext) (now : ℕ) → interval_for k context now ≤ 86400000
unfolding interval_for
interval-most PollKind.status context now = ground arith
interval-most PollKind.presence context now = ground arith
interval-most PollKind.electrical context now = ground arith
interval-most PollKind.temperature context now = ground arith
interval-most PollKind.lifetime context now = ground arith
interval-most PollKind.identity context now = ground arith
interval-most PollKind.count context now = ground arith

get_or-set :
    {A : Type 0} (xs : List A) (i j : ℕ) (v d : A)
    → i < length xs
    → get_or (set xs i v) j d ≡ (if i == j then v else get_or xs j d)
get_or-set xs i j v d h = elim (ℕ_discrete i j) [
  | yes e ↦ let t : (i == j) ≡ true = ground arith in rw (t, sym e) (get_or-set_self xs i v d h)
  | no ne ↦ let t : (i == j) ≡ false = ground arith in rw t (get_or-set_ne xs v d ne)
]

moved_due :
    (t : Bool) (slot other : Slot) (kr k : PollKind) (v due : ℕ)
    → kind_code kr < length slot.due_ms
    → v ≡ due
    → (t ≡ true → slot ≡ other)
    → due_at (if t then record slot { due_ms = set slot.due_ms (kind_code kr) v } else other) k
      ≡ (if t && kind_code kr == kind_code k then due else due_at other k)
moved_due true slot other kr k v due h e same =
    get_or-set slot.due_ms (kind_code kr) (kind_code k) v 0 h
    ∙ ap₂ (λ (x : ℕ) (y : Slot). if kind_code kr == kind_code k then x else due_at y k) e
        (same refl)
moved_due false slot other kr k v due h e same = refl

kind_code-lt : (k : PollKind) → is_count k ≡ false → kind_code k < 6
kind_code-lt PollKind.count h = cc h
kind_code-lt PollKind.status h = omega arith
kind_code-lt _ h = omega arith

abbrev completed : DaliScheduler → PollRequest → ℕ → DaliScheduler
completed s r now =
    let slot = light_at s r.address in
    record s {
      slots = set s.slots r.address (record slot {
        due_ms =
            set slot.due_ms (kind_code r.kind) (u64 (now + interval_for r.kind slot.context now));
      });
    }

module _ (s : DaliScheduler) (r : PollRequest) (now : ℕ) where
  complete_known :
      r.address < maximum_lights
      → is_count r.kind ≡ false
      → (light_at s r.address).configured ≡ true
      → complete s r now ≡ completed s r now
  unfolding complete
  complete_known h real on =
      let small : leb maximum_lights r.address ≡ false = ground arith in
      rw (complete, small, real, on) refl

  -- In a scheduler of 64 slots, completing a poll of a configured light with 6 times, a day or more before
  -- the 64-bit counter of milliseconds wraps, makes that poll due after its interval, which is 2 seconds or more; no other poll of this or
  -- another light is moved.
  pub complete_postpones :
      (b : ℕ) (k : PollKind)
      → length s.slots ≡ maximum_lights
      → length (light_at s r.address).due_ms ≡ 6
      → r.address < maximum_lights
      → is_count r.kind ≡ false
      → (light_at s r.address).configured ≡ true
      → now + 86400000 < 2 ^ 64
      → let due = now + interval_for r.kind (light_at s r.address).context now in
        (now + 2000 ≤ due)
        × (due_at (light_at (complete s r now) b) k ≡ (
            if r.address == b && kind_code r.kind == kind_code k
            then due
            else due_at (light_at s b) k))
  complete_postpones b k sized dues h real on clock =
      let least = interval-least r.kind (light_at s r.address).context now real in
      let due = now + interval_for r.kind (light_at s r.address).context now in
      let exact : u64 due ≡ due =
        omega (arith, interval-most r.kind (light_at s r.address).context now) in
      (
        omega (arith, least),
        ap (λ t. due_at (light_at t b) k) (complete_known h real on)
            ∙ (ap (λ (t : Slot). due_at t k)
                  (get_or-set s.slots r.address b _ default_slot (omega (arith, sized)))
                ∙ moved_due (r.address == b) (light_at s r.address) (light_at s b) r.kind k _ due
                    (omega (arith, dues, kind_code-lt r.kind real)) exact
                    (λ same. ap (light_at s) ((==_iff _ _).0 same))),
      )
