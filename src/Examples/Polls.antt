-- ===== src/Examples/Polls.antt =====
-- Examples of Scheduler.
use savantix_dali_edge_contr.Prelude.{
  [], List, zero, suc, get_elem?, All, ℕ, ◌+◌, ◌≤◌, ◌<◌, ◌≡◌, refl, true, false, ◌∷◌, some, none,
  arith, leb, replicate,
}
use savantix_dali_edge_contr.Scheduler.{
  PollKind, PollPriority, PollRequest, Slot, DaliScheduler, maximum_lights, default_slot, light_at,
  due_at, is_count, poll_request, poll_light, interval_for, next, configure, new_scheduler,
  complete,
}
use savantix_dali_edge_contr.Scheduler.Rounds.{is_ready, admits}
use savantix_dali_edge_contr.Scheduler.Polling.{step, next_sound, next_complete}
use savantix_dali_edge_contr.Scheduler.Turns.{Turn, ready_at, take_turns, served_in_turn}
use savantix_dali_edge_contr.Scheduler.Calls.{Call, run, complete-due_at}
use savantix_dali_edge_contr.Examples.Fixtures.{millionths}

-- The first light is configured, and its status is due from the time 1000 on.
abbrev first_slot : Slot
first_slot = record default_slot { configured = true; due_ms = 1000 ∷ replicate 5 50000 }

abbrev one_light : DaliScheduler
one_light = record { slots = first_slot ∷ replicate 63 default_slot; round_robin_cursor = 5 }

abbrev status_poll : PollRequest
status_poll = record {
  address = 0;
  kind = PollKind.status;
  priority = PollPriority.high;
  estimated_duration_ms = 100;
}

next_sound_example :
    (0 < maximum_lights)
    × (true ≡ true)
    × (is_count PollKind.status ≡ false)
    × (leb (due_at (light_at one_light 0) PollKind.status) 2000 ≡ true)
    × (admits millionths 2000 100000 300000 600000 status_poll ≡ true)
    × (status_poll ≡ poll_request 0 PollKind.status (light_at one_light 0))
    × ((step millionths 2000 100000 300000 600000 one_light).1
        ≡ record one_light { round_robin_cursor = 1 })
unfolding next poll_light
next_sound_example = next_sound millionths 2000 100000 300000 600000 one_light status_poll refl

next_complete_example :
    (is_ready millionths 500 100000 300000 600000 (light_at one_light 0) 0 PollKind.status ≡ false)
    × (step millionths 500 100000 300000 600000 one_light ≡ (none, one_light))
unfolding next poll_light
next_complete_example =
    next_complete millionths 500 100000 300000 600000 one_light 0 PollKind.status refl (omega arith)
      (omega arith) refl refl

abbrev turn : Turn ℕ
turn = record {
  now = 2000;
  utilisation = 100000;
  normal_limit = 300000;
  diagnostic_limit = 600000;
  completed = some 2050;
}

always_ready :
    (n : ℕ)
    → All
        (λ t. ready_at millionths t (light_at one_light 0) 0 PollKind.status ≡ true)
        (replicate n turn)
always_ready zero = tt
always_ready (suc n) = (refl, always_ready n)

served_in_turn_example :
    (n : ℕ) × (n < maximum_lights)
    × (r : PollRequest) × (get_elem? (take_turns millionths (replicate 64 turn) one_light) n
        ≡ some (some r))
    × (r.address ≡ 0)
served_in_turn_example =
    served_in_turn millionths (replicate 64 turn) one_light 0 PollKind.status (omega arith)
      (omega arith) (omega arith) refl refl (always_ready 64)

abbrev calls : List (Call ℕ)
calls = Call.configure 7 default_slot.context 1000 ∷ Call.next 2000 100000 300000 600000 ∷ []

abbrev seventh_poll : PollRequest
seventh_poll = record status_poll { address = 7 }

complete-due_at_example :
    let s = run millionths calls new_scheduler in
    (2000 + 2000 ≤ 2000 + interval_for PollKind.status (light_at s 7).context 2000)
    × (due_at (light_at (complete s seventh_poll 2000) 7) PollKind.status
        ≡ 2000 + interval_for PollKind.status (light_at s 7).context 2000)
unfolding configure next poll_light
complete-due_at_example =
    complete-due_at millionths calls seventh_poll 2000 7 PollKind.status refl refl (omega arith)
