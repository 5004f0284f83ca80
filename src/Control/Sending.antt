-- ===== src/Control/Sending.antt =====
-- What DaliControl sends, and what it tells of it.
use savantix_dali_edge_contr.Prelude.{
  ℕ, ◌≤◌, ◌<◌, ◌≡◌, ◌≢◌, refl, true, false, [], none, some, arith, leb, if◌then◌else◌, u8,
}
use savantix_dali_edge_contr.Core.{ShortAddress, IsShort}
use savantix_dali_edge_contr.Phy.{is_ok}
use savantix_dali_edge_contr.Protocol.Frame.{ForwardFrame, ArcLevel, arc_level, make_short_arc}
use savantix_dali_edge_contr.Protocol.Frame.Decode.{see, Target, see-frame_of, Call}
use savantix_dali_edge_contr.Protocol.Queue.{DaliRequest, CommandPriority}
use savantix_dali_edge_contr.Protocol.Queue.Order.{insert_stable}
use savantix_dali_edge_contr.Protocol.Queue.Refine.{IsValid, contents}
use savantix_dali_edge_contr.Protocol.Transaction.{Services, absolute_max_retries, execute}
use savantix_dali_edge_contr.Protocol.Transaction.Outcome.{Settled, answer_at, execute-Settled}
use savantix_dali_edge_contr.Protocol.Pipeline.{submit_request}
use savantix_dali_edge_contr.Protocol.Pipeline.Front.{
  submit_request_accepts, process_next-Processed,
}
use savantix_dali_edge_contr.Control.{
  ControlResult, Desk, control_request, control_result, submit, set_short_level,
}

module _ {S D J : Type 0} (svc : Services S D J) (desk : Desk S D J) (frame : ForwardFrame)
    (key : ℕ) (priority : CommandPriority) where
  abbrev pub own_request : DaliRequest
  own_request = control_request desk.control frame key priority

  submit_runs_own :
      IsValid desk.pipeline.queue
      → desk.pipeline.queue.count ≡ 0
      → let out = submit svc desk frame key priority in
        (out.0
          ≡ control_result (
              some
                (record { request = own_request; result = (execute svc own_request desk.bus).0 })))
        × (contents out.1.pipeline.queue ≡ [])
        × IsValid out.1.pipeline.queue
        × (out.1.bus ≡ (execute svc own_request desk.bus).1)
  unfolding submit insert_stable
  submit_runs_own v idle =
      let nothing : contents desk.pipeline.queue ≡ [] = rw idle refl in
      let (accepted, v', e, kept) =
        submit_request_accepts desk.pipeline own_request v (omega arith) in
      let p = (submit_request desk.pipeline own_request).1 in
      let ran =
        process_next-Processed svc p desk.bus own_request [] v' (rw (e, nothing, insert_stable)) in
      rw (accepted, submit) (rw (ran.answer), ran.rest, ran.valid, ran.bus_after)

  -- On an idle pipeline, with a timeout and at most 8 retries, the frame is sent until an attempt
  -- settles it; the caller is told `ok` just when the PHY answered `ok` to that attempt, and
  -- `transaction_failed` otherwise. The bus is as that attempt left it, and the pipeline idle again.
  pub submit_idle :
      IsValid desk.pipeline.queue
      → desk.pipeline.queue.count ≡ 0
      → desk.control.timeout_ms ≢ 0
      → desk.control.max_retries ≤ absolute_max_retries
      → let out = submit svc desk frame key priority in
        (k : ℕ) × Settled svc own_request desk.bus k (execute svc own_request desk.bus)
        × (out.0 ≡ (
            if is_ok (answer_at svc own_request desk.bus k)
            then ControlResult.ok
            else ControlResult.transaction_failed))
        × (out.1.bus ≡ (execute svc own_request desk.bus).1)
        × (contents out.1.pipeline.queue ≡ [])
  submit_idle v idle timed limit =
      let (told, rest, valid, bus) = submit_runs_own v idle in
      let (k, s) = execute-Settled svc own_request desk.bus timed limit in
      (k, s, ground (arith, told, s.status), bus, rest)

arc_level_fits : (level : ℕ) → level ≤ 254 → arc_level level ≡ some (record { value = level })
unfolding arc_level
arc_level_fits level fits =
    let same : u8 level ≡ level = omega arith in
    let test : leb level 254 ≡ true = ground arith in rw (test, same) refl

arc_level_high : (level : ℕ) → 254 < level → arc_level level ≡ none
unfolding arc_level
arc_level_high level h = let test : leb level 254 ≡ false = ground arith in rw test refl

-- A level up to 254 is submitted in a frame that a reader of the bus decodes to that address and arc
-- level.
pub set_short_level_sends :
    {S D J : Type 0} (svc : Services S D J) (desk : Desk S D J) (a : ShortAddress) (level : ℕ)
    (priority : CommandPriority)
    → IsShort a
    → level ≤ 254
    → (frame : ForwardFrame) × (see frame
        ≡ record { target = Target.short a.value; is_command = false; byte = level })
      × (set_short_level svc desk a level priority ≡ submit svc desk frame a.value priority)
unfolding set_short_level
set_short_level_sends svc desk a level priority h fits =
    let arc : ArcLevel = record { value = level } in
    (
      make_short_arc a arc,
      see-frame_of (Call.short_arc a arc) (h, fits),
      rw (arc_level_fits level fits, set_short_level) refl,
    )

-- A level of 255 or more is refused, and neither the pipeline nor the bus is touched.
pub set_short_level_refuses :
    {S D J : Type 0} (svc : Services S D J) (desk : Desk S D J) (a : ShortAddress) (level : ℕ)
    (priority : CommandPriority)
    → 254 < level
    → set_short_level svc desk a level priority ≡ (ControlResult.invalid_argument, desk)
unfolding set_short_level
set_short_level_refuses svc desk a level priority h =
    rw (arc_level_high level h, set_short_level) refl
