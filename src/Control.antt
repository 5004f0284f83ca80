-- ===== src/Control.antt =====
-- components/dali_control: typed control commands sent through the pipeline.
use savantix_dali_edge_contr.Prelude.{
  ℕ, ◌+◌, false, Option, none, some, if◌then◌else◌, bit_or, u8, u32,
}
use savantix_dali_edge_contr.Core.{ShortAddress, GroupAddress}
use savantix_dali_edge_contr.Protocol.Commands.{DaliCommand, DaliSpecialCommand}
use savantix_dali_edge_contr.Protocol.Frame.{
  ForwardFrame, arc_level, make_short_command, make_short_arc, make_group_command, make_group_arc,
  make_broadcast_command, make_special_command,
}
use savantix_dali_edge_contr.Protocol.Queue.{DaliRequest, CommandPriority, QueueResult}
use savantix_dali_edge_contr.Protocol.Transaction.{Services, Bus}
use savantix_dali_edge_contr.Protocol.Quality.{is_success}
use savantix_dali_edge_contr.Protocol.Pipeline.{
  DaliProtocolPipeline, ProcessedDaliRequest, submit_request, process_next,
}
pub mod Sending

pub data ControlResult : Type 0 where
  ok queue_full transaction_failed invalid_argument : ControlResult

pub record DaliControl : Type 0 where
  pub timeout_ms : ℕ
  pub max_retries : ℕ
  pub next_sequence : ℕ

-- The control object, the pipeline that it refers to, and the bus behind that.
pub record Desk (S D J : Type 0) : Type 0 where
  pub control : DaliControl
  pub pipeline : DaliProtocolPipeline
  pub bus : Bus S D J

abbrev pub control_request : DaliControl → ForwardFrame → ℕ → CommandPriority → DaliRequest
control_request c frame device_key priority = record {
  frame = frame;
  expects_response = false;
  timeout_ms = c.timeout_ms;
  max_retries = c.max_retries;
  priority = priority;
  device_key = device_key;
  request_sequence = c.next_sequence;
}

-- What `submit` makes of what `processNext` returned.
abbrev pub control_result : Option ProcessedDaliRequest → ControlResult
control_result none = ControlResult.transaction_failed
control_result (some processed) =
    if is_success processed.result.status
    then ControlResult.ok
    else ControlResult.transaction_failed

module _ {S D J : Type 0} (svc : Services S D J) where
  unfoldable pub submit :
      Desk S D J → ForwardFrame → ℕ → CommandPriority → ControlResult × Desk S D J
  submit desk frame device_key priority =
      let request = control_request desk.control frame device_key priority in
      let control' = record desk.control { next_sequence = u32 (desk.control.next_sequence + 1) } in
      let (queue_result, pipeline') = submit_request desk.pipeline request in
      elim queue_result [
        | QueueResult.full ↦
            (ControlResult.queue_full, record desk { control = control'; pipeline = pipeline' })
        | QueueResult.ok ↦
            let (processed, pipeline'', bus') = process_next svc pipeline' desk.bus in
            (
              control_result processed,
              record { control = control'; pipeline = pipeline''; bus = bus' },
            )
      ]

  abbrev pub send_short :
      Desk S D J → ShortAddress → DaliCommand → CommandPriority → ControlResult × Desk S D J
  send_short desk address command priority =
      submit desk (make_short_command address command) address.value priority

  abbrev pub send_group :
      Desk S D J → GroupAddress → DaliCommand → CommandPriority → ControlResult × Desk S D J
  send_group desk address command priority =
      submit desk (make_group_command address command) (u8 (bit_or 0x80 address.value)) priority

  abbrev pub send_broadcast :
      Desk S D J → DaliCommand → CommandPriority → ControlResult × Desk S D J
  send_broadcast desk command priority = submit desk (make_broadcast_command command) 0xff priority

  unfoldable pub set_short_level :
      Desk S D J → ShortAddress → ℕ → CommandPriority → ControlResult × Desk S D J
  set_short_level desk address level priority = elim (arc_level level) [
    | none ↦ (ControlResult.invalid_argument, desk)
    | some arc ↦ submit desk (make_short_arc address arc) address.value priority
  ]

  unfoldable pub set_group_level :
      Desk S D J → GroupAddress → ℕ → CommandPriority → ControlResult × Desk S D J
  set_group_level desk address level priority = elim (arc_level level) [
    | none ↦ (ControlResult.invalid_argument, desk)
    | some arc ↦ submit desk (make_group_arc address arc) (u8 (bit_or 0x80 address.value)) priority
  ]

  abbrev pub send_special :
      Desk S D J → DaliSpecialCommand → ℕ → CommandPriority → ControlResult × Desk S D J
  send_special desk command parameter priority =
      submit desk (make_special_command command parameter) 0xff priority

  abbrev pub set_dtr0 : Desk S D J → ℕ → CommandPriority → ControlResult × Desk S D J
  set_dtr0 desk value priority = send_special desk DaliSpecialCommand.set_dtr_0 value priority
