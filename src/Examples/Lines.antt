-- ===== src/Examples/Lines.antt =====
-- Examples of Protocol/Pipeline, Protocol/Query and Control.
use savantix_dali_edge_contr.Prelude.{
  ℕ, suc, ◌≡◌, refl, false, if◌then◌else◌, List, [], ◌∷◌, replicate, arith,
}
use savantix_dali_edge_contr.Core.{ShortAddress}
use savantix_dali_edge_contr.Phy.{is_ok}
use savantix_dali_edge_contr.Simulator.{SimulatedDaliPhy}
use savantix_dali_edge_contr.Protocol.Commands.{DaliCommand}
use savantix_dali_edge_contr.Protocol.Frame.{ForwardFrame}
use savantix_dali_edge_contr.Protocol.Queue.{CommandPriority}
use savantix_dali_edge_contr.Protocol.Queue.Order.{insert_stable}
use savantix_dali_edge_contr.Protocol.Queue.Refine.{IsValid, contents, empty_queue-IsValid}
use savantix_dali_edge_contr.Protocol.Transaction.{exchange, execute}
use savantix_dali_edge_contr.Protocol.Transaction.Outcome.{Settled, answer_at, bus_at}
use savantix_dali_edge_contr.Protocol.Pipeline.{DaliProtocolPipeline, new_pipeline, process_next}
use savantix_dali_edge_contr.Protocol.Pipeline.Front.{Processed, process_next-Processed}
use savantix_dali_edge_contr.Protocol.Query.{PipelineQueryClient, Line, query, query_client}
use savantix_dali_edge_contr.Protocol.Query.Answer
use savantix_dali_edge_contr.Control.{ControlResult, Desk, submit}
use savantix_dali_edge_contr.Control.Sending
use savantix_dali_edge_contr.Device.Registry.{empty_registry}
use savantix_dali_edge_contr.Device.Calls
use savantix_dali_edge_contr.Device.Clients.Direct
use savantix_dali_edge_contr.Examples.Fixtures.{
  services, millionths, quiet_bus, urgent, one_waiting,
}

abbrev busy_pipeline : DaliProtocolPipeline
busy_pipeline = record new_pipeline { queue = one_waiting }

one_waiting-IsValid : IsValid one_waiting
one_waiting-IsValid = record { sized = refl; fits = omega arith }

process_next-Processed_example :
    Processed services busy_pipeline quiet_bus urgent []
      (process_next services busy_pipeline quiet_bus)
process_next-Processed_example =
    process_next-Processed services busy_pipeline quiet_bus urgent [] one_waiting-IsValid refl

abbrev lamp : ShortAddress
lamp = record { value = 7 }

abbrev client : PipelineQueryClient
client = record { timeout_ms = 20; maximum_retries = 3; next_sequence = 1 }

abbrev idle_line : Line SimulatedDaliPhy ℕ ℕ
idle_line = record { client = client; pipeline = new_pipeline; bus = quiet_bus }

query_idle_example :
    let own =
      Answer.own_request services idle_line lamp DaliCommand.query_status CommandPriority.high in
    let out = query services idle_line lamp DaliCommand.query_status CommandPriority.high in
    (k : ℕ) × Settled services own quiet_bus k (execute services own quiet_bus)
    × Answer.Told services idle_line lamp DaliCommand.query_status CommandPriority.high
        (answer_at services own quiet_bus k)
        (exchange services own (bus_at services own quiet_bus k)).1
        (suc k)
        out.0
    × (contents out.1.pipeline.queue ≡ [])
    × IsValid out.1.pipeline.queue
query_idle_example =
    Answer.query_idle services idle_line lamp DaliCommand.query_status CommandPriority.high
      empty_queue-IsValid refl (omega arith) (omega arith)

abbrev busy_line : Line SimulatedDaliPhy ℕ ℕ
busy_line = record idle_line { pipeline = busy_pipeline }

query_behind_another_example :
    Answer.Ran services busy_line lamp DaliCommand.query_status CommandPriority.high urgent
      (insert_stable
        (Answer.own_request services busy_line lamp DaliCommand.query_status CommandPriority.high)
        [])
      (query services busy_line lamp DaliCommand.query_status CommandPriority.high)
query_behind_another_example =
    Answer.query_behind_another services busy_line lamp DaliCommand.query_status
      CommandPriority.high urgent [] one_waiting-IsValid (omega arith) refl (omega arith)

abbrev desk : Desk SimulatedDaliPhy ℕ ℕ
desk = record {
  control = record { timeout_ms = 20; max_retries = 3; next_sequence = 1 };
  pipeline = new_pipeline;
  bus = quiet_bus;
}

abbrev dim_frame : ForwardFrame
dim_frame = record { raw = 0x0e80 }

submit_idle_example :
    let own = Sending.own_request services desk dim_frame 7 CommandPriority.normal in
    let out = submit services desk dim_frame 7 CommandPriority.normal in
    (k : ℕ) × Settled services own quiet_bus k (execute services own quiet_bus)
    × (out.0 ≡ (
        if is_ok (answer_at services own quiet_bus k)
        then ControlResult.ok
        else ControlResult.transaction_failed))
    × (out.1.bus ≡ (execute services own quiet_bus).1)
    × (contents out.1.pipeline.queue ≡ [])
submit_idle_example =
    Sending.submit_idle services desk dim_frame 7 CommandPriority.normal empty_queue-IsValid refl
      (omega arith) (omega arith)

abbrev calls : List Calls.Call
calls = Calls.Call.scan 1000 ∷ Calls.Call.detect lamp 2000 ∷ []

abbrev fresh_manager : Calls.Managed (Line SimulatedDaliPhy ℕ ℕ) ℕ
fresh_manager = record {
  client = idle_line;
  registry = empty_registry;
  duplicate_reported = replicate 64 false;
}

run_direct_example :
    let (batches, m) = Calls.run millionths (query_client services) calls fresh_manager in
    (Calls.run millionths (Direct.direct_client services) calls (Direct.managed_view fresh_manager)
      ≡ (batches, Direct.managed_view m))
    × Direct.IsIdle m.client
run_direct_example =
    Direct.run_direct services millionths calls fresh_manager
      (record { valid = empty_queue-IsValid; nothing = refl })
