-- ===== src/Examples/Bus.antt =====
-- Examples of Protocol/Frame, Protocol/Queue, Protocol/Transaction, Protocol/Quality and
-- Protocol/Response.
use savantix_dali_edge_contr.Prelude.{ℕ, ◌-◌, ◌≡◌, refl, true, List, [], ◌∷◌, arith}
use savantix_dali_edge_contr.Phy.{PhyResult}
use savantix_dali_edge_contr.Simulator.{SimulatedDaliPhy}
use savantix_dali_edge_contr.Protocol.Commands.{DaliCommand}
use savantix_dali_edge_contr.Protocol.Frame.{make_short_command}
use savantix_dali_edge_contr.Protocol.Frame.Decode
use savantix_dali_edge_contr.Protocol.Queue.{DaliRequest, empty_queue, default_request}
use savantix_dali_edge_contr.Protocol.Queue.Refine.{IsValid}
use savantix_dali_edge_contr.Protocol.Queue.Service
use savantix_dali_edge_contr.Protocol.Transaction.{
  TransactionStatus, DaliTransactionResult, default_result, Bus, execute,
}
use savantix_dali_edge_contr.Protocol.Transaction.Outcome.{Settled, execute-Settled}
use savantix_dali_edge_contr.Protocol.Transaction.Waiting.{
  Paced, total, delay_all, jitter_at, delays, execute_waits,
}
use savantix_dali_edge_contr.Protocol.Quality.History.{Tallies, track, track-Tallies}
use savantix_dali_edge_contr.Examples.Fixtures.{
  services, jitter_bounded, quiet_bus, urgent, one_waiting, working_phy,
}

see-frame_of_example :
    Decode.see (make_short_command (record { value = 3 }) DaliCommand.query_status)
    ≡ record { target = Decode.Target.short 3; is_command = true; byte = 0x90 }
see-frame_of_example =
    Decode.see-frame_of (Decode.Call.short_command (record { value = 3 }) DaliCommand.query_status)
      (omega arith)

abbrev calls : List Service.Call
calls = Service.Call.put default_request ∷ Service.Call.put urgent ∷ Service.Call.next ∷ []

run_refines_example : Service.run empty_queue calls ≡ Service.run_list [] calls
run_refines_example = Service.run_refines calls

one_waiting-IsValid : IsValid one_waiting
one_waiting-IsValid = record { sized = refl; fits = omega arith }

execute-Settled_example :
    (k : ℕ) × Settled services urgent quiet_bus k (execute services urgent quiet_bus)
execute-Settled_example = execute-Settled services urgent quiet_bus (omega arith) (omega arith)

-- A query to a bus on which nothing answers.
abbrev asking : DaliRequest
asking = record urgent { expects_response = true; max_retries = 2 }

abbrev silent_bus : Bus SimulatedDaliPhy ℕ ℕ
silent_bus = record quiet_bus { phy = record working_phy { response_count = 0 } }

execute_waits_example :
    let (result, bus) = execute services asking silent_bus in
    let own = delays services.jitter silent_bus.jitter (result.attempts - 1) in
    (bus.delay ≡ delay_all services.delay silent_bus.delay own)
    × (bus.jitter ≡ jitter_at services.jitter silent_bus.jitter (result.attempts - 1))
    × Paced 0 own
    × (result.retry_delay_total_ms ≡ total own)
execute_waits_example =
    execute_waits services asking silent_bus jitter_bounded (omega arith) (omega arith)

abbrev history : List DaliTransactionResult
history =
    record default_result { status = TransactionStatus.ok; last_phy_result = PhyResult.ok }
    ∷ record default_result { last_phy_result = PhyResult.timeout }
    ∷ []

track-Tallies_example : Tallies history (track history)
track-Tallies_example = track-Tallies history
