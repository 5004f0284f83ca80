-- ===== src/Protocol/Query.antt =====
-- components/dali_protocol/include/dali/protocol/i_dali_query_client.h and pipeline_query_client.cpp:
-- typed queries over the pipeline.
use savantix_dali_edge_contr.Prelude.{
  ℕ, ◌+◌, Bool, true, false, ◌&&◌, Option, none, some, if◌then◌else◌, u32,
}
use savantix_dali_edge_contr.Core.{
  ShortAddress, Reading, valid_reading, unavailable_reading, invalid_reading,
}
use savantix_dali_edge_contr.Phy.{PhyResult}
use savantix_dali_edge_contr.Protocol.Commands.{DaliCommand}
use savantix_dali_edge_contr.Protocol.Frame.{make_short_command}
use savantix_dali_edge_contr.Protocol.Queue.{DaliRequest, CommandPriority, QueueResult}
use savantix_dali_edge_contr.Protocol.Transaction.{DaliTransactionResult, Services, Bus}
use savantix_dali_edge_contr.Protocol.Quality.{is_success}
use savantix_dali_edge_contr.Protocol.Pipeline.{
  DaliProtocolPipeline, ProcessedDaliRequest, submit_request, process_next,
}
pub mod Answer

pub data DaliQueryOutcome : Type 0 where
  ok no_response collision busy bus_failure hardware_failure queue_full invalid : DaliQueryOutcome

pub record DaliQueryResult : Type 0 where
  pub outcome : DaliQueryOutcome
  pub response : Reading ℕ
  pub attempts : ℕ
  pub phy_result : PhyResult

-- The interface that the device manager uses.
pub record IDaliQueryClient (C : Type 0) : Type 0 where
  pub query : C → ShortAddress → DaliCommand → CommandPriority → DaliQueryResult × C

abbrev pub is_some : {A : Type 0} → Option A → Bool
is_some none = false
is_some (some a) = true

abbrev pub outcome_from_phy : PhyResult → DaliQueryOutcome
outcome_from_phy PhyResult.timeout = DaliQueryOutcome.no_response
outcome_from_phy PhyResult.collision = DaliQueryOutcome.collision
outcome_from_phy PhyResult.busy = DaliQueryOutcome.busy
outcome_from_phy PhyResult.bus_power_lost = DaliQueryOutcome.bus_failure
outcome_from_phy PhyResult.transceiver_fault = DaliQueryOutcome.hardware_failure
outcome_from_phy PhyResult.not_initialised = DaliQueryOutcome.hardware_failure
outcome_from_phy PhyResult.internal_error = DaliQueryOutcome.hardware_failure
outcome_from_phy PhyResult.invalid_argument = DaliQueryOutcome.invalid
outcome_from_phy PhyResult.ok = DaliQueryOutcome.invalid

unfoldable pub outcome_from_result : DaliTransactionResult → DaliQueryOutcome
outcome_from_result result =
    if is_success result.status && is_some result.response
    then DaliQueryOutcome.ok
    else outcome_from_phy result.last_phy_result

abbrev pub outcome_is_ok : DaliQueryOutcome → Bool
outcome_is_ok DaliQueryOutcome.ok = true
outcome_is_ok _ = false

-- NoResponse, Collision or Busy.
abbrev pub outcome_is_passing : DaliQueryOutcome → Bool
outcome_is_passing DaliQueryOutcome.no_response = true
outcome_is_passing DaliQueryOutcome.collision = true
outcome_is_passing DaliQueryOutcome.busy = true
outcome_is_passing _ = false

abbrev pub failed_reading : DaliQueryOutcome → Reading ℕ
failed_reading outcome =
    if outcome_is_passing outcome then unavailable_reading 0 else invalid_reading 0

unfoldable pub reading_for_result : DaliTransactionResult → DaliQueryOutcome → Reading ℕ
reading_for_result result outcome = elim (result.response) [
  | some byte ↦
      if outcome_is_ok outcome then valid_reading byte 0 0 false else failed_reading outcome
  | none ↦ failed_reading outcome
]

pub record PipelineQueryClient : Type 0 where
  pub timeout_ms : ℕ
  pub maximum_retries : ℕ
  pub next_sequence : ℕ

abbrev pub query_request :
    PipelineQueryClient → ShortAddress → DaliCommand → CommandPriority → DaliRequest
query_request c address command priority = record {
  frame = make_short_command address command;
  expects_response = true;
  timeout_ms = c.timeout_ms;
  max_retries = c.maximum_retries;
  priority = priority;
  device_key = address.value;
  request_sequence = c.next_sequence;
}

abbrev pub not_queued : DaliQueryResult
not_queued = record {
  outcome = DaliQueryOutcome.queue_full;
  response = unavailable_reading 0;
  attempts = 0;
  phy_result = PhyResult.busy;
}

-- What `query` makes of what `processNext` returned.
abbrev pub query_result : Option ProcessedDaliRequest → DaliQueryResult
query_result none = record {
  outcome = DaliQueryOutcome.invalid;
  response = invalid_reading 0;
  attempts = 0;
  phy_result = PhyResult.internal_error;
}
query_result (some processed) =
    let outcome = outcome_from_result processed.result in
    record {
      outcome = outcome;
      response = reading_for_result processed.result outcome;
      attempts = processed.result.attempts;
      phy_result = processed.result.last_phy_result;
    }

-- The client, the pipeline that it refers to, and the bus behind that.
pub record Line (S D J : Type 0) : Type 0 where
  pub client : PipelineQueryClient
  pub pipeline : DaliProtocolPipeline
  pub bus : Bus S D J

module _ {S D J : Type 0} (svc : Services S D J) where
  unfoldable pub query :
      Line S D J → ShortAddress → DaliCommand → CommandPriority → DaliQueryResult × Line S D J
  query line address command priority =
      let request = query_request line.client address command priority in
      let client' = record line.client { next_sequence = u32 (line.client.next_sequence + 1) } in
      let (queue_result, pipeline') = submit_request line.pipeline request in
      elim queue_result [
        | QueueResult.full ↦ (not_queued, record line { client = client'; pipeline = pipeline' })
        | QueueResult.ok ↦
            let (processed, pipeline'', bus') = process_next svc pipeline' line.bus in
            (query_result processed, record { client = client'; pipeline = pipeline''; bus = bus' })
      ]

  abbrev pub query_client : IDaliQueryClient (Line S D J)
  query_client = record { query = query }
