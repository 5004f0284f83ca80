-- ===== src/Protocol/Pipeline.antt =====
-- components/dali_protocol/include/dali/protocol/dali_protocol_pipeline.h: the queue, the transaction
-- service and the quality counters, one request at a time.
use savantix_dali_edge_contr.Prelude.{ℕ, Option, none, some, FloatOps}
use savantix_dali_edge_contr.Protocol.Queue.{
  DaliRequest, DaliCommandQueue, QueueResult, enqueue, pop, empty_queue,
}
use savantix_dali_edge_contr.Protocol.Transaction.{DaliTransactionResult, Services, Bus, execute}
use savantix_dali_edge_contr.Protocol.Quality.{
  CommunicationQualityCounters, CommunicationQualitySnapshot, no_counts, record_result, snapshot,
}
pub mod Front

pub record ProcessedDaliRequest : Type 0 where
  pub request : DaliRequest
  pub result : DaliTransactionResult

pub record DaliProtocolPipeline : Type 0 where
  pub queue : DaliCommandQueue
  pub quality : CommunicationQualityCounters

abbrev pub new_pipeline : DaliProtocolPipeline
new_pipeline = record { queue = empty_queue; quality = no_counts }

unfoldable pub submit_request :
    DaliProtocolPipeline → DaliRequest → QueueResult × DaliProtocolPipeline
submit_request p request =
    let (result, queue') = enqueue p.queue request in (result, record p { queue = queue' })

module _ {S D J : Type 0} (svc : Services S D J) where
  -- A request has been popped, or not.
  abbrev pub process :
      DaliProtocolPipeline
      → Bus S D J
      → Option DaliRequest
      → Option ProcessedDaliRequest × DaliProtocolPipeline × Bus S D J
  process p bus none = (none, p, bus)
  process p bus (some request) =
      let (result, bus') = execute svc request bus in
      (
        some (record { request = request; result = result }),
        record p { quality = record_result p.quality result },
        bus',
      )

  unfoldable pub process_next :
      DaliProtocolPipeline
      → Bus S D J
      → Option ProcessedDaliRequest × DaliProtocolPipeline × Bus S D J
  process_next p bus =
      let (request, queue') = pop p.queue in process (record p { queue = queue' }) bus request

abbrev pub quality_snapshot :
    {F : Type 0} → FloatOps F → DaliProtocolPipeline → CommunicationQualitySnapshot F
quality_snapshot fl p = snapshot fl p.quality

abbrev pub queued : DaliProtocolPipeline → ℕ
queued p = p.queue.count
