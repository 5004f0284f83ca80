-- ===== src/Protocol/Pipeline/Front.antt =====
-- Which request DaliProtocolPipeline::processNext takes, and what it leaves.
use savantix_dali_edge_contr.Prelude.{◌<◌, ◌≡◌, refl, List, ◌∷◌, Option, none, some, arith}
use savantix_dali_edge_contr.Protocol.Queue.{DaliRequest, QueueResult, capacity, enqueue, pop}
use savantix_dali_edge_contr.Protocol.Queue.Order.{insert_stable, offer, serve}
use savantix_dali_edge_contr.Protocol.Queue.Refine.{
  IsValid, contents, length-contents, enqueue_refines, pop_refines,
}
use savantix_dali_edge_contr.Protocol.Transaction.{Services, Bus, execute}
use savantix_dali_edge_contr.Protocol.Quality.{record_result}
use savantix_dali_edge_contr.Protocol.Pipeline.{
  DaliProtocolPipeline, ProcessedDaliRequest, submit_request, process_next,
}

-- A pipeline with room accepts a request at its place in the order of service.
pub submit_request_accepts :
    (p : DaliProtocolPipeline) (r : DaliRequest)
    → IsValid p.queue
    → p.queue.count < capacity
    → let (s, p') = submit_request p r in
      (s ≡ QueueResult.ok)
      × IsValid p'.queue
      × (contents p'.queue ≡ insert_stable r (contents p.queue))
      × (p'.quality ≡ p.quality)
unfolding submit_request offer
submit_request_accepts p r v room =
    let (e, v') = enqueue_refines p.queue r v in
    (ground (arith, e, length-contents v), v', ground (arith, e, length-contents v), refl)

-- A full pipeline refuses it, and is left as it was.
pub submit_request_full :
    (p : DaliProtocolPipeline) (r : DaliRequest)
    → p.queue.count ≡ capacity
    → submit_request p r ≡ (QueueResult.full, p)
unfolding submit_request enqueue
submit_request_full p r full = ground arith

module _ {S D J : Type 0} (svc : Services S D J) where
  -- What a step leaves: the request at the front is executed, counted and gone.
  pub record Processed (p : DaliProtocolPipeline) (bus : Bus S D J) (x : DaliRequest)
      (xs : List DaliRequest) (out : Option ProcessedDaliRequest × DaliProtocolPipeline × Bus S D J)
      : Type 0 where
    pub answer : out.0 ≡ some (record { request = x; result = (execute svc x bus).0 })
    pub rest : contents out.1.queue ≡ xs
    pub valid : IsValid out.1.queue
    pub counted : out.1.quality ≡ record_result p.quality (execute svc x bus).0
    pub bus_after : out.2 ≡ (execute svc x bus).1

  pub process_next-Processed :
      (p : DaliProtocolPipeline) (bus : Bus S D J) (x : DaliRequest) (xs : List DaliRequest)
      → IsValid p.queue
      → contents p.queue ≡ x ∷ xs
      → Processed p bus x xs (process_next svc p bus)
  unfolding process_next serve
  process_next-Processed p bus x xs v front =
      let (e, v') = pop_refines p.queue v in
      let popped : (pop p.queue).0 ≡ some x = ground (arith, e) in
      record {
        answer = rw popped;
        rest = rw popped (ground (arith, e));
        valid = rw popped v';
        counted = rw popped;
        bus_after = rw popped;
      }

  -- With nothing queued nothing happens.
  pub process_next_idle :
      (p : DaliProtocolPipeline) (bus : Bus S D J)
      → p.queue.count ≡ 0
      → process_next svc p bus ≡ (none, p, bus)
  unfolding process_next pop
  process_next_idle p bus idle = ground arith
