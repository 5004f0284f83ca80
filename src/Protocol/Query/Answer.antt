-- ===== src/Protocol/Query/Answer.antt =====
-- What PipelineQueryClient::query answers: on an idle pipeline, what the bus said to its own request;
-- behind other requests, the answer to another one.
use savantix_dali_edge_contr.Prelude.{
  ℕ, suc, ◌+◌, ◌≤◌, ◌<◌, ◌≡◌, ◌≢◌, refl, false, List, [], ◌∷◌, some, arith, if◌then◌else◌, u32,
}
use savantix_dali_edge_contr.Core.{ShortAddress, has_value, valid_reading}
use savantix_dali_edge_contr.Phy.{PhyResult, is_ok}
use savantix_dali_edge_contr.Protocol.Commands.{DaliCommand}
use savantix_dali_edge_contr.Protocol.Queue.{
  DaliRequest, CommandPriority, priority_code, level, capacity,
}
use savantix_dali_edge_contr.Protocol.Queue.Order.{insert_stable}
use savantix_dali_edge_contr.Protocol.Queue.Refine.{IsValid, contents}
use savantix_dali_edge_contr.Protocol.Transaction.{
  Services, absolute_max_retries, exchange, execute,
}
use savantix_dali_edge_contr.Protocol.Transaction.Outcome.{
  Settled, bus_at, answer_at, execute-Settled,
}
use savantix_dali_edge_contr.Protocol.Quality.{record_result}
use savantix_dali_edge_contr.Protocol.Pipeline.{submit_request}
use savantix_dali_edge_contr.Protocol.Pipeline.Front.{
  submit_request_accepts, process_next-Processed,
}
use savantix_dali_edge_contr.Protocol.Query.{
  DaliQueryOutcome, DaliQueryResult, Line, query, query_request, query_result, failed_reading,
  outcome_from_phy, outcome_from_result, reading_for_result,
}

module _ {S D J : Type 0} (svc : Services S D J) (line : Line S D J) (address : ShortAddress)
    (command : DaliCommand) (priority : CommandPriority) where
  abbrev pub own_request : DaliRequest
  own_request = query_request line.client address command priority

  -- The query ran request `x`, and left the requests `xs`.
  pub record Ran (x : DaliRequest) (xs : List DaliRequest) (out : DaliQueryResult × Line S D J)
      : Type 0 where
    pub answer :
        out.0 ≡ query_result (some (record { request = x; result = (execute svc x line.bus).0 }))
    pub queue : contents out.1.pipeline.queue ≡ xs
    pub valid : IsValid out.1.pipeline.queue
    pub counted :
        out.1.pipeline.quality ≡ record_result line.pipeline.quality (execute svc x line.bus).0
    pub bus : out.1.bus ≡ (execute svc x line.bus).1
    pub sequence :
        out.1.client ≡ record line.client { next_sequence = u32 (line.client.next_sequence + 1) }

  -- The query's own request joins the queue, and the one at the front is run.
  pub query-Ran :
      (x : DaliRequest) (xs : List DaliRequest)
      → IsValid line.pipeline.queue
      → line.pipeline.queue.count < capacity
      → insert_stable own_request (contents line.pipeline.queue) ≡ x ∷ xs
      → Ran x xs (query svc line address command priority)
  unfolding query
  query-Ran x xs v room order =
      let (accepted, v', e, kept) = submit_request_accepts line.pipeline own_request v room in
      let p = (submit_request line.pipeline own_request).1 in
      let ran = process_next-Processed svc p line.bus x xs v' (rw (e, order)) in
      rw (accepted, query)
        (record {
          answer = rw (ran.answer);
          queue = ran.rest;
          valid = ran.valid;
          counted = rw (ran.counted, kept);
          bus = ran.bus_after;
          sequence = refl;
        })

  -- What the caller is told when the PHY's deciding answer is `a` and the byte is `b`.
  pub record Told (a : PhyResult) (b attempts : ℕ) (r : DaliQueryResult) : Type 0 where
    pub tries : r.attempts ≡ attempts
    pub cause : r.phy_result ≡ a
    pub usable : has_value r.response ≡ is_ok a
    pub outcome : r.outcome ≡ (if is_ok a then DaliQueryOutcome.ok else outcome_from_phy a)
    pub response :
        r.response
        ≡ (if is_ok a then valid_reading b 0 0 false else failed_reading (outcome_from_phy a))

  Settled-Told :
      (k : ℕ)
      → Settled svc own_request line.bus k (execute svc own_request line.bus)
      → Told
          (answer_at svc own_request line.bus k)
          (exchange svc own_request (bus_at svc own_request line.bus k)).1
          (suc k)
          (query_result (
            some (record { request = own_request; result = (execute svc own_request line.bus).0 })))
  unfolding outcome_from_result reading_for_result
  Settled-Told k s = ground (arith, s.attempts, s.last, s.status, s.response)

  -- On an idle pipeline, with a timeout and at most 8 retries, a query is settled by some attempt. It
  -- returns the byte as a valid reading just when that attempt was answered; otherwise it has no value
  -- and its outcome names the cause. It tells the number of attempts and the last PHY result, and the
  -- pipeline is idle again.
  pub query_idle :
      IsValid line.pipeline.queue
      → line.pipeline.queue.count ≡ 0
      → line.client.timeout_ms ≢ 0
      → line.client.maximum_retries ≤ absolute_max_retries
      → let out = query svc line address command priority in
        (k : ℕ) × Settled svc own_request line.bus k (execute svc own_request line.bus)
        × Told
            (answer_at svc own_request line.bus k)
            (exchange svc own_request (bus_at svc own_request line.bus k)).1
            (suc k)
            out.0
        × (contents out.1.pipeline.queue ≡ [])
        × IsValid out.1.pipeline.queue
  unfolding insert_stable
  query_idle v idle timed limit =
      let nothing : contents line.pipeline.queue ≡ [] = rw idle refl in
      let ran = query-Ran own_request [] v (omega arith) (rw (nothing, insert_stable)) in
      let (k, s) = execute-Settled svc own_request line.bus timed limit in
      (k, s, rw (ran.answer) (Settled-Told k s), ran.queue, ran.valid)

  -- Behind a request of its own or a more urgent priority, a query runs that request and returns its
  -- result as the answer; the query's own request stays in the queue and was not sent.
  pub query_behind_another :
      (x : DaliRequest) (xs : List DaliRequest)
      → IsValid line.pipeline.queue
      → line.pipeline.queue.count < capacity
      → contents line.pipeline.queue ≡ x ∷ xs
      → level x ≤ priority_code priority
      → Ran x (insert_stable own_request xs) (query svc line address command priority)
  unfolding insert_stable
  query_behind_another x xs v room front urgent =
      query-Ran x (insert_stable own_request xs) v room (rw front (ground arith))
