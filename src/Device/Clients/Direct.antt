-- ===== src/Device/Clients/Direct.antt =====
-- DaliDeviceManager over PipelineQueryClient: the queue between them makes no difference.
use savantix_dali_edge_contr.Prelude.{
  ◌≡◌, refl, ap, List, length, [], ◌∷◌, arith, ◌+◌, u32, FloatOps, some,
}
use savantix_dali_edge_contr.Core.{ShortAddress}
use savantix_dali_edge_contr.Protocol.Commands.{DaliCommand}
use savantix_dali_edge_contr.Protocol.Queue.{CommandPriority}
use savantix_dali_edge_contr.Protocol.Queue.Order.{insert_stable}
use savantix_dali_edge_contr.Protocol.Queue.Refine
use savantix_dali_edge_contr.Protocol.Queue.Refine.{length-contents}
use savantix_dali_edge_contr.Protocol.Transaction.{Services, Bus, execute}
use savantix_dali_edge_contr.Protocol.Quality.{CommunicationQualityCounters, record_result}
use savantix_dali_edge_contr.Protocol.Query.{
  DaliQueryResult, IDaliQueryClient, PipelineQueryClient, Line, query_client, query_request,
  query_result, query,
}
use savantix_dali_edge_contr.Protocol.Query.Answer.{Ran, query-Ran}
use savantix_dali_edge_contr.Device.Scan.{empty_batch, scan_presence}
use savantix_dali_edge_contr.Device.Calls.{Call, Managed, call, run}
use savantix_dali_edge_contr.Device.Clients.{IsView}
use savantix_dali_edge_contr.Device.Clients.Scanning.{scan_from-seen}
use savantix_dali_edge_contr.Device.Clients.Probing.{detect-Same}

-- A client without a queue: its settings, the quality counters and the bus.
pub record Wire (S D J : Type 0) : Type 0 where
  pub client : PipelineQueryClient
  pub quality : CommunicationQualityCounters
  pub bus : Bus S D J

module _ {S D J : Type 0} where
  abbrev pub wire_of : Line S D J → Wire S D J
  wire_of line = record { client = line.client; quality = line.pipeline.quality; bus = line.bus }

  pub record IsIdle (line : Line S D J) : Type 0 where
    pub valid : Refine.IsValid line.pipeline.queue
    pub nothing : Refine.contents line.pipeline.queue ≡ []

  abbrev pub managed_view : {F : Type 0} → Managed (Line S D J) F → Managed (Wire S D J) F
  managed_view m = record {
    client = wire_of m.client;
    registry = m.registry;
    duplicate_reported = m.duplicate_reported;
  }

module _ {S D J : Type 0} (svc : Services S D J) where
  -- A query is one transaction on the bus.
  abbrev pub ask :
      Wire S D J → ShortAddress → DaliCommand → CommandPriority → DaliQueryResult × Wire S D J
  ask w address command priority =
      let request = query_request w.client address command priority in
      let (result, bus') = execute svc request w.bus in
      (
        query_result (some (record { request = request; result = result })),
        record {
          client = record w.client { next_sequence = u32 (w.client.next_sequence + 1) };
          quality = record_result w.quality result;
          bus = bus';
        },
      )

  abbrev pub direct_client : IDaliQueryClient (Wire S D J)
  direct_client = record { query = ask }

  query_own :
      (line : Line S D J) (address : ShortAddress) (command : DaliCommand)
      (priority : CommandPriority)
      → IsIdle line
      → let own = query_request line.client address command priority in
        Ran svc line address command priority own [] (query svc line address command priority)
  unfolding insert_stable
  query_own line address command priority idle =
      let size = length-contents idle.valid in
      query-Ran svc line address command priority _ [] idle.valid
        (omega (arith, size, ap length idle.nothing)) (rw (idle.nothing, insert_stable) refl)

  wire_of-IsView : IsView (query_client svc) direct_client wire_of IsIdle
  wire_of-IsView = record {
    answered = λ line address command priority idle.
        let ran = query_own line address command priority idle in
        rw (ran.answer, ran.counted, ran.bus, ran.sequence) refl;
    stays_good = λ line address command priority idle.
        let ran = query_own line address command priority idle in
        record { valid = ran.valid; nothing = ran.queue };
  }

  module _ {F : Type 0} (fl : FloatOps F) where
    call_alike :
        (c : Call) (m : Managed (Line S D J) F)
        → IsIdle m.client
        → let (batches, m') = call fl (query_client svc) c m in
          (call fl direct_client c (managed_view m) ≡ (batches, managed_view m')) × IsIdle m'.client
    unfolding scan_presence
    call_alike (Call.scan now) m idle =
        let (same, idle') =
          scan_from-seen fl (query_client svc) direct_client wire_of now IsIdle wire_of-IsView 64 0
            (record {
              client = m.client;
              registry = m.registry;
              duplicate_reported = m.duplicate_reported;
              batch = empty_batch;
            })
            idle in
        (rw (scan_presence, same) refl, idle')
    call_alike (Call.detect address now) m idle =
        let (same, idle') =
          detect-Same (query_client svc) direct_client wire_of IsIdle wire_of-IsView address now
            m.client m.registry idle in
        (rw same refl, idle')

    -- Any sequence of presence scans and capability probes over the query client of an idle pipeline reports
    -- the same changes, and leaves the same registry, quality counters and bus, as over a client that makes
    -- each query one transaction on the bus at once; and it leaves the pipeline idle.
    pub run_direct :
        (calls : List Call) (m : Managed (Line S D J) F)
        → IsIdle m.client
        → let (batches, m') = run fl (query_client svc) calls m in
          (run fl direct_client calls (managed_view m) ≡ (batches, managed_view m'))
          × IsIdle m'.client
    run_direct [] m idle = (refl, idle)
    run_direct (c ∷ calls) m idle =
        let (first, idle') = call_alike c m idle in
        let (rest, idle'') = run_direct calls (call fl (query_client svc) c m).1 idle' in
        (rw (first, rest) refl, idle'')
