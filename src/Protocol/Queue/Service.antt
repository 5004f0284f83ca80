-- ===== src/Protocol/Queue/Service.antt =====
-- What a client of DaliCommandQueue sees over any sequence of calls, and the order of service.
use savantix_dali_edge_contr.Prelude.{
  ℕ, ◌<◌, ◌≡◌, refl, List, [], ◌∷◌, ◌++◌, Option, arith, ◌==◌, if◌then◌else◌,
}
use savantix_dali_edge_contr.Protocol.Queue.{
  DaliRequest, DaliCommandQueue, QueueResult, level, capacity, enqueue, pop, empty_queue,
}
use savantix_dali_edge_contr.Protocol.Queue.Order.{
  insert_stable, offer, serve, of_level, IsSorted, insert_stable-IsSorted, of_level-insert_stable,
}
use savantix_dali_edge_contr.Protocol.Queue.Refine.{
  IsValid, contents, length-contents, enqueue_refines, pop_refines, empty_queue-IsValid,
}

pub data Call : Type 0 where
  put : DaliRequest → Call
  next : Call

pub data Reply : Type 0 where
  accepted : QueueResult → Reply
  served : Option DaliRequest → Reply

pub run : DaliCommandQueue → List Call → List Reply
run q [] = []
run q (Call.put r ∷ calls) = let (s, q') = enqueue q r in Reply.accepted s ∷ run q' calls
run q (Call.next ∷ calls) = let (r, q') = pop q in Reply.served r ∷ run q' calls

-- The same calls on the abstract queue.
pub run_list : List DaliRequest → List Call → List Reply
run_list xs [] = []
run_list xs (Call.put r ∷ calls) =
    let (s, xs') = offer xs r in Reply.accepted s ∷ run_list xs' calls
run_list xs (Call.next ∷ calls) = let (r, xs') = serve xs in Reply.served r ∷ run_list xs' calls

run-run_list :
    (calls : List Call) (q : DaliCommandQueue)
    → IsValid q
    → run q calls ≡ run_list (contents q) calls
unfolding run run_list
run-run_list [] q v = refl
run-run_list (Call.put r ∷ calls) q v =
    let (e, v') = enqueue_refines q r v in rw (run-run_list calls (enqueue q r).1 v', ← e)
run-run_list (Call.next ∷ calls) q v =
    let (e, v') = pop_refines q v in rw (run-run_list calls (pop q).1 v', ← e)

-- No sequence of `enqueue` and `pop` calls tells a new queue from the empty abstract queue: every
-- call returns what `offer` and `serve` return on the requests in order of service.
pub run_refines : (calls : List Call) → run empty_queue calls ≡ run_list [] calls
run_refines calls = run-run_list calls empty_queue empty_queue-IsValid

-- A queue below its capacity accepts a request. The order by priority is kept, the requests of the new
-- one's priority keep their order of arrival with the new one last, and those of any other priority
-- keep theirs.
pub enqueue_order :
    (q : DaliCommandQueue) (r : DaliRequest) (p : ℕ)
    → IsValid q
    → IsSorted (contents q)
    → q.count < capacity
    → let (s, q') = enqueue q r in
      (s ≡ QueueResult.ok)
      × IsSorted (contents q')
      × (of_level p (contents q')
          ≡ of_level p (contents q) ++ (if level r == p then r ∷ [] else []))
unfolding offer
enqueue_order q r p v sorted room =
    let e : contents (enqueue q r).1 ≡ insert_stable r (contents q) =
      ground (arith, (enqueue_refines q r v).0, length-contents v) in
    (
      ground (arith, (enqueue_refines q r v).0, length-contents v),
      rw e (insert_stable-IsSorted r (contents q) sorted),
      rw e (of_level-insert_stable r p (contents q) sorted),
    )
