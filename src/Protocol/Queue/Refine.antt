-- ===== src/Protocol/Queue/Refine.antt =====
-- DaliCommandQueue against the abstract queue of Order.
use savantix_dali_edge_contr.Prelude.{
  ℕ, zero, suc, ◌+◌, ◌-◌, ◌≤◌, ◌<◌, ◌≡◌, refl, List, [], ◌∷◌, some, arith, ltb, ◌==◌, if◌then◌else◌,
  length, get_elem?, get_or, take, set, ext, length-take, length-set, get_elem?-take, get_elem?-set,
  ap, sym, ◌∙◌, length-replicate, ℕ_discrete,
}
use savantix_dali_edge_contr.Protocol.Queue.{
  DaliRequest, DaliCommandQueue, default_request, level, capacity, find_insertion, shift_up,
  shift_down, enqueue, pop, empty_queue,
}
use savantix_dali_edge_contr.Protocol.Queue.Arrays.{
  length-shift_up, length-shift_down, get_elem?-shift_up, get_elem?-shift_down,
}
use savantix_dali_edge_contr.Protocol.Queue.Order.{
  insert_stable, rank, rank-le, offer, serve, get_elem?-insert_stable,
}

abbrev pub contents : DaliCommandQueue → List DaliRequest
contents q = take q.count q.items

pub record IsValid (q : DaliCommandQueue) : Type 0 where
  pub sized : length q.items ≡ capacity
  pub fits : q.count ≤ capacity

pub length-contents : {q : DaliCommandQueue} → IsValid q → length (contents q) ≡ q.count
length-contents {q} v = omega (arith, length-take q.count q.items, v.sized, v.fits)

find_insertion-suc :
    (x : DaliRequest) (items : List DaliRequest) (p n i : ℕ)
    → find_insertion (x ∷ items) p n (suc i) ≡ suc (find_insertion items p n i)
unfolding find_insertion
find_insertion-suc x items p zero i = refl
find_insertion-suc x items p (suc n) i =
    let e : suc i + 1 ≡ suc (i + 1) = omega arith in
    rw e (ground (arith, find_insertion-suc x items p n (i + 1)))

-- The search loop stops at the rank of the new request.
find_insertion-rank :
    (items : List DaliRequest) (p n : ℕ)
    → n ≤ length items
    → find_insertion items p n 0 ≡ rank p (take n items)
unfolding find_insertion rank
find_insertion-rank items p zero h = refl
find_insertion-rank [] p (suc n) h = absurd (omega arith)
find_insertion-rank (x ∷ items) p (suc n) h =
    ground (arith, find_insertion-suc x items p n 0, find_insertion-rank items p n)

-- What shifting up to `k` and writing there leaves at each index.
written_at :
    (items : List DaliRequest) (count k : ℕ) (r : DaliRequest) (j : ℕ)
    → count < length items
    → k ≤ count
    → get_elem? (take (suc count) (set (shift_up (count - k) count items) k r)) j ≡ (
        if ltb j k
        then get_elem? (take count items) j
        else if j == k
        then some r
        else get_elem? (take count items) (j - 1))
written_at items count k r j h hk =
    let shifted = shift_up (count - k) count items in
    ground (
      arith,
      get_elem?-take (suc count) (set shifted k r) j,
      get_elem?-set shifted k j r,
      length-shift_up (count - k) count items,
      get_elem?-shift_up (count - k) k count items j,
      get_elem?-take count items j,
      get_elem?-take count items (j - 1),
    )

-- Shifting and writing puts the request at its rank.
inserted :
    (items : List DaliRequest) (count : ℕ) (r : DaliRequest)
    → count < length items
    → let k = rank (level r) (take count items) in
      take (suc count) (set (shift_up (count - k) count items) k r)
      ≡ insert_stable r (take count items)
inserted items count r h =
    let below = rank-le (level r) (take count items) in
    let k≤count : rank (level r) (take count items) ≤ count =
      omega (arith, below, length-take count items) in
    ext _ _ λ j.
      written_at items count (rank (level r) (take count items)) r j h k≤count
      ∙ sym (get_elem?-insert_stable r (take count items) j)

enqueue-IsValid : (q : DaliCommandQueue) (r : DaliRequest) → IsValid q → IsValid (enqueue q r).1
unfolding enqueue
enqueue-IsValid q r v =
    let k = find_insertion q.items (level r) q.count 0 in
    let shifted = shift_up (q.count - k) q.count q.items in
    ground (arith, length-set shifted k r, length-shift_up (q.count - k) q.count q.items)

enqueue-offer :
    (q : DaliCommandQueue) (r : DaliRequest)
    → IsValid q
    → let (s, q') = enqueue q r in (s, contents q') ≡ offer (contents q) r
unfolding enqueue offer
enqueue-offer q r v = ground (
  arith,
  length-contents v,
  find_insertion-rank q.items (level r) q.count,
  inserted q.items q.count r,
)

-- On a valid queue `enqueue` is `offer` on the requests in order of service, and the queue stays
-- valid.
pub enqueue_refines :
    (q : DaliCommandQueue) (r : DaliRequest)
    → IsValid q
    → let (s, q') = enqueue q r in ((s, contents q') ≡ offer (contents q) r) × IsValid q'
enqueue_refines q r v = (enqueue-offer q r v, enqueue-IsValid q r v)

-- Moving down drops the first request.
moved_down :
    (x : DaliRequest) (xs : List DaliRequest) (count : ℕ)
    → count ≤ length xs
    → take count (shift_down count 1 (x ∷ xs)) ≡ take count xs
moved_down x xs count h = ext _ _ λ j. ground (
  arith,
  get_elem?-take count (shift_down count 1 (x ∷ xs)) j,
  get_elem?-take count xs j,
  get_elem?-shift_down count 1 (x ∷ xs) j,
  ap (get_elem? (x ∷ xs)) {x = j + 1} {y = suc j} (omega arith),
)

popped :
    (items : List DaliRequest) (count : ℕ)
    → count < length items
    → serve (take (suc count) items)
      ≡ (some (get_or items 0 default_request), take count (shift_down count 1 items))
unfolding serve
popped [] count h = absurd (omega arith)
popped (x ∷ xs) count h = cc (moved_down x xs count (omega arith))

pop-serve :
    (q : DaliCommandQueue)
    → IsValid q
    → let (r, q') = pop q in (r, contents q') ≡ serve (contents q)
unfolding pop serve
pop-serve q v = elim (ℕ_discrete q.count 0) [
  | yes e ↦ rw e refl
  | no ne ↦ ground (arith, popped q.items (q.count - 1))
]

pop-IsValid : (q : DaliCommandQueue) → IsValid q → IsValid (pop q).1
unfolding pop
pop-IsValid q v = ground (arith, length-shift_down (q.count - 1) 1 q.items)

-- On a valid queue `pop` is `serve`: it hands out the request next in order and leaves the rest, or
-- finds nothing; the queue stays valid.
pub pop_refines :
    (q : DaliCommandQueue)
    → IsValid q
    → let (r, q') = pop q in ((r, contents q') ≡ serve (contents q)) × IsValid q'
pop_refines q v = (pop-serve q v, pop-IsValid q v)

pub empty_queue-IsValid : IsValid empty_queue
empty_queue-IsValid = record {
  sized = length-replicate capacity default_request;
  fits = omega arith;
}
