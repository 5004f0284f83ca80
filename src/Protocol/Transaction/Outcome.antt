-- ===== src/Protocol/Transaction/Outcome.antt =====
-- What DaliTransactionService::execute does with a request, told by what the bus answers to each
-- attempt in turn.
use savantix_dali_edge_contr.Prelude.{
  ℕ, zero, suc, ◌+◌, ◌≤◌, ◌<◌, ◌≡◌, ◌≢◌, refl, Bool, true, false, ◌&&◌, ◌||◌, none, some, arith,
  ltb, ◌==◌, if◌then◌else◌, u8, u32, ◌⊎◌, inl, inr, Bool-cases,
}
use savantix_dali_edge_contr.Phy.{PhyResult, is_ok}
use savantix_dali_edge_contr.Protocol.Queue.{DaliRequest}
use savantix_dali_edge_contr.Protocol.Transaction.{
  TransactionStatus, DaliTransactionResult, Services, Bus, default_result, absolute_max_retries,
  is_retryable, map_terminal_status, exchange, back_off, attempt_loop, execute,
}

module _ {S D J : Type 0} (svc : Services S D J) (request : DaliRequest) (start : Bus S D J) where
  -- The bus before attempt `k`, all attempts before it having failed.
  abbrev pub bus_at : ℕ → Bus S D J
  bus_at zero = start
  bus_at (suc k) = (back_off svc k (exchange svc request (bus_at k)).2).1

  -- What the PHY answers to attempt `k`.
  abbrev pub answer_at : ℕ → PhyResult
  answer_at k = (exchange svc request (bus_at k)).0

  -- All attempts before attempt `k` failed in a way that may pass.
  abbrev pub all_retryable : ℕ → Bool
  all_retryable zero = true
  all_retryable (suc k) = is_retryable (answer_at k) && all_retryable k

  -- The delays before attempt `k`, added up.
  abbrev pub waited_at : ℕ → ℕ
  waited_at zero = 0
  waited_at (suc k) = u32 (waited_at k + (back_off svc k (exchange svc request (bus_at k)).2).0)

  -- The request was settled by attempt `k`, counted from 0.
  pub record Settled (k : ℕ) (out : DaliTransactionResult × Bus S D J) : Type 0 where
    pub in_limit : k ≤ request.max_retries
    pub failed_before : all_retryable k ≡ true
    pub not_early : (is_retryable (answer_at k) ≡ false) ⊎ (k ≡ request.max_retries)
    pub attempts : out.0.attempts ≡ suc k
    pub last : out.0.last_phy_result ≡ answer_at k
    pub status : out.0.status ≡ map_terminal_status (answer_at k)
    pub response : out.0.response ≡ (
        if is_ok (answer_at k) && request.expects_response
        then some (exchange svc request (bus_at k)).1
        else none)
    pub waited : out.0.retry_delay_total_ms ≡ waited_at k
    pub bus : out.1 ≡ (exchange svc request (bus_at k)).2

  -- The variable `result` when attempt `k` settles the request.
  abbrev settle : ℕ → DaliTransactionResult → DaliTransactionResult
  settle k result = record result {
    status = map_terminal_status (answer_at k);
    response =
        if is_ok (answer_at k) && request.expects_response
        then some (exchange svc request (bus_at k)).1
        else result.response;
    attempts = u8 (result.attempts + 1);
    last_phy_result = answer_at k;
  }

  -- The variable `result` when attempt `k` is followed by another.
  abbrev continue : ℕ → DaliTransactionResult → DaliTransactionResult
  continue k result = record result {
    attempts = u8 (result.attempts + 1);
    last_phy_result = answer_at k;
    retry_delay_total_ms =
        u32 (result.retry_delay_total_ms + (back_off svc k (exchange svc request (bus_at k)).2).0);
  }

  loop_stops :
      (n k : ℕ) (result : DaliTransactionResult)
      → (is_retryable (answer_at k) ≡ false) ⊎ (k ≡ request.max_retries)
      → attempt_loop svc request (suc n) k result (bus_at k)
        ≡ (settle k result, (exchange svc request (bus_at k)).2)
  unfolding attempt_loop
  loop_stops n k result stop = ground arith

  loop_goes_on :
      (n k : ℕ) (result : DaliTransactionResult)
      → is_retryable (answer_at k) ≡ true
      → k ≢ request.max_retries
      → k < 255
      → attempt_loop svc request (suc n) k result (bus_at k)
        ≡ attempt_loop svc request n (suc k) (continue k result) (bus_at (suc k))
  unfolding attempt_loop
  loop_goes_on n k result again more small =
      let e : u8 (k + 1) ≡ suc k = omega arith in rw e (ground arith)

  -- The loop's variables before attempt `k`.
  record Trying (k : ℕ) (result : DaliTransactionResult) : Type 0 where
    failed : all_retryable k ≡ true
    counted : result.attempts ≡ k
    silent : result.response ≡ none
    waiting : result.retry_delay_total_ms ≡ waited_at k

  stop-Settled :
      (n k : ℕ) (result : DaliTransactionResult)
      → request.max_retries ≤ absolute_max_retries
      → k ≤ request.max_retries
      → (is_retryable (answer_at k) ≡ false) ⊎ (k ≡ request.max_retries)
      → Trying k result
      → Settled k (attempt_loop svc request (suc n) k result (bus_at k))
  stop-Settled n k result limit h stop t = rw (loop_stops n k result stop) (record {
    in_limit = h;
    failed_before = t.failed;
    not_early = stop;
    attempts = omega (arith, t.counted);
    last = refl;
    status = refl;
    response = rw (t.silent);
    waited = t.waiting;
    bus = refl;
  })

  attempt_loop-Settled :
      (n k : ℕ) (result : DaliTransactionResult)
      → request.max_retries ≤ absolute_max_retries
      → n + k ≡ request.max_retries
      → Trying k result
      → (m : ℕ) × Settled m (attempt_loop svc request (suc n) k result (bus_at k))
  attempt_loop-Settled zero k result limit e t =
      (k, stop-Settled zero k result limit (omega arith) (inr (omega arith)) t)
  attempt_loop-Settled (suc n) k result limit e t = elim (Bool-cases (is_retryable (answer_at k))) [
    | inl again ↦ rw (loop_goes_on (suc n) k result again (omega arith) (omega arith)) (
        attempt_loop-Settled n (suc k) (continue k result) limit (omega arith) (record {
          failed = rw (again, t.failed);
          counted = omega (arith, t.counted);
          silent = t.silent;
          waiting = rw (t.waiting);
        }))
    | inr final ↦ (k, stop-Settled (suc n) k result limit (omega arith) (inl final) t)
  ]

  accepted :
      request.timeout_ms ≢ 0
      → request.max_retries ≤ absolute_max_retries
      → (request.timeout_ms == 0 || ltb absolute_max_retries request.max_retries) ≡ false
  accepted timed limit = ground arith

  -- A request with a timeout and at most 8 retries is settled by the first attempt that the PHY answers
  -- with anything but timeout, busy or collision, or by the attempt after the last retry: the loop
  -- never runs past its end. The result counts the attempts, names the last answer and its status, and
  -- holds the byte received if a response was expected and came.
  pub execute-Settled :
      request.timeout_ms ≢ 0
      → request.max_retries ≤ absolute_max_retries
      → (k : ℕ) × Settled k (execute svc request start)
  unfolding execute
  execute-Settled timed limit =
      rw (accepted timed limit)
        (attempt_loop-Settled request.max_retries 0 default_result limit (omega arith) first)
    where
      first : Trying 0 default_result
      first = record { failed = refl; counted = refl; silent = refl; waiting = refl }

  -- A request with no timeout, or with more than 8 retries, is refused, and the bus is not touched.
  pub execute_refuses :
      (request.timeout_ms ≡ 0) ⊎ (absolute_max_retries < request.max_retries)
      → let (result, bus) = execute svc request start in
        (result.status ≡ TransactionStatus.invalid_request)
        × (result.last_phy_result ≡ PhyResult.invalid_argument)
        × (result.attempts ≡ 0)
        × (result.response ≡ none)
        × (bus ≡ start)
  unfolding execute
  execute_refuses bad = ground arith
