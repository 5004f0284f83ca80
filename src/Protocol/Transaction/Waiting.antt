-- ===== src/Protocol/Transaction/Waiting.antt =====
-- How long DaliTransactionService::execute waits, and when.
use savantix_dali_edge_contr.Prelude.{
  ℕ, zero, suc, ◌+◌, ◌-◌, ◌*◌, ◌≤◌, ◌≡◌, ◌≢◌, refl, sym, ap, ap₂, ◌∙◌, List, [], ◌∷◌, ◌++◌, arith,
  length, length-append, u32,
}
use savantix_dali_edge_contr.Protocol.Queue.{DaliRequest}
use savantix_dali_edge_contr.Protocol.Transaction.{
  Services, Bus, IDelayProvider, IJitterSource, absolute_max_retries, base_retry_delay_ms, exchange,
  back_off, execute,
}
use savantix_dali_edge_contr.Protocol.Transaction.Outcome.{bus_at, waited_at, execute-Settled}

-- The least wait before the retry `i`, counted from 0, in milliseconds.
abbrev pub step : ℕ → ℕ
step zero = 100
step (suc zero) = 500
step (suc (suc i)) = 2000

-- Waits before the retries from `i` on, each from its step to 25 ms more.
abbrev pub Paced : ℕ → List ℕ → Type 0
Paced i [] = Unit {0}
Paced i (wait ∷ waits) = (step i ≤ wait) × (wait ≤ step i + 25) × Paced (suc i) waits

abbrev pub total : List ℕ → ℕ
total [] = 0
total (wait ∷ waits) = wait + total waits

-- The delay provider after it was asked for these waits, in their order.
abbrev pub delay_all : {D : Type 0} → IDelayProvider D → D → List ℕ → D
delay_all delay d [] = d
delay_all delay d (wait ∷ waits) = delay_all delay (delay.delay_ms d wait) waits

Paced-snoc :
    (i n : ℕ) (waits : List ℕ) (wait : ℕ)
    → Paced i waits
    → n ≡ i + length waits
    → step n ≤ wait
    → wait ≤ step n + 25
    → Paced i (waits ++ wait ∷ [])
Paced-snoc i n [] wait paced at least most =
    let same : i ≡ n = omega (arith, at) in rw same (least, most, tt)
Paced-snoc i n (first ∷ waits) wait (low, high, paced) at least most =
    (low, high, Paced-snoc (suc i) n waits wait paced (omega (arith, at)) least most)

total-append : (xs ys : List ℕ) → total (xs ++ ys) ≡ total xs + total ys
total-append [] ys = omega arith
total-append (x ∷ xs) ys = omega (arith, total-append xs ys)

delay_all-append :
    {D : Type 0} (delay : IDelayProvider D) (d : D) (xs ys : List ℕ)
    → delay_all delay d (xs ++ ys) ≡ delay_all delay (delay_all delay d xs) ys
delay_all-append delay d [] ys = refl
delay_all-append delay d (x ∷ xs) ys = delay_all-append delay (delay.delay_ms d x) xs ys

step-most : (i : ℕ) → step i ≤ 2000
step-most zero = omega arith
step-most (suc zero) = omega arith
step-most (suc (suc i)) = omega arith

Paced-total : (i : ℕ) (waits : List ℕ) → Paced i waits → total waits ≤ 2025 * length waits
Paced-total i [] paced = omega arith
Paced-total i (wait ∷ waits) (least, most, paced) =
    omega (arith, step-most i, most, Paced-total (suc i) waits paced)

-- What a jitter source draws, 25 at most each time: its state before draw `k`, and the wait before the retry
-- `k` with the draw added to its step.
module _ {J : Type 0} (jitter : IJitterSource J) (start : J) where
  abbrev pub jitter_at : ℕ → J
  jitter_at zero = start
  jitter_at (suc k) = (jitter.next (jitter_at k) 25).1

  abbrev pub wait_before : ℕ → ℕ
  wait_before k = step k + (jitter.next (jitter_at k) 25).0

  -- The waits before the first `n` retries.
  abbrev pub delays : ℕ → List ℕ
  delays zero = []
  delays (suc k) = delays k ++ wait_before k ∷ []

  length-delays : (k : ℕ) → length (delays k) ≡ k
  length-delays zero = refl
  length-delays (suc k) =
      omega (arith, length-append (delays k) (wait_before k ∷ []), length-delays k)

  delays-Paced : (k : ℕ) → ((j : J) (m : ℕ) → (jitter.next j m).0 ≤ m) → Paced 0 (delays k)
  delays-Paced zero bounded = tt
  delays-Paced (suc k) bounded =
      Paced-snoc 0 k (delays k) (wait_before k) (delays-Paced k bounded)
        (omega (arith, length-delays k)) (omega arith) (omega (arith, bounded (jitter_at k) 25))

-- The wait does not wrap.
wait_exact : (k extra : ℕ) → extra ≤ 25 → u32 (base_retry_delay_ms k + extra) ≡ step k + extra
wait_exact zero extra h = ground arith
wait_exact (suc zero) extra h = ground arith
wait_exact (suc (suc k)) extra h = ground arith

module _ {S D J : Type 0} (svc : Services S D J) (request : DaliRequest) where
  -- An attempt neither waits nor draws.
  exchange_apart :
      (bus : Bus S D J)
      → ((exchange svc request bus).2.delay ≡ bus.delay)
        × ((exchange svc request bus).2.jitter ≡ bus.jitter)
  unfolding exchange
  exchange_apart bus = ground arith

  module _ (start : Bus S D J)
      (jitter_bounded : (j : J) (m : ℕ) → (svc.jitter.next j m).0 ≤ m) where
    back_off_lem :
        (k : ℕ) (bus : Bus S D J)
        → let (extra, jitter') = svc.jitter.next bus.jitter 25 in
          back_off svc k bus ≡ (
            step k + extra,
            record bus { delay = svc.delay.delay_ms bus.delay (step k + extra); jitter = jitter' },
          )
    unfolding back_off
    back_off_lem k bus =
        let exact = wait_exact k (svc.jitter.next bus.jitter 25).0 (jitter_bounded bus.jitter 25) in
        rw exact refl

    abbrev after_attempt : ℕ → Bus S D J
    after_attempt k = (exchange svc request (bus_at svc request start k)).2

    bus_at-jitter :
        (k : ℕ) → (bus_at svc request start k).jitter ≡ jitter_at svc.jitter start.jitter k
    bus_at-jitter zero = refl
    bus_at-jitter (suc k) =
        ap (λ r. r.1.jitter) (back_off_lem k (after_attempt k))
        ∙ ap (λ j. (svc.jitter.next j 25).1)
            ((exchange_apart (bus_at svc request start k)).1 ∙ bus_at-jitter k)

    -- What the wait after attempt `k` comes to.
    back_off_wait :
        (k : ℕ) → (back_off svc k (after_attempt k)).0 ≡ wait_before svc.jitter start.jitter k
    back_off_wait k =
        ap (λ r. r.0) (back_off_lem k (after_attempt k))
        ∙ ap (λ j. step k + (svc.jitter.next j 25).0)
            ((exchange_apart (bus_at svc request start k)).1 ∙ bus_at-jitter k)

    bus_at-delay :
        (k : ℕ)
        → (bus_at svc request start k).delay
          ≡ delay_all svc.delay start.delay (delays svc.jitter start.jitter k)
    bus_at-delay zero = refl
    bus_at-delay (suc k) =
        let wait = (back_off svc k (after_attempt k)).0 in
        let asked : (bus_at svc request start (suc k)).delay
            ≡ svc.delay.delay_ms (after_attempt k).delay wait =
          ap (λ r. r.1.delay) (back_off_lem k (after_attempt k))
          ∙ ap (svc.delay.delay_ms (after_attempt k).delay)
              (sym (ap (λ r. r.0) (back_off_lem k (after_attempt k)))) in
        asked
        ∙ (ap₂ (λ d (w : ℕ). svc.delay.delay_ms d w)
              ((exchange_apart (bus_at svc request start k)).0 ∙ bus_at-delay k) (back_off_wait k)
            ∙ sym (
                delay_all-append svc.delay start.delay (delays svc.jitter start.jitter k)
                  (wait_before svc.jitter start.jitter k ∷ [])))

    waited_at-total :
        (k : ℕ)
        → k ≤ absolute_max_retries
        → waited_at svc request start k ≡ total (delays svc.jitter start.jitter k)
    waited_at-total zero h = refl
    waited_at-total (suc k) h =
        let all = delays svc.jitter start.jitter (suc k) in
        let sum =
          total-append (delays svc.jitter start.jitter k)
            (wait_before svc.jitter start.jitter k ∷ []) in
        let bound =
          Paced-total 0 all (delays-Paced svc.jitter start.jitter (suc k) jitter_bounded) in
        omega (
          arith,
          waited_at-total k (omega arith),
          back_off_wait k,
          sum,
          bound,
          length-delays svc.jitter start.jitter (suc k),
        )

    -- With a jitter source that keeps to its bound, a request with a timeout and at most 8 retries draws
    -- once from it, 25 at most, for each attempt after the first, and no more; it asks the delay provider
    -- for just these waits in their order: 100 ms, 500 ms and then 2000 ms each, each with its draw added.
    -- So each is at most 25 ms above its step. The result tells their sum, without wrapping.
    pub execute_waits :
        request.timeout_ms ≢ 0
        → request.max_retries ≤ absolute_max_retries
        → let (result, bus) = execute svc request start in
          let retries = result.attempts - 1 in
          let own = delays svc.jitter start.jitter retries in
          (bus.delay ≡ delay_all svc.delay start.delay own)
          × (bus.jitter ≡ jitter_at svc.jitter start.jitter retries)
          × Paced 0 own
          × (result.retry_delay_total_ms ≡ total own)
    execute_waits timed limit =
        let (k, s) = execute-Settled svc request start timed limit in
        let count : (execute svc request start).0.attempts - 1 ≡ k = omega (arith, s.attempts) in
        let (still, undrawn) = exchange_apart (bus_at svc request start k) in
        rw count (
          ap (λ b. b.delay) s.bus ∙ (still ∙ bus_at-delay k),
          ap (λ b. b.jitter) s.bus ∙ (undrawn ∙ bus_at-jitter k),
          delays-Paced svc.jitter start.jitter k jitter_bounded,
          s.waited ∙ waited_at-total k (omega (arith, s.in_limit)),
        )
