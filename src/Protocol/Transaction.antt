-- ===== src/Protocol/Transaction.antt =====
-- components/dali_protocol/dali_transaction.cpp and its header, DaliTransactionService: one request
-- on the bus, with bounded retries. The PHY, the delay and the jitter source are states behind their
-- interfaces; each call passes the states on.
use savantix_dali_edge_contr.Prelude.{
  ℕ, zero, suc, ◌+◌, Bool, true, false, not, ◌||◌, ◌&&◌, Option, none, some, ltb, ◌==◌,
  if◌then◌else◌, u8, u32,
}
use savantix_dali_edge_contr.Phy.{PhyResult, IDaliPhy, is_ok}
use savantix_dali_edge_contr.Protocol.Queue.{DaliRequest}
pub mod Outcome
pub mod Waiting

pub record IDelayProvider (D : Type 0) : Type 0 where
  pub delay_ms : D → ℕ → D

pub record IJitterSource (J : Type 0) : Type 0 where
  pub next : J → ℕ → ℕ × J

pub data TransactionStatus : Type 0 where
  ok retries_exhausted invalid_request bus_power_lost transceiver_fault : TransactionStatus
  not_initialised internal_error : TransactionStatus

pub record DaliTransactionResult : Type 0 where
  pub status : TransactionStatus
  pub response : Option ℕ
  pub attempts : ℕ
  pub last_phy_result : PhyResult
  pub retry_delay_total_ms : ℕ

abbrev pub default_result : DaliTransactionResult
default_result = record {
  status = TransactionStatus.internal_error;
  response = none;
  attempts = 0;
  last_phy_result = PhyResult.internal_error;
  retry_delay_total_ms = 0;
}

abbrev pub absolute_max_retries : ℕ
absolute_max_retries = 8

abbrev pub maximum_jitter_ms : ℕ
maximum_jitter_ms = 25

abbrev pub is_retryable : PhyResult → Bool
is_retryable PhyResult.timeout = true
is_retryable PhyResult.busy = true
is_retryable PhyResult.collision = true
is_retryable _ = false

abbrev pub base_retry_delay_ms : ℕ → ℕ
base_retry_delay_ms retry_index =
    if retry_index == 0 then 100 else if retry_index == 1 then 500 else 2000

abbrev pub map_terminal_status : PhyResult → TransactionStatus
map_terminal_status PhyResult.bus_power_lost = TransactionStatus.bus_power_lost
map_terminal_status PhyResult.transceiver_fault = TransactionStatus.transceiver_fault
map_terminal_status PhyResult.not_initialised = TransactionStatus.not_initialised
map_terminal_status PhyResult.invalid_argument = TransactionStatus.invalid_request
map_terminal_status PhyResult.timeout = TransactionStatus.retries_exhausted
map_terminal_status PhyResult.busy = TransactionStatus.retries_exhausted
map_terminal_status PhyResult.collision = TransactionStatus.retries_exhausted
map_terminal_status PhyResult.ok = TransactionStatus.ok
map_terminal_status PhyResult.internal_error = TransactionStatus.internal_error

-- The objects that the service refers to, behind their interfaces.
pub record Services (S D J : Type 0) : Type 0 where
  pub phy : IDaliPhy S
  pub delay : IDelayProvider D
  pub jitter : IJitterSource J

pub record Bus (S D J : Type 0) : Type 0 where
  pub phy : S
  pub delay : D
  pub jitter : J

module _ {S D J : Type 0} (svc : Services S D J) where
  -- `transmit`, and `receive` if that went well and a response is expected: the result, and the byte
  -- in `backwardFrame`.
  unfoldable pub exchange : DaliRequest → Bus S D J → PhyResult × ℕ × Bus S D J
  exchange request bus =
      let (sent, phy1) = svc.phy.transmit bus.phy request.frame.raw in
      let (received, byte, phy2) = svc.phy.receive phy1 0 request.timeout_ms in
      if is_ok sent && request.expects_response
      then (received, byte, record bus { phy = phy2 })
      else (sent, 0, record bus { phy = phy1 })

  -- The delay before the next attempt: its length and the states after it.
  unfoldable pub back_off : ℕ → Bus S D J → ℕ × Bus S D J
  back_off attempt bus =
      let (extra, jitter') = svc.jitter.next bus.jitter maximum_jitter_ms in
      let retry_delay = u32 (base_retry_delay_ms attempt + extra) in
      (
        retry_delay,
        record bus { delay = svc.delay.delay_ms bus.delay retry_delay; jitter = jitter' },
      )

  -- The `for` loop, with `n` rounds left before its test fails; the result after the loop.
  unfoldable pub attempt_loop :
      DaliRequest → ℕ → ℕ → DaliTransactionResult → Bus S D J → DaliTransactionResult × Bus S D J
  attempt_loop request zero attempt result bus = (
    record result {
      status = TransactionStatus.internal_error;
      last_phy_result = PhyResult.internal_error;
    },
    bus,
  )
  attempt_loop request (suc n) attempt result bus =
      let (phy_result, backward_frame, bus1) = exchange request bus in
      let tried = record result {
        attempts = u8 (result.attempts + 1);
        last_phy_result = phy_result;
      } in
      let (retry_delay, bus2) = back_off attempt bus1 in
      let delayed = record tried {
        retry_delay_total_ms = u32 (tried.retry_delay_total_ms + retry_delay);
      } in
      let rest = attempt_loop request n (u8 (attempt + 1)) delayed bus2 in
      if is_ok phy_result
      then (if request.expects_response
          then (
            record tried { status = TransactionStatus.ok; response = some backward_frame },
            bus1,
          )
          else (record tried { status = TransactionStatus.ok }, bus1))
      else if not (is_retryable phy_result)
      then (record tried { status = map_terminal_status phy_result }, bus1)
      else if attempt == request.max_retries
      then (record tried { status = TransactionStatus.retries_exhausted }, bus1)
      else rest

  unfoldable pub execute : DaliRequest → Bus S D J → DaliTransactionResult × Bus S D J
  execute request bus =
      if request.timeout_ms == 0 || ltb absolute_max_retries request.max_retries
      then (
        record default_result {
          status = TransactionStatus.invalid_request;
          last_phy_result = PhyResult.invalid_argument;
        },
        bus,
      )
      else attempt_loop request (suc request.max_retries) 0 default_result bus
