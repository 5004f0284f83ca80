-- ===== src/Protocol/Quality.antt =====
-- CommunicationQualityTracker of components/dali_protocol/dali_transaction.cpp: saturating counters of
-- what became of each transaction.
use savantix_dali_edge_contr.Prelude.{
  ℕ, ◌+◌, ◌-◌, ◌^◌, Bool, true, false, leb, ◌==◌, if◌then◌else◌, FloatOps,
}
use savantix_dali_edge_contr.Phy.{PhyResult}
use savantix_dali_edge_contr.Protocol.Transaction.{TransactionStatus, DaliTransactionResult}
pub mod History

pub record CommunicationQualityCounters : Type 0 where
  pub total : ℕ
  pub successes : ℕ
  pub timeouts : ℕ
  pub collisions : ℕ
  pub busy : ℕ
  pub bus_power_losses : ℕ
  pub transceiver_faults : ℕ
  pub other_failures : ℕ

abbrev pub no_counts : CommunicationQualityCounters
no_counts = record {
  total = 0;
  successes = 0;
  timeouts = 0;
  collisions = 0;
  busy = 0;
  bus_power_losses = 0;
  transceiver_faults = 0;
  other_failures = 0;
}

pub record CommunicationQualitySnapshot (F : Type 0) : Type 0 where
  pub counters : CommunicationQualityCounters
  pub failures : ℕ
  pub success_rate : F
  pub no_data : Bool

abbrev pub u32_max : ℕ
u32_max = 2 ^ 32 - 1

unfoldable pub increment_saturating : ℕ → ℕ
increment_saturating value = if value == u32_max then value else value + 1

-- The `switch` on the last PHY result.
abbrev pub count_failure : PhyResult → CommunicationQualityCounters → CommunicationQualityCounters
count_failure PhyResult.timeout c = record c { timeouts = increment_saturating c.timeouts }
count_failure PhyResult.collision c = record c { collisions = increment_saturating c.collisions }
count_failure PhyResult.busy c = record c { busy = increment_saturating c.busy }
count_failure PhyResult.bus_power_lost c = record c {
  bus_power_losses = increment_saturating c.bus_power_losses;
}
count_failure PhyResult.transceiver_fault c = record c {
  transceiver_faults = increment_saturating c.transceiver_faults;
}
count_failure PhyResult.ok c = record c { other_failures = increment_saturating c.other_failures }
count_failure PhyResult.invalid_argument c = record c {
  other_failures = increment_saturating c.other_failures;
}
count_failure PhyResult.not_initialised c = record c {
  other_failures = increment_saturating c.other_failures;
}
count_failure PhyResult.internal_error c = record c {
  other_failures = increment_saturating c.other_failures;
}

abbrev pub is_success : TransactionStatus → Bool
is_success TransactionStatus.ok = true
is_success _ = false

unfoldable pub record_result :
    CommunicationQualityCounters → DaliTransactionResult → CommunicationQualityCounters
record_result c result =
    let counted = record c { total = increment_saturating c.total } in
    if is_success result.status
    then record counted { successes = increment_saturating counted.successes }
    else count_failure result.last_phy_result counted

unfoldable pub snapshot :
    {F : Type 0} → FloatOps F → CommunicationQualityCounters → CommunicationQualitySnapshot F
snapshot fl c = record {
  counters = c;
  failures = if leb c.successes c.total then c.total - c.successes else 0;
  success_rate =
      if c.total == 0 then fl.lit 1 0 else fl.div (fl.of_nat c.successes) (fl.of_nat c.total);
  no_data = c.total == 0;
}
