-- ===== src/Protocol/Quality/History.antt =====
-- The counters of CommunicationQualityTracker against the whole history of transactions.
use Prim.Native.Nat.{min}
use savantix_dali_edge_contr.Prelude.{
  ℕ, ◌+◌, ◌≤◌, ◌≡◌, refl, true, List, [], ◌∷◌, arith, ◌==◌, if◌then◌else◌, length, FloatOps, ◌↔◌,
}
use savantix_dali_edge_contr.Phy.{PhyResult}
use savantix_dali_edge_contr.Protocol.Transaction.{DaliTransactionResult}
use savantix_dali_edge_contr.Protocol.Quality.{
  CommunicationQualityCounters, no_counts, u32_max, is_success, record_result, snapshot,
  increment_saturating,
}

-- What became of a transaction.
pub data Fate : Type 0 where
  succeeded timed_out collided was_busy lost_power broke_down otherwise : Fate

abbrev pub failure_fate : PhyResult → Fate
failure_fate PhyResult.timeout = Fate.timed_out
failure_fate PhyResult.collision = Fate.collided
failure_fate PhyResult.busy = Fate.was_busy
failure_fate PhyResult.bus_power_lost = Fate.lost_power
failure_fate PhyResult.transceiver_fault = Fate.broke_down
failure_fate _ = Fate.otherwise

abbrev pub fate : DaliTransactionResult → Fate
fate r = if is_success r.status then Fate.succeeded else failure_fate r.last_phy_result

abbrev fate_code : Fate → ℕ
fate_code Fate.succeeded = 0
fate_code Fate.timed_out = 1
fate_code Fate.collided = 2
fate_code Fate.was_busy = 3
fate_code Fate.lost_power = 4
fate_code Fate.broke_down = 5
fate_code Fate.otherwise = 6

-- How many transactions of the history had this fate.
abbrev pub count : Fate → List DaliTransactionResult → ℕ
count f [] = 0
count f (r ∷ rs) = count f rs + (if fate_code (fate r) == fate_code f then 1 else 0)

-- The tracker after a history, newest result first.
pub track : List DaliTransactionResult → CommunicationQualityCounters
track [] = no_counts
track (r ∷ rs) = record_result (track rs) r

pub record Tallies (rs : List DaliTransactionResult) (c : CommunicationQualityCounters)
    : Type 0 where
  pub total : c.total ≡ min u32_max (length rs)
  pub successes : c.successes ≡ min u32_max (count Fate.succeeded rs)
  pub timeouts : c.timeouts ≡ min u32_max (count Fate.timed_out rs)
  pub collisions : c.collisions ≡ min u32_max (count Fate.collided rs)
  pub busy : c.busy ≡ min u32_max (count Fate.was_busy rs)
  pub bus_power_losses : c.bus_power_losses ≡ min u32_max (count Fate.lost_power rs)
  pub transceiver_faults : c.transceiver_faults ≡ min u32_max (count Fate.broke_down rs)
  pub other_failures : c.other_failures ≡ min u32_max (count Fate.otherwise rs)

increment-min : (n : ℕ) → increment_saturating (min u32_max n) ≡ min u32_max (n + 1)
unfolding increment_saturating
increment-min n = ground arith

record-Tallies :
    (r : DaliTransactionResult) (rs : List DaliTransactionResult) (c : CommunicationQualityCounters)
    → Tallies rs c
    → Tallies (r ∷ rs) (record_result c r)
unfolding record_result
record-Tallies r rs c t = ground (
  arith,
  increment-min (length rs),
  increment-min (count Fate.succeeded rs),
  increment-min (count Fate.timed_out rs),
  increment-min (count Fate.collided rs),
  increment-min (count Fate.was_busy rs),
  increment-min (count Fate.lost_power rs),
  increment-min (count Fate.broke_down rs),
  increment-min (count Fate.otherwise rs),
)

-- Over any history every counter is the number of transactions of its kind, kept at the largest 32-bit
-- number once it is reached.
pub track-Tallies : (rs : List DaliTransactionResult) → Tallies rs (track rs)
unfolding track
track-Tallies [] = ground arith
track-Tallies (r ∷ rs) = record-Tallies r rs (track rs) (track-Tallies rs)

count_all :
    (rs : List DaliTransactionResult)
    → count Fate.succeeded rs
        + count Fate.timed_out rs
        + count Fate.collided rs
        + count Fate.was_busy rs
        + count Fate.lost_power rs
        + count Fate.broke_down rs
        + count Fate.otherwise rs
      ≡ length rs
count_all [] = refl
count_all (r ∷ rs) = ground (arith, count_all rs)

-- While fewer than 2^32 transactions were recorded, a snapshot's failures are those that did not
-- succeed, they are the sum of the counters of failures, and it says that there are no data just when
-- there were no transactions.
pub snapshot-track :
    {F : Type 0} (fl : FloatOps F) (rs : List DaliTransactionResult)
    → length rs ≤ u32_max
    → let s = snapshot fl (track rs) in
      (s.failures + count Fate.succeeded rs ≡ length rs)
      × (s.failures
          ≡ s.counters.timeouts + s.counters.collisions + s.counters.busy
            + s.counters.bus_power_losses + s.counters.transceiver_faults
            + s.counters.other_failures)
      × ((s.no_data ≡ true) ↔ (rs ≡ []))
unfolding snapshot
snapshot-track fl rs h = ground (arith, track-Tallies rs, count_all rs)
