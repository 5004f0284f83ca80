-- ===== src/Examples/Fixtures.antt =====
-- Concrete services for the examples: numbers in millionths for floats, the simulated PHY, a delay that
-- adds up and a jitter source that keeps to its bound.
use Prim.Native.Nat.{min}
use savantix_dali_edge_contr.Prelude.{
  ℕ, ◌+◌, ◌-◌, ◌*◌, ◌/◌, ◌^◌, ◌≤◌, true, ltb, leb, ◌==◌, arith, ◌∷◌, FloatOps, replicate,
}
use savantix_dali_edge_contr.Phy.{PhyResult}
use savantix_dali_edge_contr.Simulator.{SimulatedDaliPhy, default_response, new_phy, simulated_phy}
use savantix_dali_edge_contr.Protocol.Queue.{
  DaliRequest, DaliCommandQueue, CommandPriority, default_request,
}
use savantix_dali_edge_contr.Protocol.Transaction.{Services, Bus}

abbrev pub millionths : FloatOps ℕ
millionths = record {
  lit = λ m e. m * 10 ^ 6 / 10 ^ e;
  of_nat = λ n. n * 10 ^ 6;
  add = λ a b. a + b;
  sub = λ a b. a - b;
  mul = λ a b. a * b / 10 ^ 6;
  div = λ a b. a * 10 ^ 6 / b;
  sqrt = λ a. a;
  fabs = λ a. a;
  lt = ltb;
  le = leb;
  eq = λ a b. a == b;
}

abbrev pub services : Services SimulatedDaliPhy ℕ ℕ
services = record {
  phy = simulated_phy;
  delay = record { delay_ms = λ d ms. d + ms };
  jitter = record { next = λ j bound. (min j bound, j) };
}

pub jitter_bounded : (j m : ℕ) → (services.jitter.next j m).0 ≤ m
jitter_bounded j m = omega arith

-- An initialised PHY with one answer scripted.
abbrev pub working_phy : SimulatedDaliPhy
working_phy = record new_phy {
  responses =
      record { result = PhyResult.ok; value = 0x24; delay_ms = 5 } ∷ replicate 31 default_response;
  response_count = 1;
  health = record new_phy.health { initialised = true };
}

abbrev pub quiet_bus : Bus SimulatedDaliPhy ℕ ℕ
quiet_bus = record { phy = working_phy; delay = 0; jitter = 7 }

abbrev pub urgent : DaliRequest
urgent = record default_request { priority = CommandPriority.critical; request_sequence = 5 }

-- A queue with one request in it.
abbrev pub one_waiting : DaliCommandQueue
one_waiting = record { items = urgent ∷ replicate 63 default_request; count = 1 }
