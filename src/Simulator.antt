-- ===== src/Simulator.antt =====
-- components/dali_simulator/simulated_dali_phy.cpp: the PHY of host tests and of the demo, which plays
-- scripted responses from a ring of 32.
use savantix_dali_edge_contr.Prelude.{
  ℕ, ◌+◌, ◌-◌, ◌%◌, Bool, true, false, List, ltb, ◌==◌, not, if◌then◌else◌, get_or, set, replicate,
  u32,
}
use savantix_dali_edge_contr.Phy.{PhyResult, PhyHealth, IDaliPhy, is_ok}
pub mod Ring

pub record SimulatedResponse : Type 0 where
  pub result : PhyResult
  pub value : ℕ
  pub delay_ms : ℕ

abbrev pub default_response : SimulatedResponse
default_response = record { result = PhyResult.timeout; value = 0; delay_ms = 0 }

abbrev pub response_capacity : ℕ
response_capacity = 32

pub record SimulatedDaliPhy : Type 0 where
  pub responses : List SimulatedResponse
  pub response_head : ℕ
  pub response_count : ℕ
  pub last_forward_frame : ℕ
  pub transmitted_frame_count : ℕ
  pub health : PhyHealth
  pub bus_busy : Bool
  pub collision : Bool

abbrev pub new_phy : SimulatedDaliPhy
new_phy = record {
  responses = replicate response_capacity default_response;
  response_head = 0;
  response_count = 0;
  last_forward_frame = 0;
  transmitted_frame_count = 0;
  health = record {
    initialised = false;
    bus_powered = true;
    transceiver_healthy = true;
    line_stuck_high = false;
    line_stuck_low = false;
  };
  bus_busy = false;
  collision = false;
}

unfoldable pub init : SimulatedDaliPhy → PhyResult × SimulatedDaliPhy
init p = (
  if p.health.transceiver_healthy then PhyResult.ok else PhyResult.transceiver_fault,
  record p { health = record (p.health) { initialised = true } },
)

unfoldable pub transmit : SimulatedDaliPhy → ℕ → PhyResult × SimulatedDaliPhy
transmit p frame =
    if not p.health.initialised
    then (PhyResult.not_initialised, p)
    else if not p.health.bus_powered
    then (PhyResult.bus_power_lost, p)
    else if not p.health.transceiver_healthy
    then (PhyResult.transceiver_fault, p)
    else if p.bus_busy
    then (PhyResult.busy, p)
    else if p.collision
    then (PhyResult.collision, p)
    else (
      PhyResult.ok,
      record p {
        last_forward_frame = frame;
        transmitted_frame_count = u32 (p.transmitted_frame_count + 1);
      },
    )

unfoldable pub receive : SimulatedDaliPhy → ℕ → ℕ → PhyResult × ℕ × SimulatedDaliPhy
receive p frame timeout_ms =
    if not p.health.initialised
    then (PhyResult.not_initialised, frame, p)
    else if not p.health.bus_powered
    then (PhyResult.bus_power_lost, frame, p)
    else if not p.health.transceiver_healthy
    then (PhyResult.transceiver_fault, frame, p)
    else if p.response_count == 0
    then (PhyResult.timeout, frame, p)
    else let response = get_or p.responses p.response_head default_response in
      if ltb timeout_ms response.delay_ms then (PhyResult.timeout, frame, p) else (
        response.result,
        if is_ok response.result then response.value else frame,
        record p {
          response_head = (p.response_head + 1) % response_capacity;
          response_count = p.response_count - 1;
        },
      )

unfoldable pub reset : SimulatedDaliPhy → PhyResult × SimulatedDaliPhy
reset p = (
  if p.health.transceiver_healthy then PhyResult.ok else PhyResult.transceiver_fault,
  record p {
    bus_busy = false;
    collision = false;
    health = record (p.health) { line_stuck_high = false; line_stuck_low = false };
  },
)

unfoldable pub enqueue_response :
    SimulatedDaliPhy → SimulatedResponse → PhyResult × SimulatedDaliPhy
enqueue_response p response =
    if p.response_count == response_capacity
    then (PhyResult.busy, p)
    else let tail = (p.response_head + p.response_count) % response_capacity in
      (
        PhyResult.ok,
        record p {
          responses = set p.responses tail response;
          response_count = p.response_count + 1;
        },
      )

abbrev pub set_bus_powered : SimulatedDaliPhy → Bool → SimulatedDaliPhy
set_bus_powered p value = record p { health = record (p.health) { bus_powered = value } }

abbrev pub set_transceiver_healthy : SimulatedDaliPhy → Bool → SimulatedDaliPhy
set_transceiver_healthy p value = record p {
  health = record (p.health) { transceiver_healthy = value };
}

abbrev pub set_bus_busy : SimulatedDaliPhy → Bool → SimulatedDaliPhy
set_bus_busy p value = record p { bus_busy = value }

abbrev pub set_collision : SimulatedDaliPhy → Bool → SimulatedDaliPhy
set_collision p value = record p { collision = value }

abbrev pub set_line_stuck_high : SimulatedDaliPhy → Bool → SimulatedDaliPhy
set_line_stuck_high p value = record p { health = record (p.health) { line_stuck_high = value } }

abbrev pub set_line_stuck_low : SimulatedDaliPhy → Bool → SimulatedDaliPhy
set_line_stuck_low p value = record p { health = record (p.health) { line_stuck_low = value } }

abbrev pub simulated_phy : IDaliPhy SimulatedDaliPhy
simulated_phy = record {
  init = init;
  transmit = transmit;
  receive = receive;
  is_bus_busy = λ p. p.bus_busy;
  has_collision = λ p. p.collision;
  health = λ p. p.health;
  reset = reset;
}
