-- ===== src/Phy.antt =====
-- components/dali_phy/include/dali/phy/i_dali_phy.h: the hardware-independent PHY contract. An object
-- behind the interface is a state `S` with one function for each virtual method.
use savantix_dali_edge_contr.Prelude.{ℕ, Bool, true, false}

pub data PhyResult : Type 0 where
  ok timeout busy collision bus_power_lost transceiver_fault invalid_argument : PhyResult
  not_initialised internal_error : PhyResult

-- `result == PhyResult::Ok` and the other comparisons that the code makes.
abbrev pub is_ok : PhyResult → Bool
is_ok PhyResult.ok = true
is_ok _ = false

abbrev pub is_bus_power_lost : PhyResult → Bool
is_bus_power_lost PhyResult.bus_power_lost = true
is_bus_power_lost _ = false

pub record PhyHealth : Type 0 where
  pub initialised : Bool
  pub bus_powered : Bool
  pub transceiver_healthy : Bool
  pub line_stuck_high : Bool
  pub line_stuck_low : Bool

-- `receive s frame timeout` returns the result, the byte that `backwardFrame` holds afterwards
-- (it held `frame`), and the new state.
pub record IDaliPhy (S : Type 0) : Type 0 where
  pub init : S → PhyResult × S
  pub transmit : S → ℕ → PhyResult × S
  pub receive : S → ℕ → ℕ → PhyResult × ℕ × S
  pub is_bus_busy : S → Bool
  pub has_collision : S → Bool
  pub health : S → PhyHealth
  pub reset : S → PhyResult × S
