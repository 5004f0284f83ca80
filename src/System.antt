-- ===== src/System.antt =====
-- The start of the program, of main/app_config and main/foundation_runtime, and SystemMonitor, of
-- components/system_monitor.
use savantix_dali_edge_contr.Prelude.{
  ℕ, zero, suc, ◌+◌, ◌-◌, Bool, true, false, not, ◌&&◌, ◌||◌, List, ltb, leb, ◌==◌, if◌then◌else◌,
  get_or, set, replicate, FloatOps,
}
use savantix_dali_edge_contr.Phy.{is_ok, PhyHealth, IDaliPhy}
pub mod Startup
pub mod Watch
pub mod Kconfig

-- An `int`, for the numbers of pins.
pub data ℤ : Type 0 where
  pos : ℕ → ℤ
  negsuc : ℕ → ℤ

abbrev pub is_negative : ℤ → Bool
is_negative (pos n) = false
is_negative (negsuc n) = true

abbrev pub same_int : ℤ → ℤ → Bool
same_int (pos m) (pos n) = m == n
same_int (negsuc m) (negsuc n) = m == n
same_int _ _ = false

pub record SmartLightConfig (F : Type 0) : Type 0 where
  pub dali_tx_gpio : ℤ
  pub dali_rx_gpio : ℤ
  pub bus_power_gpio : ℤ
  pub transceiver_fault_gpio : ℤ
  pub bus_voltage_adc_gpio : ℤ
  pub bus_current_adc_gpio : ℤ
  pub c6_tx_gpio : ℤ
  pub c6_rx_gpio : ℤ
  pub c6_rts_gpio : ℤ
  pub c6_cts_gpio : ℤ
  pub maximum_lights : ℕ
  pub on_status_poll_ms : ℕ
  pub off_status_poll_ms : ℕ
  pub warning_status_poll_ms : ℕ
  pub max_command_retries : ℕ
  pub maximum_normal_bus_utilisation : F
  pub maximum_diagnostic_bus_utilisation : F
  pub temperature_warning_c : F
  pub temperature_critical_c : F
  pub warning_persistence_samples : ℕ
  pub fault_persistence_samples : ℕ
  pub recovery_persistence_samples : ℕ
  pub c6_enabled : Bool
  pub demo_enabled : Bool
  pub anomaly_interface_enabled : Bool

pub data FoundationResult : Type 0 where
  ready invalid_configuration phy_initialisation_failed phy_unhealthy : FoundationResult

abbrev pub is_unhealthy : PhyHealth → Bool
is_unhealthy health =
    not health.initialised
    || (not health.bus_powered
        || (not health.transceiver_healthy || (health.line_stuck_high || health.line_stuck_low)))

module _ {F : Type 0} (fl : FloatOps F) where
  abbrev pub defaults : SmartLightConfig F
  defaults = record {
    dali_tx_gpio = negsuc 0;
    dali_rx_gpio = negsuc 0;
    bus_power_gpio = negsuc 0;
    transceiver_fault_gpio = negsuc 0;
    bus_voltage_adc_gpio = negsuc 0;
    bus_current_adc_gpio = negsuc 0;
    c6_tx_gpio = negsuc 0;
    c6_rx_gpio = negsuc 0;
    c6_rts_gpio = negsuc 0;
    c6_cts_gpio = negsuc 0;
    maximum_lights = 64;
    on_status_poll_ms = 5000;
    off_status_poll_ms = 30000;
    warning_status_poll_ms = 2000;
    max_command_retries = 3;
    maximum_normal_bus_utilisation = fl.lit 30 2;
    maximum_diagnostic_bus_utilisation = fl.lit 60 2;
    temperature_warning_c = fl.lit 80 0;
    temperature_critical_c = fl.lit 90 0;
    warning_persistence_samples = 3;
    fault_persistence_samples = 5;
    recovery_persistence_samples = 10;
    c6_enabled = false;
    demo_enabled = true;
    anomaly_interface_enabled = false;
  }

  unfoldable pub validate : SmartLightConfig F → Bool
  validate c =
      let light_count_valid = ltb 0 c.maximum_lights && leb c.maximum_lights 64 in
      let periods_valid =
        ltb 0 c.on_status_poll_ms
        && (ltb 0 c.off_status_poll_ms && ltb 0 c.warning_status_poll_ms) in
      let retry_valid = leb c.max_command_retries 8 in
      let utilisation_valid =
        fl.lt (fl.lit 0 0) c.maximum_normal_bus_utilisation
        && (fl.le c.maximum_normal_bus_utilisation (fl.lit 1 0)
            && (fl.le c.maximum_normal_bus_utilisation c.maximum_diagnostic_bus_utilisation
                && fl.le c.maximum_diagnostic_bus_utilisation (fl.lit 1 0))) in
      let temperature_valid = fl.lt c.temperature_warning_c c.temperature_critical_c in
      let persistence_valid =
        ltb 0 c.warning_persistence_samples
        && (ltb 0 c.fault_persistence_samples && ltb 0 c.recovery_persistence_samples) in
      let dali_pins_distinct =
        is_negative c.dali_tx_gpio
        || (is_negative c.dali_rx_gpio || not (same_int c.dali_tx_gpio c.dali_rx_gpio)) in
      let c6_pins_valid =
        not c.c6_enabled
        || (not (is_negative c.c6_tx_gpio)
            && (not (is_negative c.c6_rx_gpio) && not (same_int c.c6_tx_gpio c.c6_rx_gpio))) in
      light_count_valid
      && (periods_valid
          && (retry_valid
              && (utilisation_valid
                  && (temperature_valid
                      && (persistence_valid && (dali_pins_distinct && c6_pins_valid))))))

  module _ {S : Type 0} (api : IDaliPhy S) where
    unfoldable pub initialise_foundation : SmartLightConfig F → S → FoundationResult × S
    initialise_foundation config phy =
        let (result, phy') = api.init phy in
        if not (validate config)
        then (FoundationResult.invalid_configuration, phy)
        else if not (is_ok result)
        then (FoundationResult.phy_initialisation_failed, phy')
        else if is_unhealthy (api.health phy')
        then (FoundationResult.phy_unhealthy, phy')
        else (FoundationResult.ready, phy')

pub record SystemMonitor : Type 0 where
  pub heartbeats : List ℕ
  pub seen : List Bool
  pub queue_high_water : List ℕ
  pub expected_tasks : ℕ

abbrev pub maximum_tasks : ℕ
maximum_tasks = 16

abbrev pub maximum_queues : ℕ
maximum_queues = 16

abbrev pub new_monitor : SystemMonitor
new_monitor = record {
  heartbeats = replicate maximum_tasks 0;
  seen = replicate maximum_tasks false;
  queue_high_water = replicate maximum_queues 0;
  expected_tasks = 0;
}

unfoldable pub set_expected_task_count : SystemMonitor → ℕ → SystemMonitor
set_expected_task_count m count = record m {
  expected_tasks = if ltb maximum_tasks count then maximum_tasks else count;
}

unfoldable pub heartbeat : SystemMonitor → ℕ → ℕ → SystemMonitor
heartbeat m task_id timestamp_ms = if leb maximum_tasks task_id then m else record m {
  heartbeats = set m.heartbeats task_id timestamp_ms;
  seen = set m.seen task_id true;
}

-- The test in `healthy`'s loop.
abbrev pub is_late : SystemMonitor → ℕ → ℕ → ℕ → Bool
is_late m now_ms timeout_ms task =
    let last = get_or m.heartbeats task 0 in
    not (get_or m.seen task false) || (ltb now_ms last || ltb timeout_ms (now_ms - last))

-- The loop with `n` tasks left, from `task` on.
abbrev pub healthy_from : SystemMonitor → ℕ → ℕ → ℕ → ℕ → Bool
healthy_from m now_ms timeout_ms zero task = true
healthy_from m now_ms timeout_ms (suc n) task =
    let rest = healthy_from m now_ms timeout_ms n (task + 1) in
    if is_late m now_ms timeout_ms task then false else rest

unfoldable pub healthy : SystemMonitor → ℕ → ℕ → Bool
healthy m now_ms timeout_ms = healthy_from m now_ms timeout_ms m.expected_tasks 0

unfoldable pub record_queue_high_water : SystemMonitor → ℕ → ℕ → SystemMonitor
record_queue_high_water m queue_id value =
    if leb maximum_queues queue_id
    then m
    else if ltb (get_or m.queue_high_water queue_id 0) value
    then record m { queue_high_water = set m.queue_high_water queue_id value }
    else m

abbrev pub queue_high_water_of : SystemMonitor → ℕ → ℕ
queue_high_water_of m queue_id =
    if ltb queue_id maximum_queues then get_or m.queue_high_water queue_id 0 else 0

-- SystemMonitorTask::runOnce
unfoldable pub run_once : SystemMonitor → ℕ → SystemMonitor
unfolding heartbeat
run_once m now_ms = heartbeat m 0 now_ms
