-- ===== src/System/Kconfig.antt =====
-- SmartLightConfig::fromKconfig of main/app_config.cpp. The macros of the generated sdkconfig.h are the
-- fields of a record; main/Kconfig.projbuild gives their ranges.
use savantix_dali_edge_contr.Prelude.{
  ℕ, ◌≤◌, ◌≡◌, refl, Bool, true, false, not, ◌&&◌, ◌||◌, Option, none, some, arith, ltb, leb, u8,
  u32, FloatOps,
}
use savantix_dali_edge_contr.System.{ℤ, is_negative, same_int, SmartLightConfig, defaults, validate}

and_true : (b c : Bool) → ((b && true) && c) ≡ (b && c)
and_true true c = refl
and_true false c = refl

-- CONFIG_SAVANTIX_...; a macro that is only tested for being defined is a truth value.
pub record Sdkconfig : Type 0 where
  pub dali_tx_gpio : ℤ
  pub dali_rx_gpio : ℤ
  pub bus_power_gpio : ℤ
  pub transceiver_fault_gpio : ℤ
  pub bus_voltage_adc_gpio : ℤ
  pub bus_current_adc_gpio : ℤ
  pub c6_tx_gpio : ℤ
  pub c6_rx_gpio : ℤ
  pub c6_rts_gpio : ℤ
  pub c6_cts_gpio : ℤ
  pub max_lights : ℕ
  pub on_status_poll_ms : ℕ
  pub off_status_poll_ms : ℕ
  pub warning_status_poll_ms : ℕ
  pub max_command_retries : ℕ
  pub normal_bus_utilisation_percent : ℕ
  pub diagnostic_bus_utilisation_percent : ℕ
  pub temperature_warning_c : ℕ
  pub temperature_critical_c : ℕ
  pub warning_persistence_samples : ℕ
  pub fault_persistence_samples : ℕ
  pub recovery_persistence_samples : ℕ
  pub c6_enable : Bool
  pub demo_enable : Bool
  pub anomaly_interface_enable : Bool

-- The ranges of the menu.
pub record InMenu (k : Sdkconfig) : Type 0 where
  pub lights : (1 ≤ k.max_lights) × (k.max_lights ≤ 64)
  pub on_poll : (100 ≤ k.on_status_poll_ms) × (k.on_status_poll_ms ≤ 3600000)
  pub off_poll : (100 ≤ k.off_status_poll_ms) × (k.off_status_poll_ms ≤ 3600000)
  pub warning_poll : (100 ≤ k.warning_status_poll_ms) × (k.warning_status_poll_ms ≤ 60000)
  pub retries : k.max_command_retries ≤ 8
  pub normal : (1 ≤ k.normal_bus_utilisation_percent) × (k.normal_bus_utilisation_percent ≤ 100)
  pub diagnostic :
      (1 ≤ k.diagnostic_bus_utilisation_percent) × (k.diagnostic_bus_utilisation_percent ≤ 100)
  pub warm : k.temperature_warning_c ≤ 200
  pub hot : (1 ≤ k.temperature_critical_c) × (k.temperature_critical_c ≤ 220)
  pub warning_samples : (1 ≤ k.warning_persistence_samples) × (k.warning_persistence_samples ≤ 32)
  pub fault_samples : (1 ≤ k.fault_persistence_samples) × (k.fault_persistence_samples ≤ 32)
  pub recovery_samples :
      (1 ≤ k.recovery_persistence_samples) × (k.recovery_persistence_samples ≤ 64)

module _ {F : Type 0} (fl : FloatOps F) where
  -- `static_cast<float>(n) / 100.0F`
  abbrev pub percent : ℕ → F
  percent n = fl.div (fl.of_nat n) (fl.lit 100 0)

  abbrev pub read_sdkconfig : Sdkconfig → SmartLightConfig F
  read_sdkconfig k = record {
    dali_tx_gpio = k.dali_tx_gpio;
    dali_rx_gpio = k.dali_rx_gpio;
    bus_power_gpio = k.bus_power_gpio;
    transceiver_fault_gpio = k.transceiver_fault_gpio;
    bus_voltage_adc_gpio = k.bus_voltage_adc_gpio;
    bus_current_adc_gpio = k.bus_current_adc_gpio;
    c6_tx_gpio = k.c6_tx_gpio;
    c6_rx_gpio = k.c6_rx_gpio;
    c6_rts_gpio = k.c6_rts_gpio;
    c6_cts_gpio = k.c6_cts_gpio;
    maximum_lights = u8 k.max_lights;
    on_status_poll_ms = u32 k.on_status_poll_ms;
    off_status_poll_ms = u32 k.off_status_poll_ms;
    warning_status_poll_ms = u32 k.warning_status_poll_ms;
    max_command_retries = u8 k.max_command_retries;
    maximum_normal_bus_utilisation = percent k.normal_bus_utilisation_percent;
    maximum_diagnostic_bus_utilisation = percent k.diagnostic_bus_utilisation_percent;
    temperature_warning_c = fl.of_nat k.temperature_warning_c;
    temperature_critical_c = fl.of_nat k.temperature_critical_c;
    warning_persistence_samples = u8 k.warning_persistence_samples;
    fault_persistence_samples = u8 k.fault_persistence_samples;
    recovery_persistence_samples = u8 k.recovery_persistence_samples;
    c6_enabled = k.c6_enable;
    demo_enabled = k.demo_enable;
    anomaly_interface_enabled = k.anomaly_interface_enable;
  }

  -- Off the ESP platform there is no sdkconfig.
  unfoldable pub from_kconfig : Option Sdkconfig → SmartLightConfig F
  from_kconfig none = defaults fl
  from_kconfig (some k) = read_sdkconfig k

  -- Floats compare small whole numbers, and their percentages, as the numbers compare.
  pub record KeepsOrder : Type 0 where
    pub whole_lt : (m n : ℕ) → m ≤ 220 → n ≤ 220 → fl.lt (fl.of_nat m) (fl.of_nat n) ≡ ltb m n
    pub percent_le : (m n : ℕ) → m ≤ 100 → n ≤ 100 → fl.le (percent m) (percent n) ≡ leb m n
    pub percent_pos : (n : ℕ) → n ≤ 100 → fl.lt (fl.lit 0 0) (percent n) ≡ ltb 0 n
    pub percent_le_one : (n : ℕ) → n ≤ 100 → fl.le (percent n) (fl.lit 1 0) ≡ leb n 100

  -- Of a configuration from the ranges of the menu the program accepts those whose diagnostic utilisation is
  -- not below the normal one, whose critical temperature is above the warning, whose two DALI pins differ
  -- where both are set, and whose gateway pins are set and differ if the gateway is enabled; and no others.
  -- The floats are assumed to keep the order of small whole numbers and percentages.
  pub from_kconfig_accepted :
      (k : Sdkconfig)
      → InMenu k
      → KeepsOrder
      → validate fl (from_kconfig (some k)) ≡ (
          leb k.normal_bus_utilisation_percent k.diagnostic_bus_utilisation_percent
          && (ltb k.temperature_warning_c k.temperature_critical_c
              && ((is_negative k.dali_tx_gpio
                    || (is_negative k.dali_rx_gpio || not (same_int k.dali_tx_gpio k.dali_rx_gpio)))
                  && (not k.c6_enable
                      || (not (is_negative k.c6_tx_gpio)
                          && (not (is_negative k.c6_rx_gpio)
                              && not (same_int k.c6_tx_gpio k.c6_rx_gpio)))))))
  unfolding validate from_kconfig
  from_kconfig_accepted k m o =
      let normal = k.normal_bus_utilisation_percent in
      let diagnostic = k.diagnostic_bus_utilisation_percent in
      let some_use = o.percent_pos normal m.normal.1 in
      let normal_whole = o.percent_le_one normal m.normal.1 in
      let both = o.percent_le normal diagnostic m.normal.1 m.diagnostic.1 in
      let diagnostic_whole = o.percent_le_one diagnostic m.diagnostic.1 in
      let heat =
        o.whole_lt k.temperature_warning_c k.temperature_critical_c (omega (arith, m.warm))
          m.hot.1 in
      let a1 : ltb 0 (u8 k.max_lights) ≡ true = ground (arith, m.lights) in
      let a2 : leb (u8 k.max_lights) 64 ≡ true = ground (arith, m.lights) in
      let b1 : ltb 0 (u32 k.on_status_poll_ms) ≡ true = ground (arith, m.on_poll) in
      let b2 : ltb 0 (u32 k.off_status_poll_ms) ≡ true = ground (arith, m.off_poll) in
      let b3 : ltb 0 (u32 k.warning_status_poll_ms) ≡ true = ground (arith, m.warning_poll) in
      let c1 : leb (u8 k.max_command_retries) 8 ≡ true = ground (arith, m.retries) in
      let d1 : ltb 0 normal ≡ true = ground (arith, m.normal) in
      let d2 : leb normal 100 ≡ true = ground (arith, m.normal) in
      let d3 : leb diagnostic 100 ≡ true = ground (arith, m.diagnostic) in
      let e1 : ltb 0 (u8 k.warning_persistence_samples) ≡ true =
        ground (arith, m.warning_samples) in
      let e2 : ltb 0 (u8 k.fault_persistence_samples) ≡ true = ground (arith, m.fault_samples) in
      let e3 : ltb 0 (u8 k.recovery_persistence_samples) ≡ true =
        ground (arith, m.recovery_samples) in
      rw (some_use, normal_whole, both, diagnostic_whole, heat)
        (rw (a1, a2, b1, b2, b3, c1, d1, d2, d3, e1, e2, e3) (and_true (leb normal diagnostic) _))
