-- ===== src/Examples/Platform.antt =====
-- Examples of Timing, System/Kconfig, Firmware and Storage/Metadata.
use savantix_dali_edge_contr.Prelude.{
  [], ◌∷◌, Bool, not, ◌&&◌, ltb, ℕ, ◌+◌, ◌≤◌, ◌≡◌, refl, true, false, Option, none, some, arith,
  ◌==◌, if◌then◌else◌,
}
use savantix_dali_edge_contr.Timing.{
  new_time_source, unix_time_valid, unix_time_seconds, synchronise_unix_time,
}
use savantix_dali_edge_contr.Timing.Clock.{synchronise_unix_time-monotone}
use savantix_dali_edge_contr.System.{negsuc, defaults, validate}
use savantix_dali_edge_contr.System.Kconfig.{
  Sdkconfig, InMenu, KeepsOrder, from_kconfig, from_kconfig_accepted,
}
use savantix_dali_edge_contr.Protocol.Commands.{DaliCommand, command_code}
use savantix_dali_edge_contr.Protocol.Frame.Decode.{see, Target}
use savantix_dali_edge_contr.Protocol.Transaction.{IDelayProvider}
use savantix_dali_edge_contr.Demo.{new_controller}
use savantix_dali_edge_contr.Demo.Consistency.{IsConsistent}
use savantix_dali_edge_contr.Firmware.Task.{demo_task-IsConsistent}
use savantix_dali_edge_contr.Firmware.{StartResult, app_main, demo_task}
use savantix_dali_edge_contr.Firmware.SelfCheck.{app_main-running}
use savantix_dali_edge_contr.Storage.Metadata.{EspErr, NvsApi, save_uint32, load_uint32}
use savantix_dali_edge_contr.Storage.Metadata.Handles.{IsNvs, watched, no_handle_left}
use savantix_dali_edge_contr.Examples.Fixtures.{millionths}

-- Synchronised 5 seconds after the start, read 7 and 9.5 seconds after it.
synchronise_unix_time-monotone_example :
    let source = synchronise_unix_time new_time_source 1780000000 5000 in
    let before = unix_time_seconds source 7000000 in
    let after = unix_time_seconds source 9500000 in
    (unix_time_valid source ≡ true)
    × (1780000000 ≤ before)
    × (before ≤ after)
    × (after ≤ before + 2 + 1)
synchronise_unix_time-monotone_example =
    synchronise_unix_time-monotone new_time_source 1780000000 5000 7000000 9500000 (omega arith)
      (omega arith)

-- The defaults of the menu.
abbrev menu_defaults : Sdkconfig
menu_defaults = record {
  dali_tx_gpio = negsuc 0;
  dali_rx_gpio = negsuc 0;
  bus_power_gpio = negsuc 0;
  transceiver_fault_gpio = negsuc 0;
  bus_voltage_adc_gpio = negsuc 0;
  bus_current_adc_gpio = negsuc 0;
  c6_tx_gpio = negsuc 0;
  c6_rx_gpio = negsuc 0;
  c6_rts_gpio = negsuc 0;
  c6_cts_gpio = negsuc 0;
  max_lights = 64;
  on_status_poll_ms = 5000;
  off_status_poll_ms = 30000;
  warning_status_poll_ms = 2000;
  max_command_retries = 3;
  normal_bus_utilisation_percent = 30;
  diagnostic_bus_utilisation_percent = 60;
  temperature_warning_c = 80;
  temperature_critical_c = 90;
  warning_persistence_samples = 3;
  fault_persistence_samples = 5;
  recovery_persistence_samples = 10;
  c6_enable = false;
  demo_enable = true;
  anomaly_interface_enable = false;
}

menu_defaults-InMenu : InMenu menu_defaults
menu_defaults-InMenu = omega arith

millionths-KeepsOrder : KeepsOrder millionths
millionths-KeepsOrder = record {
  whole_lt = λ m n p q. ground arith;
  percent_le = λ m n p q. ground arith;
  percent_pos = λ n p. ground arith;
  percent_le_one = λ n p. ground arith;
}

from_kconfig_accepted_example :
    validate millionths (from_kconfig millionths (some menu_defaults)) ≡ true
from_kconfig_accepted_example =
    from_kconfig_accepted millionths menu_defaults menu_defaults-InMenu millionths-KeepsOrder

abbrev summing_delay : IDelayProvider ℕ
summing_delay = record { delay_ms = λ d ms. d + ms }

app_main-running_example :
    let (result, bus) = app_main summing_delay millionths (defaults millionths) 0 in
    (result ≡ StartResult.running)
    × (bus.delay ≡ 0)
    × (bus.phy.transmitted_frame_count ≡ 1)
    × (see (record { raw = bus.phy.last_forward_frame }) ≡ record {
      target = Target.short 3;
      is_command = true;
      byte = command_code DaliCommand.query_status;
    })
unfolding validate
app_main-running_example =
    app_main-running summing_delay millionths (defaults millionths) 0 refl refl

-- A flash that holds a value for each key, and gives its handles out in turn.
record Flash : Type 0 where
  next_handle : ℕ
  in_use : ℕ → Bool
  values : ℕ → Option ℕ

abbrev is_open : Flash → ℕ → Bool
is_open s h = ltb h s.next_handle && s.in_use h

abbrev found : Option ℕ → ℕ → EspErr × ℕ
found none old = (EspErr.other 1, old)
found (some v) old = (EspErr.ok, v)

abbrev flash_api : NvsApi Flash ℕ
flash_api = record {
  flash_init = λ s. (EspErr.ok, s);
  flash_erase = λ s. (EspErr.ok, s);
  open_namespace = λ s writable. (
    EspErr.ok,
    s.next_handle,
    record s {
      next_handle = s.next_handle + 1;
      in_use = λ h. if h == s.next_handle then true else s.in_use h;
    },
  );
  set_u32 = λ s h key v.
      if is_open s h
      then (EspErr.ok, record s { values = λ k. if k == key then some v else s.values k })
      else (EspErr.other 2, s);
  commit = λ s h. (if is_open s h then EspErr.ok else EspErr.other 2, s);
  get_u32 = λ s h key old.
      if is_open s h
      then ((found (s.values key) old).0, (found (s.values key) old).1, s)
      else (EspErr.other 2, old, s);
  close = λ s h. record s { in_use = λ g. s.in_use g && not (g == h) };
}

flash-IsNvs : IsNvs flash_api is_open
flash-IsNvs = record {
  fresh = λ s w e. ground arith;
  opens = λ s w g. ground arith;
  set_apart = λ s h k v g. ground arith;
  commit_apart = λ s h g. refl;
  get_apart = λ s h k v g. ground arith;
  closes = λ s h g. ground arith;
}

-- Handle 1 is open already.
abbrev used_flash : Flash
used_flash = record { next_handle = 2; in_use = λ h. h == 1; values = λ k. none }

no_handle_left_example :
    let (saved, s) = save_uint32 flash_api used_flash 7 42 in
    let (loaded, value, s') = load_uint32 flash_api used_flash 7 42 in
    (save_uint32 (watched flash_api is_open) (used_flash, true) 7 42 ≡ (saved, (s, true)))
    × (is_open s 1 ≡ true)
    × (load_uint32 (watched flash_api is_open) (used_flash, true) 7 42
        ≡ (loaded, value, (s', true)))
    × (is_open s' 1 ≡ true)
no_handle_left_example = no_handle_left flash_api is_open flash-IsNvs used_flash 7 42 1

-- Three rounds: the light at address 3 is away in the last of them.
demo_task-IsConsistent_example :
    IsConsistent millionths
      (demo_task millionths (5000 ∷ 1005000 ∷ 2005000 ∷ []) (new_controller millionths))
demo_task-IsConsistent_example = demo_task-IsConsistent millionths (5000 ∷ 1005000 ∷ 2005000 ∷ [])
