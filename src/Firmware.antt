-- ===== src/Firmware.antt =====
-- main/app_main.cpp: the start of the firmware, and the task that steps the demo. Logging is left out;
-- vTaskDelay is behind the delay interface, and in the task lies between two readings of the timer.
use savantix_dali_edge_contr.Prelude.{
  ℕ, ◌+◌, ◌*◌, ◌/◌, ◌%◌, Bool, List, [], ◌∷◌, true, false, not, ◌||◌, Option, none, some,
  if◌then◌else◌, u32, FloatOps,
}
use savantix_dali_edge_contr.Core.{ShortAddress, short_address, has_value}
use savantix_dali_edge_contr.Phy.{PhyResult, is_ok}
use savantix_dali_edge_contr.Simulator.{SimulatedDaliPhy, new_phy, simulated_phy, enqueue_response}
use savantix_dali_edge_contr.Protocol.Commands.{DaliCommand}
use savantix_dali_edge_contr.Protocol.Frame.{make_short_command}
use savantix_dali_edge_contr.Protocol.Queue.{DaliRequest, CommandPriority, QueueResult}
use savantix_dali_edge_contr.Protocol.Transaction.{
  IDelayProvider, IJitterSource, Services, Bus, DaliTransactionResult,
}
use savantix_dali_edge_contr.Protocol.Quality.{is_success}
use savantix_dali_edge_contr.Protocol.Response.{make_backward_response, parse_basic_status}
use savantix_dali_edge_contr.Protocol.Pipeline.{
  DaliProtocolPipeline, ProcessedDaliRequest, new_pipeline, submit_request, process_next,
}
use savantix_dali_edge_contr.Demo.{DemoController, step}
use savantix_dali_edge_contr.System.{
  SmartLightConfig, FoundationResult, validate, initialise_foundation,
}
pub mod SelfCheck
pub mod Task

-- LcgJitter is its state.
abbrev pub LcgJitter : Type 0
LcgJitter = ℕ

abbrev pub lcg_seed : LcgJitter
lcg_seed = 0x534c5301

unfoldable pub lcg_next : LcgJitter → ℕ → ℕ × LcgJitter
lcg_next state max_inclusive =
    let state' = u32 (u32 (state * 1664525) + 1013904223) in
    (state' % u32 (max_inclusive + 1), state')

unfoldable pub lcg_jitter : IJitterSource LcgJitter
unfolding lcg_next
lcg_jitter = record { next = lcg_next }

-- Where app_main returns, or that it has started the demo.
pub data StartResult : Type 0 where
  invalid_configuration no_hardware : StartResult
  foundation_failed : FoundationResult → StartResult
  setup_failed queue_full transaction_failed response_invalid running : StartResult

abbrev pub is_ready : FoundationResult → Bool
is_ready FoundationResult.ready = true
is_ready _ = false

-- The self-check's request.
abbrev pub check_request : ShortAddress → ℕ → DaliRequest
check_request address max_retries = record {
  frame = make_short_command address DaliCommand.query_status;
  expects_response = true;
  timeout_ms = 20;
  max_retries = max_retries;
  priority = CommandPriority.normal;
  device_key = address.value;
  request_sequence = 1;
}

-- What the self-check makes of the transaction's result.
abbrev pub judge_result : DaliTransactionResult → StartResult
judge_result result =
    if not (is_success result.status)
    then StartResult.transaction_failed
    else (elim (result.response) [
      | none ↦ StartResult.transaction_failed
      | some byte ↦
          let status = parse_basic_status (make_backward_response result.last_phy_result byte) in
          if not (has_value status) || not status.value.lamp_power_on
          then StartResult.response_invalid
          else StartResult.running
    ])

module _ {D : Type 0} (delay : IDelayProvider D) where
  abbrev pub firmware_services : Services SimulatedDaliPhy D LcgJitter
  firmware_services = record { phy = simulated_phy; delay = delay; jitter = lcg_jitter }

  abbrev pub FirmwareBus : Type 0
  FirmwareBus = Bus SimulatedDaliPhy D LcgJitter

  -- From `processed` on.
  abbrev pub after_process :
      Option ProcessedDaliRequest × DaliProtocolPipeline × FirmwareBus → StartResult × FirmwareBus
  after_process (none, _, bus) = (StartResult.transaction_failed, bus)
  after_process (some processed, _, bus) = (judge_result processed.result, bus)

  -- From the test of what `enqueue` returned on.
  abbrev pub after_enqueue :
      FirmwareBus → QueueResult × DaliProtocolPipeline → StartResult × FirmwareBus
  after_enqueue bus (QueueResult.full, _) = (StartResult.queue_full, bus)
  after_enqueue bus (QueueResult.ok, pipeline) =
      after_process (process_next firmware_services pipeline bus)

  -- From the test of what `enqueueResponse` returned on.
  abbrev pub after_setup :
      ℕ → ShortAddress → FirmwareBus → PhyResult × SimulatedDaliPhy → StartResult × FirmwareBus
  after_setup max_retries address bus (scripted, phy') =
      let bus' = record bus { phy = phy' } in
      if not (is_ok scripted)
      then (StartResult.setup_failed, bus')
      else after_enqueue bus' (submit_request new_pipeline (check_request address max_retries))

  -- From the self-check's address on.
  unfoldable pub self_check : ℕ → FirmwareBus → StartResult × FirmwareBus
  self_check max_retries bus = elim (short_address 3) [
    | none ↦ (StartResult.setup_failed, bus)
    | some address ↦
        after_setup max_retries address bus
          (enqueue_response bus.phy (record { result = PhyResult.ok; value = 0x04; delay_ms = 0 }))
  ]

  -- From the test of what `initialiseFoundation` returned on.
  abbrev pub after_start :
      ℕ → FirmwareBus → FoundationResult × SimulatedDaliPhy → StartResult × FirmwareBus
  after_start max_retries bus (result, phy') =
      let bus' = record bus { phy = phy' } in
      if not (is_ready result)
      then (StartResult.foundation_failed result, bus')
      else self_check max_retries bus'

  module _ {F : Type 0} (fl : FloatOps F) where
    unfoldable pub app_main : SmartLightConfig F → D → StartResult × FirmwareBus
    app_main config d =
        let bus : FirmwareBus = record { phy = new_phy; delay = d; jitter = lcg_seed } in
        if not (validate fl config)
        then (StartResult.invalid_configuration, bus)
        else if not config.demo_enabled
        then (StartResult.no_hardware, bus)
        else after_start config.max_command_retries bus
            (initialise_foundation fl simulated_phy config new_phy)

-- The loop of the demo task, at the readings of esp_timer_get_time that it makes.
unfoldable pub demo_task : {F : Type 0} → FloatOps F → List ℕ → DemoController F → DemoController F
demo_task fl [] demo = demo
demo_task fl (micros ∷ later) demo = demo_task fl later (step fl demo (micros / 1000))
