-- ===== src/Firmware/SelfCheck.antt =====
-- The self-check of app_main, on the simulated PHY, and LcgJitter.
use savantix_dali_edge_contr.Prelude.{
  ℕ, ◌≤◌, ◌≡◌, refl, true, false, arith, ltb, ◌∷◌, ap, ◌∙◌, not, Option, if◌then◌else◌, some,
  replicate, FloatOps,
}
use savantix_dali_edge_contr.Simulator.{
  SimulatedDaliPhy, SimulatedResponse, default_response, new_phy, simulated_phy, init, transmit,
  receive, enqueue_response,
}
use savantix_dali_edge_contr.Phy.{PhyResult}
use savantix_dali_edge_contr.Protocol.Commands.{DaliCommand, command_code}
use savantix_dali_edge_contr.Protocol.Frame.Decode.{see, Target}
use savantix_dali_edge_contr.Protocol.Queue.{
  DaliRequest, QueueResult, enqueue, pop, find_insertion, shift_up,
}
use savantix_dali_edge_contr.Protocol.Transaction.{
  TransactionStatus, DaliTransactionResult, Bus, IDelayProvider, absolute_max_retries, exchange,
  attempt_loop, execute,
}
use savantix_dali_edge_contr.Protocol.Response.{status_bits, parse_basic_status}
use savantix_dali_edge_contr.Protocol.Pipeline.{
  DaliProtocolPipeline, process, new_pipeline, submit_request, process_next,
}
use savantix_dali_edge_contr.Core.{ShortAddress, short_address}
use savantix_dali_edge_contr.Protocol.Frame.{make_short_command, make_frame}
use savantix_dali_edge_contr.System.{
  FoundationResult, SmartLightConfig, validate, initialise_foundation,
}
use savantix_dali_edge_contr.System.Startup.{validate_bounds}
use savantix_dali_edge_contr.Firmware.{
  after_process, after_setup, after_enqueue, after_start, lcg_seed, check_request, judge_result,
  firmware_services, LcgJitter, lcg_next, StartResult, self_check, app_main,
}

-- LcgJitter keeps to the bound that it is given.
pub lcg_next-le : (state max_inclusive : ℕ) → (lcg_next state max_inclusive).0 ≤ max_inclusive
unfolding lcg_next
lcg_next-le state max_inclusive = grind arith

-- The simulated PHY after its start, with the answer of the self-check, and after the self-check.
abbrev started_phy : SimulatedDaliPhy
started_phy = record new_phy { health = record (new_phy.health) { initialised = true } }

abbrev check_answer : SimulatedResponse
check_answer = record { result = PhyResult.ok; value = 0x04; delay_ms = 0 }

abbrev scripted_phy : SimulatedDaliPhy
scripted_phy = record started_phy {
  responses = check_answer ∷ replicate 31 default_response;
  response_count = 1;
}

abbrev checked_phy : SimulatedDaliPhy
checked_phy = record scripted_phy {
  response_head = 1;
  response_count = 0;
  last_forward_frame = 0x0790;
  transmitted_frame_count = 1;
}

abbrev check_address : ShortAddress
check_address = record { value = 3 }

abbrev passed : DaliTransactionResult
passed = record {
  status = TransactionStatus.ok;
  response = some 0x04;
  attempts = 1;
  last_phy_result = PhyResult.ok;
  retry_delay_total_ms = 0;
}

judge_passed : judge_result passed ≡ StartResult.running
unfolding parse_basic_status status_bits
judge_passed = refl

enqueue_answer : enqueue_response started_phy check_answer ≡ (PhyResult.ok, scripted_phy)
unfolding enqueue_response
enqueue_answer = refl

foundation_ready :
    {F : Type 0} (fl : FloatOps F) (config : SmartLightConfig F)
    → validate fl config ≡ true
    → initialise_foundation fl simulated_phy config new_phy ≡ (FoundationResult.ready, started_phy)
unfolding initialise_foundation init
foundation_ready fl config accepted = rw accepted refl

module _ {D : Type 0} (delay : IDelayProvider D) where
  abbrev bus_of : SimulatedDaliPhy → D → Bus SimulatedDaliPhy D LcgJitter
  bus_of phy d = record { phy = phy; delay = d; jitter = lcg_seed }

  exchange_check :
      (r : ℕ) (d : D)
      → exchange (firmware_services delay) (check_request check_address r) (bus_of scripted_phy d)
        ≡ (PhyResult.ok, 0x04, bus_of checked_phy d)
  unfolding exchange transmit receive make_short_command make_frame
  exchange_check r d = refl

  execute_check :
      (r : ℕ) (d : D)
      → ltb absolute_max_retries r ≡ false
      → execute (firmware_services delay) (check_request check_address r) (bus_of scripted_phy d)
        ≡ (passed, bus_of checked_phy d)
  unfolding execute attempt_loop
  execute_check r d allowed = rw allowed (rw (exchange_check r d) refl)

  -- The pipeline with the request in it.
  abbrev loaded : ℕ → DaliProtocolPipeline
  loaded r = (submit_request new_pipeline (check_request check_address r)).1

  check_accepted :
      (r : ℕ)
      → submit_request new_pipeline (check_request check_address r) ≡ (QueueResult.ok, loaded r)
  unfolding submit_request enqueue
  check_accepted r = refl

  check_first : (r : ℕ) → (pop (loaded r).queue).0 ≡ some (check_request check_address r)
  unfolding submit_request enqueue find_insertion shift_up pop
  check_first r = refl

  process_check :
      (r : ℕ) (d : D)
      → ltb absolute_max_retries r ≡ false
      → after_process delay
          (process_next (firmware_services delay) (loaded r) (bus_of scripted_phy d))
        ≡ (StartResult.running, bus_of checked_phy d)
  unfolding process_next
  process_check r d allowed =
      let taken = λ (o : Option DaliRequest). after_process delay (
        process (firmware_services delay) (record (loaded r) { queue = (pop (loaded r).queue).1 })
          (bus_of scripted_phy d) o) in
      let judged = λ (out : DaliTransactionResult × Bus SimulatedDaliPhy D LcgJitter).
        (let x : StartResult × Bus SimulatedDaliPhy D LcgJitter = (judge_result out.0, out.1) in
          x) in
      ap taken (check_first r)
      ∙ (ap judged (execute_check r d allowed)
          ∙ ap (λ (x : StartResult). (x, bus_of checked_phy d)) judge_passed)

  self_check_passes :
      (r : ℕ) (d : D)
      → ltb absolute_max_retries r ≡ false
      → self_check delay r (bus_of started_phy d) ≡ (StartResult.running, bus_of checked_phy d)
  unfolding self_check short_address
  self_check_passes r d allowed =
      ap (after_setup delay r check_address (bus_of started_phy d)) enqueue_answer
      ∙ (ap (after_enqueue delay (bus_of scripted_phy d)) (check_accepted r)
          ∙ process_check r d allowed)

  app_main_passes :
      {F : Type 0} (fl : FloatOps F) (config : SmartLightConfig F) (d : D)
      → validate fl config ≡ true
      → config.demo_enabled ≡ true
      → app_main delay fl config d ≡ (StartResult.running, bus_of checked_phy d)
  unfolding app_main
  app_main_passes fl config d accepted demo =
      let limit = (validate_bounds fl config accepted).2 in
      let allowed : ltb absolute_max_retries config.max_command_retries ≡ false = ground arith in
      let start : StartResult × Bus SimulatedDaliPhy D LcgJitter =
        after_start delay config.max_command_retries (bus_of new_phy d)
          (initialise_foundation fl simulated_phy config new_phy) in
      ap
        (λ b.
          if not b
          then (StartResult.invalid_configuration, bus_of new_phy d)
          else if not config.demo_enabled
          then (StartResult.no_hardware, bus_of new_phy d)
          else start)
        accepted
      ∙ (ap (λ b. if not b then (StartResult.no_hardware, bus_of new_phy d) else start) demo
          ∙ (ap (after_start delay config.max_command_retries (bus_of new_phy d))
                (foundation_ready fl config accepted)
              ∙ self_check_passes config.max_command_retries d allowed))

  -- With every configuration that is accepted and that enables the demo, app_main passes its self-check and
  -- starts the demo. It has not waited, and the one frame on the bus was the status query to address 3.
  pub app_main-running :
      {F : Type 0} (fl : FloatOps F) (config : SmartLightConfig F) (d : D)
      → validate fl config ≡ true
      → config.demo_enabled ≡ true
      → let (result, bus) = app_main delay fl config d in
        (result ≡ StartResult.running)
        × (bus.delay ≡ d)
        × (bus.phy.transmitted_frame_count ≡ 1)
        × (see (record { raw = bus.phy.last_forward_frame }) ≡ record {
          target = Target.short 3;
          is_command = true;
          byte = command_code DaliCommand.query_status;
        })
  app_main-running fl config d accepted demo =
      let all = app_main_passes fl config d accepted demo in
      (
        ap (λ x. x.0) all,
        ap (λ x. x.1.delay) all,
        ap (λ x. x.1.phy.transmitted_frame_count) all,
        ap (λ x. see (record { raw = x.1.phy.last_forward_frame })) all,
      )
