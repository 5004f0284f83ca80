-- ===== src/Lib.antt =====
-- Savantix DALI edge controller: the firmware that finds the lights on a DALI bus, sends them commands,
-- watches their health and reports events to a gateway.
--
-- The parts and how they interact. A command or query is a request in the command queue; the pipeline pops
-- one request at a time and hands it to the transaction service, which drives the PHY with bounded retries
-- and whose results the quality counters record. The query client and the control object put requests into
-- the pipeline; the device manager scans all addresses over the query client and keeps the registry. The
-- scheduler says which light is polled next. The health engine and the fault persistence judge the readings,
-- the event manager keeps the active events, the event history stores them, and the gateway link sends them.
-- The demo controller joins the device manager, the event manager, the health engines and the gateway link;
-- app_main checks the configuration, starts the PHY, makes one exchange over the pipeline and then runs it.
--
-- Which file models which part:
--   Core        components/dali_core/include/dali/core/types.h
--   Phy         components/dali_phy: IDaliPhy, an object as a state with one function for each method
--   Protocol    components/dali_protocol: Commands and Frame (dali_commands.h, dali_frame.h), Queue
--               (DaliCommandQueue), Transaction (DaliTransactionService), Quality
--               (CommunicationQualityTracker), Response (dali_response_parser), Pipeline
--               (DaliProtocolPipeline), Query (PipelineQueryClient)
--   Simulator   components/dali_simulator: SimulatedDaliPhy
--   Device      components/dali_device_manager: Registry, Scan (scanPresence), Capabilities
--               (detectCoreCapabilities)
--   Control     components/dali_control: DaliControl
--   Events      components/event_manager: EventManager; reminder is next_reminder
--   Gateway     components/c6_interface: FrameCodec, MockC6Transport, C6Session
--   Scheduler   components/dali_scheduler: DaliScheduler
--   Storage     components/local_storage: EventHistory; Metadata is NvsMetadataStore
--   Health      components/light_health_engine: FaultPersistence, LightHealthEngine
--   System      main/app_config, main/foundation_runtime and components/system_monitor
--   Timing      components/time_service: EspTimeSource
--   Baseline    components/baseline_engine: BaselineStore
--   Trend       components/trend_engine: RollingBaseline, TrendSeries
--   Diagnostics components/dali_diagnostics: DiagnosticEngine
--   Demo        components/demo_controller: DemoController
--   Firmware    main/app_main: the self-check, LcgJitter and the loop of the demo task
--   Prelude     shared helpers; Examples the theorems at concrete inputs
-- A method that changes its object takes the state and returns the new one after its result. An array is a
-- list of fixed length, and a write through a pointer is a write at the index where the pointer points.
--
-- Numbers are natural numbers, with the wrap-around of 8, 16, 32 and 64 bits written out where the code can
-- reach it. Floats are an interface without laws (Prelude/Floats): a theorem holds for whatever the float
-- operations return, unless it names the laws that it assumes. The loops are bounded by the code's own
-- limits, so no fuel is used up: the retry loop has max_retries + 1 rounds, at most 9; the queue's loops
-- have count_ rounds, at most 64; the scheduler's 64 times 6; the codec's the length of the payload, at most
-- 240; the trend's count_ rounds, at most 1024. The demo task's endless loop is its rounds at any finite list
-- of timer readings. Parameters are the PHY, the delay, the jitter source, the
-- query client and the transport, behind the source's own interfaces; the bytes of a stored event, which the
-- compiler lays out; the timer, the NVS library and the macros of the generated sdkconfig.
--
-- Not modelled: the logging, which changes no state, and the FreeRTOS calls that create the demo task and let
-- it wait a second between two rounds, which are library code.
pub mod Prelude
pub mod Core
pub mod Phy
pub mod Protocol
pub mod Simulator
pub mod Device
pub mod Control
pub mod Events
pub mod Gateway
pub mod Scheduler
pub mod Storage
pub mod Health
pub mod System
pub mod Timing
pub mod Baseline
pub mod Trend
pub mod Diagnostics
pub mod Demo
pub mod Firmware
pub mod Examples
