-- ===== src/Examples.antt =====
-- The theorems at concrete inputs: each one's hypotheses hold together.
mod Fixtures
mod Demonstration
mod Measurements
mod Platform
mod Bus
mod Lines
mod Simulation
mod Registries
mod Devices
mod Faults
mod Alarms
mod Links
mod Polls
