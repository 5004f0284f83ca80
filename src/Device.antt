-- ===== src/Device.antt =====
-- components/dali_device_manager: the registry of pre-addressed devices, presence discovery and the
-- probing of capabilities.
pub mod Registry
pub mod Scan
pub mod Capabilities
pub mod Calls
pub mod Clients
