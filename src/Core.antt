-- ===== src/Core.antt =====
-- components/dali_core/include/dali/core/types.h: the portable domain types.
mod Address
mod Readings
mod Kinds
mod Lights
mod Features
unfoldable pub use Address.*
pub use Readings.*
pub use Kinds.*
pub use Lights.*
pub use Features.*
