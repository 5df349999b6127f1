-- ===== src/Aging.antt =====
-- include/balancer/AgingEngine.h: priority aging and deadline expiry.
mod Defs
pub mod Tracking
pub mod Tick
mod Tests
unfoldable pub use Defs.*
