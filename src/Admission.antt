-- ===== src/Admission.antt =====
-- include/balancer/AdmissionControl.h: the token buckets and the three-layer admission gate.
mod Defs
pub mod Buckets
pub mod Layers
pub mod Reserve
mod Tests
unfoldable pub use Defs.*
