-- ===== src/Cluster.antt =====
-- sim/SimulatedCluster.h and TelemetrySnapshot.h: several nodes, and what is reported of them.
pub mod Defs
pub mod Agreement
pub mod Stop
pub mod Format
pub mod Writer
pub mod Published
pub mod Joined
mod Tests
