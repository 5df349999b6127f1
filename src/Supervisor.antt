-- ===== src/Supervisor.antt =====
-- include/balancer/FeatureSupervisor.h and TelemetryAdvisor.h: alerts, and what follows from them.
pub mod Defs
pub mod Alerts
pub mod Wiring
pub mod Reports
pub mod Graph
pub mod Consequences
pub mod NnAdvisor
mod Tests
