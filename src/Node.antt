-- ===== src/Node.antt =====
-- sim/SimulatedNode.h and FaultInjector.h: a node that runs its jobs on a pool of threads.
pub mod State
pub mod Jobs
pub mod Run
pub mod Depth
pub mod Tally
pub mod Ledger
pub mod Handles
pub mod Phases
pub mod Cancelling
pub mod Dropped
pub mod Latencies
pub mod Calls
mod Tests
