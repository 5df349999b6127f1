-- ===== src/Balancer.antt =====
-- include/balancer/Balancer.h and INode.h: the coordinator.
pub mod State
pub mod Snapshot
pub mod Lifecycle
pub mod Submit
pub mod Cancel
pub mod Drain
pub mod Reservation
pub mod Submitting
pub mod Draining
pub mod Cancelling
pub mod Withdrawal
pub mod Construct
pub mod Control
pub mod Account
mod Tests
