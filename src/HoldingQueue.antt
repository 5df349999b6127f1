-- ===== src/HoldingQueue.antt =====
-- include/balancer/HoldingQueue.h: the bounded store of overflow Critical and High jobs.
-- A completion callback is a value of the type `C`; every method runs whole under `mMutex`.
mod Defs
pub mod Waiting
pub mod Invariant
pub mod Refinement
pub mod Handles
pub mod Withdraw
mod Tests
unfoldable pub use Defs.*
