-- ===== src/Cost.antt =====
-- CostModel.h and AffinityMatrix.h: the model that learns what jobs cost on each node.
pub mod Matrix
pub mod Curve
pub mod Model
pub mod Learning
pub mod Json
pub mod Persist
pub mod File
pub mod Snapshot
pub mod Failing
pub mod Reload
pub mod Storable
pub mod Restored
pub mod Forecast
mod Tests
