-- ===== src/Policy.antt =====
-- include/balancer/ISchedulingPolicy.h, ClusterView.h, PolicyFactory.h and policies/*.h.
pub mod View
pub mod Best
pub mod Loads
pub mod RoundRobin
pub mod WorkStealing
pub mod Affinity
pub mod Kinds
pub mod Factory
mod Tests
