-- ===== src/Metrics.antt =====
-- include/balancer/LoadMetrics.h: node states, which priorities they accept, and the snapshots.
-- A float field has the type `F`.
mod Tests
use fatp_balancer.Base.{ℕ, ◌≡◌, ◌≤◌, ◌↔◌, Bool, true, false, ◌||◌, arith, List}
use fatp_balancer.Job.{
  Priority, critical, high, normal, low, bulk, index, is_critical, is_urgent, SubmitError,
}

pub data NodeState : Type 0 where
  offline initializing idle busy overloaded draining failed recovering : NodeState

abbrev pub is_overloaded : NodeState → Bool
is_overloaded overloaded = true
is_overloaded _ = false

abbrev pub is_failed : NodeState → Bool
is_failed failed = true
is_failed _ = false

-- `state == Idle || state == Busy`
abbrev pub is_active : NodeState → Bool
is_active idle = true
is_active busy = true
is_active _ = false

-- `state == Failed || state == Offline`
abbrev pub is_unavailable : NodeState → Bool
is_unavailable failed = true
is_unavailable offline = true
is_unavailable _ = false

unfoldable pub node_accepts_priority : NodeState → Priority → Bool
node_accepts_priority idle p = true
node_accepts_priority busy p = true
node_accepts_priority overloaded p = is_urgent p
node_accepts_priority recovering p = is_urgent p
node_accepts_priority draining p = is_critical p
node_accepts_priority offline p = false
node_accepts_priority initializing p = false
node_accepts_priority failed p = false

pub record LoadMetrics (F : Type 0) : Type 0 where
  pub node_id : ℕ
  pub state : NodeState
  pub utilization : F
  pub queue_depth : ℕ
  pub queue_depth_by_priority : Priority → ℕ
  pub p50_latency_us : ℕ
  pub p99_latency_us : ℕ
  pub completed_jobs : ℕ
  pub failed_jobs : ℕ
  pub aged_jobs : ℕ
  pub expired_jobs : ℕ
  pub stolen_jobs : ℕ

pub record ClusterMetrics (F : Type 0) : Type 0 where
  pub known_nodes : ℕ
  pub active_nodes : ℕ
  pub unavailable_nodes : ℕ
  pub overloaded_nodes : ℕ
  pub total_submitted : ℕ
  pub total_completed : ℕ
  pub total_rejected : ℕ
  pub rejections_by_code : SubmitError → ℕ
  pub holding_queue_depth : ℕ
  pub throughput_per_second : F
  pub mean_p50_latency_us : ℕ
  pub max_p99_latency_us : ℕ

-- A state that accepts a job accepts every job of a higher priority: no promotion makes a node
-- refuse a job.
pub node_accepts_priority_mono :
    (s : NodeState) (p q : Priority)
    → index q ≤ index p
    → node_accepts_priority s p ≡ true
    → node_accepts_priority s q ≡ true
unfolding node_accepts_priority
node_accepts_priority_mono s p q h k = ground arith
