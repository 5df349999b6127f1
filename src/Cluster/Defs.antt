-- ===== src/Cluster/Defs.antt =====
-- SimulatedCluster.h: the constructor, start, drainAll, captureSnapshot and toClusterMetrics, with
-- the records of TelemetrySnapshot.h. The times of the polls are not modelled: a poll is what it
-- reads of the nodes.
use fatp_balancer.Base.{
  ℕ, zero, suc, ◌+◌, ◌/◌, Bool, true, false, not, ◌&&◌, ◌||◌, ltb, ◌==◌, if◌then◌else◌, List, [],
  ◌∷◌, length,
}
use fatp_balancer.Job.{Priority, u32, u64, rate_limited, priority_rejected, cluster_saturated}
use fatp_balancer.Floats.{Floats}
use fatp_balancer.Metrics.{
  NodeState, LoadMetrics, ClusterMetrics, is_active, is_unavailable, is_overloaded, is_failed,
}
use fatp_balancer.Balancer.State.{Balancer, FastHashMap}
use fatp_balancer.Cost.Curve.{Literals}
use fatp_balancer.Node.State.{SimulatedNodeConfig, PendingJobState, SlotMap, state_index}
use fatp_balancer.Node.Run.{Run, starts, step, constructed}

pub record SimulatedClusterConfig : Type 0 where
  pub node_count : ℕ
  pub worker_count : ℕ
  pub overload_threshold : ℕ
  pub recover_threshold : ℕ
  pub min_job_duration_us : ℕ
  pub max_job_duration_us : ℕ

-- The configuration of each node; usPerCostUnit keeps its default.
unfoldable pub node_config : SimulatedClusterConfig → SimulatedNodeConfig
node_config c = record {
  worker_count = c.worker_count;
  us_per_cost_unit = 1;
  overload_threshold = c.overload_threshold;
  recover_threshold = c.recover_threshold;
  min_job_duration_us = c.min_job_duration_us;
  max_job_duration_us = c.max_job_duration_us;
}

pub record SimulatedCluster (S O : Type 0) : Type 0 where
  pub nodes : List (Run S O)
  pub started : Bool

-- What drainAll reads of a node: the depth in its metrics, then its status.
pub record Reading : Type 0 where
  pub depth : ℕ
  pub status : NodeState

abbrev pub is_busy : NodeState → Bool
is_busy s = state_index s == 3

-- `!(m.queueDepth > 0 || status == Busy)`
unfoldable pub is_drained : Reading → Bool
is_drained r = not (ltb 0 r.depth || is_busy r.status)

-- The loop over the nodes, which stops at the first that is not idle.
unfoldable pub all_idle : List Reading → Bool
unfolding is_drained
all_idle [] = true
all_idle (r ∷ rs) = let rest = all_idle rs in if is_drained r then rest else false

-- The polls before the deadline.
unfoldable pub drain_all : List (List Reading) → Bool
unfolding all_idle
drain_all [] = false
drain_all (poll ∷ polls) = let rest = drain_all polls in if all_idle poll then true else rest

module _ {S O : Type 0} ⦃slots : SlotMap PendingJobState S⦄ ⦃prios : FastHashMap Priority O⦄ where
  -- `n` nodes from the number `id`.
  unfoldable pub new_nodes : SimulatedNodeConfig → S → O → ℕ → ℕ → List (Run S O)
  new_nodes config s o id zero = []
  new_nodes config s o id (suc n) = constructed id config s o ∷ new_nodes config s o (suc id) n

  unfoldable pub start_all : List (Run S O) → List (Run S O)
  start_all [] = []
  start_all (r ∷ rs) = step r starts ∷ start_all rs

  unfoldable pub start_cluster : SimulatedCluster S O → SimulatedCluster S O
  unfolding start_all
  start_cluster c = if c.started then c else record { nodes = start_all c.nodes; started = true }

  -- The constructor, which starts the nodes.
  unfoldable pub new_cluster : SimulatedClusterConfig → S → O → SimulatedCluster S O
  unfolding new_nodes start_cluster node_config
  new_cluster c s o =
      start_cluster
        (record { nodes = new_nodes (node_config c) s o 1 c.node_count; started = false })

pub record NodeEntry (F : Type 0) : Type 0 where
  pub node_id : ℕ
  pub state : ℕ
  pub utilization : F
  pub queue_depth : ℕ
  pub p50_latency_us : ℕ
  pub p99_latency_us : ℕ
  pub completed_jobs : ℕ
  pub failed_jobs : ℕ

pub record TelemetrySnapshot (F : Type 0) : Type 0 where
  pub nodes : List (NodeEntry F)
  pub active_nodes : ℕ
  pub unavailable_nodes : ℕ
  pub total_submitted : ℕ
  pub in_flight_jobs : ℕ
  pub rejected_rate_limited : ℕ
  pub rejected_priority_rejected : ℕ
  pub rejected_cluster_saturated : ℕ
  pub overloaded_fraction : F
  pub failed_fraction : F
  pub cluster_p99_latency_us : ℕ
  pub cluster_p50_latency_us : ℕ

-- The counters of the loop of captureSnapshot.
pub record Counts : Type 0 where
  pub active : ℕ
  pub unavailable : ℕ
  pub overloaded : ℕ
  pub failed : ℕ
  pub p99_max : ℕ
  pub p50_sum : ℕ
  pub p50_contributors : ℕ

abbrev pub no_counts : Counts
no_counts = record {
  active = 0;
  unavailable = 0;
  overloaded = 0;
  failed = 0;
  p99_max = 0;
  p50_sum = 0;
  p50_contributors = 0;
}

module _ {F : Type 0} where
  unfoldable pub entry_of : LoadMetrics F → NodeEntry F
  entry_of m = record {
    node_id = m.node_id;
    state = state_index m.state;
    utilization = m.utilization;
    queue_depth = m.queue_depth;
    p50_latency_us = m.p50_latency_us;
    p99_latency_us = m.p99_latency_us;
    completed_jobs = m.completed_jobs;
    failed_jobs = m.failed_jobs;
  }

  unfoldable pub count_node : Counts → LoadMetrics F → Counts
  count_node c m = record {
    active = if is_active m.state then u32 (c.active + 1) else c.active;
    unavailable =
        if not (is_active m.state) && is_unavailable m.state
        then u32 (c.unavailable + 1)
        else c.unavailable;
    overloaded = if is_overloaded m.state then u32 (c.overloaded + 1) else c.overloaded;
    failed = if is_failed m.state then u32 (c.failed + 1) else c.failed;
    p99_max = if ltb c.p99_max m.p99_latency_us then m.p99_latency_us else c.p99_max;
    p50_sum = if ltb 0 m.completed_jobs then u64 (c.p50_sum + m.p50_latency_us) else c.p50_sum;
    p50_contributors =
        if ltb 0 m.completed_jobs then u32 (c.p50_contributors + 1) else c.p50_contributors;
  }

  unfoldable pub count_nodes : Counts → List (LoadMetrics F) → Counts
  unfolding count_node
  count_nodes c [] = c
  count_nodes c (m ∷ ms) = count_nodes (count_node c m) ms

  unfoldable pub entries_of : List (LoadMetrics F) → List (NodeEntry F)
  unfolding entry_of
  entries_of [] = []
  entries_of (m ∷ ms) = entry_of m ∷ entries_of ms

module _ {F K N R H : Type 0} ⦃fl : Floats F⦄ where
  -- `ms` are the metrics of the nodes, in their order.
  unfoldable pub capture_snapshot : Balancer F K N R H → List (LoadMetrics F) → TelemetrySnapshot F
  unfolding count_nodes entries_of
  capture_snapshot b ms =
      let c = count_nodes no_counts ms in
      let total = u32 (length ms) in
      let fraction : ℕ → F =
        λ n. if ltb 0 total then fl.div (fl.of_ℕ n) (fl.of_ℕ total) else fl.of_ℕ 0 in
      record {
        nodes = entries_of ms;
        active_nodes = c.active;
        unavailable_nodes = c.unavailable;
        total_submitted = b.total_submitted;
        in_flight_jobs = b.submitted_count;
        rejected_rate_limited = b.admission.rejections rate_limited;
        rejected_priority_rejected = b.admission.rejections priority_rejected;
        rejected_cluster_saturated = b.admission.rejections cluster_saturated;
        overloaded_fraction = fraction c.overloaded;
        failed_fraction = fraction c.failed;
        cluster_p99_latency_us = c.p99_max;
        cluster_p50_latency_us =
            if ltb 0 c.p50_contributors then c.p50_sum / c.p50_contributors else 0;
      }

module _ {F : Type 0} ⦃fl : Floats F⦄ ⦃lit : Literals F⦄ where
  -- detail::toClusterMetrics
  unfoldable pub to_cluster_metrics : TelemetrySnapshot F → ClusterMetrics F
  to_cluster_metrics s =
      let total = u32 (length s.nodes) in
      let overloaded =
        if ltb 0 total
        then u32 (lit.to_u64 (fl.add (fl.mul s.overloaded_fraction (fl.of_ℕ total)) lit.half))
        else 0 in
      record {
        known_nodes = u32 (s.active_nodes + s.unavailable_nodes + overloaded);
        active_nodes = s.active_nodes;
        unavailable_nodes = s.unavailable_nodes;
        overloaded_nodes = overloaded;
        total_submitted = s.total_submitted;
        total_completed = 0;
        total_rejected =
            u64 (
              s.rejected_rate_limited + s.rejected_priority_rejected
              + s.rejected_cluster_saturated);
        rejections_by_code = λ e. 0;
        holding_queue_depth = 0;
        throughput_per_second = fl.of_ℕ 0;
        mean_p50_latency_us = s.cluster_p50_latency_us;
        max_p99_latency_us = s.cluster_p99_latency_us;
      }
