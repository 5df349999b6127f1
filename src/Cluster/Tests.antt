-- ===== src/Cluster/Tests.antt =====
-- SimulatedCluster.h with fractions of natural numbers for floats.
mod Files
use fatp_balancer.Base.{
  ℕ, zero, suc, ◌+◌, ◌*◌, ◌/◌, ◌≡◌, refl, true, false, ltb, leb, ◌==◌, List, [], ◌∷◌, arith,
}
use fatp_balancer.Floats.{Floats}
use fatp_balancer.Metrics.{NodeState, idle, overloaded, LoadMetrics}
use fatp_balancer.Balancer.State.{Balancer}
use fatp_balancer.Aging.{AgingEngine}
use fatp_balancer.Policy.Kinds.{round_robin}
use fatp_balancer.HoldingQueue as Held
use fatp_balancer.Admission as Gate
use fatp_balancer.Balancer.Snapshot.{build_cluster_metrics, tally}
use fatp_balancer.Cost.Curve.{Literals}
use fatp_balancer.Cluster.Defs.{drain_all, capture_snapshot, to_cluster_metrics}
use fatp_balancer.Cluster.Agreement.{IsRounding, to_cluster_metrics-build_cluster_metrics}

-- A numerator and a denominator.
abbrev Fraction : Type 0
Fraction = ℕ × ℕ

instance abbrev fractions : Floats Fraction
fractions = record {
  of_ℕ = λ n. (n, 1);
  of_ticks = λ n. (n, 1);
  add = λ a b. (a.0 * b.1 + b.0 * a.1, a.1 * b.1);
  sub = λ a b. a;
  mul = λ a b. (a.0 * b.0, a.1 * b.1);
  div = λ a b. (a.0 * b.1, a.1 * b.0);
  lt = λ a b. ltb (a.0 * b.1) (b.0 * a.1);
  le = λ a b. leb (a.0 * b.1) (b.0 * a.1);
  eq = λ a b. a.0 * b.1 == b.0 * a.1;
  largest = (1_000_000, 1);
}

instance abbrev literals : Literals Fraction
literals = record { half = (1, 2); tenth = (1, 10); twentieth = (1, 20); to_u64 = λ a. a.0 / a.1 }

abbrev node : ℕ → NodeState → LoadMetrics Fraction
node id state = record {
  node_id = id;
  state = state;
  utilization = (0, 1);
  queue_depth = 0;
  queue_depth_by_priority = λ p. 0;
  p50_latency_us = id * id;
  p99_latency_us = id;
  completed_jobs = 1;
  failed_jobs = 0;
  aged_jobs = 0;
  expired_jobs = 0;
  stolen_jobs = 0;
}

abbrev nodes : List (LoadMetrics Fraction)
nodes = node 1 idle ∷ node 2 overloaded ∷ node 3 overloaded ∷ []

rounds : IsRounding fractions literals 3
rounds zero h = refl
rounds (suc zero) h = refl
rounds (suc (suc zero)) h = refl
rounds (suc (suc (suc zero))) h = refl
rounds (suc (suc (suc (suc k)))) h = ground (arith, h)

abbrev no_aging : AgingEngine
no_aging = record {
  config = record {
    bulk_to_low = 10;
    low_to_normal = 10;
    normal_to_high = 10;
    high_to_critical_enabled = false;
    high_to_critical = 10;
  };
  tracked = [];
}

abbrev balancer : Balancer Fraction (Unit {0}) (Unit {0}) (Unit {0}) (Unit {0})
balancer = record {
  nodes = [];
  policy = round_robin 0;
  max_retries = 3;
  admission =
      Gate.new
        (record {
          global_rate_limit_jps = 0;
          normal_rate_limit_jps = 0;
          low_rate_limit_jps = 0;
          bulk_rate_limit_jps = 0;
          holding_queue_capacity = 2;
        })
        0;
  cost_model = tt;
  routes = tt;
  handles = tt;
  draining = false;
  submitted_count = 0;
  total_submitted = 0;
  total_completed = 0;
  next_job_id = 1;
  sample_completed = 0;
  sample_time = 0;
  cached_throughput = (0, 1);
  holding = Held.new 2;
  aging = no_aging;
  aging_enabled = true;
}

to_cluster_metrics-build_cluster_metrics_example :
    let s = to_cluster_metrics (capture_snapshot balancer nodes) in
    let c = (build_cluster_metrics balancer nodes 0).1 in
    (s.known_nodes ≡ c.known_nodes)
    × (s.active_nodes ≡ c.active_nodes)
    × (s.unavailable_nodes ≡ c.unavailable_nodes)
    × (s.overloaded_nodes ≡ c.overloaded_nodes)
    × (s.max_p99_latency_us ≡ c.max_p99_latency_us)
to_cluster_metrics-build_cluster_metrics_example =
    to_cluster_metrics-build_cluster_metrics balancer nodes 0 (omega arith) rounds

-- The two means of the median latency differ: the snapshot counts the overloaded nodes.
snapshot_median : (to_cluster_metrics (capture_snapshot balancer nodes)).mean_p50_latency_us ≡ 4
unfolding to_cluster_metrics capture_snapshot
snapshot_median = refl

balancer_median : (build_cluster_metrics balancer nodes 0).1.mean_p50_latency_us ≡ 1
unfolding build_cluster_metrics tally
balancer_median = refl

-- The first poll finds a node with a job.
drained_at_second_poll :
    drain_all
      ((record { depth = 1; status = idle } ∷ []) ∷ (record { depth = 0; status = idle } ∷ []) ∷ [])
    ≡ true
unfolding drain_all
drained_at_second_poll = refl
