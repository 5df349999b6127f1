-- ===== src/Balancer/Snapshot.antt =====
-- Balancer.h: snapshotMetrics, buildClusterMetrics, areAllEligibleOverloaded and findNode.
use fatp_balancer.Base.{
  ℕ, ◌+◌, ◌-◌, ◌/◌, ◌%◌, ◌^◌, ◌≡◌, Bool, true, false, not, ◌&&◌, ltb, ◌==◌, if◌then◌else◌, List, [],
  ◌∷◌, Option, none, some, arith,
}
use fatp_balancer.Job.{
  Priority, u32, u64, SubmitError, rate_limited, priority_rejected, cluster_saturated,
  holding_queue_full, deadline_unachievable, node_not_found,
}
use fatp_balancer.Floats.{Floats}
use fatp_balancer.Metrics.{
  LoadMetrics, ClusterMetrics, is_active, is_unavailable, is_overloaded, node_accepts_priority,
}
use fatp_balancer.Policy.View.{any_eligible}
use fatp_balancer.Balancer.State.{Balancer, INode}

-- The counters of the loop of buildClusterMetrics.
pub record Tally : Type 0 where
  pub active : ℕ
  pub unavailable : ℕ
  pub overloaded : ℕ
  pub p50_sum : ℕ
  pub p50_count : ℕ
  pub p99_max : ℕ

abbrev pub no_tally : Tally
no_tally = record {
  active = 0;
  unavailable = 0;
  overloaded = 0;
  p50_sum = 0;
  p50_count = 0;
  p99_max = 0;
}

-- The sum over mRejections, of its six codes.
abbrev pub rejected_sum : (SubmitError → ℕ) → ℕ
rejected_sum r = u64 (
    r rate_limited
    + r priority_rejected
    + r cluster_saturated
    + r holding_queue_full
    + r deadline_unachievable
    + r node_not_found)

module _ {F : Type 0} where
  unfoldable pub tally : Tally → LoadMetrics F → Tally
  tally c m = record {
    active = if is_active m.state then u32 (c.active + 1) else c.active;
    unavailable = if is_unavailable m.state then u32 (c.unavailable + 1) else c.unavailable;
    overloaded = if is_overloaded m.state then u32 (c.overloaded + 1) else c.overloaded;
    p50_sum =
        if is_active m.state && ltb 0 m.completed_jobs
        then u64 (c.p50_sum + m.p50_latency_us)
        else c.p50_sum;
    p50_count =
        if is_active m.state && ltb 0 m.completed_jobs then u32 (c.p50_count + 1) else c.p50_count;
    p99_max = if ltb c.p99_max m.p99_latency_us then m.p99_latency_us else c.p99_max;
  }

  unfoldable pub tally_all : Tally → List (LoadMetrics F) → Tally
  tally_all c [] = c
  tally_all c (m ∷ ms) = tally_all (tally c m) ms

  unfoldable pub are_all_eligible_overloaded_from : Bool → Priority → List (LoadMetrics F) → Bool
  are_all_eligible_overloaded_from any p [] = any
  are_all_eligible_overloaded_from any p (m ∷ ms) =
      let rest = are_all_eligible_overloaded_from true p ms in
      let skipped = are_all_eligible_overloaded_from any p ms in
      if node_accepts_priority m.state p
      then (if is_overloaded m.state then rest else false)
      else skipped

  unfoldable pub are_all_eligible_overloaded : List (LoadMetrics F) → Priority → Bool
  unfolding are_all_eligible_overloaded_from
  are_all_eligible_overloaded ms p = are_all_eligible_overloaded_from false p ms

  -- Some node of the list accepts the priority and is not overloaded.
  unfoldable pub any_ready : Priority → List (LoadMetrics F) → Bool
  any_ready p [] = false
  any_ready p (m ∷ ms) =
      let rest = any_ready p ms in
      if node_accepts_priority m.state p && not (is_overloaded m.state) then true else rest

  all_overloaded_from :
      (any : Bool) (p : Priority) (ms : List (LoadMetrics F))
      → are_all_eligible_overloaded_from any p ms
        ≡ (not (any_ready p ms) && (if any then true else any_eligible p ms))
  unfolding are_all_eligible_overloaded_from any_ready any_eligible
  all_overloaded_from any p [] = ground arith
  all_overloaded_from any p (m ∷ ms) =
      ground (arith, all_overloaded_from true p ms, all_overloaded_from any p ms)

  -- The cluster counts as saturated for a priority exactly when some node accepts it and every node
  -- that does is overloaded; a cluster in which none does is not saturated.
  pub are_all_eligible_overloaded_lem :
      (p : Priority) (ms : List (LoadMetrics F))
      → are_all_eligible_overloaded ms p ≡ (not (any_ready p ms) && any_eligible p ms)
  unfolding are_all_eligible_overloaded
  are_all_eligible_overloaded_lem p ms = all_overloaded_from false p ms

module _ {F N : Type 0} (inode : INode N F) where
  abbrev pub snapshot_metrics : List N → List (LoadMetrics F)
  snapshot_metrics [] = []
  snapshot_metrics (n ∷ ns) = inode.metrics n ∷ snapshot_metrics ns

  unfoldable pub find_node : List N → ℕ → Option N
  find_node [] id = none
  find_node (n ∷ ns) id = if inode.id n == id then some n else find_node ns id

  -- The nodes after a call on the one that findNode finds.
  unfoldable pub set_node : List N → ℕ → N → List N
  set_node [] id n' = []
  set_node (n ∷ ns) id n' =
      let rest = set_node ns id n' in if inode.id n == id then n' ∷ ns else n ∷ rest

module _ {F K N R H : Type 0} ⦃fl : Floats F⦄ where
  -- The rolling window of one second: sampled again after half a second.
  unfoldable pub sample_throughput : Balancer F K N R H → ℕ → Balancer F K N R H
  sample_throughput b now =
      let elapsed = fl.of_ticks (now - b.sample_time) in
      let delta = (b.total_completed + 2 ^ 64 - b.sample_completed) % 2 ^ 64 in
      if fl.le (fl.div (fl.of_ℕ 1) (fl.of_ℕ 2)) elapsed
      then record b {
        cached_throughput =
            if fl.lt (fl.of_ℕ 0) elapsed then fl.div (fl.of_ℕ delta) elapsed else fl.of_ℕ 0;
        sample_completed = b.total_completed;
        sample_time = now;
      }
      else b

  unfoldable pub cluster_metrics : Balancer F K N R H → Tally → ClusterMetrics F
  cluster_metrics b c = record {
    known_nodes = u32 (c.active + c.unavailable + c.overloaded);
    active_nodes = c.active;
    unavailable_nodes = c.unavailable;
    overloaded_nodes = c.overloaded;
    total_submitted = b.total_submitted;
    total_completed = b.total_completed;
    total_rejected = rejected_sum b.admission.rejections;
    rejections_by_code = b.admission.rejections;
    holding_queue_depth = b.admission.holding_queue_depth;
    throughput_per_second = b.cached_throughput;
    mean_p50_latency_us = if ltb 0 c.p50_count then c.p50_sum / c.p50_count else 0;
    max_p99_latency_us = c.p99_max;
  }

  unfoldable pub build_cluster_metrics :
      Balancer F K N R H → List (LoadMetrics F) → ℕ → Balancer F K N R H × ClusterMetrics F
  unfolding cluster_metrics sample_throughput tally_all
  build_cluster_metrics b ms now =
      let b' = sample_throughput b now in (b', cluster_metrics b' (tally_all no_tally ms))
