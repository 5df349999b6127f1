-- ===== src/Balancer/Control.antt =====
-- Balancer.h: setAgingEnabled with the flag of its thread, setDegradationEnabled and clusterMetrics.
use fatp_balancer.Base.{ℕ, Bool, true, false, if◌then◌else◌}
use fatp_balancer.Floats.{Floats}
use fatp_balancer.Metrics.{ClusterMetrics}
use fatp_balancer.Cost.Model.{CostModel}
use fatp_balancer.Cost.Model as Cost
use fatp_balancer.Balancer.State.{Balancer, INode}
use fatp_balancer.Balancer.Snapshot.{snapshot_metrics, build_cluster_metrics}

module _ {F K N R H : Type 0} where
  -- `mAgingEnabled.exchange(true)`; a thread that runs is not started again.
  unfoldable pub start_aging_thread : Balancer F K N R H → Balancer F K N R H
  start_aging_thread b = if b.aging_enabled then b else record b { aging_enabled = true }

  unfoldable pub stop_aging_thread : Balancer F K N R H → Balancer F K N R H
  stop_aging_thread b = if b.aging_enabled then record b { aging_enabled = false } else b

  unfoldable pub set_aging_enabled : Balancer F K N R H → Bool → Balancer F K N R H
  unfolding start_aging_thread stop_aging_thread
  set_aging_enabled b enabled = if enabled then start_aging_thread b else stop_aging_thread b

module _ {F M N R H : Type 0} where
  unfoldable pub set_degradation_enabled :
      Balancer F (CostModel F M) N R H → Bool → Balancer F (CostModel F M) N R H
  unfolding Cost.set_degradation_enabled
  set_degradation_enabled b enabled = record b {
    cost_model = Cost.set_degradation_enabled b.cost_model enabled;
  }

module _ {F K N R H : Type 0} ⦃fl : Floats F⦄ (inode : INode N F) where
  -- clusterMetrics, which may sample the throughput.
  unfoldable pub metrics_now : Balancer F K N R H → ℕ → Balancer F K N R H × ClusterMetrics F
  unfolding build_cluster_metrics
  metrics_now b now = build_cluster_metrics b (snapshot_metrics inode b.nodes) now
