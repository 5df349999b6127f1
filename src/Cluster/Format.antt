-- ===== src/Cluster/Format.antt =====
-- TelemetrySnapshot.h: formatJson, over the calls of fat_p::JsonLite that it makes as an interface.
use fatp_balancer.Base.{ℕ, Bool, List, [], ◌∷◌}
use fatp_balancer.Cluster.Defs.{NodeEntry, TelemetrySnapshot}

-- The keys of the document.
pub data Field : Type 0 where
  node_id state utilization queue_depth p50_latency_us p99_latency_us : Field
  completed_jobs failed_jobs : Field
  nodes active_nodes unavailable_nodes total_submitted in_flight_jobs : Field
  rejected_rate_limited rejected_priority_rejected rejected_cluster_saturated : Field
  overloaded_fraction failed_fraction cluster_p99_latency_us cluster_p50_latency_us : Field

-- An int64_t is its 64-bit word; a text is a list of characters `C`.
pub record Writes (C J F : Type 0) : Type 0 where
  pub object : List (Field × J) → J
  pub array : List J → J
  pub int : ℕ → J
  pub double : F → J
  pub to_json_string : J → Bool → List C

module _ {C J F : Type 0} (w : Writes C J F) where
  unfoldable pub entry_json : NodeEntry F → J
  entry_json n = w.object (
      (node_id, w.int n.node_id)
      ∷ (state, w.int n.state)
      ∷ (utilization, w.double n.utilization)
      ∷ (queue_depth, w.int n.queue_depth)
      ∷ (p50_latency_us, w.int n.p50_latency_us)
      ∷ (p99_latency_us, w.int n.p99_latency_us)
      ∷ (completed_jobs, w.int n.completed_jobs)
      ∷ (failed_jobs, w.int n.failed_jobs)
      ∷ [])

  unfoldable pub entries_json : List (NodeEntry F) → List J
  unfolding entry_json
  entries_json [] = []
  entries_json (n ∷ ns) = entry_json n ∷ entries_json ns

  unfoldable pub format_json : TelemetrySnapshot F → Bool → List C
  unfolding entries_json
  format_json snap pretty =
      w.to_json_string
        (w.object (
          (nodes, w.array (entries_json snap.nodes))
          ∷ (active_nodes, w.int snap.active_nodes)
          ∷ (unavailable_nodes, w.int snap.unavailable_nodes)
          ∷ (total_submitted, w.int snap.total_submitted)
          ∷ (in_flight_jobs, w.int snap.in_flight_jobs)
          ∷ (rejected_rate_limited, w.int snap.rejected_rate_limited)
          ∷ (rejected_priority_rejected, w.int snap.rejected_priority_rejected)
          ∷ (rejected_cluster_saturated, w.int snap.rejected_cluster_saturated)
          ∷ (overloaded_fraction, w.double snap.overloaded_fraction)
          ∷ (failed_fraction, w.double snap.failed_fraction)
          ∷ (cluster_p99_latency_us, w.int snap.cluster_p99_latency_us)
          ∷ (cluster_p50_latency_us, w.int snap.cluster_p50_latency_us)
          ∷ []))
        pretty
