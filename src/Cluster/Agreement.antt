-- ===== src/Cluster/Agreement.antt =====
-- SimulatedCluster.h: captureSnapshot with toClusterMetrics against Balancer.h's buildClusterMetrics,
-- and what a drain that succeeds has seen.
use fatp_balancer.Base.{
  ℕ, ◌+◌, ◌≤◌, ◌<◌, ◌^◌, ◌≡◌, refl, ap, ◌∙◌, true, List, [], ◌∷◌, length, arith,
}
use fatp_balancer.Job.{Priority, u32}
use fatp_balancer.Floats.{Floats}
use fatp_balancer.Metrics.{LoadMetrics}
use fatp_balancer.Balancer.State.{Balancer, FastHashMap}
use fatp_balancer.Balancer.Snapshot.{
  Tally, tally, tally_all, no_tally, build_cluster_metrics, cluster_metrics,
}
use fatp_balancer.Cost.Curve.{Literals}
use fatp_balancer.Node.State.{PendingJobState, SlotMap}
use fatp_balancer.Node.Run.{Run}
use fatp_balancer.Node.Ledger.{IsSound}
use fatp_balancer.Cluster.Defs.{
  Reading, is_drained, Counts, no_counts, count_node, count_nodes, entries_of, capture_snapshot,
  to_cluster_metrics,
}

-- The counters that the two loops share.
record HasSameCounts (c : Counts) (t : Tally) : Type 0 where
  active : c.active ≡ t.active
  unavailable : c.unavailable ≡ t.unavailable
  overloaded : c.overloaded ≡ t.overloaded
  p99_max : c.p99_max ≡ t.p99_max

module _ {F : Type 0} where
  count_nodes-HasSameCounts :
      (ms : List (LoadMetrics F)) (c : Counts) (t : Tally)
      → HasSameCounts c t
      → HasSameCounts (count_nodes c ms) (tally_all t ms)
  unfolding count_nodes tally_all count_node tally
  count_nodes-HasSameCounts [] c t a = a
  count_nodes-HasSameCounts (m ∷ ms) c t a =
      count_nodes-HasSameCounts ms (count_node c m) (tally t m) (record {
        active = ground (arith, a.active);
        unavailable = ground (arith, a.unavailable);
        overloaded = ground (arith, a.overloaded);
        p99_max = ground (arith, a.p99_max);
      })

  overloaded-le-length :
      (ms : List (LoadMetrics F)) (c : Counts)
      → (count_nodes c ms).overloaded ≤ c.overloaded + length ms
  unfolding count_nodes count_node
  overloaded-le-length [] c = omega arith
  overloaded-le-length (m ∷ ms) c = ground (arith, overloaded-le-length ms (count_node c m))

  length-entries_of : (ms : List (LoadMetrics F)) → length (entries_of ms) ≡ length ms
  unfolding entries_of
  length-entries_of [] = refl
  length-entries_of (m ∷ ms) = ground (arith, length-entries_of ms)

-- Rounding gives a count back from its fraction of `n`.
abbrev pub IsRounding : {F : Type 0} → Floats F → Literals F → ℕ → Type 0
IsRounding {F} fl lit n =
    (k : ℕ)
    → k ≤ n
    → lit.to_u64 (fl.add (fl.mul (fl.div (fl.of_ℕ k) (fl.of_ℕ n)) (fl.of_ℕ n)) lit.half) ≡ k

module _ {F K N R H : Type 0} ⦃fl : Floats F⦄ ⦃lit : Literals F⦄ where
  overloaded-capture_snapshot :
      (b : Balancer F K N R H) (ms : List (LoadMetrics F))
      → length ms < 2 ^ 32
      → IsRounding fl lit (length ms)
      → (to_cluster_metrics (capture_snapshot b ms)).overloaded_nodes
        ≡ (count_nodes no_counts ms).overloaded
  unfolding capture_snapshot to_cluster_metrics count_nodes
  overloaded-capture_snapshot b [] h r = refl
  overloaded-capture_snapshot b (m ∷ ms) h r =
      let o = (count_nodes no_counts (m ∷ ms)).overloaded in
      let l : o ≤ length (m ∷ ms) = omega (arith, overloaded-le-length (m ∷ ms) no_counts) in
      ground (arith, l, h, r o l, length-entries_of (m ∷ ms))

  -- For fewer than 2^32 nodes, if rounding gives a count back from its fraction of them: the
  -- metrics that toClusterMetrics makes of a snapshot have the same known, active, unavailable and
  -- overloaded nodes and the same worst latency as those that the balancer builds of the nodes.
  pub to_cluster_metrics-build_cluster_metrics :
      (b : Balancer F K N R H) (ms : List (LoadMetrics F)) (now : ℕ)
      → length ms < 2 ^ 32
      → IsRounding fl lit (length ms)
      → let s = to_cluster_metrics (capture_snapshot b ms) in
        let c = (build_cluster_metrics b ms now).1 in
        (s.known_nodes ≡ c.known_nodes)
        × (s.active_nodes ≡ c.active_nodes)
        × (s.unavailable_nodes ≡ c.unavailable_nodes)
        × (s.overloaded_nodes ≡ c.overloaded_nodes)
        × (s.max_p99_latency_us ≡ c.max_p99_latency_us)
  unfolding capture_snapshot build_cluster_metrics cluster_metrics to_cluster_metrics
  to_cluster_metrics-build_cluster_metrics b ms now h r =
      let a =
        count_nodes-HasSameCounts ms no_counts no_tally
          (record { active = refl; unavailable = refl; overloaded = refl; p99_max = refl }) in
      let o = overloaded-capture_snapshot b ms h r in
      let s = to_cluster_metrics (capture_snapshot b ms) in
      let t = tally_all no_tally ms in
      let e : s.active_nodes + s.unavailable_nodes + s.overloaded_nodes
          ≡ t.active + t.unavailable + t.overloaded =
        omega (arith, a.active, a.unavailable, o ∙ a.overloaded) in
      (ap (λ n. u32 n) e, a.active, a.unavailable, o ∙ a.overloaded, a.p99_max)

module _ {S O : Type 0} ⦃slots : SlotMap PendingJobState S⦄ ⦃prios : FastHashMap Priority O⦄ where
  -- What drainAll reads of a node.
  abbrev pub reading : Run S O → Reading
  reading r = record { depth = r.node.queue_depth; status = r.node.state }

  -- A sound run of a node that drainAll finds idle has no task left with its pool: every job that
  -- the node took was called back or dropped.
  pub is_drained-IsSound :
      (r : Run S O) (room : ℕ)
      → IsSound r room
      → is_drained (reading r) ≡ true
      → (r.waiting ≡ []) × (r.running ≡ []) × (r.accepted ≡ length r.called + length r.dropped)
  unfolding is_drained
  is_drained-IsSound r room s h =
      let z : length r.waiting + length r.running ≡ 0 = ground (arith, h, s.node.depth) in
      (
        nil r.waiting (omega (arith, z)),
        nil r.running (omega (arith, z)),
        omega (arith, z, s.ledger),
      )
    where
      nil : {A : Type 0} (xs : List A) → length xs ≡ 0 → xs ≡ []
      nil [] e = refl
      nil (x ∷ xs) e = ground (arith, e)
