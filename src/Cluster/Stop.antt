-- ===== src/Cluster/Stop.antt =====
-- SimulatedCluster.h: stop and the destructor, which end every node, and tick. The order of the
-- nodes does not matter, since no node calls another; stopSnapshotWriter, which stop calls first, is
-- in Writer.
use fatp_balancer.Base.{
  ℕ, zero, suc, ◌+◌, ◌≡◌, refl, Bool, false, if◌then◌else◌, List, [], ◌∷◌, length, has_value, arith,
}
use fatp_balancer.Job.{Job}
use fatp_balancer.Floats.{Floats}
use fatp_balancer.Metrics.{offline}
use fatp_balancer.Balancer.State.{Balancer, INode, FastHashMap}
use fatp_balancer.Balancer.Control.{metrics_now}
use fatp_balancer.Supervisor.Defs.{
  Outcome, FeatureManager, FeatureSupervisor, TelemetryThresholds, advise,
}
use fatp_balancer.Job.{Priority}
use fatp_balancer.Node.State.{PendingJobState, SlotMap, Node}
use fatp_balancer.Node.Jobs.{submit}
use fatp_balancer.Node.Run.{Run, Event, begins_stop, ends_stop, begins, ends, step, steps}
use fatp_balancer.Node.Ledger.{IsSound}
use fatp_balancer.Cluster.Defs.{SimulatedCluster}

is_empty : {A : Type 0} (xs : List A) → length xs ≡ 0 → xs ≡ []
is_empty [] e = refl
is_empty (x ∷ xs) e = ground (arith, e)

-- What the pool and other threads do while a node stops, and how long the n-th task that then still
-- runs takes, and whether it succeeds.
pub record Shutdown : Type 0 where
  pub meanwhile : List Event
  pub outcome : ℕ → ℕ × Bool

unfoldable pub begin_all : ℕ → List Event
begin_all zero = []
begin_all (suc n) = begins 0 ∷ begin_all n

unfoldable pub end_all : ℕ → (ℕ → ℕ × Bool) → List Event
end_all zero outcome = []
end_all (suc n) outcome = ends 0 (outcome n).0 (outcome n).1 ∷ end_all n outcome

module _ {S O : Type 0} ⦃slots : SlotMap PendingJobState S⦄ ⦃prios : FastHashMap Priority O⦄ where
  -- shutdown of the pool: every task that it still has is begun and run to its end.
  unfoldable pub shut_down : Run S O → (ℕ → ℕ × Bool) → Run S O
  unfolding begin_all end_all
  shut_down r outcome =
      let begun = steps r (begin_all (length r.waiting)) in
      steps begun (end_all (length begun.running) outcome)

  unfoldable pub stop_node : Run S O → Shutdown → Run S O
  unfolding shut_down
  stop_node r d = step (shut_down (steps (step r begins_stop) d.meanwhile) d.outcome) ends_stop

  -- The n-th node stops as `ds n` says.
  unfoldable pub stop_all : List (Run S O) → (ℕ → Shutdown) → List (Run S O)
  unfolding stop_node
  stop_all [] ds = []
  stop_all (r ∷ rs) ds = stop_node r (ds 0) ∷ stop_all rs (λ n. ds (suc n))

  unfoldable pub stop_cluster : SimulatedCluster S O → (ℕ → Shutdown) → SimulatedCluster S O
  unfolding stop_all
  stop_cluster c ds =
      if c.started then record { nodes = stop_all c.nodes ds; started = false } else c

  -- The nodes are sound, with room for what happens meanwhile.
  abbrev pub AllSound : List (Run S O) → (ℕ → Shutdown) → Type 0
  AllSound [] ds = Unit
  AllSound (r ∷ rs) ds =
      IsSound r (length (begins_stop ∷ (ds 0).meanwhile)) × AllSound rs (λ n. ds (suc n))

  -- No task is left, every job that was taken was called back or dropped, and no job is taken.
  pub record IsStopped (r : Run S O) : Type 0 where
    pub state : r.node.state ≡ offline
    pub waiting : r.waiting ≡ []
    pub running : r.running ≡ []
    pub answered : r.accepted ≡ length r.called + length r.dropped
    pub closed : (job : Job) → has_value (submit r.node job).1 ≡ false

module _ {F K N R H : Type 0} ⦃fl : Floats F⦄ (inode : INode N F) where
  -- tick: the advisor is asked with the metrics of the balancer.
  unfoldable pub tick :
      {G : Type 0}
      → FeatureManager G
      → TelemetryThresholds F
      → FeatureSupervisor G
      → Balancer F K N R H
      → ℕ
      → FeatureSupervisor G × Outcome
  unfolding advise metrics_now
  tick features thresholds s b now = advise features thresholds s (metrics_now inode b now).1
