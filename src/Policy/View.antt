-- ===== src/Policy/View.antt =====
-- ClusterView.h, and the errors of ISchedulingPolicy.h. The shared CostModel is seen through the
-- queries that the policies make.
use fatp_balancer.Base.{
  ℕ, ◌≡◌, Bool, true, false, ◌==◌, if◌then◌else◌, List, [], ◌∷◌, Option, none, some, Expected, In,
}
use fatp_balancer.Job.{Priority, Job}
use fatp_balancer.Metrics.{LoadMetrics, ClusterMetrics, node_accepts_priority}

pub data SelectError : Type 0 where
  no_nodes none_eligible : SelectError

abbrev pub Selection : Type 0
Selection = Expected ℕ SelectError

-- The const queries of CostModel.
pub record CostView (F : Type 0) : Type 0 where
  pub predict : Job → ℕ → ℕ
  pub node_multiplier : ℕ → F
  pub affinity_score : ℕ → ℕ → F
  pub is_affinity_cell_warm : ℕ → ℕ → Bool

pub record ClusterView (F : Type 0) : Type 0 where
  pub nodes : List (LoadMetrics F)
  pub cluster : ClusterMetrics F
  pub cost_model : CostView F

module _ {F : Type 0} where
  -- `if (m.nodeId == nodeId) return &m;` over the snapshot.
  find_metrics : ℕ → List (LoadMetrics F) → Option (LoadMetrics F)
  find_metrics id [] = none
  find_metrics id (m ∷ ms) = if m.node_id == id then some m else find_metrics id ms

  unfoldable pub node_metrics : ClusterView F → ℕ → Option (LoadMetrics F)
  unfolding find_metrics
  node_metrics view id = find_metrics id view.nodes

  eligible_ids : List (LoadMetrics F) → Priority → List ℕ
  eligible_ids [] p = []
  eligible_ids (m ∷ ms) p =
      let rest = eligible_ids ms p in
      if node_accepts_priority m.state p then m.node_id ∷ rest else rest

  unfoldable pub eligible_nodes : ClusterView F → Priority → List ℕ
  unfolding eligible_ids
  eligible_nodes view p = eligible_ids view.nodes p

  -- Some node of the list accepts the priority.
  unfoldable pub any_eligible : Priority → List (LoadMetrics F) → Bool
  any_eligible p [] = false
  any_eligible p (m ∷ ms) =
      let rest = any_eligible p ms in if node_accepts_priority m.state p then true else rest

  -- A selected node is a node of the snapshot that accepts the priority.
  abbrev pub IsEligible : List (LoadMetrics F) → Priority → ℕ → Type 0
  IsEligible ms p id =
      (m : LoadMetrics F) × In m ms × (m.node_id ≡ id) × (node_accepts_priority m.state p ≡ true)
