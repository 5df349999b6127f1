-- ===== src/Supervisor/Graph.antt =====
-- FeatureSupervisor.h: buildGraph, the constructor and activePolicy. The calls of FeatureManager
-- that build its graph are an interface; of the relationships the source uses one.
use Prim.Native.String.{String}
use fatp_balancer.Base.{if◌then◌else◌, List, [], ◌∷◌}
use fatp_balancer.Policy.Factory.{
  policy_round_robin, policy_least_loaded, policy_affinity, policy_work_stealing, policy_composite,
}
use fatp_balancer.Supervisor.Defs.{
  Outcome, FeatureManager, FeatureSupervisor, feature_affinity_matrix_warm, feature_aging,
  feature_degradation_curve, admission_bulk_shed, admission_strict, alert_none, alert_overload,
  alert_latency, alert_node_fault,
}

abbrev pub feature_affinity_matrix : String
feature_affinity_matrix = "feature.affinity_matrix"

pub data FeatureRelationship : Type 0 where
  entails : FeatureRelationship

pub record GraphCalls (G : Type 0) : Type 0 where
  pub add_feature : G → String → G × Outcome
  pub add_mutually_exclusive_group : G → String → List String → G × Outcome
  pub add_relationship : G → String → FeatureRelationship → String → G × Outcome

abbrev pub all_features : List String
all_features =
    policy_round_robin ∷ policy_least_loaded ∷ policy_affinity ∷ policy_work_stealing
    ∷ policy_composite ∷ feature_affinity_matrix ∷ feature_affinity_matrix_warm ∷ feature_aging
    ∷ feature_degradation_curve ∷ admission_bulk_shed ∷ admission_strict ∷ alert_none
    ∷ alert_overload ∷ alert_latency ∷ alert_node_fault ∷ []

abbrev pub alert_group : List String
alert_group = alert_none ∷ alert_overload ∷ alert_latency ∷ alert_node_fault ∷ []

abbrev pub policy_group : List String
policy_group =
    policy_round_robin ∷ policy_least_loaded ∷ policy_affinity ∷ policy_work_stealing
    ∷ policy_composite ∷ []

-- The calls of addRelationship, in their order.
abbrev pub entailments : List (String × String)
entailments =
    (alert_none, policy_round_robin)
    ∷ (alert_overload, policy_work_stealing)
    ∷ (alert_overload, admission_bulk_shed)
    ∷ (alert_latency, policy_round_robin)
    ∷ (alert_latency, admission_bulk_shed)
    ∷ (alert_latency, feature_aging)
    ∷ (alert_node_fault, policy_round_robin)
    ∷ (alert_node_fault, admission_strict)
    ∷ []

module _ {G : Type 0} (graph : GraphCalls G) where
  unfoldable pub add_features : G → List String → G
  add_features g [] = g
  add_features g (name ∷ names) = add_features (graph.add_feature g name).0 names

  unfoldable pub add_entailments : G → List (String × String) → G
  add_entailments g [] = g
  add_entailments g ((alert, target) ∷ es) =
      add_entailments (graph.add_relationship g alert entails target).0 es

  unfoldable pub build_graph : G → G
  unfolding add_features add_entailments
  build_graph g =
      let g1 = add_features g all_features in
      let g2 = (graph.add_mutually_exclusive_group g1 "alert_group" alert_group).0 in
      let g3 = (graph.add_mutually_exclusive_group g2 "policy_group" policy_group).0 in
      add_entailments g3 entailments

  -- The constructor; `g` is the manager without features. The result of enable is not read.
  unfoldable pub new_supervisor : FeatureManager G → G → FeatureSupervisor G
  unfolding build_graph
  new_supervisor features g = record {
    manager = (features.enable (build_graph g) alert_none).0;
    active_alert = "";
  }

module _ {G : Type 0} (features : FeatureManager G) where
  -- The loop over kPolicies.
  unfoldable pub first_enabled : G → List String → String
  first_enabled g [] = policy_round_robin
  first_enabled g (p ∷ ps) = if features.is_enabled g p then p else first_enabled g ps

  unfoldable pub active_policy : FeatureSupervisor G → String
  unfolding first_enabled
  active_policy s = first_enabled s.manager (
      policy_round_robin ∷ policy_least_loaded ∷ policy_work_stealing ∷ policy_affinity
      ∷ policy_composite ∷ [])
