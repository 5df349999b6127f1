-- ===== src/Supervisor/Defs.antt =====
-- FeatureSupervisor.h: applyChanges, setFeatureEnabled, updateAffinityWarm and the
-- batch observer; TelemetryAdvisor.h: determineAlert and evaluate. fat_p's FeatureManager is an
-- interface. A name is a string; `""` stands for no alert.
use Prim.Native.String.{String}
use text.Mathlib.Text.{◌==◌}
use fatp_balancer.Base.{
  ℕ, Bool, not, ◌&&◌, ◌||◌, leb, if◌then◌else◌, List, [], ◌∷◌, ◌++◌, Expected, ok, err,
}
use fatp_balancer.Floats.{Floats}
use fatp_balancer.Metrics.{ClusterMetrics}
use fatp_balancer.Policy.Factory.{
  policy_round_robin, policy_least_loaded, policy_affinity, policy_work_stealing, policy_composite,
}

abbrev pub feature_affinity_matrix_warm : String
feature_affinity_matrix_warm = "feature.affinity_matrix_warm"

abbrev pub feature_aging : String
feature_aging = "feature.aging"

abbrev pub feature_degradation_curve : String
feature_degradation_curve = "feature.degradation_curve"

abbrev pub admission_bulk_shed : String
admission_bulk_shed = "admission.bulk_shed"

abbrev pub admission_strict : String
admission_strict = "admission.strict"

abbrev pub alert_none : String
alert_none = "alert.none"

abbrev pub alert_overload : String
alert_overload = "alert.overload"

abbrev pub alert_latency : String
alert_latency = "alert.latency"

abbrev pub alert_node_fault : String
alert_node_fault = "alert.node_fault"

-- fat_p::Expected<void, std::string>
abbrev pub Outcome : Type 0
Outcome = Expected (Unit {0}) String

-- The calls of fat_p::feature::FeatureManager.
pub record FeatureManager (G : Type 0) : Type 0 where
  pub replace : G → String → String → G × Outcome
  pub enable : G → String → G × Outcome
  pub disable : G → String → G × Outcome
  pub is_enabled : G → String → Bool

pub record FeatureSupervisor (G : Type 0) : Type 0 where
  pub manager : G
  pub active_alert : String

abbrev pub is_policy_feature : String → Bool
is_policy_feature name =
    name == policy_round_robin
    || name == policy_least_loaded
    || name == policy_work_stealing
    || name == policy_affinity
    || name == policy_composite

abbrev pub is_alert_feature : String → Bool
is_alert_feature name =
    name == alert_none
    || name == alert_overload
    || name == alert_latency
    || name == alert_node_fault

-- `name.empty() ? kAlertNone : name`
unfoldable pub alert_or_none : String → String
alert_or_none name = if name == "" then alert_none else name

module _ {G : Type 0} (features : FeatureManager G) where
  -- After the manager has answered.
  unfoldable pub after_replace :
      FeatureSupervisor G → String → G × Outcome → FeatureSupervisor G × Outcome
  after_replace s alert (g, err e) = (record s { manager = g }, err e)
  after_replace s alert (g, ok _) = (
    record s {
      manager = g;
      active_alert =
          if alert == "" || alert_or_none alert == alert_none then "" else alert_or_none alert;
    },
    ok tt,
  )

  unfoldable pub apply_changes : FeatureSupervisor G → String → FeatureSupervisor G × Outcome
  unfolding after_replace
  apply_changes s alert =
      let target = alert_or_none alert in
      let current = alert_or_none s.active_alert in
      if current == target
      then (s, ok tt)
      else after_replace s alert (features.replace s.manager current target)

  unfoldable pub with_manager : FeatureSupervisor G → G × Outcome → FeatureSupervisor G × Outcome
  with_manager s (g, r) = (record s { manager = g }, r)

  unfoldable pub set_feature_enabled :
      FeatureSupervisor G → String → Bool → FeatureSupervisor G × Outcome
  unfolding with_manager
  set_feature_enabled s name enabled =
      if is_policy_feature name || is_alert_feature name
      then (
        s,
        err
            "setFeatureEnabled() is only for behavioral features; use applyChanges() for alerts and switchPolicy() for manual policy selection",
      )
      else if enabled
      then with_manager s (features.enable s.manager name)
      else with_manager s (features.disable s.manager name)

  -- `warm` is mAffinityMatrix->isMatrixWarm(fraction), of a matrix that is there.
  unfoldable pub update_affinity_warm : FeatureSupervisor G → Bool → FeatureSupervisor G
  unfolding with_manager
  update_affinity_warm s warm =
      let current = features.is_enabled s.manager feature_affinity_matrix_warm in
      if warm && not current
      then (with_manager s (features.enable s.manager feature_affinity_matrix_warm)).0
      else if not warm && current
      then (with_manager s (features.disable s.manager feature_affinity_matrix_warm)).0
      else s

-- FeatureChange
pub record FeatureChange : Type 0 where
  pub name : String
  pub new_state : Bool

-- The calls that the observer makes.
pub data Command : Type 0 where
  set_aging_enabled set_degradation_enabled : Bool → Command
  set_shed_bulk set_admission_strict : Bool → Command
  switch_policy : String → Command

unfoldable pub command : FeatureChange → List Command
command c =
    if c.name == feature_aging
    then set_aging_enabled c.new_state ∷ []
    else if c.name == feature_degradation_curve
    then set_degradation_enabled c.new_state ∷ []
    else if c.name == admission_bulk_shed
    then set_shed_bulk c.new_state ∷ []
    else if c.name == admission_strict
    then set_admission_strict c.new_state ∷ []
    else if is_policy_feature c.name && c.new_state && not (c.name == policy_composite)
    then switch_policy c.name ∷ []
    else []

unfoldable pub commands : List FeatureChange → List Command
commands [] = []
commands (c ∷ cs) = command c ++ commands cs

unfoldable pub observe : List FeatureChange → Bool → List Command
unfolding commands
observe changes committed = if committed then commands changes else []

pub record TelemetryThresholds (F : Type 0) : Type 0 where
  pub unavailable_fraction : F
  pub overload_fraction : F
  pub latency_threshold_us : ℕ

module _ {F : Type 0} ⦃fl : Floats F⦄ where
  -- `x >= y` of floats is `y <= x`.
  unfoldable pub determine_alert : TelemetryThresholds F → ClusterMetrics F → String
  determine_alert th m =
      let total = fl.of_ℕ m.known_nodes in
      if leb m.known_nodes 0
      then ""
      else if fl.le th.unavailable_fraction (fl.div (fl.of_ℕ m.unavailable_nodes) total)
      then alert_node_fault
      else if fl.lt (fl.div (fl.of_ℕ m.active_nodes) total) th.overload_fraction
      then alert_overload
      else if leb th.latency_threshold_us m.mean_p50_latency_us
      then alert_latency
      else ""

  unfoldable pub advise :
      {G : Type 0}
      → FeatureManager G
      → TelemetryThresholds F
      → FeatureSupervisor G
      → ClusterMetrics F
      → FeatureSupervisor G × Outcome
  unfolding apply_changes determine_alert
  advise features th s m = apply_changes features s (determine_alert th m)
