-- ===== src/Supervisor/Tests.antt =====
-- The supervisor over a feature manager that keeps the enabled name and refuses "alert.latency".
mod Graphs
mod Files
use Prim.Native.String.{String}
use text.Mathlib.Text.{◌==◌}
use fatp_balancer.Base.{ℕ, ◌≡◌, refl, true, false, if◌then◌else◌, [], ◌∷◌, ok, err, has_value}
use fatp_balancer.Floats.{nat_floats}
use fatp_balancer.Metrics.{ClusterMetrics}
use fatp_balancer.Policy.Factory.{policy_work_stealing, policy_composite}
use fatp_balancer.Supervisor.Defs.{
  FeatureManager, FeatureSupervisor, TelemetryThresholds, alert_none, alert_overload, alert_latency,
  alert_node_fault, admission_strict, feature_affinity_matrix_warm, alert_or_none, apply_changes,
  set_feature_enabled, with_manager, update_affinity_warm, set_admission_strict, switch_policy,
  observe, commands, command, determine_alert, advise,
}
use fatp_balancer.Supervisor.Alerts.{advise_steady}

abbrev manager : FeatureManager String
manager = record {
  replace = λ g from to. if to == alert_latency then (g, err "refused") else (to, ok tt);
  enable = λ g name. (name, ok tt);
  disable = λ g name. ("", ok tt);
  is_enabled = λ g name. g == name;
}

abbrev idle : FeatureSupervisor String
idle = record { manager = alert_none; active_alert = "" }

abbrev thresholds : TelemetryThresholds ℕ
thresholds = record {
  unavailable_fraction = 1;
  overload_fraction = 1;
  latency_threshold_us = 10_000;
}

-- Three known nodes, of which one is active.
abbrev metrics : ClusterMetrics ℕ
metrics = record {
  known_nodes = 3;
  active_nodes = 1;
  unavailable_nodes = 0;
  overloaded_nodes = 2;
  total_submitted = 0;
  total_completed = 0;
  total_rejected = 0;
  rejections_by_code = λ e. 0;
  holding_queue_depth = 0;
  throughput_per_second = 0;
  mean_p50_latency_us = 0;
  max_p99_latency_us = 0;
}

alerts :
    (determine_alert thresholds metrics ≡ alert_overload)
    × (determine_alert thresholds (record metrics { unavailable_nodes = 3 }) ≡ alert_node_fault)
    × (determine_alert thresholds (record metrics { known_nodes = 0 }) ≡ "")
unfolding determine_alert
alerts = (refl, refl, refl)

observed :
    (observe
        (record { name = admission_strict; new_state = true }
          ∷ record { name = policy_work_stealing; new_state = true }
          ∷ record { name = policy_composite; new_state = true }
          ∷ [])
        true
      ≡ set_admission_strict true ∷ switch_policy policy_work_stealing ∷ [])
    × (observe (record { name = admission_strict; new_state = true } ∷ []) false ≡ [])
unfolding observe commands command
observed = (refl, refl)

only_behaviour : has_value (set_feature_enabled manager idle alert_overload true).1 ≡ false
unfolding set_feature_enabled
only_behaviour = refl

warms : (update_affinity_warm manager idle true).manager ≡ feature_affinity_matrix_warm
unfolding update_affinity_warm with_manager
warms = refl

refused_latency : (apply_changes manager idle alert_latency).1 ≡ err "refused"
unfolding apply_changes alert_or_none
refused_latency = refl

overload_set : has_value (apply_changes manager idle alert_overload).1 ≡ true
unfolding apply_changes alert_or_none
overload_set = refl

advice_taken : has_value (advise manager thresholds idle metrics).1 ≡ true
unfolding advise alert_or_none
advice_taken = refl

advise_steady_example :
    let s' = (advise manager thresholds idle metrics).0 in
    (alert_or_none s'.active_alert ≡ alert_or_none (determine_alert thresholds metrics))
    × (advise manager thresholds s' metrics ≡ (s', ok tt))
advise_steady_example = advise_steady manager thresholds idle metrics advice_taken
