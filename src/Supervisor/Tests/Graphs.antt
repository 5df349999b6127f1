-- ===== src/Supervisor/Tests/Graphs.antt =====
-- The feature graph over a manager that keeps its edges as a function, and a balancer that is told
-- of two calls.
use Prim.Native.String.{String}
use text.Mathlib.Text.{◌==◌}
use fatp_balancer.Base.{
  ℕ, ◌≡◌, refl, Bool, true, false, ◌&&◌, ◌||◌, if◌then◌else◌, List, [], ◌∷◌, ◌++◌, some, ok, err,
  arith,
}
use fatp_balancer.Floats.{nat_floats}
use fatp_balancer.Policy.Kinds.{round_robin}
use fatp_balancer.Policy.Factory.{policy_round_robin, policy_work_stealing}
use fatp_balancer.Cost.Matrix.{new_matrix}
use fatp_balancer.Cost.Model.{CostModel}
use fatp_balancer.Balancer.State.{Balancer}
use fatp_balancer.Balancer.Construct.{BalancerConfig, new_balancer}
use fatp_balancer.Supervisor.Defs.{
  FeatureManager, alert_overload, feature_aging, admission_bulk_shed,
}
use fatp_balancer.Supervisor.Wiring.{Report, notify}
use fatp_balancer.Supervisor.Reports.{committed, Follows, notify-Follows}
use fatp_balancer.Supervisor.Graph.{
  entails, GraphCalls, all_features, build_graph, new_supervisor, active_policy,
}
use fatp_balancer.Supervisor.Consequences.{GraphLaws, consequences, has, entailed-build_graph}

record Edges : Type 0 where
  known : String → Bool
  to : String → List String
  enabled : String → Bool

abbrev no_edges : Edges
no_edges = record { known = λ x. false; to = λ x. []; enabled = λ x. false }

abbrev edges : GraphCalls Edges
edges = record {
  add_feature = λ g n. (record g { known = λ x. n == x || g.known x }, ok tt);
  add_mutually_exclusive_group = λ g n ms. (g, ok tt);
  add_relationship = λ g a r b.
      if g.known a && g.known b
      then (record g { to = λ x. if a == x then g.to x ++ b ∷ [] else g.to x }, ok tt)
      else (g, err "unknown");
}

edges-knows :
    (g : Edges) (a b x : String) → (edges.add_relationship g a entails b).0.known x ≡ g.known x
edges-knows g a b x = ground arith

edges-entailed :
    (g : Edges) (a b x : String)
    → (g.known a && g.known b) ≡ true
    → (edges.add_relationship g a entails b).0.to x ≡ (if a == x then g.to x ++ b ∷ [] else g.to x)
edges-entailed g a b x h = rw h refl

abbrev edges_laws : GraphLaws edges
edges_laws = record {
  knows = λ g x. g.known x;
  entailed = λ g x. g.to x;
  knows-feature = λ g n x. refl;
  entailed-feature = λ g n x. refl;
  knows-group = λ g n ms x. refl;
  entailed-group = λ g n ms x. refl;
  knows-relationship = edges-knows;
  entailed-relationship = edges-entailed;
}

entailed-build_graph_example :
    ((build_graph edges no_edges).to alert_overload ≡ consequences alert_overload)
    × ((build_graph edges no_edges).known alert_overload
        ≡ (has all_features alert_overload || false))
entailed-build_graph_example = entailed-build_graph edges edges_laws no_edges alert_overload refl

abbrev manager : FeatureManager Edges
manager = record {
  replace = λ g a b. (g, ok tt);
  enable = λ g n. (record g { enabled = λ x. n == x || g.enabled x }, ok tt);
  disable = λ g n. (g, ok tt);
  is_enabled = λ g n. g.enabled n;
}

-- The manager of the test follows no edges, so that no policy is enabled yet.
started : (active_policy manager (new_supervisor edges manager no_edges)) ≡ policy_round_robin
unfolding new_supervisor build_graph active_policy
started = refl

abbrev config : BalancerConfig
config = record {
  admission = record {
    global_rate_limit_jps = 0;
    normal_rate_limit_jps = 0;
    low_rate_limit_jps = 0;
    bulk_rate_limit_jps = 0;
    holding_queue_capacity = 2;
  };
  aging = record {
    bulk_to_low = 10;
    low_to_normal = 10;
    normal_to_high = 10;
    high_to_critical_enabled = false;
    high_to_critical = 10;
  };
  composite_chain = [];
  max_retries = 3;
}

abbrev model : CostModel ℕ (Unit {0})
model = record {
  config = record {
    warm_threshold = 1;
    node_alpha = 1;
    max_multiplier = 10;
    min_multiplier = 1;
    degradation = record { bucket_count = 4; bucket_size = 1; alpha = 1; warm_threshold = 1 };
    affinity = record { max_nodes = 2; max_job_classes = 3; alpha = 1; warm_threshold = 1 };
  };
  degradation_enabled = true;
  node_states = tt;
  affinity_matrix =
      new_matrix (record { max_nodes = 2; max_job_classes = 3; alpha = 1; warm_threshold = 1 });
}

abbrev Wired : Type 0
Wired = Balancer ℕ (CostModel ℕ (Unit {0})) (Unit {0}) (Unit {0}) (Unit {0})

abbrev wired : Wired
wired = new_balancer [] (round_robin 0) config model tt tt 0

-- The overload alert comes and a manual change is refused.
abbrev reports : List Report
reports =
    record {
      changes =
          record { name = policy_round_robin; new_state = false }
          ∷ record { name = policy_work_stealing; new_state = true }
          ∷ record { name = admission_bulk_shed; new_state = true }
          ∷ [];
      committed = true;
    }
    ∷ record { changes = record { name = feature_aging; new_state = true } ∷ []; committed = false }
    ∷ []

calm : wired.submitted_count ≡ 0
unfolding new_balancer
calm = refl

notify-Follows_example :
    (b' : Wired) × (notify [] wired reports ≡ some b') × Follows [] wired (committed reports) b'
notify-Follows_example = notify-Follows [] wired reports calm
