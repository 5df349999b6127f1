-- ===== src/Balancer/Tests.antt =====
-- Balancer.h with two concrete nodes, that accept every job under the next handle, association
-- lists for the maps, and a cost model that learns nothing.
use fatp_balancer.Base.{
  ℕ, ◌<◌, ◌^◌, ◌+◌, ◌≡◌, refl, ◌⊎◌, Bool, true, false, ◌==◌, if◌then◌else◌, List, [], ◌∷◌, Option,
  none, some, is_some, has_value, ok, err, arith,
}
use fatp_balancer.Job.{
  dec_u32, Job, critical, normal, default_job, u32, cluster_saturated, not_found,
}
use fatp_balancer.Floats.{nat_floats}
use fatp_balancer.Metrics.{NodeState, idle, overloaded, LoadMetrics, node_accepts_priority}
use fatp_balancer.Admission.{
  AdmissionConfig, new_bucket, try_consume, refill, layer2, layer3, evaluate,
  try_reserve_holding_slot, release_from_holding_queue,
}
use fatp_balancer.HoldingQueue.{
  push, enqueue, try_dequeue, requeue, is_holding_handle, holding_handle, is_empty,
}
use fatp_balancer.HoldingQueue.Invariant.{run-new-IsValid, run}
use fatp_balancer.Aging.{AgingEngine}
use fatp_balancer.Policy.Kinds.{round_robin, least_loaded}
use fatp_balancer.Balancer.State.{Balancer, INode, Costs, FastHashMap, Route, Times}
use fatp_balancer.Balancer.Snapshot.{are_all_eligible_overloaded}
use fatp_balancer.Balancer.Lifecycle.{
  callback, unpublished, register_dispatched_job, register-callback,
}
use fatp_balancer.Balancer.Submit.{hold, submit}
use fatp_balancer.Balancer.Cancel.{cancel, begin_switch, end_switch}
use fatp_balancer.Balancer.Drain.{breaks, drain}
use fatp_balancer.Balancer.Reservation.{Agrees}
use fatp_balancer.Balancer.Submitting.{IsReserved, submit-IsReserved, submit_count}
use fatp_balancer.Balancer.Draining.{drain_ends}
use fatp_balancer.HoldingQueue.Handles.{IsUnique, start-IsUnique}
use fatp_balancer.HoldingQueue.Waiting.{waiting}
use fatp_balancer.Balancer.Withdrawal.{cancel-hold}
use fatp_balancer.Balancer.Cancelling.{IsCancelled, cancel-IsCancelled, submit-begin_switch}
use fatp_balancer.HoldingQueue as Held
use fatp_balancer.Admission as Gate

pub record Node : Type 0 where
  pub id : ℕ
  pub state : NodeState
  pub next_handle : ℕ

abbrev pub metrics_of : Node → LoadMetrics ℕ
metrics_of n = record {
  node_id = n.id;
  state = n.state;
  utilization = 0;
  queue_depth = n.next_handle;
  queue_depth_by_priority = λ p. 0;
  p50_latency_us = 0;
  p99_latency_us = 0;
  completed_jobs = 0;
  failed_jobs = 0;
  aged_jobs = 0;
  expired_jobs = 0;
  stolen_jobs = 0;
}

abbrev pub node_calls : INode Node ℕ
node_calls = record {
  id = λ n. n.id;
  metrics = metrics_of;
  submit = λ n j. (record n { next_handle = n.next_handle + 1 }, ok n.next_handle);
  cancel = λ n h. (n, ok tt);
  reprioritise = λ n h p. (n, err not_found);
}

instance abbrev pub fixed_costs : Costs (Unit {0}) ℕ
fixed_costs = record {
  view = λ k. record {
    predict = λ job n. job.estimated_cost;
    node_multiplier = λ n. 1;
    affinity_score = λ n c. 1;
    is_affinity_cell_warm = λ n c. false;
  };
  update = λ k j. k;
}

lookup : {V : Type 0} → List (ℕ × V) → ℕ → Option V
lookup [] k = none
lookup ((a, v) ∷ rest) k = if a == k then some v else lookup rest k

without_key : {V : Type 0} → List (ℕ × V) → ℕ → List (ℕ × V)
without_key [] k = []
without_key ((a, v) ∷ rest) k =
    let others = without_key rest k in if a == k then others else (a, v) ∷ others

abbrev entries : (V : Type 0) → FastHashMap V (List (ℕ × V))
unfolding lookup without_key
entries V = record { find = lookup; insert = λ m k v. (k, v) ∷ m; erase = without_key }

instance abbrev route_entries : FastHashMap Route (List (ℕ × Route))
route_entries = entries Route

instance abbrev handle_entries : FastHashMap ℕ (List (ℕ × ℕ))
handle_entries = entries ℕ

abbrev pub gate_config : AdmissionConfig
gate_config = record {
  global_rate_limit_jps = 0;
  normal_rate_limit_jps = 0;
  low_rate_limit_jps = 0;
  bulk_rate_limit_jps = 0;
  holding_queue_capacity = 2;
}

abbrev pub no_aging : AgingEngine
no_aging = record {
  config = record {
    bulk_to_low = 10;
    low_to_normal = 10;
    normal_to_high = 10;
    high_to_critical_enabled = false;
    high_to_critical = 10;
  };
  tracked = [];
}

abbrev Cluster : Type 0
Cluster = Balancer ℕ (Unit {0}) Node (List (ℕ × Route)) (List (ℕ × ℕ))

abbrev cluster : List Node → Cluster
cluster nodes = record {
  nodes = nodes;
  policy = round_robin 0;
  max_retries = 3;
  admission = Gate.new gate_config 0;
  cost_model = tt;
  routes = [];
  handles = [];
  draining = false;
  submitted_count = 0;
  total_submitted = 0;
  total_completed = 0;
  next_job_id = 1;
  sample_completed = 0;
  sample_time = 0;
  cached_throughput = 0;
  holding = Held.new 2;
  aging = no_aging;
  aging_enabled = true;
}

abbrev calm : Cluster
calm = cluster (
    record { id = 1; state = idle; next_handle = 0 }
    ∷ record { id = 2; state = overloaded; next_handle = 0 }
    ∷ [])

abbrev full : Cluster
full = cluster (record { id = 1; state = overloaded; next_handle = 0 } ∷ [])

abbrev pub at : Times
at = record {
  at_deadline = 1;
  at_global = 1;
  at_band = 1;
  at_metrics = 1;
  at_select = 1;
  at_submit = 1;
  at_track = 1;
}

new-Agrees : Agrees {F = ℕ} (Held.new 2) (Gate.new gate_config 0) 0
unfolding Held.new Gate.new run
new-Agrees = record {
  valid = run-new-IsValid 2 [] (omega arith);
  settled = record { small = λ x. omega arith; within = omega arith; word = omega arith };
  capacities = refl;
  reserved = refl;
}

calm-IsReserved : IsReserved node_calls nat_floats calm
calm-IsReserved = record { agrees = new-Agrees; word = omega arith }

full-IsReserved : IsReserved node_calls nat_floats full
full-IsReserved = record { agrees = new-Agrees; word = omega arith }

-- The overloaded cluster with a Critical job in the holding queue.
abbrev one_held : Cluster
one_held = (submit node_calls nat_floats full (default_job critical) at none).0

one_held-Agrees : Agrees one_held.holding one_held.admission 0
one_held-Agrees =
    (submit-IsReserved node_calls nat_floats full (default_job critical) at none
      full-IsReserved).agrees

submit_count_example :
    let r = submit node_calls nat_floats calm (default_job normal) at none in
    ((has_value r.1 ≡ true) × (r.0.submitted_count ≡ u32 1))
    ⊎ (((has_value r.1 ≡ false) ⊎ (is_some {A = Job × Bool} none ≡ true))
        × (r.0.submitted_count ≡ 0))
submit_count_example =
    submit_count node_calls nat_floats calm (default_job normal) at none calm-IsReserved

one_held-size : one_held.holding.size ≡ 1
unfolding submit Held.new Gate.new layer2 layer3 new_bucket try_consume try_reserve_holding_slot
    evaluate enqueue push are_all_eligible_overloaded node_accepts_priority
one_held-size = refl

drain_ends_example :
    let r = drain node_calls nat_floats one_held ((at, none) ∷ []) in
    (r.1 ≡ breaks) × Agrees r.0.holding r.0.admission 0
drain_ends_example =
    drain_ends node_calls nat_floats one_held ((at, none) ∷ []) one_held-Agrees
      (omega (arith, one_held-size))

cancel-IsCancelled_example :
    IsCancelled node_calls one_held (cancel node_calls one_held (holding_handle 1))
cancel-IsCancelled_example =
    cancel-IsCancelled node_calls one_held (holding_handle 1) one_held-Agrees

submit-begin_switch_example :
    let closed = begin_switch calm in
    (submit node_calls nat_floats closed (default_job normal) at none
      ≡ (closed, err cluster_saturated))
    × (is_some (end_switch closed least_loaded) ≡ (0 == 0))
    × ((end_switch closed least_loaded ≡ none)
        ⊎ (end_switch closed least_loaded
            ≡ some (record calm { policy = least_loaded; draining = false })))
submit-begin_switch_example =
    submit-begin_switch node_calls nat_floats calm (default_job normal) at none least_loaded
      (omega arith)

register-callback_example :
    let (b1, early) = callback calm unpublished (default_job normal) (default_job normal) true in
    let (b2, published) = register_dispatched_job calm (default_job normal) 1 7 0 unpublished in
    (register_dispatched_job b1 (default_job normal) 1 7 0 early).0
    ≡ (callback b2 published (default_job normal) (default_job normal) true).0
register-callback_example =
    register-callback calm (default_job normal) (default_job normal) true 1 7 0

new-IsUnique : IsUnique {C = Job} (record { queue = Held.new 2; in_hand = [] })
new-IsUnique = start-IsUnique 2

abbrev withdrawn : Job
withdrawn = default_job critical

next_seq-new : full.holding.next_seq < 2 ^ 63
unfolding Held.new
next_seq-new = omega arith

hold_accepted : (hold full withdrawn at).1 ≡ ok (holding_handle 1)
unfolding hold Held.new enqueue
hold_accepted = refl

cancel-hold_example :
    let r = cancel node_calls (hold full withdrawn at).0 (holding_handle 1) in
    (r.1 ≡ ok tt) × (waiting r.0.holding ≡ waiting full.holding) × (r.0.submitted_count ≡ dec_u32 0)
cancel-hold_example =
    cancel-hold node_calls full withdrawn at new-Agrees.valid new-IsUnique next_seq-new
      hold_accepted
