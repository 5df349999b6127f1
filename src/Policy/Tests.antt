-- ===== src/Policy/Tests.antt =====
-- The policies on a snapshot of three nodes: a busy one, an overloaded one and an idle one.
use fatp_balancer.Base.{
  ℕ, ◌≡◌, ◌≢◌, ◌⊎◌, refl, arith, All, In, true, false, List, [], ◌∷◌, none, some, ok, err,
  has_value, is_some,
}
use fatp_balancer.Job.{normal, high, Job, default_job}
use fatp_balancer.Floats.{nat_floats, nat_floats-IsOrder}
use fatp_balancer.Metrics.{
  NodeState, busy, overloaded, idle, LoadMetrics, ClusterMetrics, node_accepts_priority,
}
use fatp_balancer.Policy.View.{
  no_nodes, none_eligible, CostView, ClusterView, IsEligible, any_eligible, node_metrics,
  eligible_nodes,
}
use fatp_balancer.Policy.Best.{select_best, IsChoice, select_best_cases, scan}
use fatp_balancer.Policy.Loads.{
  lowest, lowest-IsTotal, effective_load, select_least_loaded, slack, available_capacity,
  weight_for, completion, select_weighted_capacity, select_earliest_deadline_first,
  select_shortest_job_first,
}
use fatp_balancer.Policy.RoundRobin.{select_round_robin, select_round_robin_finds}
use fatp_balancer.Policy.WorkStealing.{
  select_work_stealing, scan_steal, underloaded, any_underloaded, select_work_stealing_finds,
}
use fatp_balancer.Policy.Affinity.{select_affinity, scan_affinity, any_warm, affinity_score}
use fatp_balancer.Policy.Kinds.{
  Policy, composite, child, end, round_robin, work_stealing, earliest_deadline_first, select_node,
  select_node-IsEligible,
}
use fatp_balancer.Policy.Factory.{
  make_policy, policy_composite, default_chain, default_composite, make_policy_total,
}

abbrev node : ℕ → NodeState → ℕ → LoadMetrics ℕ
node id state depth = record {
  node_id = id;
  state = state;
  utilization = 0;
  queue_depth = depth;
  queue_depth_by_priority = λ p. 0;
  p50_latency_us = 0;
  p99_latency_us = 0;
  completed_jobs = 0;
  failed_jobs = 0;
  aged_jobs = 0;
  expired_jobs = 0;
  stolen_jobs = 0;
}

abbrev nodes : List (LoadMetrics ℕ)
nodes = node 1 busy 5 ∷ node 2 overloaded 1 ∷ node 3 idle 2 ∷ []

abbrev cluster : ClusterMetrics ℕ
cluster = record {
  known_nodes = 3;
  active_nodes = 2;
  unavailable_nodes = 0;
  overloaded_nodes = 1;
  total_submitted = 0;
  total_completed = 0;
  total_rejected = 0;
  rejections_by_code = λ e. 0;
  holding_queue_depth = 0;
  throughput_per_second = 0;
  mean_p50_latency_us = 0;
  max_p99_latency_us = 0;
}

abbrev cost : CostView ℕ
cost = record {
  predict = λ job n. job.estimated_cost;
  node_multiplier = λ n. 1;
  affinity_score = λ n c. 1;
  is_affinity_cell_warm = λ n c. false;
}

abbrev view : ClusterView ℕ
view = record { nodes = nodes; cluster = cluster; cost_model = cost }

abbrev job : Job
job = record (default_job normal) { estimated_cost = 10 }

queries :
    (eligible_nodes view normal ≡ 1 ∷ 3 ∷ [])
    × (node_metrics view 2 ≡ some (node 2 overloaded 1))
    × (node_metrics view 4 ≡ none)
unfolding eligible_nodes node_metrics node_accepts_priority
queries = (refl, refl, refl)

choices :
    (select_least_loaded job view ≡ ok 3)
    × (select_least_loaded (record job { priority = high }) view ≡ ok 2)
    × (select_shortest_job_first job view ≡ ok 3)
    × (select_weighted_capacity ((3, 0) ∷ (1, 4) ∷ []) job view ≡ ok 1)
    × (select_earliest_deadline_first (record job { deadline = some 90_000 }) view 0 ≡ ok 3)
    × (select_work_stealing nat_floats 4 job view ≡ ok 3)
    × (select_affinity job view ≡ ok 3)
unfolding select_least_loaded select_shortest_job_first select_weighted_capacity
    select_earliest_deadline_first select_work_stealing select_affinity select_best scan
    effective_load completion available_capacity weight_for slack node_accepts_priority any_eligible
    any_warm affinity_score scan_affinity scan_steal
choices = (refl, refl, refl, refl, refl, refl, refl)

select_best_cases_example :
    ((nodes ≡ []) × (select_best lowest (effective_load view) normal nodes ≡ err no_nodes))
    ⊎ ((nodes ≢ [])
        × (any_eligible normal nodes ≡ false)
        × (select_best lowest (effective_load view) normal nodes ≡ err none_eligible))
    ⊎ ((id : ℕ) × (select_best lowest (effective_load view) normal nodes ≡ ok id)
        × IsChoice lowest (effective_load view) normal nodes id)
select_best_cases_example =
    select_best_cases lowest (effective_load view) (lowest-IsTotal nat_floats-IsOrder) normal nodes

some_eligible : any_eligible normal nodes ≡ true
unfolding any_eligible node_accepts_priority
some_eligible = refl

select_round_robin_finds_example : has_value (select_round_robin 1 normal nodes).1 ≡ true
select_round_robin_finds_example = select_round_robin_finds 1 normal nodes some_eligible

idle_takes_normal : node_accepts_priority idle normal ≡ true
unfolding node_accepts_priority
idle_takes_normal = refl

nodes-ne_zero : All (λ m. m.node_id ≢ 0) nodes
nodes-ne_zero =
    (λ e. absurd (omega arith), (λ e. absurd (omega arith), (λ e. absurd (omega arith), tt)))

select_work_stealing_finds_example :
    (m : LoadMetrics ℕ) × In m nodes
    × (select_work_stealing nat_floats 4 job view ≡ ok m.node_id)
    × (node_accepts_priority m.state normal ≡ true)
    × ((any_underloaded nat_floats 4 job view nodes ≡ false)
        ⊎ (underloaded nat_floats 4 job view m ≡ true))
select_work_stealing_finds_example =
    select_work_stealing_finds nat_floats 4 job view nodes-ne_zero some_eligible

abbrev only_zero : ClusterView ℕ
only_zero = record view { nodes = node 0 idle 0 ∷ [] }

abbrev chain : Policy ℕ
chain = composite (child (work_stealing 4) (child (round_robin 0) end))

-- The Composite's first child finds none on a snapshot with the NodeId 0 alone; the second does.
chain_falls_through :
    select_node nat_floats job only_zero 0 chain
    ≡ (composite (child (work_stealing 4) (child (round_robin 1) end)), ok 0)
unfolding select_node select_work_stealing scan_steal node_accepts_priority select_round_robin
chain_falls_through = refl

chain_selects : (select_node nat_floats job only_zero 0 chain).1 ≡ ok 0
unfolding select_node select_work_stealing scan_steal node_accepts_priority select_round_robin
chain_selects = refl

select_node-IsEligible_example : IsEligible only_zero.nodes normal 0
select_node-IsEligible_example =
    select_node-IsEligible nat_floats job only_zero 0 refl chain 0 chain_selects

default_composite_example :
    make_policy {F = ℕ} 3 policy_composite true default_chain
    ≡ some (composite (child earliest_deadline_first (child (round_robin 0) end)))
default_composite_example = default_composite 1 true

make_policy_total_example :
    (is_some (make_policy {F = ℕ} 3 policy_composite true (policy_composite ∷ [])) ≡ true)
    × (make_policy {F = ℕ} 8 policy_composite true (policy_composite ∷ [])
        ≡ make_policy 3 policy_composite true (policy_composite ∷ []))
make_policy_total_example = make_policy_total 5 policy_composite true (policy_composite ∷ [])
