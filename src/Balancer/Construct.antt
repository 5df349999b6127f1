-- ===== src/Balancer/Construct.antt =====
-- Balancer.h: the constructor and the destructor. Starting and stopping a thread is not modelled.
use Prim.Native.String.{String}
use fatp_balancer.Base.{
  ℕ, ◌<◌, ◌^◌, ◌==◌, refl, true, false, if◌then◌else◌, List, [], Option, none, some, arith,
}
use fatp_balancer.Floats.{Floats}
use fatp_balancer.Admission.{AdmissionConfig}
use fatp_balancer.Admission as Gate
use fatp_balancer.HoldingQueue as Held
use fatp_balancer.HoldingQueue.Invariant.{run, run-new-IsValid}
use fatp_balancer.Aging.{AgingConfig}
use fatp_balancer.Policy.Kinds.{Policy}
use fatp_balancer.Balancer.State.{Balancer}
use fatp_balancer.Balancer.Reservation.{Agrees}

-- BalancerConfig, with HoldingQueueConfig::maxRetries and CompositePolicyConfig::chain. The cost
-- model comes constructed.
pub record BalancerConfig : Type 0 where
  pub admission : AdmissionConfig
  pub aging : AgingConfig
  pub composite_chain : List String
  pub max_retries : ℕ

module _ {F K N R H : Type 0} ⦃fl : Floats F⦄ where
  -- `routes` and `handles` are the empty maps.
  unfoldable pub new_balancer :
      List N → Policy F → BalancerConfig → K → R → H → ℕ → Balancer F K N R H
  unfolding Held.new Gate.new
  new_balancer nodes policy config cost_model routes handles now = record {
    nodes = nodes;
    policy = policy;
    max_retries = config.max_retries;
    admission = Gate.new config.admission now;
    cost_model = cost_model;
    routes = routes;
    handles = handles;
    draining = false;
    submitted_count = 0;
    total_submitted = 0;
    total_completed = 0;
    next_job_id = 1;
    sample_completed = 0;
    sample_time = now;
    cached_throughput = fl.of_ℕ 0;
    holding = Held.new config.admission.holding_queue_capacity;
    aging = record { config = config.aging; tracked = [] };
    aging_enabled = false;
  }

  -- The destructor closes the balancer and goes on when no job is in flight; `none` is a wait.
  unfoldable pub destruct : Balancer F K N R H → Option (Balancer F K N R H)
  destruct b =
      if b.submitted_count == 0
      then some (record b { draining = true; aging_enabled = false })
      else none

  pub new_balancer-Agrees :
      (nodes : List N) (policy : Policy F) (config : BalancerConfig) (cost_model : K) (routes : R)
      (handles : H) (now : ℕ)
      → config.admission.holding_queue_capacity < 2 ^ 32
      → let b = new_balancer nodes policy config cost_model routes handles now in
        Agrees b.holding b.admission 0
  unfolding new_balancer run
  new_balancer-Agrees nodes policy config cost_model routes handles now word = record {
    valid = run-new-IsValid config.admission.holding_queue_capacity [] word;
    settled = record { small = λ x. omega arith; within = omega arith; word = word };
    capacities = refl;
    reserved = refl;
  }
