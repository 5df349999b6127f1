-- ===== src/Balancer/State.antt =====
-- Balancer.h: the members of the class, and what it calls: the nodes (INode.h), the CostModel and
-- fat_p::FastHashMap, as interfaces. Every public method is one step: its locks are not modelled.
use fatp_balancer.Base.{ℕ, Bool, Option, List, Expected}
use fatp_balancer.Job.{Job, Priority, SubmitError, CancelError}
use fatp_balancer.Metrics.{LoadMetrics}
use fatp_balancer.Policy.View.{CostView}
use fatp_balancer.Policy.Kinds.{Policy}
use fatp_balancer.Admission.{AdmissionControl}
use fatp_balancer.Aging.{AgingEngine}
use fatp_balancer.HoldingQueue.{HoldingQueue}

-- INode. When the completion callback given to `submit` is invoked is a choice of the node, so it
-- is an event of its own (Lifecycle.callback).
pub record INode (N F : Type 0) : Type 0 where
  pub id : N → ℕ
  pub metrics : N → LoadMetrics F
  pub submit : N → Job → N × Expected ℕ SubmitError
  pub cancel : N → ℕ → N × Expected (Unit {0}) CancelError
  pub reprioritise : N → ℕ → Priority → N × Expected (Unit {0}) CancelError

-- The calls of CostModel that the balancer makes.
pub record Costs (K F : Type 0) : Type 0 where
  pub view : K → CostView F
  pub update : K → Job → K

-- fat_p::FastHashMap<uint, V>.
pub record FastHashMap (V M : Type 0) : Type 0 where
  pub find : M → ℕ → Option V
  pub insert : M → ℕ → V → M
  pub erase : M → ℕ → M

-- JobRoutingInfo
pub record Route : Type 0 where
  pub job_id : ℕ
  pub node_id : ℕ

-- A callback of a held job is the job it has captured.
pub record Balancer (F K N R H : Type 0) : Type 0 where
  pub nodes : List N
  pub policy : Policy F
  pub max_retries : ℕ
  pub admission : AdmissionControl F
  pub cost_model : K
  pub routes : R  -- mHandleToJobInfo
  pub handles : H  -- mJobIdToHandleMap
  pub draining : Bool
  pub submitted_count : ℕ
  pub total_submitted : ℕ
  pub total_completed : ℕ
  pub next_job_id : ℕ
  pub sample_completed : ℕ
  pub sample_time : ℕ
  pub cached_throughput : F
  pub holding : HoldingQueue Job
  pub aging : AgingEngine
  pub aging_enabled : Bool

-- What Clock::now() returns at the points of one operation.
pub record Times : Type 0 where
  pub at_deadline : ℕ
  pub at_global : ℕ
  pub at_band : ℕ
  pub at_metrics : ℕ
  pub at_select : ℕ
  pub at_submit : ℕ
  pub at_track : ℕ
