-- ===== src/Job.antt =====
-- include/balancer/Job.h: priorities, costs, the job record and the error codes.
-- A StrongId is its integer. A TimePoint or Duration is a number of clock ticks. The payload is
-- opaque, and no field of the record.
use fatp_balancer.Base.{ℕ, ◌+◌, ◌-◌, ◌%◌, ◌^◌, Bool, true, false, Option, none, some, leb, ◌||◌}

pub data Priority : Type 0 where
  critical high normal low bulk : Priority

pub Priority-discrete : Discrete Priority
Priority-discrete = hlevel

-- static_cast<size_t>(priority)
abbrev pub index : Priority → ℕ
index critical = 0
index high = 1
index normal = 2
index low = 3
index bulk = 4

abbrev pub is_critical : Priority → Bool
is_critical critical = true
is_critical _ = false

abbrev pub is_high : Priority → Bool
is_high high = true
is_high _ = false

abbrev pub is_normal : Priority → Bool
is_normal normal = true
is_normal _ = false

abbrev pub is_low : Priority → Bool
is_low low = true
is_low _ = false

abbrev pub is_bulk : Priority → Bool
is_bulk bulk = true
is_bulk _ = false

-- `p == Priority::Critical || p == Priority::High`
abbrev pub is_urgent : Priority → Bool
is_urgent p = is_critical p || is_high p

abbrev pub u32 : ℕ → ℕ
u32 n = n % 2 ^ 32

abbrev pub u64 : ℕ → ℕ
u64 n = n % 2 ^ 64

-- Unsigned n - 1, where n is below the modulus.
abbrev pub dec_u32 : ℕ → ℕ
dec_u32 n = (n + 2 ^ 32 - 1) % 2 ^ 32

pub record Job : Type 0 where
  pub job_class : ℕ
  pub estimated_cost : ℕ
  pub deadline : Option ℕ
  pub max_wait : Option ℕ
  pub id : ℕ
  pub priority : Priority
  pub submitted : ℕ
  pub observed_cost : ℕ
  pub executed_by : ℕ
  pub hold_retries : ℕ
  pub queue_depth_at_dispatch : ℕ

-- `job.deadline.has_value() && now >= *job.deadline`
abbrev pub is_expired : Option ℕ → ℕ → Bool
is_expired none now = false
is_expired (some d) now = leb d now

pub data SubmitError : Type 0 where
  rate_limited priority_rejected cluster_saturated holding_queue_full : SubmitError
  deadline_unachievable node_not_found : SubmitError

-- static_cast<size_t>(error)
abbrev pub error_index : SubmitError → ℕ
error_index rate_limited = 0
error_index priority_rejected = 1
error_index cluster_saturated = 2
error_index holding_queue_full = 3
error_index deadline_unachievable = 4
error_index node_not_found = 5

pub data CancelError : Type 0 where
  not_found already_running critical_not_cancellable : CancelError

-- A default-constructed job, but of the given priority.
abbrev pub default_job : Priority → Job
default_job p = record {
  job_class = 0;
  estimated_cost = 0;
  deadline = none;
  max_wait = none;
  id = 0;
  priority = p;
  submitted = 0;
  observed_cost = 0;
  executed_by = 0;
  hold_retries = 0;
  queue_depth_at_dispatch = 0;
}
