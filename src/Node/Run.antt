-- ===== src/Node/Run.antt =====
-- A SimulatedNode with its pool: the pool runs every task that it was given once, in an order of its
-- choice, while other threads call the node.
use fatp_balancer.Base.{
  ℕ, zero, suc, ◌+◌, Bool, true, false, ◌&&◌, if◌then◌else◌, List, [], ◌∷◌, Option, none, some,
  Expected, ok, err, has_value,
}
use fatp_balancer.Job.{Priority, Job, SubmitError, CancelError}
use fatp_balancer.Metrics.{offline}
use fatp_balancer.Balancer.State.{FastHashMap}
use fatp_balancer.Node.State.{
  FaultType, no_fault, PendingJobState, SlotHandle, SlotMap, decode, Node, SimulatedNodeConfig,
}
use fatp_balancer.Node.Jobs.{
  Task, start, begin_stop, end_stop, inject_fault, submit, cancel, reprioritise, begin_job, end_job,
}

-- `called` are the calls of completion callbacks, the last one first; `dropped` are the
-- handles of the tasks that ended without one, `withdrawn` those that a cancel has taken back, and
-- `accepted` counts the jobs that were taken.
pub record Run (S O : Type 0) : Type 0 where
  pub node : Node S O
  pub waiting : List Task
  pub running : List Task
  pub called : List (Job × Bool)
  pub dropped : List SlotHandle
  pub withdrawn : List SlotHandle
  pub accepted : ℕ

-- `begins i` and `ends i` are about the i-th task that waits or runs. A node that runs is not
-- started again, and `ends_stop` waits for the pool.
pub data Event : Type 0 where
  starts begins_stop ends_stop : Event
  injects : FaultType → ℕ → Event
  submits : Job → Event
  cancels : ℕ → Event
  reprioritises : ℕ → Priority → Event
  begins : ℕ → Event
  ends : ℕ → ℕ → Bool → Event

-- The i-th element, and the list without it.
unfoldable pub pick : List Task → ℕ → Option (Task × List Task)
pick [] i = none
pick (t ∷ ts) zero = some (t, ts)
pick (t ∷ ts) (suc i) = elim (pick ts i) [ none ↦ none | some (u, us) ↦ some (u, t ∷ us) ]

abbrev pub is_nil : List Task → Bool
is_nil [] = true
is_nil (t ∷ ts) = false

module _ {S O : Type 0} ⦃slots : SlotMap PendingJobState S⦄ ⦃prios : FastHashMap Priority O⦄ where
  unfoldable pub after_submit : Run S O → Node S O × Expected Task SubmitError → Run S O
  after_submit r (n, err e) = record r { node = n }
  after_submit r (n, ok t) = record r {
    node = n;
    waiting = t ∷ r.waiting;
    accepted = r.accepted + 1;
  }

  -- The task was dropped, or runs as `u`.
  unfoldable pub after_begin : Run S O → Task → Node S O × Option Task → Run S O
  after_begin r t (n, none) = record r { node = n; dropped = t.handle ∷ r.dropped }
  after_begin r t (n, some u) = record r { node = n; running = u ∷ r.running }

  unfoldable pub begin_picked : Run S O → Option (Task × List Task) → Run S O
  unfolding after_begin
  begin_picked r none = r
  begin_picked r (some (t, ts)) = after_begin (record r { waiting = ts }) t (begin_job r.node t)

  unfoldable pub after_cancel : Run S O → ℕ → Node S O × Expected (Unit {0}) CancelError → Run S O
  after_cancel r raw answer = record r {
    node = answer.0;
    withdrawn = if has_value answer.1 then decode raw ∷ r.withdrawn else r.withdrawn;
  }

  unfoldable pub end_picked : Run S O → ℕ → Bool → Option (Task × List Task) → Run S O
  end_picked r elapsed succeeded none = r
  end_picked r elapsed succeeded (some (t, ts)) =
      let (n, job) = end_job r.node t elapsed succeeded in
      record r { node = n; running = ts; called = (job, succeeded) ∷ r.called }

  unfoldable pub step : Run S O → Event → Run S O
  unfolding after_submit after_cancel begin_picked end_picked
  step r starts = record r { node = if r.node.pooled then r.node else start r.node }
  step r begins_stop = record r { node = begin_stop r.node }
  step r ends_stop = record r {
    node = if is_nil r.waiting && is_nil r.running then end_stop r.node else r.node;
  }
  step r (injects fault factor) = record r { node = inject_fault r.node fault factor }
  step r (submits job) = after_submit r (submit r.node job)
  step r (cancels raw) = after_cancel r raw (cancel r.node raw)
  step r (reprioritises raw p) = record r { node = (reprioritise r.node raw p).0 }
  step r (begins i) = begin_picked r (pick r.waiting i)
  step r (ends i elapsed succeeded) = end_picked r elapsed succeeded (pick r.running i)

  unfoldable pub steps : Run S O → List Event → Run S O
  steps r [] = r
  steps r (e ∷ es) = steps (step r e) es

  -- A node as it is constructed.
  abbrev pub constructed : ℕ → SimulatedNodeConfig → S → O → Run S O
  constructed id config slots' overrides = record {
    node = record {
      id = id;
      config = config;
      state = offline;
      fault = no_fault;
      slowdown_factor = 10;
      shutdown = false;
      queue_depth = 0;
      queue_depth_by_priority = λ p. 0;
      slots = slots';
      overrides = overrides;
      completed_jobs = 0;
      failed_jobs = 0;
      latencies = [];
      notified = [];
      pooled = false;
    };
    waiting = [];
    running = [];
    called = [];
    dropped = [];
    withdrawn = [];
    accepted = 0;
  }
