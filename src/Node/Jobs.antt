-- ===== src/Node/Jobs.antt =====
-- SimulatedNode.h: start, stop, injectFault, submit, cancel, reprioritise, executeJob and metrics,
-- each cut where it holds the mutex. A task that the pool has yet to run, or runs, is the job with
-- its slot.
use fatp_balancer.Base.{
  ℕ, ◌+◌, ◌*◌, ◌/◌, Bool, true, false, not, ◌&&◌, ◌||◌, ltb, leb, if◌then◌else◌, ◌∷◌, Option, none,
  some, Expected, ok, err,
}
use fatp_balancer.Job.{
  Priority, Job, u32, u64, SubmitError, cluster_saturated, priority_rejected, CancelError,
  not_found, already_running,
}
use fatp_balancer.Floats.{Floats}
use fatp_balancer.Metrics.{
  NodeState, offline, initializing, idle, failed, recovering, is_failed, LoadMetrics,
  node_accepts_priority,
}
use fatp_balancer.Balancer.State.{FastHashMap}
use fatp_balancer.Node.State.{
  FaultType, is_crash, is_partition, is_no_fault, is_slowdown, PendingJobState, queued, running,
  SlotHandle, SlotMap, encode, decode, Node, update_state_unlocked, notify_state_change,
  increment_queue_counters, decrement_queue_counters, record_latency, percentile,
}

-- What submit gives to the pool.
pub record Task : Type 0 where
  pub job : Job
  pub handle : SlotHandle

abbrev pub is_offline : NodeState → Bool
is_offline offline = true
is_offline _ = false

abbrev pub is_queued : PendingJobState → Bool
is_queued queued = true
is_queued running = false

module _ {S O : Type 0} ⦃slots : SlotMap PendingJobState S⦄ ⦃prios : FastHashMap Priority O⦄ where
  unfoldable pub start : Node S O → Node S O
  start n = record n {
    shutdown = false;
    state = idle;
    notified = idle ∷ initializing ∷ n.notified;
    pooled = true;
  }

  -- stop, before and after the pool has run every task that was given to it.
  unfoldable pub begin_stop : Node S O → Node S O
  begin_stop n = record n { shutdown = true }

  unfoldable pub end_stop : Node S O → Node S O
  end_stop n = record n { pooled = false; state = offline }

  -- The state after a fault was cleared, and the one that is told.
  unfoldable pub resolved : Node S O × Option NodeState → Node S O × Option NodeState
  resolved (n, none) = (n, some n.state)
  resolved (n, some s) = (n, some s)

  unfoldable pub inject_fault : Node S O → FaultType → ℕ → Node S O
  unfolding update_state_unlocked notify_state_change resolved
  inject_fault n fault factor =
      let n1 = record n { fault = fault; slowdown_factor = factor } in
      if is_crash fault
      then notify_state_change (record n1 { state = failed }, some failed)
      else if is_no_fault fault && is_failed n.state
      then notify_state_change (resolved (update_state_unlocked (record n1 { state = recovering })))
      else n1

  -- The node once the job is registered as queued and counted.
  unfoldable pub registered : Node S O → S → Priority → Node S O
  unfolding increment_queue_counters
  registered n slots' p = increment_queue_counters (record n { slots = slots' }) p

  -- The node takes the job.
  unfoldable pub accept : Node S O → Job → Node S O × Task
  unfolding registered update_state_unlocked notify_state_change
  accept n job =
      let (slots', handle) = slots.insert n.slots queued in
      (
        notify_state_change (update_state_unlocked (registered n slots' job.priority)),
        record {
          job = record job { executed_by = n.id; queue_depth_at_dispatch = n.queue_depth };
          handle = handle;
        },
      )

  -- Whether, and why not, submit takes the job.
  unfoldable pub refusal : Node S O → Priority → Option SubmitError
  refusal n p =
      if n.shutdown
        || is_crash n.fault
        || is_partition n.fault
        || is_failed n.state
        || is_offline n.state
      then some cluster_saturated
      else if not (node_accepts_priority n.state p)
      then some priority_rejected
      else if not n.pooled
      then some cluster_saturated
      else none

  unfoldable pub take : Node S O → Job → Option SubmitError → Node S O × Expected Task SubmitError
  unfolding accept
  take n job (some e) = (n, err e)
  take n job none = let (n', task) = accept n job in (n', ok task)

  unfoldable pub submit : Node S O → Job → Node S O × Expected Task SubmitError
  unfolding refusal take
  submit n job = take n job (refusal n job.priority)

  unfoldable pub cancel_pending :
      Node S O → ℕ → Option PendingJobState → Node S O × Expected (Unit {0}) CancelError
  cancel_pending n raw none = (n, err not_found)
  cancel_pending n raw (some running) = (n, err already_running)
  cancel_pending n raw (some queued) = (
    record n { slots = slots.erase n.slots (decode raw); overrides = prios.erase n.overrides raw },
    ok tt,
  )

  unfoldable pub cancel : Node S O → ℕ → Node S O × Expected (Unit {0}) CancelError
  unfolding cancel_pending
  cancel n raw = cancel_pending n raw (slots.get n.slots (decode raw))

  reprioritise_pending :
      Node S O → ℕ → Priority → Option PendingJobState → Node S O × Expected (Unit {0}) CancelError
  reprioritise_pending n raw p (some queued) =
      (record n { overrides = prios.insert n.overrides raw p }, ok tt)
  reprioritise_pending n raw p (some running) = (n, err not_found)
  reprioritise_pending n raw p none = (n, err not_found)

  unfoldable pub reprioritise : Node S O → ℕ → Priority → Node S O × Expected (Unit {0}) CancelError
  unfolding reprioritise_pending
  reprioritise n raw p = reprioritise_pending n raw p (slots.get n.slots (decode raw))

  -- `if (ov) { job.priority = *ov; mPriorityOverrides.erase(rawKey); }`
  unfoldable pub override : Node S O → Task → Option Priority → Node S O × Option Task
  override n t none = (n, some t)
  override n t (some p) = (
    record n { overrides = prios.erase n.overrides (encode t.handle) },
    some (record t { job = record t.job { priority = p } }),
  )

  unfoldable pub begin_pending : Node S O → Task → Option PendingJobState → Node S O × Option Task
  unfolding override update_state_unlocked notify_state_change decrement_queue_counters
  begin_pending n t none =
      let n1 = record n { overrides = prios.erase n.overrides (encode t.handle) } in
      (
        notify_state_change (update_state_unlocked (decrement_queue_counters n1 t.job.priority)),
        none,
      )
  begin_pending n t (some _) =
      override (record n { slots = slots.put n.slots t.handle running }) t
        (prios.find n.overrides (encode t.handle))

  -- executeJob up to the run: the task that runs now, or none if it was cancelled.
  unfoldable pub begin_job : Node S O → Task → Node S O × Option Task
  unfolding begin_pending
  begin_job n t = begin_pending n t (slots.get n.slots t.handle)

  -- The node once the task has run, before its state is updated.
  unfoldable pub settled : Node S O → Task → ℕ → Bool → Node S O
  unfolding decrement_queue_counters record_latency
  settled n t elapsed succeeded =
      let n1 = decrement_queue_counters n t.job.priority in
      let n2 =
        if succeeded
        then record n1 { completed_jobs = u64 (n1.completed_jobs + 1) }
        else record n1 { failed_jobs = u64 (n1.failed_jobs + 1) } in
      let n3 = record_latency n2 elapsed in record n3 { slots = slots.erase n3.slots t.handle }

  -- executeJob after the run; the job is what the completion callback is given.
  unfoldable pub end_job : Node S O → Task → ℕ → Bool → Node S O × Job
  unfolding settled update_state_unlocked notify_state_change
  end_job n t elapsed succeeded =
      let upc = if ltb 0 n.config.us_per_cost_unit then n.config.us_per_cost_unit else 1 in
      (
        notify_state_change (update_state_unlocked (settled n t elapsed succeeded)),
        record t.job { observed_cost = elapsed / upc },
      )

  -- `sample` is the draw from [min, max].
  unfoldable pub compute_delay_us : Node S O → Job → ℕ → ℕ
  compute_delay_us n job sample =
      let c = n.config in
      let factor = if leb 1 n.slowdown_factor then n.slowdown_factor else 1 in
      let delay =
        if ltb 0 c.min_job_duration_us
        then (if ltb c.min_job_duration_us c.max_job_duration_us
            then sample
            else c.min_job_duration_us)
        else u32 (u64 (job.estimated_cost * c.us_per_cost_unit)) in
      if is_slowdown n.fault then u32 (delay * factor) else delay

  -- `active` is mThreadPool->active_tasks(). The counters of aging and stealing stay 0.
  unfoldable pub metrics : {F : Type 0} ⦃fl : Floats F⦄ → Node S O → ℕ → LoadMetrics F
  metrics ⦃fl⦄ n active =
      let workers = if ltb 0 n.config.worker_count then n.config.worker_count else 1 in
      let utilization = fl.div (fl.of_ℕ (if n.pooled then active else 0)) (fl.of_ℕ workers) in
      record {
        node_id = n.id;
        state = n.state;
        utilization = if fl.lt (fl.of_ℕ 1) utilization then fl.of_ℕ 1 else utilization;
        queue_depth = n.queue_depth;
        queue_depth_by_priority = n.queue_depth_by_priority;
        p50_latency_us = percentile n.latencies 50;
        p99_latency_us = percentile n.latencies 99;
        completed_jobs = n.completed_jobs;
        failed_jobs = n.failed_jobs;
        aged_jobs = 0;
        expired_jobs = 0;
        stolen_jobs = 0;
      }
