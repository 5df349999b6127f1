-- ===== src/Node/Tally.antt =====
-- SimulatedNode.h: the count of the jobs that ran, over each operation.
use fatp_balancer.Base.{
  ℕ, ◌+◌, ◌<◌, ◌^◌, ◌≡◌, refl, ◌∙◌, Bool, true, false, Option, none, some, arith,
}
use fatp_balancer.Job.{Priority, Job, SubmitError}
use fatp_balancer.Balancer.State.{FastHashMap}
use fatp_balancer.Node.State.{
  FaultType, PendingJobState, queued, SlotMap, Node, next_state, update_state_unlocked,
  notify_state_change, increment_queue_counters, decrement_queue_counters, record_latency, encode,
}
use fatp_balancer.Node.Jobs.{
  Task, inject_fault, resolved, accept, refusal, submit, cancel, reprioritise, begin_job, end_job,
  take, begin_pending, override, registered, settled,
}

module _ {S O : Type 0} where
  -- The jobs that ran, as the node counts them.
  abbrev pub tally : Node S O → ℕ
  tally n = n.completed_jobs + n.failed_jobs

  tally-settle : (n : Node S O) → tally (notify_state_change (update_state_unlocked n)) ≡ tally n
  unfolding notify_state_change update_state_unlocked next_state
  tally-settle n = ground arith

module _ {S O : Type 0} ⦃slots : SlotMap PendingJobState S⦄ ⦃prios : FastHashMap Priority O⦄ where
  pub tally-inject_fault :
      (n : Node S O) (f : FaultType) (x : ℕ) → tally (inject_fault n f x) ≡ tally n
  unfolding inject_fault notify_state_change update_state_unlocked resolved
  tally-inject_fault n f x = ground arith

  pub tally-submit : (n : Node S O) (job : Job) → tally (submit n job).0 ≡ tally n
  unfolding submit take accept registered increment_queue_counters
  tally-submit n job = go (refusal n job.priority)
    where
      go : (e? : Option SubmitError) → tally (take n job e?).0 ≡ tally n
      go none = tally-settle (registered n (slots.insert n.slots queued).0 job.priority)
      go (some e) = refl

  pub tally-cancel : (n : Node S O) (raw : ℕ) → tally (cancel n raw).0 ≡ tally n
  unfolding cancel
  tally-cancel n raw = ground arith

  pub tally-reprioritise :
      (n : Node S O) (raw : ℕ) (p : Priority) → tally (reprioritise n raw p).0 ≡ tally n
  unfolding reprioritise
  tally-reprioritise n raw p = ground arith

  pub tally-begin_job : (n : Node S O) (t : Task) → tally (begin_job n t).0 ≡ tally n
  unfolding begin_job begin_pending decrement_queue_counters override
  tally-begin_job n t = go (slots.get n.slots t.handle)
    where
      go : (s : Option PendingJobState) → tally (begin_pending n t s).0 ≡ tally n
      go none = tally-settle (
          decrement_queue_counters
            (record n { overrides = prios.erase n.overrides (encode t.handle) }) t.job.priority)
      go (some s) = ground arith

  pub tally-end_job :
      (n : Node S O) (t : Task) (elapsed : ℕ) (b : Bool)
      → tally n + 1 < 2 ^ 32
      → tally (end_job n t elapsed b).0 ≡ tally n + 1
  unfolding end_job settled decrement_queue_counters record_latency
  tally-end_job n t elapsed b h = tally-settle (settled n t elapsed b) ∙ go b
    where
      go : (b : Bool) → tally (settled n t elapsed b) ≡ tally n + 1
      go true = omega (arith, h)
      go false = omega (arith, h)
