-- ===== src/Node/Depth.antt =====
-- SimulatedNode.h: the queue depth and the state of the node, over any sequence of events.
use fatp_balancer.Base.{
  ℕ, suc, ◌+◌, ◌<◌, ◌^◌, ◌≡◌, refl, ◌⊎◌, Bool, true, false, ◌&&◌, ◌||◌, leb, ltb, ◌==◌,
  if◌then◌else◌, Option, none, some, Expected, ok, err, arith,
}
use fatp_balancer.Job.{Priority, Job, SubmitError}
use fatp_balancer.Metrics.{NodeState, is_failed, is_overloaded, idle, busy}
use fatp_balancer.Balancer.State.{FastHashMap}
use fatp_balancer.Node.State.{
  FaultType, is_crash, PendingJobState, queued, running, SlotMap, Node, next_state,
  update_state_unlocked, notify_state_change, increment_queue_counters, decrement_queue_counters,
  record_latency, encode,
}
use fatp_balancer.Node.Jobs.{
  Task, is_offline, start, begin_stop, end_stop, inject_fault, resolved, accept, refusal, submit,
  cancel, reprioritise, begin_job, end_job, take, begin_pending, override, registered, settled,
}

abbrev pub is_idle : NodeState → Bool
is_idle idle = true
is_idle _ = false

abbrev pub is_busy : NodeState → Bool
is_busy busy = true
is_busy _ = false

module _ {S O : Type 0} where
  -- The state that the depth calls for, with the hysteresis between the two thresholds.
  abbrev pub matches : Node S O → Bool
  matches n =
      if n.queue_depth == 0
      then is_idle n.state
      else if leb n.config.overload_threshold n.queue_depth
      then is_overloaded n.state
      else is_busy n.state || is_overloaded n.state && ltb n.config.recover_threshold n.queue_depth

  -- `k` tasks are with the pool, and `room` more may come.
  pub record IsConsistent (n : Node S O) (k room : ℕ) : Type 0 where
    pub depth : n.queue_depth ≡ k
    pub word : k + room < 2 ^ 32
    pub threshold : 0 < n.config.overload_threshold
    pub state : (matches n || is_failed n.state || is_offline n.state) ≡ true
    pub stopped : (n.pooled ≡ true) ⊎ (k ≡ 0)
    pub away : (is_offline n.state ≡ false) ⊎ (k ≡ 0)
    pub crashed : (is_crash n.fault ≡ false) ⊎ (is_failed n.state ≡ true) ⊎ (k ≡ 0)

  -- What updateStateUnlocked needs of the counters.
  pub record IsCounted (n : Node S O) (k room : ℕ) : Type 0 where
    pub depth : n.queue_depth ≡ k
    pub word : k + room < 2 ^ 32
    pub threshold : 0 < n.config.overload_threshold
    pub stopped : (n.pooled ≡ true) ⊎ (k ≡ 0)
    pub away : (is_offline n.state ≡ false) ⊎ (k ≡ 0)
    pub crashed : (is_crash n.fault ≡ false) ⊎ (is_failed n.state ≡ true)

  -- A task that begins runs, or was cancelled and leaves the pool.
  pub data HasBegun (n : Node S O) (k room : ℕ) : Option Task → Type 0 where
    cancelled : IsConsistent n k room → HasBegun n k room none
    runs : {u : Task} → IsConsistent n (suc k) room → HasBegun n k room (some u)

  -- A submission was refused, or gave the pool one more task.
  pub data IsAnswered (n : Node S O) (k room : ℕ) : Expected Task SubmitError → Type 0 where
    refused : {e : SubmitError} → IsConsistent n k room → IsAnswered n k room (err e)
    taken : {t : Task} → IsConsistent n (suc k) room → IsAnswered n k room (ok t)

module _ {S O : Type 0} ⦃slots : SlotMap PendingJobState S⦄ ⦃prios : FastHashMap Priority O⦄ where
  pub start-IsConsistent :
      (n : Node S O) (k room : ℕ)
      → IsConsistent n k room
      → n.pooled ≡ false
      → IsConsistent (start n) k room
  unfolding start
  start-IsConsistent n k room c p = ground arith

  pub begin_stop-IsConsistent :
      (n : Node S O) (k room : ℕ) → IsConsistent n k room → IsConsistent (begin_stop n) k room
  unfolding begin_stop
  begin_stop-IsConsistent n k room c = ground arith

  pub end_stop-IsConsistent :
      (n : Node S O) (room : ℕ) → IsConsistent n 0 room → IsConsistent (end_stop n) 0 room
  unfolding end_stop
  end_stop-IsConsistent n room c = ground arith

  pub inject_fault-IsConsistent :
      (n : Node S O) (f : FaultType) (x k room : ℕ)
      → IsConsistent n k room
      → IsConsistent (inject_fault n f x) k room
  unfolding inject_fault update_state_unlocked notify_state_change resolved next_state
  inject_fault-IsConsistent n f x k room c = ground arith

  settle-IsConsistent :
      (n : Node S O) (k room : ℕ)
      → IsCounted n k room
      → IsConsistent (notify_state_change (update_state_unlocked n)) k room
  unfolding update_state_unlocked notify_state_change next_state
  settle-IsConsistent n k room c = ground arith

  pub cancel-IsConsistent :
      (n : Node S O) (raw k room : ℕ) → IsConsistent n k room → IsConsistent (cancel n raw).0 k room
  unfolding cancel
  cancel-IsConsistent n raw k room c = ground arith

  pub reprioritise-IsConsistent :
      (n : Node S O) (raw : ℕ) (p : Priority) (k room : ℕ)
      → IsConsistent n k room
      → IsConsistent (reprioritise n raw p).0 k room
  unfolding reprioritise
  reprioritise-IsConsistent n raw p k room c = ground arith

  registered-IsCounted :
      (n : Node S O) (slots' : S) (p : Priority) (k room : ℕ)
      → IsConsistent n k (suc room)
      → refusal n p ≡ none
      → IsCounted (registered n slots' p) (suc k) room
  unfolding registered increment_queue_counters refusal
  registered-IsCounted n slots' p k room c h = record {
    depth = ground arith;
    word = omega (arith, c.word);
    threshold = c.threshold;
    stopped = ground arith;
    away = ground arith;
    crashed = ground arith;
  }

  accept-IsConsistent :
      (n : Node S O) (job : Job) (k room : ℕ)
      → IsConsistent n k (suc room)
      → refusal n job.priority ≡ none
      → IsConsistent (accept n job).0 (suc k) room
  unfolding accept
  accept-IsConsistent n job k room c h =
      settle-IsConsistent (registered n (slots.insert n.slots queued).0 job.priority) (suc k) room
        (registered-IsCounted n _ job.priority k room c h)

  pub weaken-IsConsistent :
      (n : Node S O) (k room : ℕ) → IsConsistent n k (suc room) → IsConsistent n k room
  weaken-IsConsistent n k room c = record {
    depth = c.depth;
    word = omega (arith, c.word);
    threshold = c.threshold;
    state = c.state;
    stopped = c.stopped;
    away = c.away;
    crashed = c.crashed;
  }

  decrement-IsCounted :
      (n : Node S O) (p : Priority) (k room : ℕ)
      → IsConsistent n (suc k) room
      → IsCounted (decrement_queue_counters n p) k room
  unfolding decrement_queue_counters
  decrement-IsCounted n p k room c = record {
    depth = ground arith;
    word = omega (arith, c.word);
    threshold = c.threshold;
    stopped = ground arith;
    away = ground arith;
    crashed = ground arith;
  }

  cancelled-IsConsistent :
      (n : Node S O) (p : Priority) (k room : ℕ)
      → IsConsistent n (suc k) room
      → IsConsistent
          (notify_state_change (update_state_unlocked (decrement_queue_counters n p)))
          k
          room
  cancelled-IsConsistent n p k room c =
      settle-IsConsistent (decrement_queue_counters n p) k room (decrement-IsCounted n p k room c)

  settled-IsCounted :
      (n : Node S O) (t : Task) (elapsed : ℕ) (succeeded : Bool) (k room : ℕ)
      → IsConsistent n (suc k) room
      → IsCounted (settled n t elapsed succeeded) k room
  unfolding settled decrement_queue_counters record_latency
  settled-IsCounted n t elapsed true k room c = record {
    depth = (decrement-IsCounted n t.job.priority k room c).depth;
    word = (decrement-IsCounted n t.job.priority k room c).word;
    threshold = c.threshold;
    stopped = (decrement-IsCounted n t.job.priority k room c).stopped;
    away = (decrement-IsCounted n t.job.priority k room c).away;
    crashed = (decrement-IsCounted n t.job.priority k room c).crashed;
  }
  settled-IsCounted n t elapsed false k room c = record {
    depth = (decrement-IsCounted n t.job.priority k room c).depth;
    word = (decrement-IsCounted n t.job.priority k room c).word;
    threshold = c.threshold;
    stopped = (decrement-IsCounted n t.job.priority k room c).stopped;
    away = (decrement-IsCounted n t.job.priority k room c).away;
    crashed = (decrement-IsCounted n t.job.priority k room c).crashed;
  }

  pub end_job-IsConsistent :
      (n : Node S O) (t : Task) (elapsed : ℕ) (succeeded : Bool) (k room : ℕ)
      → IsConsistent n (suc k) room
      → IsConsistent (end_job n t elapsed succeeded).0 k room
  unfolding end_job
  end_job-IsConsistent n t elapsed succeeded k room c =
      settle-IsConsistent (settled n t elapsed succeeded) k room
        (settled-IsCounted n t elapsed succeeded k room c)

  with_maps-IsConsistent :
      (n : Node S O) (slots' : S) (overrides' : O) (k room : ℕ)
      → IsConsistent n k room
      → IsConsistent (record n { slots = slots'; overrides = overrides' }) k room
  with_maps-IsConsistent n slots' overrides' k room c = record {
    depth = c.depth;
    word = c.word;
    threshold = c.threshold;
    state = c.state;
    stopped = c.stopped;
    away = c.away;
    crashed = c.crashed;
  }

  override-HasBegun :
      (n : Node S O) (t : Task) (k room : ℕ) (p? : Option Priority)
      → IsConsistent n (suc k) room
      → HasBegun (override n t p?).0 k room (override n t p?).1
  unfolding override
  override-HasBegun n t k room none c = runs c
  override-HasBegun n t k room (some p) c = runs (with_maps-IsConsistent n n.slots _ (suc k) room c)

  begin_pending-HasBegun :
      (n : Node S O) (t : Task) (k room : ℕ) (s : Option PendingJobState)
      → IsConsistent n (suc k) room
      → HasBegun (begin_pending n t s).0 k room (begin_pending n t s).1
  unfolding begin_pending
  begin_pending-HasBegun n t k room none c = cancelled (
      cancelled-IsConsistent _ t.job.priority k room (
        with_maps-IsConsistent n n.slots (prios.erase n.overrides (encode t.handle)) (suc k) room
          c))
  begin_pending-HasBegun n t k room (some s) c =
      override-HasBegun _ t k room (prios.find n.overrides (encode t.handle))
        (with_maps-IsConsistent n (slots.put n.slots t.handle running) n.overrides (suc k) room c)

  pub begin_job-HasBegun :
      (n : Node S O) (t : Task) (k room : ℕ)
      → IsConsistent n (suc k) room
      → HasBegun (begin_job n t).0 k room (begin_job n t).1
  unfolding begin_job
  begin_job-HasBegun n t k room c = begin_pending-HasBegun n t k room (slots.get n.slots t.handle) c

  take-IsAnswered :
      (n : Node S O) (job : Job) (k room : ℕ) (e? : Option SubmitError)
      → refusal n job.priority ≡ e?
      → IsConsistent n k (suc room)
      → IsAnswered (take n job e?).0 k room (take n job e?).1
  unfolding take
  take-IsAnswered n job k room (some e) h c = refused (weaken-IsConsistent n k room c)
  take-IsAnswered n job k room none h c = taken (accept-IsConsistent n job k room c h)

  pub submit-IsAnswered :
      (n : Node S O) (job : Job) (k room : ℕ)
      → IsConsistent n k (suc room)
      → IsAnswered (submit n job).0 k room (submit n job).1
  unfolding submit
  submit-IsAnswered n job k room c = take-IsAnswered n job k room (refusal n job.priority) refl c
