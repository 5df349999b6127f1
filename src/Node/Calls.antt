-- ===== src/Node/Calls.antt =====
-- SimulatedNode.h as the INode that Balancer.h calls: a node with its pool, whose handles are the
-- words of its slots.
use fatp_balancer.Base.{
  ℕ, ◌^◌, ◌<◌, ◌≡◌, sym, ap, ◌∙◌, Option, none, some, Expected, ok, err, length, arith, has_value,
  true,
}
use fatp_balancer.Job.{Priority, Job, SubmitError}
use fatp_balancer.Floats.{Floats}
use fatp_balancer.Balancer.State.{INode, FastHashMap}
use fatp_balancer.Node.State.{
  PendingJobState, queued, Node, SlotHandle, SlotMap, encode, decode, increment_queue_counters,
}
use fatp_balancer.Node.Jobs.{
  Task, submit, take, accept, registered, refusal, cancel, cancel_pending, reprioritise, metrics,
}
use fatp_balancer.Node.Run.{Run, after_submit}
use fatp_balancer.Node.Handles.{SlotMapLaws, same_handle_refl}
use fatp_balancer.Node.Phases.{slots-settle}
use fatp_balancer.Node.Latencies.{decode-encode}

-- The handle that submit returns for a task.
abbrev pub handle_of : Expected Task SubmitError → Expected ℕ SubmitError
handle_of (ok t) = ok (encode t.handle)
handle_of (err e) = err e

module _ {S O : Type 0} ⦃slots : SlotMap PendingJobState S⦄ ⦃prios : FastHashMap Priority O⦄ where
  unfoldable pub submit_run : Run S O → Job → Run S O × Expected ℕ SubmitError
  unfolding after_submit submit
  submit_run r job = let answer = submit r.node job in (after_submit r answer, handle_of answer.1)

module _ {S O F : Type 0} ⦃slots : SlotMap PendingJobState S⦄ ⦃prios : FastHashMap Priority O⦄
    ⦃fl : Floats F⦄ where
  -- Every running task is active in the pool.
  unfoldable pub simulated_node : INode (Run S O) F
  unfolding submit_run cancel reprioritise metrics
  simulated_node = record {
    id = λ r. r.node.id;
    metrics = λ r. metrics r.node (length r.running);
    submit = submit_run;
    cancel = λ r h. let answer = cancel r.node h in (record r { node = answer.0 }, answer.1);
    reprioritise =
        λ r h p. let answer = reprioritise r.node h p in (record r { node = answer.0 }, answer.1);
  }

module _ {S O : Type 0} ⦃slots : SlotMap PendingJobState S⦄ ⦃prios : FastHashMap Priority O⦄
    ⦃laws : SlotMapLaws slots⦄ where
  -- Over a slot map that keeps what is inserted, a job that a node takes can be taken back at once
  -- by the handle that submit returns, if it is a handle of two 32-bit words.
  pub cancel-submit :
      (r : Run S O) (job : Job) (raw : ℕ)
      → (slots.insert r.node.slots queued).1.slot < 2 ^ 32
      → (slots.insert r.node.slots queued).1.generation < 2 ^ 32
      → (submit_run r job).1 ≡ ok raw
      → (cancel (submit_run r job).0.node raw).1 ≡ ok tt
  unfolding submit_run after_submit submit take accept registered increment_queue_counters cancel
  cancel-submit r job raw a b h = go (refusal r.node job.priority) h
    where
      k : SlotHandle
      k = (slots.insert r.node.slots queued).1

      found :
          (raw : ℕ)
          → encode k ≡ raw
          → slots.get (accept r.node job).0.slots (decode raw) ≡ some queued
      found raw e =
          ap (λ s. slots.get s (decode raw))
            (slots-settle (registered r.node (slots.insert r.node.slots queued).0 job.priority))
          ∙ ap (slots.get (slots.insert r.node.slots queued).0)
              (ap decode (sym e) ∙ decode-encode k a b)
          ∙ laws.get-insert r.node.slots queued k
          ∙ ground (arith, same_handle_refl k)

      go :
          (e? : Option SubmitError)
          → handle_of (take r.node job e?).1 ≡ ok raw
          → (cancel (after_submit r (take r.node job e?)).node raw).1 ≡ ok tt
      go (some e) h = cc
      go none h =
          let e : encode k ≡ raw = cc in
          ap (λ s?. (cancel_pending (accept r.node job).0 raw s?).1) (found raw e)

module _ {S O : Type 0} ⦃slots : SlotMap PendingJobState S⦄ ⦃prios : FastHashMap Priority O⦄ where
  handle-take :
      (n m : Node S O) (job other : Job) (e? d? : Option SubmitError) (raw : ℕ)
      → n.slots ≡ m.slots
      → handle_of (take n job e?).1 ≡ ok raw
      → has_value (handle_of (take m other d?).1) ≡ true
      → handle_of (take m other d?).1 ≡ ok raw
  unfolding take accept registered increment_queue_counters
  handle-take n m job other (some e) d? raw same h k = cc
  handle-take n m job other none (some d) raw same h k = cc
  handle-take n m job other none none raw same h k =
      ap (λ s. ok (encode (slots.insert s queued).1)) (sym same) ∙ h

  -- The handle says nothing of the node: two nodes with the same slots, such as two new ones, give
  -- the same handle to the next job that each of them takes, whatever their ids.
  pub submit_run_collides :
      (r s : Run S O) (job other : Job) (raw : ℕ)
      → r.node.slots ≡ s.node.slots
      → (submit_run r job).1 ≡ ok raw
      → has_value (submit_run s other).1 ≡ true
      → (submit_run s other).1 ≡ ok raw
  unfolding submit_run submit
  submit_run_collides r s job other raw same h k =
      handle-take r.node s.node job other (refusal r.node job.priority)
        (refusal s.node other.priority) raw same h k
