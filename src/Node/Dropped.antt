-- ===== src/Node/Dropped.antt =====
-- SimulatedNode.h: the tasks that end without a call of their callback.
use fatp_balancer.Base.{
  ℕ, ◌+◌, ◌≤◌, ◌<◌, ◌^◌, ◌≡◌, refl, sym, ap, ◌∙◌, ◌⊎◌, inl, inr, Bool, true, false, if◌then◌else◌,
  List, [], ◌∷◌, length, Option, none, some, All, arith,
}
use fatp_balancer.Job.{Priority, Job, SubmitError}
use fatp_balancer.Balancer.State.{FastHashMap}
use fatp_balancer.Node.State.{
  SimulatedNodeConfig, PendingJobState, queued, running, SlotHandle, same_handle, SlotMap, Node,
  increment_queue_counters, decrement_queue_counters, decode, encode,
}
use fatp_balancer.Node.Jobs.{
  Task, start, begin_stop, end_stop, accept, refusal, submit, cancel, cancel_pending, begin_job,
  take, begin_pending, override, registered,
}
use fatp_balancer.Node.Run.{
  Run, Event, starts, begins_stop, ends_stop, injects, submits, cancels, reprioritises, begins,
  ends, pick, after_submit, after_begin, after_cancel, begin_picked, end_picked, step, steps,
  constructed,
}
use fatp_balancer.Node.Handles.{
  SlotMapLaws, waiting_of, uses, uses-pick, same_handle-≡, same_handle_refl, runs_of,
}
use fatp_balancer.Node.Phases.{slots-settle, slots-inject_fault, slots-reprioritise, slots-settled}
use fatp_balancer.Node.Cancelling.{IsTracked, step-IsTracked, constructed-IsTracked}
use fatp_balancer.Node.Ledger.{IsSound, steps-constructed-IsSound}

-- The handle stands in the list.
abbrev pub In : SlotHandle → List SlotHandle → Type 0
In h [] = ⊥
In h (k ∷ ks) = (h ≡ k) ⊎ In h ks

All-weaken :
    {A : Type 0} {P Q : A → Type 0} (xs : List A) → ((x : A) → P x → Q x) → All P xs → All Q xs
All-weaken [] f h = tt
All-weaken (x ∷ xs) f h = (f x h.0, All-weaken xs f h.1)

module _ {S O : Type 0} ⦃slots : SlotMap PendingJobState S⦄ ⦃prios : FastHashMap Priority O⦄
    ⦃laws : SlotMapLaws slots⦄ where
  -- A task that waits without a slot, and one that was dropped, had been taken back.
  record IsTraced (r : Run S O) : Type 0 where
    absent :
        (h : SlotHandle) → 1 ≤ uses h r.waiting → slots.get r.node.slots h ≡ none → In h r.withdrawn
    dropped : All (λ h. In h r.withdrawn) r.dropped

  -- The slots and the tasks are left alone.
  kept-IsTraced :
      (r : Run S O) (n : Node S O)
      → IsTraced r
      → n.slots ≡ r.node.slots
      → IsTraced (record r { node = n })
  kept-IsTraced r n i e = record {
    absent = λ h u g. i.absent h u (ap (λ s. slots.get s h) (sym e) ∙ g);
    dropped = i.dropped;
  }

  submit-IsTraced : (r : Run S O) (job : Job) → IsTraced r → IsTraced (step r (submits job))
  unfolding step submit take accept registered increment_queue_counters after_submit uses
  submit-IsTraced r job i = go (refusal r.node job.priority)
    where
      k : SlotHandle
      k = (slots.insert r.node.slots queued).1

      taken :
          (h : SlotHandle) (b : Bool)
          → same_handle h k ≡ b
          → 1 ≤ (if b then 1 else 0) + uses h r.waiting
          → (if b then some queued else slots.get r.node.slots h) ≡ none
          → In h r.withdrawn
      taken h true e u g = cc
      taken h false e u g = i.absent h (omega (arith, u)) g

      go : (e? : Option SubmitError) → IsTraced (after_submit r (take r.node job e?))
      go (some e) = kept-IsTraced r r.node i refl
      go none = record {
        absent = λ h u g. taken h (same_handle h k) refl u (
            sym (laws.get-insert r.node.slots queued h)
            ∙ ap (λ s. slots.get s h)
                (sym (
                  slots-settle
                    (registered r.node (slots.insert r.node.slots queued).0 job.priority)))
            ∙ g);
        dropped = i.dropped;
      }

  cancel-IsTraced : (r : Run S O) (raw : ℕ) → IsTraced r → IsTraced (step r (cancels raw))
  unfolding step cancel after_cancel
  cancel-IsTraced r raw i = go (slots.get r.node.slots (decode raw))
    where
      withdrawn :
          (h : SlotHandle) (b : Bool)
          → same_handle h (decode raw) ≡ b
          → 1 ≤ uses h r.waiting
          → (if b then none else slots.get r.node.slots h) ≡ none
          → In h (decode raw ∷ r.withdrawn)
      withdrawn h true e u g = inl (same_handle-≡ h (decode raw) e)
      withdrawn h false e u g = inr (i.absent h u g)

      go :
          (s? : Option PendingJobState)
          → IsTraced (after_cancel r raw (cancel_pending r.node raw s?))
      go none = kept-IsTraced r r.node i refl
      go (some running) = kept-IsTraced r r.node i refl
      go (some queued) = record {
        absent = λ h u g.
            withdrawn h (same_handle h (decode raw)) refl u
              (sym (laws.get-erase r.node.slots (decode raw) h) ∙ g);
        dropped = All-weaken r.dropped (λ h m. inr m) i.dropped;
      }

  begin-IsTraced : (r : Run S O) (i : ℕ) → IsTraced r → IsTraced (step r (begins i))
  unfolding step begin_picked begin_job begin_pending override decrement_queue_counters after_begin
  begin-IsTraced r i c = go (pick r.waiting i) refl
    where
      go : (x : Option (Task × List Task)) → pick r.waiting i ≡ x → IsTraced (begin_picked r x)
      go none e = c
      go (some (t, ts)) e = at (slots.get r.node.slots t.handle) refl
        where
          more : (h : SlotHandle) → 1 ≤ uses h ts → 1 ≤ uses h r.waiting
          more h u = omega (arith, u, uses-pick h r.waiting i e)

          own : 1 ≤ uses t.handle r.waiting
          own = ground (arith, uses-pick t.handle r.waiting i e, same_handle_refl t.handle)

          at :
              (s? : Option PendingJobState)
              → slots.get r.node.slots t.handle ≡ s?
              → IsTraced (after_begin (record r { waiting = ts }) t (begin_pending r.node t s?))
          at none q = record {
            absent = λ h u g. c.absent h (more h u) (
                ap (λ s. slots.get s h)
                  (sym (
                    slots-settle (
                      decrement_queue_counters
                        (record r.node {
                          overrides = prios.erase r.node.overrides (encode t.handle);
                        })
                        t.job.priority)))
                ∙ g);
            dropped = (c.absent t.handle own q, c.dropped);
          }
          at (some s) q = over (prios.find r.node.overrides (encode t.handle))
            where
              put :
                  (h : SlotHandle) (b : Bool)
                  → same_handle h t.handle ≡ b
                  → 1 ≤ uses h ts
                  → (if b then some running else slots.get r.node.slots h) ≡ none
                  → In h r.withdrawn
              put h true f u g = cc
              put h false f u g = c.absent h (more h u) g

              absent :
                  (h : SlotHandle)
                  → 1 ≤ uses h ts
                  → slots.get (slots.put r.node.slots t.handle running) h ≡ none
                  → In h r.withdrawn
              absent h u g =
                  put h (same_handle h t.handle) refl u
                    (sym (laws.get-put r.node.slots t.handle running h (ground (arith, q))) ∙ g)

              over :
                  (p? : Option Priority)
                  → IsTraced (
                      after_begin
                        (record r { waiting = ts })
                        t
                        (override
                          (record r.node { slots = slots.put r.node.slots t.handle running })
                          t
                          p?))
              over none = record { absent = absent; dropped = c.dropped }
              over (some o) = record { absent = absent; dropped = c.dropped }

  end-IsTraced :
      (r : Run S O) (i elapsed : ℕ) (b : Bool)
      → IsTracked r
      → IsTraced r
      → IsTraced (step r (ends i elapsed b))
  unfolding step end_picked IsTracked uses
  end-IsTraced r i elapsed b all c = go (pick r.running i) refl
    where
      go :
          (x : Option (Task × List Task))
          → pick r.running i ≡ x
          → IsTraced (end_picked r elapsed b x)
      go none e = c
      go (some (t, ts)) e = record {
        absent = λ h u g. other h (same_handle h t.handle) refl u (
            sym (laws.get-erase r.node.slots t.handle h)
            ∙ ap (λ s. slots.get s h) (sym (slots-settled r.node t elapsed b))
            ∙ g);
        dropped = c.dropped;
      }
        where
          none_waits : uses t.handle r.waiting ≡ 0
          none_waits =
              let (q, a) = all t.handle in
              let w = runs_of q (uses t.handle ts) (
                sym a.running
                ∙ uses-pick t.handle r.running i e
                ∙ ground (arith, same_handle_refl t.handle)) in
              a.waiting ∙ ap waiting_of w.0

          other :
              (h : SlotHandle) (d : Bool)
              → same_handle h t.handle ≡ d
              → 1 ≤ uses h r.waiting
              → (if d then none else slots.get r.node.slots h) ≡ none
              → In h r.withdrawn
          other h true f u g =
              let z = ap (λ k. uses k r.waiting) (same_handle-≡ h t.handle f) in
              absurd (ground (arith, u, z, none_waits))
          other h false f u g = c.absent h u g

  step-IsTraced : (r : Run S O) (e : Event) → IsTracked r → IsTraced r → IsTraced (step r e)
  unfolding step start begin_stop end_stop
  step-IsTraced r starts all c = kept-IsTraced r _ c (ground arith)
  step-IsTraced r begins_stop all c = kept-IsTraced r _ c refl
  step-IsTraced r ends_stop all c = kept-IsTraced r _ c (ground arith)
  step-IsTraced r (injects f x) all c = kept-IsTraced r _ c (slots-inject_fault r.node f x)
  step-IsTraced r (submits job) all c = submit-IsTraced r job c
  step-IsTraced r (cancels raw) all c = cancel-IsTraced r raw c
  step-IsTraced r (reprioritises raw o) all c =
      kept-IsTraced r _ c (slots-reprioritise r.node raw o)
  step-IsTraced r (begins i) all c = begin-IsTraced r i c
  step-IsTraced r (ends i elapsed b) all c = end-IsTraced r i elapsed b all c

  steps-IsTraced :
      (es : List Event) (r : Run S O) → IsTracked r → IsTraced r → IsTraced (steps r es)
  unfolding steps
  steps-IsTraced [] r all c = c
  steps-IsTraced (e ∷ es) r all c =
      steps-IsTraced es (step r e) (step-IsTracked r e all) (step-IsTraced r e all c)

  -- Over a slot map with no slots at first that never gives a handle out again, from the construction
  -- of a node with an overload threshold above 0, over any fewer than 2^32 events: its queue depth
  -- is the number of tasks with its pool; its state is the one that the depth calls for, with the
  -- hysteresis between the thresholds, unless it is failed or offline; the jobs that it took are as
  -- many as the tasks that wait, that run, that were called back, as many as it counts as completed
  -- or failed, and that were dropped; and the handle of each dropped task is one for which a cancel
  -- had succeeded.
  pub steps-constructed-dropped :
      (id : ℕ) (config : SimulatedNodeConfig) (slots' : S) (overrides : O) (es : List Event)
      → ((h : SlotHandle) → (slots.get slots' h ≡ none) × (laws.past slots' h ≡ false))
      → 0 < config.overload_threshold
      → length es < 2 ^ 32
      → let r = steps (constructed id config slots' overrides) es in
        IsSound r 0 × All (λ h. In h r.withdrawn) r.dropped
  unfolding uses
  steps-constructed-dropped id config slots' overrides es empty h w =
      let new = constructed id config slots' overrides in
      let c =
        steps-IsTraced es new (constructed-IsTracked id config slots' overrides empty)
          (record { absent = λ h u g. ground (arith, u); dropped = tt }) in
      (steps-constructed-IsSound id config slots' overrides es h w, c.dropped)
