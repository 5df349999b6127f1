-- ===== src/Node/Cancelling.antt =====
-- SimulatedNode.h: the phases of a handle over any sequence of events, and what cancel answers.
use fatp_balancer.Base.{
  ℕ, ◌≡◌, refl, sym, ap, subst, ◌∙◌, ◌⊎◌, inl, inr, Bool, false, List, [], ◌∷◌, Option, none, some,
  Expected, ok, err, arith,
}
use fatp_balancer.Job.{Priority, Job, SubmitError, CancelError, not_found, already_running}
use fatp_balancer.Balancer.State.{FastHashMap}
use fatp_balancer.Node.State.{
  SimulatedNodeConfig, PendingJobState, queued, running, SlotHandle, SlotMap,
  increment_queue_counters, decrement_queue_counters, decode, encode,
}
use fatp_balancer.Node.Jobs.{
  Task, start, begin_stop, end_stop, accept, refusal, submit, cancel, cancel_pending, begin_job,
  take, begin_pending, override, registered,
}
use fatp_balancer.Node.Run.{
  Run, Event, starts, begins_stop, ends_stop, injects, submits, cancels, reprioritises, begins,
  ends, pick, after_submit, after_begin, after_cancel, begin_picked, end_picked, step, steps,
  constructed,
}
use fatp_balancer.Node.Handles.{
  SlotMapLaws, Phase, unissued, waits, runs, cancelled, gone, stays, issues, begins_run, ends_run,
  withdraws, drops, Reaches, at_once, after, uses, slot_of, running_of, uses-pick, same_handle_refl,
  runs_of, HasPhase, Moved,
}
use fatp_balancer.Node.Phases.{
  slots-settle, slots-inject_fault, slots-reprioritise, slots-settled, accepted-Moved, kept-Moved,
  withdrawn-Moved, dropped-Moved, begun-Moved, ended-Moved,
}

-- What cancel answers for a handle.
abbrev pub answer_of : Phase → Expected (Unit {0}) CancelError
answer_of waits = ok tt
answer_of runs = err already_running
answer_of _ = err not_found

waits_of_answer : (p : Phase) → answer_of p ≡ ok tt → p ≡ waits
waits_of_answer unissued e = cc
waits_of_answer waits e = refl
waits_of_answer runs e = cc
waits_of_answer cancelled e = cc
waits_of_answer gone e = cc

-- The ways of a handle that was cancelled.
cancelled-Reaches :
    {p q : Phase} → Reaches p q → (p ≡ cancelled) ⊎ (p ≡ gone) → (q ≡ cancelled) ⊎ (q ≡ gone)
cancelled-Reaches at_once e = e
cancelled-Reaches (after stays w) e = cancelled-Reaches w e
cancelled-Reaches (after issues w) e = ground arith
cancelled-Reaches (after begins_run w) e = ground arith
cancelled-Reaches (after ends_run w) e = cancelled-Reaches w (inr refl)
cancelled-Reaches (after withdraws w) e = ground arith
cancelled-Reaches (after drops w) e = cancelled-Reaches w (inr refl)

module _ {S O : Type 0} ⦃slots : SlotMap PendingJobState S⦄ ⦃prios : FastHashMap Priority O⦄
    ⦃laws : SlotMapLaws slots⦄ where
  submit-Moved :
      (r : Run S O) (job : Job) (h : SlotHandle) (p : Phase)
      → HasPhase r h p
      → Moved (step r (submits job)) h p
  unfolding step submit take accept registered increment_queue_counters after_submit
  submit-Moved r job h p c = go (refusal r.node job.priority)
    where
      go : (e? : Option SubmitError) → Moved (after_submit r (take r.node job e?)) h p
      go (some e) = kept-Moved r r.node h p c refl
      go none =
          accepted-Moved r _ _ h p c
            (slots-settle (registered r.node (slots.insert r.node.slots queued).0 job.priority))
            refl

  cancel-Moved :
      (r : Run S O) (raw : ℕ) (h : SlotHandle) (p : Phase)
      → HasPhase r h p
      → Moved (step r (cancels raw)) h p
  unfolding step cancel after_cancel
  cancel-Moved r raw h p c = go (slots.get r.node.slots (decode raw)) refl
    where
      go :
          (s? : Option PendingJobState)
          → slots.get r.node.slots (decode raw) ≡ s?
          → Moved (after_cancel r raw (cancel_pending r.node raw s?)) h p
      go none e = kept-Moved r _ h p c refl
      go (some running) e = kept-Moved r _ h p c refl
      go (some queued) e = withdrawn-Moved r _ (decode raw) h p _ c e refl

  begin-Moved :
      (r : Run S O) (i : ℕ) (h : SlotHandle) (p : Phase)
      → HasPhase r h p
      → Moved (step r (begins i)) h p
  unfolding step begin_picked begin_job begin_pending override decrement_queue_counters
  begin-Moved r i h p c = go (pick r.waiting i) refl
    where
      go : (x : Option (Task × List Task)) → pick r.waiting i ≡ x → Moved (begin_picked r x) h p
      go none e = kept-Moved r r.node h p c refl
      go (some (t, ts)) e = at (slots.get r.node.slots t.handle) refl
        where
          at :
              (s? : Option PendingJobState)
              → slots.get r.node.slots t.handle ≡ s?
              → Moved (after_begin (record r { waiting = ts }) t (begin_pending r.node t s?)) h p
          at none q = dropped-Moved r t ts _ h p c (uses-pick h r.waiting i e) q (
              slots-settle (
                decrement_queue_counters
                  (record r.node { overrides = prios.erase r.node.overrides (encode t.handle) })
                  t.job.priority))
          at (some s) q = over (prios.find r.node.overrides (encode t.handle))
            where
              over :
                  (p? : Option Priority)
                  → Moved
                      (after_begin
                        (record r { waiting = ts })
                        t
                        (override
                          (record r.node { slots = slots.put r.node.slots t.handle running })
                          t
                          p?))
                      h
                      p
              over none = begun-Moved r t t ts _ h p c (uses-pick h r.waiting i e) q refl refl
              over (some o) = begun-Moved r t _ ts _ h p c (uses-pick h r.waiting i e) q refl refl

  end-Moved :
      (r : Run S O) (i elapsed : ℕ) (b : Bool) (h : SlotHandle) (p : Phase)
      → ((k : SlotHandle) → (q : Phase) × HasPhase r k q)
      → HasPhase r h p
      → Moved (step r (ends i elapsed b)) h p
  unfolding step end_picked
  end-Moved r i elapsed b h p all c = go (pick r.running i) refl
    where
      go :
          (x : Option (Task × List Task))
          → pick r.running i ≡ x
          → Moved (end_picked r elapsed b x) h p
      go none e = kept-Moved r r.node h p c refl
      go (some (t, ts)) e =
          let (q, a) = all t.handle in
          let w = runs_of q (uses t.handle ts) (
            sym a.running
            ∙ uses-pick t.handle r.running i e
            ∙ ground (arith, same_handle_refl t.handle)) in
          ended-Moved r t ts _ _ h p c (subst (HasPhase r t.handle) w.0 a)
            (uses-pick h r.running i e) (slots-settled r.node t elapsed b)

  -- Every handle has a phase.
  unfoldable pub IsTracked : Run S O → Type 0
  IsTracked r = (h : SlotHandle) → (p : Phase) × HasPhase r h p

  step-Moved :
      (r : Run S O) (e : Event) (h : SlotHandle) (p : Phase)
      → IsTracked r
      → HasPhase r h p
      → Moved (step r e) h p
  unfolding step start begin_stop end_stop IsTracked
  step-Moved r starts h p all c = kept-Moved r _ h p c (ground arith)
  step-Moved r begins_stop h p all c = kept-Moved r _ h p c refl
  step-Moved r ends_stop h p all c = kept-Moved r _ h p c (ground arith)
  step-Moved r (injects f x) h p all c = kept-Moved r _ h p c (slots-inject_fault r.node f x)
  step-Moved r (submits job) h p all c = submit-Moved r job h p c
  step-Moved r (cancels raw) h p all c = cancel-Moved r raw h p c
  step-Moved r (reprioritises raw o) h p all c =
      kept-Moved r _ h p c (slots-reprioritise r.node raw o)
  step-Moved r (begins i) h p all c = begin-Moved r i h p c
  step-Moved r (ends i elapsed b) h p all c = end-Moved r i elapsed b h p all c

  pub step-IsTracked : (r : Run S O) (e : Event) → IsTracked r → IsTracked (step r e)
  unfolding IsTracked Moved
  step-IsTracked r e all h =
      let (p, c) = all h in let (q, m, d) = step-Moved r e h p all c in (q, d)

  -- Over a slot map that never gives a handle out again, and a run in which every handle has a
  -- phase: over any events a handle goes its way from its phase to another. It is issued once,
  -- runs at most once, and not after it was cancelled.
  pub steps-Reaches :
      (es : List Event) (r : Run S O) (h : SlotHandle) (p : Phase)
      → IsTracked r
      → HasPhase r h p
      → (q : Phase) × Reaches p q × HasPhase (steps r es) h q
  unfolding steps Moved
  steps-Reaches [] r h p all c = (p, at_once, c)
  steps-Reaches (e ∷ es) r h p all c =
      let (q, m, d) = step-Moved r e h p all c in
      let (x, w, f) = steps-Reaches es (step r e) h q (step-IsTracked r e all) d in
      (x, after m w, f)

  -- Over such a slot map, for a handle with a phase: cancel takes the job back exactly if its task
  -- waits and was not cancelled; it answers AlreadyRunning if the task runs, and NotFound if the
  -- handle was never given out, was cancelled or has ended.
  pub cancel-answer_of :
      (r : Run S O) (raw : ℕ) (p : Phase)
      → HasPhase r (decode raw) p
      → (cancel r.node raw).1 ≡ answer_of p
  unfolding cancel
  cancel-answer_of r raw p c = ap (λ s?. (cancel_pending r.node raw s?).1) c.slot ∙ go p
    where
      go : (p : Phase) → (cancel_pending r.node raw (slot_of p)).1 ≡ answer_of p
      go unissued = refl
      go waits = refl
      go runs = refl
      go cancelled = refl
      go gone = refl

  cancelled-HasPhase :
      (r : Run S O) (raw : ℕ)
      → HasPhase r (decode raw) waits
      → HasPhase (step r (cancels raw)) (decode raw) cancelled
  unfolding step cancel after_cancel
  cancelled-HasPhase r raw c =
      let e = ap (λ s?. (cancel_pending r.node raw s?).0.slots) c.slot in
      record {
        slot =
            ap (λ s. slots.get s (decode raw)) e
            ∙ laws.get-erase r.node.slots (decode raw) (decode raw)
            ∙ ground (arith, same_handle_refl (decode raw));
        past =
            ap (λ s. laws.past s (decode raw)) e
            ∙ laws.past-erase r.node.slots (decode raw) (decode raw) (ground (arith, c.slot))
            ∙ ground (arith, same_handle_refl (decode raw));
        waiting = c.waiting;
        running = c.running;
      }

  -- Over a slot map that never gives a handle out again, if every handle has a phase and cancel
  -- takes a job back, then over any later events its task never runs, and its handle never names
  -- another job.
  pub cancel-steps :
      (r : Run S O) (raw : ℕ) (es : List Event)
      → IsTracked r
      → (cancel r.node raw).1 ≡ ok tt
      → (uses (decode raw) (steps (step r (cancels raw)) es).running ≡ 0)
        × (slots.get (steps (step r (cancels raw)) es).node.slots (decode raw) ≡ none)
  unfolding IsTracked
  cancel-steps r raw es all e =
      let (p, c) = all (decode raw) in
      let h = waits_of_answer p (sym (cancel-answer_of r raw p c) ∙ e) in
      let d = cancelled-HasPhase r raw (subst (HasPhase r (decode raw)) h c) in
      let (q, w, f) =
        steps-Reaches es (step r (cancels raw)) (decode raw) cancelled
          (step-IsTracked r (cancels raw) all) d in
      elim (cancelled-Reaches w (inl refl)) [
        | inl g ↦ (f.running ∙ ap running_of g, f.slot ∙ ap slot_of g)
        | inr g ↦ (f.running ∙ ap running_of g, f.slot ∙ ap slot_of g)
      ]

  pub constructed-IsTracked :
      (id : ℕ) (config : SimulatedNodeConfig) (s : S) (overrides : O)
      → ((h : SlotHandle) → (slots.get s h ≡ none) × (laws.past s h ≡ false))
      → IsTracked (constructed id config s overrides)
  unfolding IsTracked uses
  constructed-IsTracked id config s overrides empty h =
      (unissued, record { slot = (empty h).0; past = (empty h).1; waiting = refl; running = refl })

  -- In a run of a node from its construction with no slots, every handle has a phase.
  pub steps-constructed-IsTracked :
      (es : List Event) (id : ℕ) (config : SimulatedNodeConfig) (s : S) (overrides : O)
      → ((h : SlotHandle) → (slots.get s h ≡ none) × (laws.past s h ≡ false))
      → IsTracked (steps (constructed id config s overrides) es)
  unfolding steps
  steps-constructed-IsTracked es id config s overrides empty =
      go es _ (constructed-IsTracked id config s overrides empty)
    where
      go : (es : List Event) (r : Run S O) → IsTracked r → IsTracked (steps r es)
      go [] r all = all
      go (e ∷ es) r all = go es (step r e) (step-IsTracked r e all)
