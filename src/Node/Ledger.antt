-- ===== src/Node/Ledger.antt =====
-- SimulatedNode.h: the tasks of a node over any sequence of events.
use fatp_balancer.Base.{
  ℕ, zero, suc, ◌+◌, ◌<◌, ◌^◌, ◌≡◌, refl, sym, subst, ◌∙◌, inl, inr, Bool, true, false, ◌&&◌,
  if◌then◌else◌, List, [], ◌∷◌, Option, none, some, Expected, ok, err, length, arith, Option-cases,
}
use fatp_balancer.Job.{Priority, SubmitError, CancelError}
use fatp_balancer.Balancer.State.{FastHashMap}
use fatp_balancer.Node.State.{PendingJobState, SlotMap, Node, SimulatedNodeConfig}
use fatp_balancer.Node.Jobs.{Task, start, begin_stop, end_stop}
use fatp_balancer.Node.Run.{
  Run, Event, starts, begins_stop, ends_stop, injects, submits, cancels, reprioritises, begins,
  ends, pick, is_nil, after_submit, after_begin, after_cancel, begin_picked, end_picked, step,
  steps, constructed,
}
use fatp_balancer.Node.Depth.{
  IsConsistent, start-IsConsistent, inject_fault-IsConsistent, cancel-IsConsistent,
  reprioritise-IsConsistent, end_job-IsConsistent, HasBegun, cancelled, runs, begin_job-HasBegun,
  IsAnswered, refused, taken, submit-IsAnswered, weaken-IsConsistent, end_stop-IsConsistent,
  begin_stop-IsConsistent,
}
use fatp_balancer.Node.Tally.{
  tally, tally-inject_fault, tally-submit, tally-cancel, tally-reprioritise, tally-begin_job,
  tally-end_job,
}

pub length-pick :
    (ts : List Task) (i : ℕ) {t : Task} {us : List Task}
    → pick ts i ≡ some (t, us)
    → length ts ≡ suc (length us)
unfolding pick
length-pick [] i h = cc
length-pick (t ∷ ts) zero h = ground arith
length-pick (t ∷ ts) (suc i) h = elim (Option-cases (pick ts i)) [
  | inl e ↦ ground arith
  | inr ((u, us), e) ↦ ground (arith, length-pick ts i e)
]

length-is_nil : (ts us : List Task) → (is_nil ts && is_nil us) ≡ true → length ts + length us ≡ 0
length-is_nil [] [] h = refl
length-is_nil [] (u ∷ us) h = cc
length-is_nil (t ∷ ts) us h = cc

if-elim :
    {A : Type 0} (P : A → Type 0) (b : Bool) {x y : A}
    → (b ≡ true → P x)
    → (b ≡ false → P y)
    → P (if b then x else y)
if-elim P true f g = f refl
if-elim P false f g = g refl

module _ {S O : Type 0} where
  -- Every job that was taken waits, runs, or left the pool once; `room` more may be taken.
  pub record IsSound (r : Run S O) (room : ℕ) : Type 0 where
    pub node : IsConsistent r.node (length r.waiting + length r.running) room
    pub ledger :
        r.accepted ≡ length r.waiting + length r.running + length r.called + length r.dropped
    pub jobs : tally r.node ≡ length r.called
    pub bound : r.accepted + room < 2 ^ 32

module _ {S O : Type 0} ⦃slots : SlotMap PendingJobState S⦄ ⦃prios : FastHashMap Priority O⦄ where
  -- An event that leaves the tasks alone keeps the run sound.
  only_node-IsSound :
      (r : Run S O) (n : Node S O) (room : ℕ)
      → IsSound r room
      → IsConsistent n (length r.waiting + length r.running) room
      → tally n ≡ tally r.node
      → IsSound (record r { node = n }) room
  only_node-IsSound r n room s c h = record {
    node = c;
    ledger = s.ledger;
    jobs = h ∙ s.jobs;
    bound = s.bound;
  }

  after_cancel-IsSound :
      (r : Run S O) (raw : ℕ) (answer : Node S O × Expected (Unit {0}) CancelError) (room : ℕ)
      → IsSound r room
      → IsConsistent answer.0 (length r.waiting + length r.running) room
      → tally answer.0 ≡ tally r.node
      → IsSound (after_cancel r raw answer) room
  unfolding after_cancel
  after_cancel-IsSound r raw answer room s c h = record {
    node = c;
    ledger = s.ledger;
    jobs = h ∙ s.jobs;
    bound = s.bound;
  }

  after_submit-IsSound :
      (r : Run S O) (n : Node S O) (room : ℕ) (e? : Expected Task SubmitError)
      → IsSound r (suc room)
      → IsAnswered n (length r.waiting + length r.running) room e?
      → tally n ≡ tally r.node
      → IsSound (after_submit r (n, e?)) room
  unfolding after_submit
  after_submit-IsSound r n room (err e) s (refused c) h = record {
    node = c;
    ledger = s.ledger;
    jobs = h ∙ s.jobs;
    bound = omega (arith, s.bound);
  }
  after_submit-IsSound r n room (ok t) s (taken c) h = record {
    node = subst (λ k. IsConsistent n k room) (omega arith) c;
    ledger = omega (arith, s.ledger);
    jobs = h ∙ s.jobs;
    bound = omega (arith, s.bound);
  }

  after_begin-IsSound :
      (r : Run S O) (t : Task) (ts : List Task) (n : Node S O) (room : ℕ) (t? : Option Task)
      → IsSound r room
      → length r.waiting ≡ suc (length ts)
      → HasBegun n (length ts + length r.running) room t?
      → tally n ≡ tally r.node
      → IsSound (after_begin (record r { waiting = ts }) t (n, t?)) room
  unfolding after_begin
  after_begin-IsSound r t ts n room none s w (cancelled c) h = record {
    node = c;
    ledger = omega (arith, s.ledger, w);
    jobs = h ∙ s.jobs;
    bound = s.bound;
  }
  after_begin-IsSound r t ts n room (some u) s w (runs c) h = record {
    node = subst (λ k. IsConsistent n k room) (omega arith) c;
    ledger = omega (arith, s.ledger, w);
    jobs = h ∙ s.jobs;
    bound = s.bound;
  }

  pub begin_picked-IsSound :
      (r : Run S O) (i room : ℕ) → IsSound r room → IsSound (begin_picked r (pick r.waiting i)) room
  unfolding begin_picked
  begin_picked-IsSound r i room s = go (pick r.waiting i) refl
    where
      go :
          (p? : Option (Task × List Task))
          → pick r.waiting i ≡ p?
          → IsSound (begin_picked r p?) room
      go none h = s
      go (some (t, ts)) h =
          let w = length-pick r.waiting i h in
          after_begin-IsSound r t ts _ room _ s w
            (begin_job-HasBegun r.node t _ room
              (subst (λ k. IsConsistent r.node k room) (omega (arith, w)) s.node))
            (tally-begin_job r.node t)

  pub end_picked-IsSound :
      (r : Run S O) (i elapsed : ℕ) (b : Bool) (room : ℕ)
      → IsSound r room
      → IsSound (end_picked r elapsed b (pick r.running i)) room
  unfolding end_picked
  end_picked-IsSound r i elapsed b room s = go (pick r.running i) refl
    where
      go :
          (p? : Option (Task × List Task))
          → pick r.running i ≡ p?
          → IsSound (end_picked r elapsed b p?) room
      go none h = s
      go (some (t, ts)) h =
          let w = length-pick r.running i h in
          record {
            node =
                end_job-IsConsistent r.node t elapsed b _ room
                  (subst (λ k. IsConsistent r.node k room) (omega (arith, w)) s.node);
            ledger = omega (arith, s.ledger, w);
            jobs =
                tally-end_job r.node t elapsed b (omega (arith, s.bound, s.ledger, s.jobs, w))
                ∙ omega (arith, s.jobs);
            bound = s.bound;
          }

  weaken-IsSound : (r : Run S O) (room : ℕ) → IsSound r (suc room) → IsSound r room
  weaken-IsSound r room s = record {
    node = weaken-IsConsistent r.node _ room s.node;
    ledger = s.ledger;
    jobs = s.jobs;
    bound = omega (arith, s.bound);
  }

  start-IsSound : (r : Run S O) (room : ℕ) → IsSound r room → IsSound (step r starts) room
  unfolding step start
  start-IsSound r room s =
      only_node-IsSound r _ room s
        (if-elim (λ (n : Node S O). IsConsistent n (length r.waiting + length r.running) room)
          r.node.pooled (λ e. s.node) (λ e. start-IsConsistent r.node _ room s.node e))
        (if-elim (λ (n : Node S O). tally n ≡ tally r.node) r.node.pooled (λ e. refl) (λ e. refl))

  stopped-IsConsistent :
      (r : Run S O) (room : ℕ)
      → IsSound r room
      → (is_nil r.waiting && is_nil r.running) ≡ true
      → IsConsistent (end_stop r.node) (length r.waiting + length r.running) room
  stopped-IsConsistent r room s e =
      let k = length-is_nil r.waiting r.running e in
      subst (λ k. IsConsistent (end_stop r.node) k room) (sym k)
        (end_stop-IsConsistent r.node room (subst (λ k. IsConsistent r.node k room) k s.node))

  end_stop-IsSound : (r : Run S O) (room : ℕ) → IsSound r room → IsSound (step r ends_stop) room
  unfolding step end_stop
  end_stop-IsSound r room s =
      let b = is_nil r.waiting && is_nil r.running in
      only_node-IsSound r _ room s
        (if-elim (λ (n : Node S O). IsConsistent n (length r.waiting + length r.running) room) b
          (stopped-IsConsistent r room s) (λ e. s.node))
        (if-elim (λ (n : Node S O). tally n ≡ tally r.node) b (λ e. refl) (λ e. refl))

  -- An event, which takes one job at most, keeps the run sound.
  pub step-IsSound :
      (r : Run S O) (e : Event) (room : ℕ) → IsSound r (suc room) → IsSound (step r e) room
  unfolding step begin_stop
  step-IsSound r e room s = go (weaken-IsSound r room s) e
    where
      go : IsSound r room → (e : Event) → IsSound (step r e) room
      go w starts = start-IsSound r room w
      go w begins_stop =
          only_node-IsSound r _ room w (begin_stop-IsConsistent r.node _ room w.node) refl
      go w ends_stop = end_stop-IsSound r room w
      go w (injects f x) =
          only_node-IsSound r _ room w (inject_fault-IsConsistent r.node f x _ room w.node)
            (tally-inject_fault r.node f x)
      go w (submits job) =
          after_submit-IsSound r _ room _ s (submit-IsAnswered r.node job _ room s.node)
            (tally-submit r.node job)
      go w (cancels raw) =
          after_cancel-IsSound r raw _ room w (cancel-IsConsistent r.node raw _ room w.node)
            (tally-cancel r.node raw)
      go w (reprioritises raw p) =
          only_node-IsSound r _ room w (reprioritise-IsConsistent r.node raw p _ room w.node)
            (tally-reprioritise r.node raw p)
      go w (begins i) = begin_picked-IsSound r i room w
      go w (ends i elapsed b) = end_picked-IsSound r i elapsed b room w

  pub steps-IsSound :
      (es : List Event) (r : Run S O) (room : ℕ)
      → IsSound r (length es + room)
      → IsSound (steps r es) room
  unfolding steps
  steps-IsSound [] r room s = subst (IsSound r) (omega arith) s
  steps-IsSound (e ∷ es) r room s =
      steps-IsSound es (step r e) room
        (step-IsSound r e (length es + room) (subst (IsSound r) (omega arith) s))

  pub constructed-IsSound :
      (id : ℕ) (config : SimulatedNodeConfig) (slots' : S) (overrides : O) (room : ℕ)
      → 0 < config.overload_threshold
      → room < 2 ^ 32
      → IsSound (constructed id config slots' overrides) room
  constructed-IsSound id config slots' overrides room h w = record {
    node = record {
      depth = refl;
      word = omega (arith, w);
      threshold = h;
      state = refl;
      stopped = inr refl;
      away = inr refl;
      crashed = inl refl;
    };
    ledger = refl;
    jobs = refl;
    bound = omega (arith, w);
  }

  -- From the construction of a node with an overload threshold above 0, over any fewer than 2^32
  -- events: its queue depth is the number of tasks with its pool; its state is the one that the
  -- depth calls for, with the hysteresis between the thresholds, unless it is failed or offline;
  -- and every job that it took waits, runs, was dropped as cancelled, or was called back once and
  -- counted as completed or failed.
  pub steps-constructed-IsSound :
      (id : ℕ) (config : SimulatedNodeConfig) (slots' : S) (overrides : O) (es : List Event)
      → 0 < config.overload_threshold
      → length es < 2 ^ 32
      → IsSound (steps (constructed id config slots' overrides) es) 0
  steps-constructed-IsSound id config slots' overrides es h w = steps-IsSound es _ 0 (
      subst (IsSound (constructed id config slots' overrides)) (omega arith)
        (constructed-IsSound id config slots' overrides (length es) h w))
