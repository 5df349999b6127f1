-- ===== src/Node/Phases.antt =====
-- SimulatedNode.h: the phase of a handle over each operation.
use fatp_balancer.Base.{
  ℕ, ◌+◌, ◌≡◌, sym, ap, subst, ◌∙◌, inl, inr, Bool, true, false, if◌then◌else◌, List, none, some,
  ok, arith, Bool-cases,
}
use fatp_balancer.Job.{Priority, Job}
use fatp_balancer.Balancer.State.{FastHashMap}
use fatp_balancer.Node.State.{
  PendingJobState, queued, running, SlotHandle, same_handle, SlotMap, Node, update_state_unlocked,
  notify_state_change, decrement_queue_counters, record_latency,
}
use fatp_balancer.Node.Jobs.{Task, inject_fault, resolved, reprioritise, end_job, settled}
use fatp_balancer.Node.Run.{Run, after_submit, after_begin}
use fatp_balancer.Node.Handles.{
  SlotMapLaws, Phase, waits, runs, cancelled, gone, Moves, stays, issues, begins_run, ends_run,
  withdraws, drops, uses, slot_of, past_of, waiting_of, running_of, same_handle-≡, unissued_of,
  waits_of, runs_of, cancelled_of, waits_at, HasPhase, Moved,
}

module _ {S O : Type 0} where
  -- The slots of a node after each operation.
  pub slots-settle :
      (n : Node S O) → (notify_state_change (update_state_unlocked n)).slots ≡ n.slots
  unfolding notify_state_change update_state_unlocked
  slots-settle n = ground arith

module _ {S O : Type 0} ⦃slots : SlotMap PendingJobState S⦄ ⦃prios : FastHashMap Priority O⦄
    ⦃laws : SlotMapLaws slots⦄ where
  pub slots-inject_fault : (n : Node S O) (f : _) (x : ℕ) → (inject_fault n f x).slots ≡ n.slots
  unfolding inject_fault notify_state_change update_state_unlocked resolved
  slots-inject_fault n f x = ground arith

  pub slots-reprioritise :
      (n : Node S O) (raw : ℕ) (p : Priority) → (reprioritise n raw p).0.slots ≡ n.slots
  unfolding reprioritise
  slots-reprioritise n raw p = ground arith

  pub slots-settled :
      (n : Node S O) (t : Task) (elapsed : ℕ) (b : Bool)
      → (end_job n t elapsed b).0.slots ≡ slots.erase n.slots t.handle
  unfolding end_job settled decrement_queue_counters record_latency
  slots-settled n t elapsed true = slots-settle (settled n t elapsed true)
  slots-settled n t elapsed false = slots-settle (settled n t elapsed false)

  pub accepted-Moved :
      (r : Run S O) (n : Node S O) (t : Task) (h : SlotHandle) (p : Phase)
      → HasPhase r h p
      → n.slots ≡ (slots.insert r.node.slots queued).0
      → t.handle ≡ (slots.insert r.node.slots queued).1
      → Moved (after_submit r (n, ok t)) h p
  unfolding after_submit Moved uses
  accepted-Moved r n t h p c e f = elim (Bool-cases (same_handle h t.handle)) [
    | inl b ↦
        let k = same_handle-≡ h t.handle b ∙ f in
        let u =
          unissued_of p
            (sym c.slot ∙ ap (slots.get r.node.slots) k ∙ laws.get-fresh r.node.slots queued)
            (sym c.past ∙ ap (laws.past r.node.slots) k ∙ laws.past-fresh r.node.slots queued) in
        (
          waits,
          subst (λ p. Moves p waits) (sym u) issues,
          record {
            slot =
                ap (λ s. slots.get s h) e
                ∙ laws.get-insert r.node.slots queued h
                ∙ ground (arith, b, f);
            past =
                ap (λ s. laws.past s h) e
                ∙ laws.past-insert r.node.slots queued h
                ∙ c.past
                ∙ ap past_of u;
            waiting = ground (arith, c.waiting, b, ap waiting_of u);
            running = c.running ∙ ap running_of u;
          },
        )
    | inr b ↦ (
      p,
      stays,
      record {
        slot =
            ap (λ s. slots.get s h) e
            ∙ laws.get-insert r.node.slots queued h
            ∙ ground (arith, b, c.slot, f);
        past = ap (λ s. laws.past s h) e ∙ laws.past-insert r.node.slots queued h ∙ c.past;
        waiting = ground (arith, c.waiting, b);
        running = c.running;
      },
    )
  ]

  pub kept-Moved :
      (r : Run S O) (n : Node S O) (h : SlotHandle) (p : Phase)
      → HasPhase r h p
      → n.slots ≡ r.node.slots
      → Moved (record r { node = n }) h p
  unfolding Moved
  kept-Moved r n h p c e = (
    p,
    stays,
    record {
      slot = ap (λ s. slots.get s h) e ∙ c.slot;
      past = ap (λ s. laws.past s h) e ∙ c.past;
      waiting = c.waiting;
      running = c.running;
    },
  )

  pub withdrawn-Moved :
      (r : Run S O) (n : Node S O) (k h : SlotHandle) (p : Phase) (x : List SlotHandle)
      → HasPhase r h p
      → slots.get r.node.slots k ≡ some queued
      → n.slots ≡ slots.erase r.node.slots k
      → Moved (record r { node = n; withdrawn = x }) h p
  unfolding Moved
  withdrawn-Moved r n k h p x c q e =
      let g = ap (λ s. slots.get s h) e ∙ laws.get-erase r.node.slots k h in
      let d = ap (λ s. laws.past s h) e ∙ laws.past-erase r.node.slots k h (ground (arith, q)) in
      elim (Bool-cases (same_handle h k)) [
        | inl b ↦
            let w =
              waits_of p (sym c.slot ∙ ap (slots.get r.node.slots) (same_handle-≡ h k b) ∙ q) in
            (
              cancelled,
              subst (λ p. Moves p cancelled) (sym w) withdraws,
              record {
                slot = g ∙ ground (arith, b);
                past = d ∙ ground (arith, b);
                waiting = c.waiting ∙ ap waiting_of w;
                running = c.running ∙ ap running_of w;
              },
            )
        | inr b ↦ (
          p,
          stays,
          record {
            slot = g ∙ ground (arith, b, c.slot);
            past = d ∙ ground (arith, b, c.past);
            waiting = c.waiting;
            running = c.running;
          },
        )
      ]

  pub dropped-Moved :
      (r : Run S O) (t : Task) (ts : List Task) (n : Node S O) (h : SlotHandle) (p : Phase)
      → HasPhase r h p
      → uses h r.waiting ≡ (if same_handle h t.handle then 1 else 0) + uses h ts
      → slots.get r.node.slots t.handle ≡ none
      → n.slots ≡ r.node.slots
      → Moved (after_begin (record r { waiting = ts }) t (n, none)) h p
  unfolding after_begin Moved
  dropped-Moved r t ts n h p c w q e = elim (Bool-cases (same_handle h t.handle)) [
    | inl b ↦
        let (x, z) =
          cancelled_of p (uses h ts) (sym c.waiting ∙ w ∙ ground (arith, b))
            (sym c.slot ∙ ap (slots.get r.node.slots) (same_handle-≡ h t.handle b) ∙ q) in
        (
          gone,
          subst (λ p. Moves p gone) (sym x) drops,
          record {
            slot = ap (λ s. slots.get s h) e ∙ c.slot ∙ ap slot_of x;
            past = ap (λ s. laws.past s h) e ∙ c.past ∙ ap past_of x;
            waiting = z;
            running = c.running ∙ ap running_of x;
          },
        )
    | inr b ↦ (
      p,
      stays,
      record {
        slot = ap (λ s. slots.get s h) e ∙ c.slot;
        past = ap (λ s. laws.past s h) e ∙ c.past;
        waiting = ground (arith, c.waiting, w, b);
        running = c.running;
      },
    )
  ]

  pub begun-Moved :
      (r : Run S O) (t u : Task) (ts : List Task) (n : Node S O) (h : SlotHandle) (p : Phase)
      {s : PendingJobState}
      → HasPhase r h p
      → uses h r.waiting ≡ (if same_handle h t.handle then 1 else 0) + uses h ts
      → slots.get r.node.slots t.handle ≡ some s
      → n.slots ≡ slots.put r.node.slots t.handle running
      → u.handle ≡ t.handle
      → Moved (after_begin (record r { waiting = ts }) t (n, some u)) h p
  unfolding after_begin Moved uses
  begun-Moved r t u ts n h p {s} c w q e f =
      let g =
        ap (λ s. slots.get s h) e
        ∙ laws.get-put r.node.slots t.handle running h (ground (arith, q)) in
      let d =
        ap (λ s. laws.past s h) e
        ∙ laws.past-put r.node.slots t.handle running h (ground (arith, q))
        ∙ c.past in
      elim (Bool-cases (same_handle h t.handle)) [
        | inl b ↦
            let (x, z) =
              waits_at p (uses h ts) {s = s} (sym c.waiting ∙ w ∙ ground (arith, b))
                (sym c.slot ∙ ap (slots.get r.node.slots) (same_handle-≡ h t.handle b) ∙ q) in
            (
              runs,
              subst (λ p. Moves p runs) (sym x) begins_run,
              record {
                slot = g ∙ ground (arith, b);
                past = d ∙ ap past_of x;
                waiting = z;
                running = ground (arith, b, f, c.running, ap running_of x);
              },
            )
        | inr b ↦ (
          p,
          stays,
          record {
            slot = g ∙ ground (arith, b, c.slot);
            past = d;
            waiting = ground (arith, c.waiting, w, b);
            running = ground (arith, c.running, b, f);
          },
        )
      ]

  pub ended-Moved :
      (r : Run S O) (t : Task) (ts : List Task) (n : Node S O) (x : List (Job × Bool))
      (h : SlotHandle) (p : Phase)
      → HasPhase r h p
      → HasPhase r t.handle runs
      → uses h r.running ≡ (if same_handle h t.handle then 1 else 0) + uses h ts
      → n.slots ≡ slots.erase r.node.slots t.handle
      → Moved (record r { node = n; running = ts; called = x }) h p
  unfolding Moved
  ended-Moved r t ts n x h p c a w e =
      let g = ap (λ s. slots.get s h) e ∙ laws.get-erase r.node.slots t.handle h in
      let d =
        ap (λ s. laws.past s h) e
        ∙ laws.past-erase r.node.slots t.handle h (ground (arith, a.slot)) in
      elim (Bool-cases (same_handle h t.handle)) [
        | inl b ↦
            let (y, z) = runs_of p (uses h ts) (sym c.running ∙ w ∙ ground (arith, b)) in
            (
              gone,
              subst (λ p. Moves p gone) (sym y) ends_run,
              record {
                slot = g ∙ ground (arith, b);
                past = d ∙ ground (arith, b);
                waiting = c.waiting ∙ ap waiting_of y;
                running = z;
              },
            )
        | inr b ↦ (
          p,
          stays,
          record {
            slot = g ∙ ground (arith, b, c.slot);
            past = d ∙ ground (arith, b, c.past);
            waiting = c.waiting;
            running = ground (arith, c.running, w, b);
          },
        )
      ]
