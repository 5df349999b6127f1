-- ===== src/Balancer/Account/Leaving.antt =====
-- Balancer.h: cancel, the drain loop and the aging loop against the jobs that are counted.
use fatp_balancer.Base.{
  ℕ, ◌≡◌, refl, inl, inr, Bool, false, ◌&&◌, ltb, leb, if◌then◌else◌, Option, none, some, ok, err,
  is_some, arith, if_both, Option-cases,
}
use fatp_balancer.Job.{Job, normal, default_job, is_expired}
use fatp_balancer.Floats.{Floats}
use fatp_balancer.Admission.{release_from_holding_queue}
use fatp_balancer.HoldingQueue.{Entry, HoldingQueue, try_dequeue, remove, is_holding_handle}
use fatp_balancer.HoldingQueue.Refinement.{try_dequeue-waiting}
use fatp_balancer.Policy.View.{Selection}
use fatp_balancer.Balancer.State.{Balancer, INode, Costs, FastHashMap, Route, Times}
use fatp_balancer.Balancer.Snapshot.{
  snapshot_metrics, are_all_eligible_overloaded, find_node, set_node,
}
use fatp_balancer.Balancer.Lifecycle.{unpublished, callback, deliver, holding_callback, observed}
use fatp_balancer.Balancer.Submit.{Reply, select}
use fatp_balancer.Balancer.Cancel.{
  Answer, after_remove, after_node_cancel, cancel_on, cancel_routed, cancel,
}
use fatp_balancer.Balancer.Drain.{
  Next, retried, put_back, drop, launched, after_drain_node, drain_to, after_drain_selection,
  drain_entry, after_dequeue, drain_one,
}
use fatp_balancer.Balancer.Reservation.{Agrees, try_dequeue-Agrees, remove-Agrees}
use fatp_balancer.Balancer.Account.{
  SizeLaws, jobs, Owes, GivesFresh, registered-Owes, finalize_in_hand, finalize_routed,
}
use fatp_balancer.Balancer.Account.Taking.{select_jobs}

module _ {F K N R H : Type 0} ⦃fl : Floats F⦄ ⦃costs : Costs K F⦄ ⦃routing : FastHashMap Route R⦄
    ⦃handling : FastHashMap ℕ H⦄ ⦃laws : SizeLaws routing⦄ where
  -- The slot of a job that leaves the queue is given back.
  release-Owes :
      (b : Balancer F K N R H) (q : HoldingQueue Job)
      → Agrees q b.admission 1
      → Owes 0 b
      → Owes 1 (record b { holding = q; admission = release_from_holding_queue b.admission })
  unfolding jobs release_from_holding_queue
  release-Owes b q a g = omega (arith, g, a.reserved, a.settled.within, a.settled.word)

module _ {F K N R H : Type 0} ⦃fl : Floats F⦄ ⦃costs : Costs K F⦄ ⦃routing : FastHashMap Route R⦄
    ⦃handling : FastHashMap ℕ H⦄ ⦃laws : SizeLaws routing⦄ (inode : INode N F) where
  after_remove-Owes :
      (b : Balancer F K N R H) (q : HoldingQueue Job) (o : Option (Entry Job))
      → Agrees q b.admission (if is_some o then 1 else 0)
      → Owes 0 b
      → Owes 0 (after_remove inode b (q, o)).0
  unfolding after_remove holding_callback jobs
  after_remove-Owes b q none a g = g
  after_remove-Owes b q (some e) a g =
      finalize_in_hand
        (record b { holding = q; admission = release_from_holding_queue b.admission })
        (observed e.on_done e.job) false (release-Owes b q a g)

  after_node_cancel-Owes :
      (b : Balancer F K N R H) (handle : ℕ) (info : Route) (r : N × Answer)
      → routing.find b.routes handle ≡ some info
      → Owes 0 b
      → Owes 0 (after_node_cancel inode b handle info r).0
  unfolding after_node_cancel jobs
  after_node_cancel-Owes b handle info (n, err e) found g = g
  after_node_cancel-Owes b handle info (n, ok _) found g =
      finalize_routed (record b { nodes = set_node inode b.nodes info.node_id n })
        (record (default_job normal) { id = info.job_id }) handle false info found g

  cancel_on-Owes :
      (b : Balancer F K N R H) (handle : ℕ) (info : Route) (o : Option N)
      → routing.find b.routes handle ≡ some info
      → Owes 0 b
      → Owes 0 (cancel_on inode b handle info o).0
  unfolding cancel_on
  cancel_on-Owes b handle info none found g = g
  cancel_on-Owes b handle info (some n) found g =
      after_node_cancel-Owes b handle info (inode.cancel n handle) found g

  cancel_routed-Owes :
      (b : Balancer F K N R H) (handle : ℕ) (o : Option Route)
      → routing.find b.routes handle ≡ o
      → Owes 0 b
      → Owes 0 (cancel_routed inode b handle o).0
  unfolding cancel_routed
  cancel_routed-Owes b handle none found g = g
  cancel_routed-Owes b handle (some info) found g =
      cancel_on-Owes b handle info (find_node inode b.nodes info.node_id) found g

  pub cancel-Owes :
      (b : Balancer F K N R H) (handle : ℕ)
      → Agrees b.holding b.admission 0
      → Owes 0 b
      → Owes 0 (cancel inode b handle).0
  unfolding cancel
  cancel-Owes b handle a g =
      let r = remove b.holding handle in
      let holds = λ (r : Balancer F K N R H × Answer). Owes 0 r.0 in
      if_both holds (is_holding_handle handle)
        (after_remove-Owes b r.0 r.1 (remove-Agrees b.holding b.admission handle a) g)
        (cancel_routed-Owes b handle (routing.find b.routes handle) refl g)

module _ {F D K N R H : Type 0} ⦃fl : Floats F⦄ ⦃costs : Costs K F⦄ ⦃routing : FastHashMap Route R⦄
    ⦃handling : FastHashMap ℕ H⦄ ⦃laws : SizeLaws routing⦄ (inode : INode N F) (dl : Floats D) where
  put_back-Owes :
      (b : Balancer F K N R H) (e : Entry Job) → Owes 0 b → Owes 0 (put_back inode dl b e).0
  unfolding put_back jobs
  put_back-Owes b e g = g

  drop-Owes :
      (b : Balancer F K N R H) (e : Entry Job)
      → Agrees b.holding b.admission 1
      → Owes 0 b
      → Owes 0 (drop inode dl b e).0
  unfolding drop holding_callback
  drop-Owes b e a g =
      finalize_in_hand (record b { admission = release_from_holding_queue b.admission })
        (observed e.on_done e.job) false (release-Owes b b.holding a g)

  after_drain_node-Owes :
      (b : Balancer F K N R H) (e : Entry Job) (sent : Job) (id : ℕ) (t : Times)
      (early : Option (Job × Bool)) (r : N × Reply)
      → ((handle : ℕ) → r.1 ≡ ok handle → routing.find b.routes handle ≡ none)
      → Agrees b.holding b.admission 1
      → Owes 0 b
      → Owes 0 (after_drain_node inode dl b e sent id t early r).0
  unfolding after_drain_node launched deliver callback jobs
  after_drain_node-Owes b e sent id t early (n, err _) fresh a g =
      put_back-Owes (record b { nodes = set_node inode b.nodes id n })
        (retried (record e { job = sent })) g
  after_drain_node-Owes b e sent id t none (n, ok handle) fresh a g =
      registered-Owes
        (record b {
          nodes = set_node inode b.nodes id n;
          admission = release_from_holding_queue b.admission;
        })
        sent id handle t.at_track unpublished (fresh handle refl) (release-Owes b b.holding a g)
  after_drain_node-Owes b e sent id t (some (completed, succeeded)) (n, ok handle) fresh a g =
      registered-Owes
        (record b {
          nodes = set_node inode b.nodes id n;
          admission = release_from_holding_queue b.admission;
        })
        sent id handle t.at_track
        (record unpublished { early = some (observed sent completed, succeeded) })
        (fresh handle refl) (release-Owes b b.holding a g)

  after_drain_selection-Owes :
      (b : Balancer F K N R H) (e : Entry Job) (t : Times) (early : Option (Job × Bool))
      (s : Selection)
      → GivesFresh inode b
      → Agrees b.holding b.admission 1
      → Owes 0 b
      → Owes 0 (after_drain_selection inode dl b e t early s).0
  unfolding after_drain_selection drain_to
  after_drain_selection-Owes b e t early (err _) fresh a g = put_back-Owes b (retried e) g
  after_drain_selection-Owes b e t early (ok id) fresh a g =
      let sent = record e.job { submitted = t.at_submit } in
      elim (Option-cases (find_node inode b.nodes id)) [
        | inl f ↦ rw f (put_back-Owes b (retried e) g)
        | inr (n, f) ↦ rw f (
            after_drain_node-Owes b e sent id t early (inode.submit n sent)
              (λ handle h. fresh id n sent handle f h) a g)
      ]

  drain_entry-Owes :
      (b : Balancer F K N R H) (e : Entry Job) (t : Times) (early : Option (Job × Bool))
      → GivesFresh inode b
      → Agrees b.holding b.admission 1
      → Owes 0 b
      → Owes 0 (drain_entry inode dl b e t early).0
  unfolding drain_entry
  drain_entry-Owes b e t early fresh a g =
      let ms = snapshot_metrics inode b.nodes in
      let (b', selection) = select inode dl b e.job ms t in
      let (routes, nodes, holding, admission, count) = select_jobs inode dl b e.job ms t in
      let holds = λ (r : Balancer F K N R H × Next). Owes 0 r.0 in
      let sent : Owes 0 (after_drain_selection inode dl b' e t early selection).0 =
        after_drain_selection-Owes b' e t early selection (rw (routes, nodes) fresh)
          (rw (holding, admission) a) (unfold jobs in rw (routes, admission, count) g) in
      if_both holds (is_expired e.job.deadline t.at_deadline) (drop-Owes b e a g) (
        if_both holds (ltb 0 b.max_retries && leb b.max_retries e.job.hold_retries)
          (drop-Owes b e a g)
          (if_both holds (are_all_eligible_overloaded ms e.job.priority) (put_back-Owes b e g)
            sent))

  pub drain_one-Owes :
      (b : Balancer F K N R H) (t : Times) (early : Option (Job × Bool))
      → GivesFresh inode b
      → Agrees b.holding b.admission 0
      → Owes 0 b
      → Owes 0 (drain_one inode dl b t early).0
  unfolding drain_one after_dequeue jobs
  drain_one-Owes b t early fresh a g = elim (try_dequeue-waiting b.holding) [
    | inl (_, e) ↦ rw e g
    | inr (e, _, h) ↦
        let taken : Balancer F K N R H = record b { holding = (try_dequeue b.holding).0 } in
        rw h (
          drain_entry-Owes taken e t early fresh (try_dequeue-Agrees b.holding b.admission e a h) g)
  ]
