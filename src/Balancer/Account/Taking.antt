-- ===== src/Balancer/Account/Taking.antt =====
-- Balancer::submit: on every branch the count stays that of the jobs, routed or with a slot.
use fatp_balancer.Base.{
  ℕ, ◌+◌, ◌<◌, ◌≤◌, ◌^◌, ◌≡◌, refl, not, inl, inr, Bool, true, false, ◌&&◌, if◌then◌else◌, List,
  Option, none, some, ok, err, has_value, arith, Bool-cases, if_both, Option-cases,
}
use fatp_balancer.Job.{
  Job, SubmitError, cluster_saturated, deadline_unachievable, node_not_found, is_expired, is_urgent,
  u32, u64,
}
use fatp_balancer.Floats.{Floats}
use fatp_balancer.Metrics.{LoadMetrics}
use fatp_balancer.Admission.{Verdict, evaluate, release_from_holding_queue}
use fatp_balancer.Admission.Layers.{slots, evaluate-IsAccounted}
use fatp_balancer.HoldingQueue.{HoldingQueue}
use fatp_balancer.Policy.View.{Selection}
use fatp_balancer.Balancer.State.{Balancer, INode, Costs, FastHashMap, Route, Times}
use fatp_balancer.Balancer.Snapshot.{
  snapshot_metrics, sample_throughput, build_cluster_metrics, are_all_eligible_overloaded,
  find_node, set_node,
}
use fatp_balancer.Balancer.Lifecycle.{unpublished, callback, deliver, observed}
use fatp_balancer.Balancer.Submit.{
  Reply, leave, stamped, next_id, after_enqueue, hold, accepted, after_node, dispatch,
  after_selection, select, route, after_admission, admit, submit,
}
use fatp_balancer.Balancer.Reservation.{Agrees, admits_urgent}
use fatp_balancer.Balancer.Account.{SizeLaws, jobs, Owes, GivesFresh, registered-Owes}

module _ {F D K N R H : Type 0} ⦃fl : Floats F⦄ ⦃costs : Costs K F⦄ ⦃routing : FastHashMap Route R⦄
    ⦃handling : FastHashMap ℕ H⦄ ⦃laws : SizeLaws routing⦄ (inode : INode N F) (dl : Floats D) where
  leave-Owes : (b : Balancer F K N R H) (e : SubmitError) → Owes 1 b → Owes 0 (leave b e).0
  unfolding leave jobs
  leave-Owes b e g = omega (arith, g)

  after_enqueue-Owes :
      (b : Balancer F K N R H) (r : HoldingQueue Job × Reply)
      → 0 < b.admission.holding_queue_depth
      → b.admission.holding_queue_depth < 2 ^ 32
      → Owes 0 b
      → Owes 0 (after_enqueue b r).0
  unfolding after_enqueue jobs leave release_from_holding_queue
  after_enqueue-Owes b (q, err e) some_slot word g = omega (arith, g, some_slot, word)
  after_enqueue-Owes b (q, ok handle) some_slot word g = g

  hold-Owes :
      (b : Balancer F K N R H) (job : Job) (t : Times)
      → 0 < b.admission.holding_queue_depth
      → b.admission.holding_queue_depth < 2 ^ 32
      → Owes 0 b
      → Owes 0 (hold b job t).0
  unfolding hold next_id jobs
  hold-Owes b job t some_slot word g = after_enqueue-Owes (next_id b) _ some_slot word g

  after_node-Owes :
      (b : Balancer F K N R H) (job : Job) (id : ℕ) (t : Times) (early : Option (Job × Bool))
      (r : N × Reply)
      → ((handle : ℕ) → r.1 ≡ ok handle → routing.find b.routes handle ≡ none)
      → Owes 1 b
      → Owes 0 (after_node inode dl b job id t early r).0
  unfolding after_node accepted deliver callback jobs
  after_node-Owes b job id t early (n, err e) fresh g =
      leave-Owes (record b { nodes = set_node inode b.nodes id n }) cluster_saturated g
  after_node-Owes b job id t none (n, ok handle) fresh g =
      registered-Owes
        (record b {
          nodes = set_node inode b.nodes id n;
          total_submitted = u64 (b.total_submitted + 1);
        })
        job id handle t.at_track unpublished (fresh handle refl) g
  after_node-Owes b job id t (some (completed, succeeded)) (n, ok handle) fresh g =
      registered-Owes
        (record b {
          nodes = set_node inode b.nodes id n;
          total_submitted = u64 (b.total_submitted + 1);
        })
        job id handle t.at_track
        (record unpublished { early = some (observed job completed, succeeded) })
        (fresh handle refl) g

  after_selection-Owes :
      (b : Balancer F K N R H) (job : Job) (t : Times) (early : Option (Job × Bool)) (s : Selection)
      → GivesFresh inode b
      → Owes 1 b
      → Owes 0 (after_selection inode dl b job t early s).0
  unfolding after_selection dispatch next_id jobs
  after_selection-Owes b job t early (err e) fresh g = leave-Owes b cluster_saturated g
  after_selection-Owes b job t early (ok id) fresh g =
      elim (Option-cases (find_node inode b.nodes id)) [
        | inl e ↦ rw e (leave-Owes b node_not_found g)
        | inr (n, e) ↦ rw e (
            after_node-Owes (next_id b) (stamped b job t.at_submit) id t early _
              (λ handle h. fresh id n (stamped b job t.at_submit) handle e h) g)
      ]

  pub select_jobs :
      (b : Balancer F K N R H) (job : Job) (ms : List (LoadMetrics F)) (t : Times)
      → let b' = (select inode dl b job ms t).0 in
        (b'.routes ≡ b.routes)
        × (b'.nodes ≡ b.nodes)
        × (b'.holding ≡ b.holding)
        × (b'.admission ≡ b.admission)
        × (b'.submitted_count ≡ b.submitted_count)
  unfolding select build_cluster_metrics sample_throughput
  select_jobs b job ms t = ground arith

  route-Owes :
      (b : Balancer F K N R H) (job : Job) (ms : List (LoadMetrics F)) (t : Times)
      (early : Option (Job × Bool))
      → GivesFresh inode b
      → Owes 1 b
      → Owes 0 (route inode dl b job ms t early).0
  unfolding route jobs
  route-Owes b job ms t early fresh g =
      let (routes, nodes, _, admission, count) = select_jobs b job ms t in
      let (b', selection) = select inode dl b job ms t in
      after_selection-Owes b' job t early selection (rw (routes, nodes) fresh)
        (rw (routes, admission, count) g)

  -- A slot that was reserved for the job is among the jobs already.
  after_admission-Owes :
      (b : Balancer F K N R H) (job : Job) (ms : List (LoadMetrics F)) (saturated : Bool)
      (t : Times) (early : Option (Job × Bool)) (v : Verdict)
      → (saturated && not (is_urgent job.priority) && has_value v) ≡ false
      → GivesFresh inode b
      → slots v saturated ≤ b.admission.holding_queue_depth
      → b.admission.holding_queue_depth < 2 ^ 32
      → Owes (if has_value v && saturated then 0 else 1) b
      → Owes 0 (after_admission inode dl b job ms saturated t early v).0
  unfolding after_admission
  after_admission-Owes b job ms saturated t early (err e) u fresh some_slot word g =
      leave-Owes b e g
  after_admission-Owes b job ms false t early (ok x) u fresh some_slot word g =
      route-Owes b job ms t early fresh g
  after_admission-Owes b job ms true t early (ok x) u fresh some_slot word g =
      elim (Bool-cases (is_urgent job.priority)) [
        | inl urgent ↦ rw urgent (hold-Owes b job t some_slot word g)
        | inr calm ↦ absurd (ground arith)
      ]

  admit-Owes :
      (b : Balancer F K N R H) (job : Job) (t : Times) (early : Option (Job × Bool))
      → GivesFresh inode b
      → Agrees b.holding b.admission 0
      → Owes 1 b
      → Owes 0 (admit inode dl b job t early).0
  unfolding admit
  admit-Owes b job t early fresh a g =
      let ms = snapshot_metrics inode b.nodes in
      let saturated = are_all_eligible_overloaded ms job.priority in
      let r = evaluate b.admission job.priority saturated t.at_global t.at_band in
      let c =
        evaluate-IsAccounted b.admission job.priority saturated t.at_global t.at_band a.settled in
      after_admission-Owes (record b { admission = r.0 }) job ms saturated t early r.1
        (admits_urgent b.admission job.priority saturated t.at_global t.at_band) fresh
        (omega (arith, c.depth)) (omega (arith, c.bounded, a.settled.word))
        (unfold jobs in ground (arith, c.depth, g))

  pub submit-Owes :
      (b : Balancer F K N R H) (job : Job) (t : Times) (early : Option (Job × Bool))
      → GivesFresh inode b
      → Agrees b.holding b.admission 0
      → Owes 0 b
      → Owes 0 (submit inode dl b job t early).0
  unfolding submit
  submit-Owes b job t early fresh a g =
      let b1 : Balancer F K N R H = record b { submitted_count = u32 (b.submitted_count + 1) } in
      let counted : Owes 1 b1 = unfold jobs in omega (arith, g) in
      let holds = λ (r : Balancer F K N R H × Reply). Owes 0 r.0 in
      if_both holds b1.draining (leave-Owes b1 cluster_saturated counted) (
        if_both holds (is_expired job.deadline t.at_deadline)
          (leave-Owes b1 deadline_unachievable counted) (admit-Owes b1 job t early fresh a counted))
