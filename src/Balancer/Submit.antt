-- ===== src/Balancer/Submit.antt =====
-- Balancer.h: submit, and the dispatch of a job to the selected node.
use fatp_balancer.Base.{
  ℕ, ◌+◌, Bool, ◌&&◌, if◌then◌else◌, List, Option, none, some, Expected, ok, err,
}
use fatp_balancer.Job.{
  Job, SubmitError, cluster_saturated, holding_queue_full, deadline_unachievable, node_not_found,
  is_expired, is_urgent, u32, u64, dec_u32,
}
use fatp_balancer.Floats.{Floats}
use fatp_balancer.Metrics.{LoadMetrics}
use fatp_balancer.Admission.{Verdict, evaluate, release_from_holding_queue}
use fatp_balancer.HoldingQueue.{HoldingQueue, enqueue}
use fatp_balancer.Policy.View.{Selection, ClusterView}
use fatp_balancer.Policy.Kinds.{select_node}
use fatp_balancer.Balancer.State.{Balancer, INode, Costs, FastHashMap, Route, Times}
use fatp_balancer.Balancer.Snapshot.{
  snapshot_metrics, build_cluster_metrics, are_all_eligible_overloaded, find_node, set_node,
}
use fatp_balancer.Balancer.Lifecycle.{Registration, unpublished, deliver, register_dispatched_job}

-- What submit returns.
abbrev pub Reply : Type 0
Reply = Expected ℕ SubmitError

module _ {F K N R H : Type 0} where
  -- `mSubmittedCount.fetch_sub(1); return unexpected(e);`
  unfoldable pub leave : Balancer F K N R H → SubmitError → Balancer F K N R H × Reply
  leave b e = (record b { submitted_count = dec_u32 b.submitted_count }, err e)

  -- `job.submitted = Clock::now(); job.id = nextJobId();`
  abbrev pub stamped : Balancer F K N R H → Job → ℕ → Job
  stamped b job now = record job { submitted = now; id = b.next_job_id }

  unfoldable pub next_id : Balancer F K N R H → Balancer F K N R H
  next_id b = record b { next_job_id = u32 (b.next_job_id + 1) }

module _ {F K N R H : Type 0} ⦃fl : Floats F⦄ where
  -- After the holding queue was asked to store the job.
  unfoldable pub after_enqueue :
      Balancer F K N R H → HoldingQueue Job × Reply → Balancer F K N R H × Reply
  unfolding leave
  after_enqueue b (q, err e) =
      leave (record b { holding = q; admission = release_from_holding_queue b.admission })
        holding_queue_full
  after_enqueue b (q, ok handle) =
      (record b { holding = q; total_submitted = u64 (b.total_submitted + 1) }, ok handle)

  unfoldable pub hold : Balancer F K N R H → Job → Times → Balancer F K N R H × Reply
  unfolding after_enqueue next_id
  hold b job t =
      let held = stamped b job t.at_submit in
      after_enqueue (next_id b) (enqueue b.holding held held)

module _ {F D K N R H : Type 0} ⦃fl : Floats F⦄ ⦃costs : Costs K F⦄ ⦃routing : FastHashMap Route R⦄
    ⦃handling : FastHashMap ℕ H⦄ (inode : INode N F) (dl : Floats D) where
  -- The job is counted and registered.
  unfoldable pub accepted :
      Job → ℕ → ℕ → Times → Balancer F K N R H × Registration → Balancer F K N R H × Reply
  accepted job id handle t (b, reg) =
      let counted = record b { total_submitted = u64 (b.total_submitted + 1) } in
      ((register_dispatched_job counted job id handle t.at_track reg).0, ok handle)

  -- After the node answered; `early` is what it completed before it answered.
  unfoldable pub after_node :
      Balancer F K N R H
      → Job
      → ℕ
      → Times
      → Option (Job × Bool)
      → N × Reply
      → Balancer F K N R H × Reply
  unfolding leave accepted
  after_node b job id t early (n, err e) =
      leave (record b { nodes = set_node inode b.nodes id n }) cluster_saturated
  after_node b job id t early (n, ok handle) =
      accepted job id handle t
        (deliver (record b { nodes = set_node inode b.nodes id n }) unpublished job early)

  unfoldable pub dispatch :
      Balancer F K N R H
      → Job
      → ℕ
      → Times
      → Option (Job × Bool)
      → Option N
      → Balancer F K N R H × Reply
  unfolding leave after_node next_id
  dispatch b job id t early none = leave b node_not_found
  dispatch b job id t early (some n) =
      let sent = stamped b job t.at_submit in
      after_node (next_id b) sent id t early (inode.submit n sent)

  unfoldable pub after_selection :
      Balancer F K N R H
      → Job
      → Times
      → Option (Job × Bool)
      → Selection
      → Balancer F K N R H × Reply
  unfolding leave dispatch
  after_selection b job t early (err e) = leave b cluster_saturated
  after_selection b job t early (ok id) = dispatch b job id t early (find_node inode b.nodes id)

  -- The policy's answer on the snapshot; the policy moves its cursor.
  unfoldable pub select :
      Balancer F K N R H → Job → List (LoadMetrics F) → Times → Balancer F K N R H × Selection
  unfolding build_cluster_metrics
  select b job ms t =
      let (b1, cluster) = build_cluster_metrics b ms t.at_metrics in
      let view : ClusterView F = record {
        nodes = ms;
        cluster = cluster;
        cost_model = costs.view b1.cost_model;
      } in
      let (policy, selection) = select_node dl job view t.at_select b1.policy in
      (record b1 { policy = policy }, selection)

  unfoldable pub route :
      Balancer F K N R H
      → Job
      → List (LoadMetrics F)
      → Times
      → Option (Job × Bool)
      → Balancer F K N R H × Reply
  unfolding select after_selection
  route b job ms t early =
      let (b1, selection) = select b job ms t in after_selection b1 job t early selection

  unfoldable pub after_admission :
      Balancer F K N R H
      → Job
      → List (LoadMetrics F)
      → Bool
      → Times
      → Option (Job × Bool)
      → Verdict
      → Balancer F K N R H × Reply
  unfolding leave hold route
  after_admission b job ms saturated t early (err e) = leave b e
  after_admission b job ms saturated t early (ok _) =
      if saturated && is_urgent job.priority then hold b job t else route b job ms t early

  unfoldable pub admit :
      Balancer F K N R H → Job → Times → Option (Job × Bool) → Balancer F K N R H × Reply
  unfolding after_admission
  admit b job t early =
      let ms = snapshot_metrics inode b.nodes in
      let saturated = are_all_eligible_overloaded ms job.priority in
      let (gate, verdict) = evaluate b.admission job.priority saturated t.at_global t.at_band in
      after_admission (record b { admission = gate }) job ms saturated t early verdict

  unfoldable pub submit :
      Balancer F K N R H → Job → Times → Option (Job × Bool) → Balancer F K N R H × Reply
  unfolding leave admit
  submit b job t early =
      let b1 = record b { submitted_count = u32 (b.submitted_count + 1) } in
      if b1.draining
      then leave b1 cluster_saturated
      else if is_expired job.deadline t.at_deadline
      then leave b1 deadline_unachievable
      else admit b1 job t early
