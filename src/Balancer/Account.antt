-- ===== src/Balancer/Account.antt =====
-- Balancer.h: mSubmittedCount against the jobs that it counts, those in mHandleToJobInfo and those
-- with a slot of the holding queue, through registration, completion and submit.
use fatp_balancer.Base.{
  ℕ, ◌+◌, ◌<◌, ◌^◌, ◌%◌, ◌≡◌, refl, subst, sym, ap, not, ◌⊎◌, inl, inr, Bool, true, false, ◌&&◌,
  if◌then◌else◌, List, Option, none, some, ok, err, has_value, is_some, arith, Bool-cases, if_both,
  Option-cases,
}
use fatp_balancer.Job.{
  Job, SubmitError, cluster_saturated, deadline_unachievable, is_expired, is_urgent, u32, u64,
  dec_u32,
}
use fatp_balancer.Floats.{Floats}
use fatp_balancer.Metrics.{LoadMetrics}
use fatp_balancer.Admission.{Verdict, evaluate}
use fatp_balancer.Admission.Layers.{slots, evaluate-IsAccounted}
use fatp_balancer.HoldingQueue.{HoldingQueue, enqueue}
use fatp_balancer.Policy.View.{Selection}
use fatp_balancer.Balancer.State.{Balancer, INode, Costs, FastHashMap, Route, Times}
use fatp_balancer.Balancer.Snapshot.{
  snapshot_metrics, sample_throughput, build_cluster_metrics, are_all_eligible_overloaded,
  find_node, set_node,
}
use fatp_balancer.Balancer.Lifecycle.{
  Registration, unpublished, callback, deliver, enter_maps, register_dispatched_job,
  finalize_job_lifecycle, erase_routing_state, observed,
}
use fatp_balancer.Balancer.Submit.{
  Reply, leave, stamped, next_id, after_enqueue, hold, accepted, after_node, dispatch,
  after_selection, select, route, after_admission, admit, submit,
}
pub mod Taking
pub mod Leaving
pub mod Turns
pub mod Quiet
mod Tests

-- What the map of routes promises.
pub record SizeLaws {V M : Type 0} (map : FastHashMap V M) : Type 0 where
  pub size : M → ℕ
  pub find-insert : (m : M) (k : ℕ) (v : V) → map.find (map.insert m k v) k ≡ some v
  pub size-insert :
      (m : M) (k : ℕ) (v : V) → map.find m k ≡ none → size (map.insert m k v) ≡ size m + 1
  pub size-erase :
      (m : M) (k : ℕ) (v : V) → map.find m k ≡ some v → size (map.erase m k) + 1 ≡ size m

module _ {F K N R H : Type 0} ⦃fl : Floats F⦄ ⦃costs : Costs K F⦄ ⦃routing : FastHashMap Route R⦄
    ⦃handling : FastHashMap ℕ H⦄ ⦃laws : SizeLaws routing⦄ where
  -- The jobs that are routed to a node or have a slot of the holding queue.
  unfoldable pub jobs : Balancer F K N R H → ℕ
  jobs b = laws.size b.routes + b.admission.holding_queue_depth

  -- `k` jobs are counted that are in the hands of an operation.
  abbrev pub Owes : ℕ → Balancer F K N R H → Type 0
  Owes k b = b.submitted_count ≡ (jobs b + k) % 2 ^ 32

  -- A job in hand that ends is no longer counted.
  pub finalize_in_hand :
      (b : Balancer F K N R H) (finished : Job) (succeeded : Bool)
      → Owes 1 b
      → Owes 0 (finalize_job_lifecycle b finished none succeeded)
  unfolding finalize_job_lifecycle jobs
  finalize_in_hand b finished succeeded g = ground arith

  -- Nor is a routed job that ends.
  pub finalize_routed :
      (b : Balancer F K N R H) (finished : Job) (handle : ℕ) (succeeded : Bool) (info : Route)
      → routing.find b.routes handle ≡ some info
      → Owes 0 b
      → Owes 0 (finalize_job_lifecycle b finished (some handle) succeeded)
  unfolding finalize_job_lifecycle jobs
  finalize_routed b finished handle succeeded info e g =
      ground (arith, laws.size-erase b.routes handle info)

  pub registered-Owes :
      (b : Balancer F K N R H) (job : Job) (node_id handle now : ℕ) (reg : Registration)
      → routing.find b.routes handle ≡ none
      → Owes 1 b
      → Owes 0 (register_dispatched_job b job node_id handle now reg).0
  unfolding register_dispatched_job enter_maps
  registered-Owes b job node_id handle now reg fresh g =
      let info : Route = record { job_id = job.id; node_id = node_id } in
      let entered = enter_maps b job node_id handle now in
      let kept : Owes 0 entered =
        unfold jobs in ground (arith, laws.size-insert b.routes handle info) in
      elim (Option-cases reg.early) [
        | inl e ↦ rw e kept
        | inr ((finished, succeeded), e) ↦ rw e (
            finalize_routed entered finished handle succeeded info
              (laws.find-insert b.routes handle info) kept)
      ]

  -- The nodes give out no handle that still names a routed job.
  abbrev pub GivesFresh : INode N F → Balancer F K N R H → Type 0
  GivesFresh inode b =
      (id : ℕ) (n : N) (job : Job) (handle : ℕ)
      → find_node inode b.nodes id ≡ some n
      → (inode.submit n job).1 ≡ ok handle
      → routing.find b.routes handle ≡ none
