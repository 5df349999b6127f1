-- ===== src/Balancer/Submitting.antt =====
-- Balancer::submit: the slots of the holding queue and the count of jobs in flight, on every branch.
use fatp_balancer.Base.{
  ℕ, ◌+◌, ◌<◌, ◌^◌, ◌≡◌, refl, subst, not, ◌⊎◌, inl, inr, Bool, true, false, ◌&&◌, if◌then◌else◌,
  List, Option, none, some, ok, err, has_value, is_some, arith, Bool-cases, if_both, Option-cases,
}
use fatp_balancer.Job.{
  Job, SubmitError, cluster_saturated, deadline_unachievable, is_expired, is_urgent, u32, u64,
  dec_u32,
}
use fatp_balancer.Floats.{Floats}
use fatp_balancer.Metrics.{LoadMetrics}
use fatp_balancer.Admission.{Verdict, evaluate}
use fatp_balancer.Admission.Layers.{slots}
use fatp_balancer.HoldingQueue.{HoldingQueue, enqueue}
use fatp_balancer.Policy.View.{Selection}
use fatp_balancer.Balancer.State.{Balancer, INode, Costs, FastHashMap, Route, Times}
use fatp_balancer.Balancer.Snapshot.{
  snapshot_metrics, sample_throughput, build_cluster_metrics, are_all_eligible_overloaded, set_node,
}
use fatp_balancer.Balancer.Lifecycle.{
  Registration, unpublished, callback, deliver, enter_maps, register_dispatched_job,
  finalize_job_lifecycle_frame, observed,
}
use fatp_balancer.Balancer.Submit.{
  Reply, leave, stamped, next_id, after_enqueue, hold, accepted, after_node, dispatch,
  after_selection, select, route, after_admission, admit, submit,
}
use fatp_balancer.Balancer.Reservation.{
  Agrees, of_eq-Agrees, evaluate-Agrees, enqueue-Agrees, admits_urgent,
}

module _ {F D K N R H : Type 0} ⦃fl : Floats F⦄ ⦃costs : Costs K F⦄ ⦃routing : FastHashMap Route R⦄
    ⦃handling : FastHashMap ℕ H⦄ (inode : INode N F) (dl : Floats D) where
  -- Every reserved slot holds a job, and no job is held without one; the count is a 32-bit word.
  pub record IsReserved (b : Balancer F K N R H) : Type 0 where
    pub agrees : Agrees b.holding b.admission 0
    pub word : b.submitted_count < 2 ^ 32

  -- `n` is the count with the job in it; the count is kept for a returned handle, unless
  -- the job was completed early, and taken back otherwise.
  pub record Lands (n : ℕ) (early : Option (Job × Bool)) (r : Balancer F K N R H × Reply)
      : Type 0 where
    pub agrees : Agrees r.0.holding r.0.admission 0
    pub count :
        ((has_value r.1 ≡ true) × (r.0.submitted_count ≡ n))
        ⊎ (((has_value r.1 ≡ false) ⊎ (is_some early ≡ true)) × (r.0.submitted_count ≡ dec_u32 n))

  leave-Lands :
      (b : Balancer F K N R H) (e : SubmitError) (early : Option (Job × Bool))
      → Agrees b.holding b.admission 0
      → Lands b.submitted_count early (leave b e)
  unfolding leave
  leave-Lands b e early g = record { agrees = g; count = inr (inl refl, refl) }

  after_enqueue-Lands :
      (b : Balancer F K N R H) (r : HoldingQueue Job × Reply) (early : Option (Job × Bool))
      → has_value r.1 ≡ true
      → Agrees r.0 b.admission 0
      → Lands b.submitted_count early (after_enqueue b r)
  unfolding after_enqueue
  after_enqueue-Lands b (q, err e) early stored g = cc
  after_enqueue-Lands b (q, ok handle) early stored g = record {
    agrees = g;
    count = inl (refl, refl);
  }

  hold-Lands :
      (b : Balancer F K N R H) (job : Job) (t : Times) (early : Option (Job × Bool))
      → Agrees b.holding b.admission 1
      → Lands b.submitted_count early (hold b job t)
  unfolding hold next_id
  hold-Lands b job t early g =
      let held = stamped b job t.at_submit in
      let (stored, agrees) = enqueue-Agrees b.holding b.admission held held g in
      after_enqueue-Lands (next_id b) (enqueue b.holding held held) early stored agrees

  -- What the registration of a dispatched job leaves alone.
  pub register_dispatched_job_frame :
      (b : Balancer F K N R H) (job : Job) (node_id handle now : ℕ) (reg : Registration)
      → let b' = (register_dispatched_job b job node_id handle now reg).0 in
        (b'.holding ≡ b.holding)
        × (b'.admission ≡ b.admission)
        × (b'.submitted_count
            ≡ (if is_some reg.early then dec_u32 b.submitted_count else b.submitted_count))
  unfolding register_dispatched_job enter_maps
  register_dispatched_job_frame b job node_id handle now reg = elim (Option-cases reg.early) [
    | inl e ↦ ground arith
    | inr ((finished, succeeded), e) ↦ ground (
      arith,
      finalize_job_lifecycle_frame (enter_maps b job node_id handle now) finished (some handle)
          succeeded,
    )
  ]

  accepted-Lands :
      (b : Balancer F K N R H) (reg : Registration) (job : Job) (id handle : ℕ) (t : Times)
      (early : Option (Job × Bool))
      → Agrees b.holding b.admission 0
      → is_some reg.early ≡ is_some early
      → Lands b.submitted_count early (accepted inode dl job id handle t (b, reg))
  unfolding accepted
  accepted-Lands b reg job id handle t early g same =
      let (holding, admission, count) =
        register_dispatched_job_frame (record b { total_submitted = u64 (b.total_submitted + 1) })
          job id handle t.at_track reg in
      record { agrees = of_eq-Agrees 0 holding admission g; count = ground arith }

  after_node-Lands :
      (b : Balancer F K N R H) (job : Job) (id : ℕ) (t : Times) (early : Option (Job × Bool))
      (r : N × Reply)
      → Agrees b.holding b.admission 0
      → Lands b.submitted_count early (after_node inode dl b job id t early r)
  unfolding after_node deliver callback
  after_node-Lands b job id t early (n, err e) g =
      leave-Lands (record b { nodes = set_node inode b.nodes id n }) cluster_saturated early g
  after_node-Lands b job id t none (n, ok handle) g =
      accepted-Lands (record b { nodes = set_node inode b.nodes id n }) unpublished job id handle t
        none g refl
  after_node-Lands b job id t (some (completed, succeeded)) (n, ok handle) g =
      accepted-Lands (record b { nodes = set_node inode b.nodes id n })
        (record unpublished { early = some (observed job completed, succeeded) }) job id handle t
        (some (completed, succeeded)) g refl

  dispatch-Lands :
      (b : Balancer F K N R H) (job : Job) (id : ℕ) (t : Times) (early : Option (Job × Bool))
      (o : Option N)
      → Agrees b.holding b.admission 0
      → Lands b.submitted_count early (dispatch inode dl b job id t early o)
  unfolding dispatch next_id
  dispatch-Lands b job id t early none g = leave-Lands b _ early g
  dispatch-Lands b job id t early (some n) g =
      after_node-Lands (next_id b) (stamped b job t.at_submit) id t early _ g

  after_selection-Lands :
      (b : Balancer F K N R H) (job : Job) (t : Times) (early : Option (Job × Bool)) (s : Selection)
      → Agrees b.holding b.admission 0
      → Lands b.submitted_count early (after_selection inode dl b job t early s)
  unfolding after_selection
  after_selection-Lands b job t early (err e) g = leave-Lands b _ early g
  after_selection-Lands b job t early (ok id) g = dispatch-Lands b job id t early _ g

  -- What the choice of a node leaves alone.
  pub select_frame :
      (b : Balancer F K N R H) (job : Job) (ms : List (LoadMetrics F)) (t : Times)
      → let b' = (select inode dl b job ms t).0 in
        (b'.holding ≡ b.holding)
        × (b'.admission ≡ b.admission)
        × (b'.submitted_count ≡ b.submitted_count)
  unfolding select build_cluster_metrics sample_throughput
  select_frame b job ms t = ground arith

  route-Lands :
      (b : Balancer F K N R H) (job : Job) (ms : List (LoadMetrics F)) (t : Times)
      (early : Option (Job × Bool))
      → Agrees b.holding b.admission 0
      → Lands b.submitted_count early (route inode dl b job ms t early)
  unfolding route
  route-Lands b job ms t early g =
      let (holding, admission, count) = select_frame b job ms t in
      let (b', selection) = select inode dl b job ms t in
      subst (λ n. Lands n early (route inode dl b job ms t early)) count
        (after_selection-Lands b' job t early selection (of_eq-Agrees 0 holding admission g))

  -- The slot, if any, was reserved for the job by its admission.
  after_admission-Lands :
      (b : Balancer F K N R H) (job : Job) (ms : List (LoadMetrics F)) (saturated : Bool)
      (t : Times) (early : Option (Job × Bool)) (v : Verdict)
      → Agrees b.holding b.admission (slots v saturated)
      → (saturated && not (is_urgent job.priority) && has_value v) ≡ false
      → Lands b.submitted_count early (after_admission inode dl b job ms saturated t early v)
  unfolding after_admission
  after_admission-Lands b job ms saturated t early (err e) g u = leave-Lands b e early g
  after_admission-Lands b job ms false t early (ok x) g u = route-Lands b job ms t early g
  after_admission-Lands b job ms true t early (ok x) g u =
      elim (Bool-cases (is_urgent job.priority)) [
        | inl urgent ↦ rw urgent (hold-Lands b job t early g)
        | inr calm ↦ absurd (ground arith)
      ]

  admit-Lands :
      (b : Balancer F K N R H) (job : Job) (t : Times) (early : Option (Job × Bool))
      → Agrees b.holding b.admission 0
      → Lands b.submitted_count early (admit inode dl b job t early)
  unfolding admit
  admit-Lands b job t early g =
      let ms = snapshot_metrics inode b.nodes in
      let saturated = are_all_eligible_overloaded ms job.priority in
      let r = evaluate b.admission job.priority saturated t.at_global t.at_band in
      after_admission-Lands (record b { admission = r.0 }) job ms saturated t early r.1
        (evaluate-Agrees b.holding b.admission job.priority saturated t.at_global t.at_band g)
        (admits_urgent b.admission job.priority saturated t.at_global t.at_band)

  submit-Lands :
      (b : Balancer F K N R H) (job : Job) (t : Times) (early : Option (Job × Bool))
      → Agrees b.holding b.admission 0
      → Lands (u32 (b.submitted_count + 1)) early (submit inode dl b job t early)
  unfolding submit
  submit-Lands b job t early g =
      let b1 : Balancer F K N R H = record b { submitted_count = u32 (b.submitted_count + 1) } in
      let holds = λ (r : Balancer F K N R H × Reply). Lands b1.submitted_count early r in
      if_both holds b1.draining (leave-Lands b1 cluster_saturated early g) (
        if_both holds (is_expired job.deadline t.at_deadline)
          (leave-Lands b1 deadline_unachievable early g) (admit-Lands b1 job t early g))

  -- Submit keeps every reserved slot matched with a held job, and no held job is without one: no
  -- branch leaks a slot of the holding queue. The count of jobs in flight stays a 32-bit word.
  pub submit-IsReserved :
      (b : Balancer F K N R H) (job : Job) (t : Times) (early : Option (Job × Bool))
      → IsReserved b
      → IsReserved (submit inode dl b job t early).0
  submit-IsReserved b job t early g =
      let l = submit-Lands b job t early g.agrees in
      record { agrees = l.agrees; word = ground (arith, l.count) }

  -- Where reserved slots and held jobs match and the count of jobs in flight is a 32-bit word,
  -- submit either returns a handle and raises the count by one, modulo 2^32, or it leaves the
  -- count; and it leaves it only if it rejects the job or the node has completed the job early.
  pub submit_count :
      (b : Balancer F K N R H) (job : Job) (t : Times) (early : Option (Job × Bool))
      → IsReserved b
      → let r = submit inode dl b job t early in
        ((has_value r.1 ≡ true) × (r.0.submitted_count ≡ u32 (b.submitted_count + 1)))
        ⊎ (((has_value r.1 ≡ false) ⊎ (is_some early ≡ true))
            × (r.0.submitted_count ≡ b.submitted_count))
  submit_count b job t early g =
      let l = submit-Lands b job t early g.agrees in ground (arith, l.count, g.word)
