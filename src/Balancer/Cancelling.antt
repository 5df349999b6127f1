-- ===== src/Balancer/Cancelling.antt =====
-- Balancer::cancel and switchPolicy.
use fatp_balancer.Base.{
  ℕ, ◌+◌, ◌<◌, ◌^◌, ◌≡◌, refl, ap, ◌⊎◌, Bool, true, false, ◌==◌, if◌then◌else◌, if_both, Option,
  none, some, is_some, ok, err, has_value, arith,
}
use fatp_balancer.Job.{Job, cluster_saturated, normal, default_job, dec_u32, u32}
use fatp_balancer.Floats.{Floats}
use fatp_balancer.Admission.{release_from_holding_queue}
use fatp_balancer.HoldingQueue.{Entry, HoldingQueue, is_holding_handle, remove}
use fatp_balancer.Policy.Kinds.{Policy}
use fatp_balancer.Balancer.State.{Balancer, INode, Costs, FastHashMap, Route, Times}
use fatp_balancer.Balancer.Snapshot.{find_node, set_node}
use fatp_balancer.Balancer.Lifecycle.{
  finalize_job_lifecycle, holding_callback, finalize_job_lifecycle_frame, observed,
}
use fatp_balancer.Balancer.Submit.{leave, submit}
use fatp_balancer.Balancer.Cancel.{
  Answer, after_remove, after_node_cancel, cancel_on, cancel_routed, cancel, begin_switch,
  end_switch,
}
use fatp_balancer.Balancer.Reservation.{Agrees, of_eq-Agrees, release-Agrees, remove-Agrees}

module _ {F K N R H : Type 0} ⦃fl : Floats F⦄ ⦃costs : Costs K F⦄ ⦃routing : FastHashMap Route R⦄
    ⦃handling : FastHashMap ℕ H⦄ (inode : INode N F) where
  -- What a cancellation of `b` comes to: a job that was cancelled no longer counts as in flight.
  pub record IsCancelled (b : Balancer F K N R H) (r : Balancer F K N R H × Answer) : Type 0 where
    pub agrees : Agrees r.0.holding r.0.admission 0
    pub count :
        r.0.submitted_count
        ≡ (if has_value r.1 then dec_u32 b.submitted_count else b.submitted_count)

  finalize-IsCancelled :
      (b c : Balancer F K N R H) (finished : Job) (routed : Option ℕ)
      → Agrees c.holding c.admission 0
      → c.submitted_count ≡ b.submitted_count
      → IsCancelled b (finalize_job_lifecycle c finished routed false, ok tt)
  finalize-IsCancelled b c finished routed g same =
      let (count, holding, admission, _, _, _) =
        finalize_job_lifecycle_frame c finished routed false in
      record { agrees = of_eq-Agrees 0 holding admission g; count = ground arith }

  after_remove-IsCancelled :
      (b : Balancer F K N R H) (q : HoldingQueue Job) (o : Option (Entry Job))
      → Agrees q b.admission (if is_some o then 1 else 0)
      → IsCancelled b (after_remove inode b (q, o))
  unfolding after_remove holding_callback
  after_remove-IsCancelled b q none g = record { agrees = g; count = refl }
  after_remove-IsCancelled b q (some e) g =
      finalize-IsCancelled b
        (record b { holding = q; admission = release_from_holding_queue b.admission })
        (observed e.on_done e.job) none (release-Agrees q b.admission g) refl

  after_node_cancel-IsCancelled :
      (b : Balancer F K N R H) (handle : ℕ) (info : Route) (r : N × Answer)
      → Agrees b.holding b.admission 0
      → IsCancelled b (after_node_cancel inode b handle info r)
  unfolding after_node_cancel
  after_node_cancel-IsCancelled b handle info (n, err e) g = record { agrees = g; count = refl }
  after_node_cancel-IsCancelled b handle info (n, ok _) g =
      finalize-IsCancelled b (record b { nodes = set_node inode b.nodes info.node_id n })
        (record (default_job normal) { id = info.job_id }) (some handle) g refl

  cancel_on-IsCancelled :
      (b : Balancer F K N R H) (handle : ℕ) (info : Route) (o : Option N)
      → Agrees b.holding b.admission 0
      → IsCancelled b (cancel_on inode b handle info o)
  unfolding cancel_on
  cancel_on-IsCancelled b handle info none g = record { agrees = g; count = refl }
  cancel_on-IsCancelled b handle info (some n) g =
      after_node_cancel-IsCancelled b handle info (inode.cancel n handle) g

  cancel_routed-IsCancelled :
      (b : Balancer F K N R H) (handle : ℕ) (o : Option Route)
      → Agrees b.holding b.admission 0
      → IsCancelled b (cancel_routed inode b handle o)
  unfolding cancel_routed
  cancel_routed-IsCancelled b handle none g = record { agrees = g; count = refl }
  cancel_routed-IsCancelled b handle (some info) g =
      cancel_on-IsCancelled b handle info (find_node inode b.nodes info.node_id) g

  -- From a state where reserved slots and held jobs match, cancel comes to such a state, also when
  -- it withdraws a held job; and it takes one from the count of jobs in flight exactly when it
  -- succeeds.
  pub cancel-IsCancelled :
      (b : Balancer F K N R H) (handle : ℕ)
      → Agrees b.holding b.admission 0
      → IsCancelled b (cancel inode b handle)
  unfolding cancel
  cancel-IsCancelled b handle g =
      let r = remove b.holding handle in
      if_both (IsCancelled b) (is_holding_handle handle)
        (after_remove-IsCancelled b r.0 r.1 (remove-Agrees b.holding b.admission handle g))
        (cancel_routed-IsCancelled b handle (routing.find b.routes handle) g)

module _ {F D K N R H : Type 0} ⦃fl : Floats F⦄ ⦃costs : Costs K F⦄ ⦃routing : FastHashMap Route R⦄
    ⦃handling : FastHashMap ℕ H⦄ (inode : INode N F) (dl : Floats D) where
  -- Where the count of jobs in flight is a 32-bit word: once a policy switch has begun, submit
  -- refuses the job and changes nothing; and the switch ends exactly when the count is 0, with the
  -- new policy and open again.
  pub submit-begin_switch :
      (b : Balancer F K N R H) (job : Job) (t : Times) (early : Option (Job × Bool)) (p : Policy F)
      → b.submitted_count < 2 ^ 32
      → let closed = begin_switch b in
        (submit inode dl closed job t early ≡ (closed, err cluster_saturated))
        × (is_some (end_switch closed p) ≡ (b.submitted_count == 0))
        × ((end_switch closed p ≡ none)
            ⊎ (end_switch closed p ≡ some (record b { policy = p; draining = false })))
  unfolding submit begin_switch end_switch leave
  submit-begin_switch b job t early p word =
      let same : dec_u32 (u32 (b.submitted_count + 1)) ≡ b.submitted_count = omega arith in
      (
        ap (λ (n : ℕ). (record b { draining = true; submitted_count = n }, err cluster_saturated))
            same,
        ground arith,
        ground arith,
      )
