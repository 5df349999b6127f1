-- ===== src/Balancer/Lifecycle.antt =====
-- Balancer.h: from a dispatched job to the end of its life: registerDispatchedJob, the completion
-- callbacks, eraseRoutingState and finalizeJobLifecycle. `notifyHoldingDrainer` only wakes a thread.
use fatp_balancer.Base.{
  ℕ, ◌+◌, ◌≡◌, refl, inl, inr, Bool, true, false, if◌then◌else◌, Option, none, some, arith,
  Option-cases,
}
use fatp_balancer.Job.{Job, u64, dec_u32}
use fatp_balancer.Aging.{track, untrack}
use fatp_balancer.Balancer.State.{Balancer, Costs, FastHashMap, Route}

-- DispatchRegistrationState. A completion that comes before the job is registered waits in `early`.
pub record Registration : Type 0 where
  pub published : Bool
  pub handle : Option ℕ
  pub early : Option (Job × Bool)

abbrev pub unpublished : Registration
unpublished = record { published = false; handle = none; early = none }

-- The captured job with what the node has observed.
abbrev pub observed : Job → Job → Job
observed captured completed = record captured {
  observed_cost = completed.observed_cost;
  executed_by = completed.executed_by;
}

module _ {F K N R H : Type 0} ⦃costs : Costs K F⦄ ⦃routing : FastHashMap Route R⦄
    ⦃handling : FastHashMap ℕ H⦄ where
  erase_found : Balancer F K N R H → ℕ → Option Route → Balancer F K N R H
  erase_found b handle none = b
  erase_found b handle (some info) = record b {
    handles = handling.erase b.handles info.job_id;
    routes = routing.erase b.routes handle;
  }

  unfoldable pub erase_routing_state : Balancer F K N R H → Option ℕ → Balancer F K N R H
  unfolding erase_found
  erase_routing_state b none = b
  erase_routing_state b (some handle) = erase_found b handle (routing.find b.routes handle)

  unfoldable pub finalize_job_lifecycle :
      Balancer F K N R H → Job → Option ℕ → Bool → Balancer F K N R H
  unfolding erase_routing_state
  finalize_job_lifecycle b finished routed succeeded =
      let b1 =
        if succeeded
        then record b {
          cost_model = costs.update b.cost_model finished;
          total_completed = u64 (b.total_completed + 1);
        }
        else b in
      let b2 = erase_routing_state (record b1 { aging = untrack b1.aging finished.id }) routed in
      record b2 { submitted_count = dec_u32 b2.submitted_count }

  -- The callback of a held job, called with `completed`.
  unfoldable pub holding_callback : Balancer F K N R H → Job → Job → Bool → Balancer F K N R H
  unfolding finalize_job_lifecycle
  holding_callback b captured completed succeeded =
      finalize_job_lifecycle b (observed captured completed) none succeeded

  -- The callback of a dispatched job, called with `completed`.
  unfoldable pub callback :
      Balancer F K N R H → Registration → Job → Job → Bool → Balancer F K N R H × Registration
  unfolding finalize_job_lifecycle
  callback b reg captured completed succeeded =
      if reg.published
      then (finalize_job_lifecycle b (observed captured completed) reg.handle succeeded, reg)
      else (b, record reg { early = some (observed captured completed, succeeded) })

  -- What the node has completed before its submit returned, if anything.
  unfoldable pub deliver :
      Balancer F K N R H
      → Registration
      → Job
      → Option (Job × Bool)
      → Balancer F K N R H × Registration
  unfolding callback
  deliver b reg captured none = (b, reg)
  deliver b reg captured (some (completed, succeeded)) = callback b reg captured completed succeeded

  finish_early : Balancer F K N R H → ℕ → Option (Job × Bool) → Balancer F K N R H
  unfolding finalize_job_lifecycle
  finish_early b handle none = b
  finish_early b handle (some (finished, succeeded)) =
      finalize_job_lifecycle b finished (some handle) succeeded

  -- The maps and the aging engine learn of the job.
  unfoldable pub enter_maps : Balancer F K N R H → Job → ℕ → ℕ → ℕ → Balancer F K N R H
  enter_maps b job node_id handle now = record b {
    routes = routing.insert b.routes handle (record { job_id = job.id; node_id = node_id });
    handles = handling.insert b.handles job.id handle;
    aging = if b.aging_enabled then track b.aging job now else b.aging;
  }

  unfoldable pub register_dispatched_job :
      Balancer F K N R H → Job → ℕ → ℕ → ℕ → Registration → Balancer F K N R H × Registration
  unfolding enter_maps finish_early
  register_dispatched_job b job node_id handle now reg = (
    finish_early (enter_maps b job node_id handle now) handle reg.early,
    record { published = true; handle = some handle; early = none },
  )

  -- A node that completes a job before the balancer has registered it leaves the same state as one
  -- that completes it right afterwards: no completion is lost, and none counts twice.
  pub register-callback :
      (b : Balancer F K N R H) (job completed : Job) (succeeded : Bool) (node_id handle now : ℕ)
      → let (b1, early) = callback b unpublished job completed succeeded in
        let (b2, published) = register_dispatched_job b job node_id handle now unpublished in
        (register_dispatched_job b1 job node_id handle now early).0
        ≡ (callback b2 published job completed succeeded).0
  unfolding register_dispatched_job callback
  register-callback b job completed succeeded node_id handle now = refl

  -- What the end of a job's life leaves alone.
  pub finalize_job_lifecycle_frame :
      (b : Balancer F K N R H) (finished : Job) (routed : Option ℕ) (succeeded : Bool)
      → let b' = finalize_job_lifecycle b finished routed succeeded in
        (b'.submitted_count ≡ dec_u32 b.submitted_count)
        × (b'.holding ≡ b.holding)
        × (b'.admission ≡ b.admission)
        × (b'.nodes ≡ b.nodes)
        × (b'.draining ≡ b.draining)
        × (b'.max_retries ≡ b.max_retries)
  unfolding finalize_job_lifecycle
  finalize_job_lifecycle_frame b finished none succeeded = ground arith
  finalize_job_lifecycle_frame b finished (some handle) succeeded =
      elim (Option-cases (routing.find b.routes handle)) [
        | inl e ↦ ground arith
        | inr (r, e) ↦ ground arith
      ]
