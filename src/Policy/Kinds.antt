-- ===== src/Policy/Kinds.antt =====
-- The policies as one type, and ISchedulingPolicy::selectNode dispatched over it; policies/
-- Composite.h. A call returns the policy too, since RoundRobin moves its cursor.
use fatp_balancer.Base.{
  ℕ, ◌≡◌, ◌⊎◌, inl, inr, Bool, true, false, if◌then◌else◌, List, ok, err, arith,
}
use fatp_balancer.Job.{Job}
use fatp_balancer.Floats.{Floats}
use fatp_balancer.Policy.View.{ClusterView, Selection, no_nodes, none_eligible, IsEligible}
use fatp_balancer.Policy.Best.{select_best-IsEligible}
use fatp_balancer.Policy.Loads.{
  select_least_loaded, select_shortest_job_first, select_weighted_capacity,
  select_earliest_deadline_first, select_earliest_deadline_first-IsEligible,
}
use fatp_balancer.Policy.RoundRobin.{select_round_robin, select_round_robin-IsEligible}
use fatp_balancer.Policy.WorkStealing.{select_work_stealing, select_work_stealing-IsEligible}
use fatp_balancer.Policy.Affinity.{select_affinity, select_affinity-IsEligible}

mutual
  pub data Policy (F : Type 0) : Type 0 where
    round_robin : ℕ → Policy F  -- mCursor
    least_loaded : Policy F
    work_stealing : ℕ → Policy F  -- mStealThreshold
    affinity_routing : Policy F
    composite : Chain F → Policy F
    shortest_job_first : Policy F
    weighted_capacity : List (ℕ × F) → Policy F
    earliest_deadline_first : Policy F

  -- The children of a Composite, in order.
  pub data Chain (F : Type 0) : Type 0 where
    end : Chain F
    child : Policy F → Chain F → Chain F

-- What Composite returns when no child is left, also when it has none; `saw` is anyPolicySawNodes.
abbrev pub chain_error : Bool → Selection
chain_error saw = if saw then err none_eligible else err no_nodes

module _ {F D : Type 0} ⦃fl : Floats F⦄ (dl : Floats D) (job : Job) (view : ClusterView F)
    (now : ℕ) where
  with_cursor : ℕ × Selection → Policy F × Selection
  with_cursor (cursor, s) = (round_robin cursor, s)

  with_chain : Chain F × Selection → Policy F × Selection
  with_chain (c, s) = (composite c, s)

  -- The rest of the chain is asked only after a failure.
  after_child :
      Policy F × Selection → (Bool → Chain F × Selection) → Chain F → Bool → Chain F × Selection
  after_child (p, ok id) rest c saw = (child p c, ok id)
  after_child (p, err none_eligible) rest c saw = let (c', s) = rest true in (child p c', s)
  after_child (p, err no_nodes) rest c saw = let (c', s) = rest saw in (child p c', s)

  unfoldable mutual
    unfolding with_cursor with_chain after_child

    pub select_node : Policy F → Policy F × Selection
    select_node (round_robin cursor) =
        with_cursor (select_round_robin cursor job.priority view.nodes)
    select_node least_loaded = (least_loaded, select_least_loaded job view)
    select_node (work_stealing threshold) =
        (work_stealing threshold, select_work_stealing dl threshold job view)
    select_node affinity_routing = (affinity_routing, select_affinity job view)
    select_node (composite c) = with_chain (select_chain c false)
    select_node shortest_job_first = (shortest_job_first, select_shortest_job_first job view)
    select_node (weighted_capacity weights) =
        (weighted_capacity weights, select_weighted_capacity weights job view)
    select_node earliest_deadline_first =
        (earliest_deadline_first, select_earliest_deadline_first job view now)

    pub select_chain : Chain F → Bool → Chain F × Selection
    select_chain end saw = (end, chain_error saw)
    select_chain (child p c) saw = after_child (select_node p) (select_chain c) c saw

  after_child_ok :
      (r : Policy F × Selection) (rest : Bool → Chain F × Selection) (c : Chain F) (saw : Bool)
      (id : ℕ)
      → (after_child r rest c saw).1 ≡ ok id
      → (r.1 ≡ ok id) ⊎ ((saw' : Bool) × ((rest saw').1 ≡ ok id))
  unfolding after_child
  after_child_ok (p, ok n) rest c saw id h = inl h
  after_child_ok (p, err none_eligible) rest c saw id h = inr (true, h)
  after_child_ok (p, err no_nodes) rest c saw id h = inr (saw, h)

  module _ (same : fl.eq fl.largest fl.largest ≡ true) where
    mutual
      unfolding select_node select_least_loaded select_shortest_job_first select_weighted_capacity

      eligible :
          (p : Policy F) (id : ℕ)
          → (select_node p).1 ≡ ok id
          → IsEligible view.nodes job.priority id
      eligible (round_robin cursor) id h =
          select_round_robin-IsEligible cursor job.priority view.nodes id h
      eligible least_loaded id h = select_best-IsEligible _ _ job.priority view.nodes id h
      eligible (work_stealing threshold) id h =
          select_work_stealing-IsEligible dl threshold job view id h
      eligible affinity_routing id h = select_affinity-IsEligible job view id same h
      eligible (composite c) id h = select_chain-IsEligible c false id h
      eligible shortest_job_first id h = select_best-IsEligible _ _ job.priority view.nodes id h
      eligible (weighted_capacity weights) id h =
          select_best-IsEligible _ _ job.priority view.nodes id h
      eligible earliest_deadline_first id h =
          select_earliest_deadline_first-IsEligible job view now id h

      select_chain-IsEligible :
          (c : Chain F) (saw : Bool) (id : ℕ)
          → (select_chain c saw).1 ≡ ok id
          → IsEligible view.nodes job.priority id
      select_chain-IsEligible end saw id h = absurd (ground arith)
      select_chain-IsEligible (child p c) saw id h =
          elim (after_child_ok (select_node p) (select_chain c) c saw id h) [
            | inl e ↦ eligible p id e
            | inr (saw', e) ↦ select_chain-IsEligible c saw' id e
          ]

    -- If the largest float equals itself, then whichever policy is asked, a Composite of any depth
    -- included, the node that it selects is in the snapshot and accepts the priority of the job.
    pub select_node-IsEligible :
        (p : Policy F) (id : ℕ) → (select_node p).1 ≡ ok id → IsEligible view.nodes job.priority id
    select_node-IsEligible p id h = eligible p id h
