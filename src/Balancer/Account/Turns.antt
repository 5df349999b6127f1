-- ===== src/Balancer/Account/Turns.antt =====
-- Balancer.h: sequences of operations, in any order, with what the nodes and other threads do in
-- between. Each operation is one step.
use fatp_balancer.Base.{
  ℕ, ◌+◌, ◌^◌, ◌<◌, ◌%◌, ◌≡◌, refl, sym, subst, ◌∙◌, ◌==◌, inl, inr, Bool, true, List, [], ◌∷◌,
  Option, none, some, arith, Option-cases, Bool-cases,
}
use fatp_balancer.Job.{Job}
use fatp_balancer.Floats.{Floats}
use fatp_balancer.Aging.{AgedEvent, ExpiredEvent, tick}
use fatp_balancer.Admission as Gate
use fatp_balancer.Cost.Model.{CostModel}
use fatp_balancer.Cost.Model as Cost
use fatp_balancer.Policy.Kinds.{Policy}
use fatp_balancer.Balancer.State.{Balancer, INode, Costs, FastHashMap, Route, Times}
use fatp_balancer.Balancer.Snapshot.{find_node, build_cluster_metrics, sample_throughput}
use fatp_balancer.Balancer.Lifecycle.{
  Registration, callback, finalize_job_lifecycle_frame, observed,
}
use fatp_balancer.Balancer.Submit.{submit}
use fatp_balancer.Balancer.Cancel.{
  cancel, reprioritise_on, reprioritise_routed, forward_to, forward_aged, cancel_found,
  cancel_expired, age, begin_switch, end_switch,
}
use fatp_balancer.Balancer.Control.{set_aging_enabled, set_degradation_enabled, metrics_now}
use fatp_balancer.Balancer.Drain.{drain_one}
use fatp_balancer.Balancer.Reservation.{Agrees, of_eq-Agrees}
use fatp_balancer.Balancer.Submitting.{submit-IsReserved}
use fatp_balancer.Balancer.Cancelling.{cancel-IsCancelled}
use fatp_balancer.Balancer.Draining.{drain_one-Agrees}
use fatp_balancer.Balancer.Account.{SizeLaws, jobs, Owes, GivesFresh, finalize_routed}
use fatp_balancer.Balancer.Account.Taking.{submit-Owes}
use fatp_balancer.Balancer.Account.Leaving.{cancel-Owes, drain_one-Owes}

module _ {F K N R H : Type 0} ⦃fl : Floats F⦄ ⦃costs : Costs K F⦄ ⦃routing : FastHashMap Route R⦄
    ⦃handling : FastHashMap ℕ H⦄ ⦃laws : SizeLaws routing⦄ where
  -- Slots and held jobs match, and the count is the number of routed and held jobs, modulo 2^32.
  pub record IsBalanced (b : Balancer F K N R H) : Type 0 where
    pub agrees : Agrees b.holding b.admission 0
    pub count : b.submitted_count ≡ (laws.size b.routes + b.holding.size) % 2 ^ 32

  balanced : {b : Balancer F K N R H} → Agrees b.holding b.admission 0 → Owes 0 b → IsBalanced b
  unfolding jobs
  balanced a g = record { agrees = a; count = omega (arith, g, a.reserved) }

  owes : {b : Balancer F K N R H} → IsBalanced b → Owes 0 b
  unfolding jobs
  owes h = omega (arith, h.count, h.agrees.reserved)

  -- What the forwarding of promotions leaves alone.
  abbrev SameJobs : Balancer F K N R H → Balancer F K N R H → Type 0
  SameJobs b b' =
      (b'.routes ≡ b.routes)
      × (b'.holding ≡ b.holding)
      × (b'.admission ≡ b.admission)
      × (b'.submitted_count ≡ b.submitted_count)

  same-IsBalanced : {b b' : Balancer F K N R H} → SameJobs b b' → IsBalanced b → IsBalanced b'
  same-IsBalanced (r, q, a, c) h = record {
    agrees = of_eq-Agrees 0 q a h.agrees;
    count = rw (r, q, c) h.count;
  }

module _ {F K N R H : Type 0} ⦃fl : Floats F⦄ ⦃costs : Costs K F⦄ ⦃routing : FastHashMap Route R⦄
    ⦃handling : FastHashMap ℕ H⦄ ⦃laws : SizeLaws routing⦄ (inode : INode N F) where
  forward_to-SameJobs :
      (b : Balancer F K N R H) (e : AgedEvent) (o : Option ℕ) → SameJobs b (forward_to inode b e o)
  unfolding forward_to reprioritise_routed reprioritise_on
  forward_to-SameJobs b e none = (refl, refl, refl, refl)
  forward_to-SameJobs b e (some handle) = elim (Option-cases (routing.find b.routes handle)) [
    | inl f ↦ rw f (refl, refl, refl, refl)
    | inr (info, f) ↦ rw f (elim (Option-cases (find_node inode b.nodes info.node_id)) [
      | inl g ↦ rw g (refl, refl, refl, refl)
      | inr (n, g) ↦ rw g (refl, refl, refl, refl)
    ])
  ]

  forward_aged-IsBalanced :
      (b : Balancer F K N R H) (es : List AgedEvent)
      → IsBalanced b
      → IsBalanced (forward_aged inode b es)
  unfolding forward_aged
  forward_aged-IsBalanced b [] h = h
  forward_aged-IsBalanced b (e ∷ es) h =
      forward_aged-IsBalanced (forward_to inode b e (handling.find b.handles e.id)) es
        (same-IsBalanced (forward_to-SameJobs b e (handling.find b.handles e.id)) h)

  cancel-IsBalanced :
      (b : Balancer F K N R H) (handle : ℕ) → IsBalanced b → IsBalanced (cancel inode b handle).0
  cancel-IsBalanced b handle h =
      balanced (cancel-IsCancelled inode b handle h.agrees).agrees
        (cancel-Owes inode b handle h.agrees (owes h))

  cancel_found-IsBalanced :
      (b : Balancer F K N R H) (o : Option ℕ) → IsBalanced b → IsBalanced (cancel_found inode b o)
  unfolding cancel_found
  cancel_found-IsBalanced b none h = h
  cancel_found-IsBalanced b (some handle) h = cancel-IsBalanced b handle h

  cancel_expired-IsBalanced :
      (b : Balancer F K N R H) (es : List ExpiredEvent)
      → IsBalanced b
      → IsBalanced (cancel_expired inode b es)
  unfolding cancel_expired
  cancel_expired-IsBalanced b [] h = h
  cancel_expired-IsBalanced b (e ∷ es) h =
      cancel_expired-IsBalanced (cancel_found inode b (handling.find b.handles e.id)) es
        (cancel_found-IsBalanced b (handling.find b.handles e.id) h)

  age-IsBalanced : (b : Balancer F K N R H) (now : ℕ) → IsBalanced b → IsBalanced (age inode b now)
  unfolding age
  age-IsBalanced b now h =
      let (aging, r) = tick b.aging now in
      let aged : Balancer F K N R H = record b { aging = aging } in
      cancel_expired-IsBalanced (forward_aged inode aged r.aged) r.expired
        (forward_aged-IsBalanced aged r.aged (same-IsBalanced (refl, refl, refl, refl) h))

-- What a node holds to call back, once the job is registered under the handle.
abbrev pub registered_as : ℕ → Registration
registered_as handle = record { published = true; handle = some handle; early = none }

module _ {F D K N R H : Type 0} ⦃fl : Floats F⦄ ⦃costs : Costs K F⦄ ⦃routing : FastHashMap Route R⦄
    ⦃handling : FastHashMap ℕ H⦄ ⦃laws : SizeLaws routing⦄ (inode : INode N F) (dl : Floats D) where
  -- A node calls back once for each job that it took and that was not cancelled: while it is routed.
  -- The setters of the admission are called on what admissionControl gives; `relearns` is a change of
  -- the cost model by its own operations, setDegradationEnabled among them.
  pub data Turn (b : Balancer F K N R H) : Balancer F K N R H → Type 0 where
    submits :
        (job : Job) (t : Times) (early : Option (Job × Bool))
        → GivesFresh inode b
        → Turn b (submit inode dl b job t early).0
    cancels : (handle : ℕ) → Turn b (cancel inode b handle).0
    drains :
        (t : Times) (early : Option (Job × Bool))
        → GivesFresh inode b
        → Turn b (drain_one inode dl b t early).0
    ages : (now : ℕ) → Turn b (age inode b now)
    completes :
        (captured completed : Job) (handle : ℕ) (succeeded : Bool) (info : Route)
        → routing.find b.routes handle ≡ some info
        → Turn b (callback b (registered_as handle) captured completed succeeded).0
    begins_switch : Turn b (begin_switch b)
    ends_switch : (p : Policy F) (b' : Balancer F K N R H) → end_switch b p ≡ some b' → Turn b b'
    sets_aging : (enabled : Bool) → Turn b (set_aging_enabled b enabled)
    sets_shed_bulk :
        (enabled : Bool) → Turn b (record b { admission = Gate.set_shed_bulk b.admission enabled })
    sets_admission_strict :
        (enabled : Bool)
        → Turn b (record b { admission = Gate.set_admission_strict b.admission enabled })
    measures : (now : ℕ) → Turn b (metrics_now inode b now).0
    relearns : (costs' : K) → Turn b (record b { cost_model = costs' })
    works : (nodes : List N) → Turn b (record b { nodes = nodes })

  pub data Turns (b : Balancer F K N R H) : Balancer F K N R H → Type 0 where
    here : Turns b b
    next : {c d : Balancer F K N R H} → Turns b c → Turn c d → Turns b d

  set_aging_enabled-SameJobs :
      (b : Balancer F K N R H) (enabled : Bool) → SameJobs b (set_aging_enabled b enabled)
  unfolding set_aging_enabled
  set_aging_enabled-SameJobs b enabled = ground arith

  sampled-SameJobs : (b : Balancer F K N R H) (now : ℕ) → SameJobs b (metrics_now inode b now).0
  unfolding metrics_now build_cluster_metrics sample_throughput
  sampled-SameJobs b now = ground arith

  settings_kept :
      (b : Balancer F K N R H) (a : Gate.AdmissionControl F)
      → Agrees b.holding b.admission 0
      → a.holding_queue_capacity ≡ b.admission.holding_queue_capacity
      → a.holding_queue_depth ≡ b.admission.holding_queue_depth
      → a.rejections ≡ b.admission.rejections
      → Agrees b.holding a 0
  settings_kept b a g c d r = record {
    valid = g.valid;
    settled = record {
      small = λ x. subst (λ k. k x < 2 ^ 64) (sym r) (g.settled.small x);
      within = omega (arith, c, d, g.settled.within);
      word = omega (arith, c, g.settled.word);
    };
    capacities = g.capacities ∙ sym c;
    reserved = d ∙ g.reserved;
  }

  Turn-IsBalanced : {b c : Balancer F K N R H} → Turn b c → IsBalanced b → IsBalanced c
  unfolding callback begin_switch end_switch Gate.set_shed_bulk Gate.set_admission_strict
  Turn-IsBalanced {b} (submits job t early fresh) h =
      balanced
        (submit-IsReserved inode dl b job t early
          (record { agrees = h.agrees; word = omega (arith, h.count) })).agrees
        (submit-Owes inode dl b job t early fresh h.agrees (owes h))
  Turn-IsBalanced {b} (cancels handle) h = cancel-IsBalanced inode b handle h
  Turn-IsBalanced {b} (drains t early fresh) h =
      balanced (drain_one-Agrees inode dl b t early h.agrees).0
        (drain_one-Owes inode dl b t early fresh h.agrees (owes h))
  Turn-IsBalanced {b} (ages now) h = age-IsBalanced inode b now h
  Turn-IsBalanced {b} (completes captured completed handle succeeded info e) h =
      let (_, holding, admission, _, _, _) =
        finalize_job_lifecycle_frame b (observed captured completed) (some handle) succeeded in
      balanced (of_eq-Agrees 0 holding admission h.agrees)
        (finalize_routed b (observed captured completed) handle succeeded info e (owes h))
  Turn-IsBalanced begins_switch h = same-IsBalanced (refl, refl, refl, refl) h
  Turn-IsBalanced {b} (ends_switch p c e) h = elim (Bool-cases (b.submitted_count == 0)) [
    | inl none_left ↦ same-IsBalanced (ground arith) h
    | inr more ↦ absurd (ground arith)
  ]
  Turn-IsBalanced {b} (sets_aging enabled) h =
      same-IsBalanced (set_aging_enabled-SameJobs b enabled) h
  Turn-IsBalanced {b} (sets_shed_bulk enabled) h = record {
    agrees = settings_kept b (Gate.set_shed_bulk b.admission enabled) h.agrees refl refl refl;
    count = h.count;
  }
  Turn-IsBalanced {b} (sets_admission_strict enabled) h = record {
    agrees =
        settings_kept b (Gate.set_admission_strict b.admission enabled) h.agrees refl refl refl;
    count = h.count;
  }
  Turn-IsBalanced {b} (measures now) h = same-IsBalanced (sampled-SameJobs b now) h
  Turn-IsBalanced (relearns costs') h = same-IsBalanced (refl, refl, refl, refl) h
  Turn-IsBalanced (works nodes) h = same-IsBalanced (refl, refl, refl, refl) h

  pub Turns-IsBalanced : {b c : Balancer F K N R H} → Turns b c → IsBalanced b → IsBalanced c
  Turns-IsBalanced here h = h
  Turns-IsBalanced (next ts t) h = Turn-IsBalanced t (Turns-IsBalanced ts h)

module _ {F D M N R H : Type 0} ⦃fl : Floats F⦄ ⦃costs : Costs (CostModel F M) F⦄
    ⦃routing : FastHashMap Route R⦄ ⦃handling : FastHashMap ℕ H⦄ ⦃laws : SizeLaws routing⦄
    (inode : INode N F) (dl : Floats D) where
  -- setDegradationEnabled is such a turn.
  set_degradation_enabled-Turn :
      (b : Balancer F (CostModel F M) N R H) (enabled : Bool)
      → Turn inode dl b (set_degradation_enabled b enabled)
  unfolding set_degradation_enabled
  set_degradation_enabled-Turn b enabled =
      relearns (Cost.set_degradation_enabled b.cost_model enabled)
