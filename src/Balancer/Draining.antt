-- ===== src/Balancer/Draining.antt =====
-- Balancer::holdingDrainLoop: it keeps the reserved slots matched with the held jobs, and ends.
use fatp_balancer.Base.{
  ℕ, ◌+◌, ◌≤◌, ◌≡◌, refl, subst, ap, ◌⊎◌, inl, inr, Bool, false, ◌&&◌, ltb, leb, if_both, if_true,
  List, [], ◌∷◌, Option, none, some, ok, err, length, arith,
}
use fatp_balancer.Job.{Job, is_expired}
use fatp_balancer.Floats.{Floats}
use fatp_balancer.Admission.{release_from_holding_queue}
use fatp_balancer.HoldingQueue.{Entry, HoldingQueue, try_dequeue, is_empty}
use fatp_balancer.HoldingQueue.Invariant.{size-try_dequeue}
use fatp_balancer.HoldingQueue.Refinement.{try_dequeue-waiting}
use fatp_balancer.Policy.View.{Selection}
use fatp_balancer.Balancer.State.{Balancer, INode, Costs, FastHashMap, Route, Times}
use fatp_balancer.Balancer.Snapshot.{
  snapshot_metrics, are_all_eligible_overloaded, find_node, set_node,
}
use fatp_balancer.Balancer.Lifecycle.{
  Registration, unpublished, callback, deliver, holding_callback, finalize_job_lifecycle_frame,
  observed,
}
use fatp_balancer.Balancer.Submit.{Reply, select}
use fatp_balancer.Balancer.Drain.{
  Next, continues, breaks, retried, put_back, drop, launched, after_drain_node, drain_to,
  after_drain_selection, drain_entry, after_dequeue, drain_one, resume, drain,
}
use fatp_balancer.Balancer.Reservation.{
  Agrees, of_eq-Agrees, release-Agrees, try_dequeue-Agrees, requeue-Agrees,
}
use fatp_balancer.Balancer.Submitting.{select_frame, register_dispatched_job_frame}

module _ {F D K N R H : Type 0} ⦃fl : Floats F⦄ ⦃costs : Costs K F⦄ ⦃routing : FastHashMap Route R⦄
    ⦃handling : FastHashMap ℕ H⦄ (inode : INode N F) (dl : Floats D) where
  -- A round that took its entry out of the queue and left `q`: it matches slots and jobs again, and
  -- goes on only if the entry is gone.
  record Rounds (q : HoldingQueue Job) (r : Balancer F K N R H × Next) : Type 0 where
    agrees : Agrees r.0.holding r.0.admission 0
    shrinks : (r.1 ≡ breaks) ⊎ (r.0.holding ≡ q)

  put_back-Rounds :
      (b : Balancer F K N R H) (e : Entry Job) (q : HoldingQueue Job)
      → Agrees b.holding b.admission 1
      → Rounds q (put_back inode dl b e)
  unfolding put_back
  put_back-Rounds b e q g = record {
    agrees = requeue-Agrees b.holding b.admission e g;
    shrinks = inl refl;
  }

  drop-Rounds :
      (b : Balancer F K N R H) (e : Entry Job)
      → Agrees b.holding b.admission 1
      → Rounds b.holding (drop inode dl b e)
  unfolding drop holding_callback
  drop-Rounds b e g =
      let released : Balancer F K N R H = record b {
        admission = release_from_holding_queue b.admission;
      } in
      let (_, holding, admission, _, _, _) =
        finalize_job_lifecycle_frame released (observed e.on_done e.job) none false in
      record {
        agrees = of_eq-Agrees 0 holding admission (release-Agrees b.holding b.admission g);
        shrinks = inr holding;
      }

  launched-Rounds :
      (b : Balancer F K N R H) (reg : Registration) (sent : Job) (id handle : ℕ) (t : Times)
      → Agrees b.holding b.admission 1
      → Rounds b.holding (launched inode dl sent id handle t (b, reg))
  unfolding launched
  launched-Rounds b reg sent id handle t g =
      let (holding, admission, _) =
        register_dispatched_job_frame inode dl
          (record b { admission = release_from_holding_queue b.admission }) sent id handle
          t.at_track reg in
      record {
        agrees = of_eq-Agrees 0 holding admission (release-Agrees b.holding b.admission g);
        shrinks = inr holding;
      }

  after_drain_node-Rounds :
      (b : Balancer F K N R H) (e : Entry Job) (sent : Job) (id : ℕ) (t : Times)
      (early : Option (Job × Bool)) (r : N × Reply)
      → Agrees b.holding b.admission 1
      → Rounds b.holding (after_drain_node inode dl b e sent id t early r)
  unfolding after_drain_node deliver callback
  after_drain_node-Rounds b e sent id t early (n, err _) g =
      put_back-Rounds (record b { nodes = set_node inode b.nodes id n })
        (retried (record e { job = sent })) b.holding g
  after_drain_node-Rounds b e sent id t none (n, ok handle) g =
      launched-Rounds (record b { nodes = set_node inode b.nodes id n }) unpublished sent id handle
        t g
  after_drain_node-Rounds b e sent id t (some (completed, succeeded)) (n, ok handle) g =
      launched-Rounds (record b { nodes = set_node inode b.nodes id n })
        (record unpublished { early = some (observed sent completed, succeeded) }) sent id handle t
        g

  drain_to-Rounds :
      (b : Balancer F K N R H) (e : Entry Job) (id : ℕ) (t : Times) (early : Option (Job × Bool))
      (o : Option N)
      → Agrees b.holding b.admission 1
      → Rounds b.holding (drain_to inode dl b e id t early o)
  unfolding drain_to
  drain_to-Rounds b e id t early none g = put_back-Rounds b (retried e) b.holding g
  drain_to-Rounds b e id t early (some n) g =
      let sent = record e.job { submitted = t.at_submit } in
      after_drain_node-Rounds b e sent id t early (inode.submit n sent) g

  after_drain_selection-Rounds :
      (b : Balancer F K N R H) (e : Entry Job) (t : Times) (early : Option (Job × Bool))
      (s : Selection)
      → Agrees b.holding b.admission 1
      → Rounds b.holding (after_drain_selection inode dl b e t early s)
  unfolding after_drain_selection
  after_drain_selection-Rounds b e t early (err _) g = put_back-Rounds b (retried e) b.holding g
  after_drain_selection-Rounds b e t early (ok id) g =
      drain_to-Rounds b e id t early (find_node inode b.nodes id) g

  drain_entry-Rounds :
      (b : Balancer F K N R H) (e : Entry Job) (t : Times) (early : Option (Job × Bool))
      → Agrees b.holding b.admission 1
      → Rounds b.holding (drain_entry inode dl b e t early)
  unfolding drain_entry
  drain_entry-Rounds b e t early g =
      let ms = snapshot_metrics inode b.nodes in
      let (b', selection) = select inode dl b e.job ms t in
      let (holding, admission, _) = select_frame inode dl b e.job ms t in
      let holds = λ (r : Balancer F K N R H × Next). Rounds b.holding r in
      let sent : Rounds b.holding (after_drain_selection inode dl b' e t early selection) =
        subst (λ q. Rounds q (after_drain_selection inode dl b' e t early selection)) holding
          (after_drain_selection-Rounds b' e t early selection
            (of_eq-Agrees 1 holding admission g)) in
      if_both holds (is_expired e.job.deadline t.at_deadline) (drop-Rounds b e g) (
        if_both holds (ltb 0 b.max_retries && leb b.max_retries e.job.hold_retries)
          (drop-Rounds b e g)
          (if_both holds (are_all_eligible_overloaded ms e.job.priority)
            (put_back-Rounds b e b.holding g) sent))

  -- From a state where reserved slots and held jobs match, a round of the drain comes to such a
  -- state, whether it drops the job, puts it back or dispatches it; and it goes on only after it
  -- shrank the queue by one.
  pub drain_one-Agrees :
      (b : Balancer F K N R H) (t : Times) (early : Option (Job × Bool))
      → Agrees b.holding b.admission 0
      → let r = drain_one inode dl b t early in
        Agrees r.0.holding r.0.admission 0
        × ((r.1 ≡ breaks) ⊎ (r.0.holding.size + 1 ≡ b.holding.size))
  unfolding drain_one after_dequeue
  drain_one-Agrees b t early g = elim (try_dequeue-waiting b.holding) [
    | inl (_, e) ↦ rw e (g, inl refl)
    | inr (e, _, h) ↦
        let q = (try_dequeue b.holding).0 in
        let taken : Balancer F K N R H = record b { holding = q } in
        let round =
          drain_entry-Rounds taken e t early (try_dequeue-Agrees b.holding b.admission e g h) in
        rw h (
          round.agrees,
          elim round.shrinks [
            | inl stop ↦ inl stop
            | inr same ↦ inr (
                omega (
                  arith,
                  size-try_dequeue b.holding e g.valid h,
                  ap (λ (p : HoldingQueue Job). p.size) same,
                ))
          ],
        )
  ]

  Ended : Balancer F K N R H × Next → Type 0
  Ended r = (r.1 ≡ breaks) × Agrees r.0.holding r.0.admission 0

  resume-Ended :
      (r rest : Balancer F K N R H × Next)
      → Agrees r.0.holding r.0.admission 0
      → (r.1 ≡ breaks) ⊎ Ended rest
      → Ended (resume inode dl r rest)
  unfolding resume Ended
  resume-Ended (b, continues) rest g (inl stop) = cc
  resume-Ended (b, continues) rest g (inr e) = e
  resume-Ended (b, breaks) rest g e = (refl, g)

  -- From a state where reserved slots and held jobs match, the drain loop ends within as many
  -- rounds as jobs are held, whatever the nodes and the clock do, and at its end they match.
  pub drain_ends :
      (b : Balancer F K N R H) (rounds : List (Times × Option (Job × Bool)))
      → Agrees b.holding b.admission 0
      → b.holding.size ≤ length rounds
      → let r = drain inode dl b rounds in (r.1 ≡ breaks) × Agrees r.0.holding r.0.admission 0
  unfolding drain is_empty Ended
  drain_ends b [] g few = if_true Ended (is_empty b.holding) (b, continues) (ground arith) (refl, g)
  drain_ends b ((t, early) ∷ rounds) g few =
      let (agrees, next) = drain_one-Agrees b t early g in
      let round = drain_one inode dl b t early in
      if_both Ended (is_empty b.holding) (refl, g)
        (resume-Ended round (drain inode dl round.0 rounds) agrees (elim next [
          | inl stop ↦ inl stop
          | inr less ↦ inr (drain_ends round.0 rounds agrees (omega (arith, less, few)))
        ]))
