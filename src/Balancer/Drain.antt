-- ===== src/Balancer/Drain.antt =====
-- Balancer.h: holdingDrainLoop, from one wake to the next.
use fatp_balancer.Base.{
  ℕ, ◌+◌, Bool, false, ◌&&◌, ltb, leb, if◌then◌else◌, List, [], ◌∷◌, Option, none, some, ok, err,
}
use fatp_balancer.Job.{Job, is_expired, u32}
use fatp_balancer.Floats.{Floats}
use fatp_balancer.Admission.{release_from_holding_queue}
use fatp_balancer.HoldingQueue.{Entry, HoldingQueue, try_dequeue, requeue, is_empty}
use fatp_balancer.Policy.View.{Selection}
use fatp_balancer.Balancer.State.{Balancer, INode, Costs, FastHashMap, Route, Times}
use fatp_balancer.Balancer.Snapshot.{
  snapshot_metrics, are_all_eligible_overloaded, find_node, set_node,
}
use fatp_balancer.Balancer.Lifecycle.{
  Registration, unpublished, deliver, register_dispatched_job, holding_callback,
}
use fatp_balancer.Balancer.Submit.{Reply, select}

-- What the inner loop does next.
pub data Next : Type 0 where
  continues : Next
  breaks : Next

-- `entry.job.holdRetries++`
abbrev pub retried : Entry Job → Entry Job
retried e = record e { job = record e.job { hold_retries = u32 (e.job.hold_retries + 1) } }

module _ {F D K N R H : Type 0} ⦃fl : Floats F⦄ ⦃costs : Costs K F⦄ ⦃routing : FastHashMap Route R⦄
    ⦃handling : FastHashMap ℕ H⦄ (inode : INode N F) (dl : Floats D) where
  unfoldable pub put_back : Balancer F K N R H → Entry Job → Balancer F K N R H × Next
  put_back b e = (record b { holding = (requeue b.holding e).0 }, breaks)

  -- `releaseFromHoldingQueue(); entry.onDone(entry.job, false); continue;`
  unfoldable pub drop : Balancer F K N R H → Entry Job → Balancer F K N R H × Next
  drop b e = (
    holding_callback (record b { admission = release_from_holding_queue b.admission }) e.on_done
        e.job false,
    continues,
  )

  -- The slot is released and the job registered.
  unfoldable pub launched :
      Job → ℕ → ℕ → Times → Balancer F K N R H × Registration → Balancer F K N R H × Next
  launched sent id handle t (b, reg) =
      let released = record b { admission = release_from_holding_queue b.admission } in
      ((register_dispatched_job released sent id handle t.at_track reg).0, continues)

  unfoldable pub after_drain_node :
      Balancer F K N R H
      → Entry Job
      → Job
      → ℕ
      → Times
      → Option (Job × Bool)
      → N × Reply
      → Balancer F K N R H × Next
  unfolding put_back launched
  after_drain_node b e sent id t early (n, err _) =
      put_back (record b { nodes = set_node inode b.nodes id n })
        (retried (record e { job = sent }))
  after_drain_node b e sent id t early (n, ok handle) =
      launched sent id handle t
        (deliver (record b { nodes = set_node inode b.nodes id n }) unpublished sent early)

  unfoldable pub drain_to :
      Balancer F K N R H
      → Entry Job
      → ℕ
      → Times
      → Option (Job × Bool)
      → Option N
      → Balancer F K N R H × Next
  unfolding put_back after_drain_node
  drain_to b e id t early none = put_back b (retried e)
  drain_to b e id t early (some n) =
      let sent = record e.job { submitted = t.at_submit } in
      after_drain_node b e sent id t early (inode.submit n sent)

  unfoldable pub after_drain_selection :
      Balancer F K N R H
      → Entry Job
      → Times
      → Option (Job × Bool)
      → Selection
      → Balancer F K N R H × Next
  unfolding put_back drain_to
  after_drain_selection b e t early (err _) = put_back b (retried e)
  after_drain_selection b e t early (ok id) = drain_to b e id t early (find_node inode b.nodes id)

  unfoldable pub drain_entry :
      Balancer F K N R H → Entry Job → Times → Option (Job × Bool) → Balancer F K N R H × Next
  unfolding put_back drop after_drain_selection
  drain_entry b e t early =
      let ms = snapshot_metrics inode b.nodes in
      let (b1, selection) = select inode dl b e.job ms t in
      if is_expired e.job.deadline t.at_deadline
      then drop b e
      else if ltb 0 b.max_retries && leb b.max_retries e.job.hold_retries
      then drop b e
      else if are_all_eligible_overloaded ms e.job.priority
      then put_back b e
      else after_drain_selection b1 e t early selection

  unfoldable pub after_dequeue :
      Balancer F K N R H
      → Times
      → Option (Job × Bool)
      → HoldingQueue Job × Option (Entry Job)
      → Balancer F K N R H × Next
  unfolding drain_entry
  after_dequeue b t early (q, none) = (record b { holding = q }, breaks)
  after_dequeue b t early (q, some e) = drain_entry (record b { holding = q }) e t early

  -- The body of the inner loop.
  unfoldable pub drain_one :
      Balancer F K N R H → Times → Option (Job × Bool) → Balancer F K N R H × Next
  unfolding after_dequeue
  drain_one b t early = after_dequeue b t early (try_dequeue b.holding)

  -- What follows a round: the rest of the loop, or its end.
  unfoldable pub resume :
      Balancer F K N R H × Next → Balancer F K N R H × Next → Balancer F K N R H × Next
  resume (b, continues) rest = rest
  resume (b, breaks) rest = (b, breaks)

  -- The inner loop, each round with its clock readings and early completion; `breaks` is an end of
  -- the loop, `continues` a loop that goes on.
  unfoldable pub drain :
      Balancer F K N R H → List (Times × Option (Job × Bool)) → Balancer F K N R H × Next
  unfolding resume
  drain b [] = if is_empty b.holding then (b, breaks) else (b, continues)
  drain b ((t, early) ∷ rounds) =
      let round = drain_one b t early in
      if is_empty b.holding then (b, breaks) else resume round (drain round.0 rounds)
