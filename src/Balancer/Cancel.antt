-- ===== src/Balancer/Cancel.antt =====
-- Balancer.h: cancel, switchPolicy, setAgingEnabled's flag, and one round of agingLoop.
use fatp_balancer.Base.{
  ℕ, ◌==◌, true, false, if◌then◌else◌, List, [], ◌∷◌, Option, none, some, Expected, ok, err,
}
use fatp_balancer.Job.{Job, normal, default_job, CancelError, not_found}
use fatp_balancer.Floats.{Floats}
use fatp_balancer.Admission.{release_from_holding_queue}
use fatp_balancer.HoldingQueue.{Entry, HoldingQueue, is_holding_handle, remove}
use fatp_balancer.Aging.{AgedEvent, ExpiredEvent, tick}
use fatp_balancer.Policy.Kinds.{Policy}
use fatp_balancer.Balancer.State.{Balancer, INode, Costs, FastHashMap, Route}
use fatp_balancer.Balancer.Snapshot.{find_node, set_node}
use fatp_balancer.Balancer.Lifecycle.{holding_callback, finalize_job_lifecycle}

-- fat_p::Expected<void, CancelError>
abbrev pub Answer : Type 0
Answer = Expected (Unit {0}) CancelError

module _ {F K N R H : Type 0} ⦃fl : Floats F⦄ ⦃costs : Costs K F⦄ ⦃routing : FastHashMap Route R⦄
    ⦃handling : FastHashMap ℕ H⦄ (inode : INode N F) where
  unfoldable pub after_remove :
      Balancer F K N R H → HoldingQueue Job × Option (Entry Job) → Balancer F K N R H × Answer
  after_remove b (q, none) = (record b { holding = q }, err not_found)
  after_remove b (q, some e) =
      let b1 = record b { holding = q; admission = release_from_holding_queue b.admission } in
      (holding_callback b1 e.on_done e.job false, ok tt)

  -- After the node answered.
  unfoldable pub after_node_cancel :
      Balancer F K N R H → ℕ → Route → N × Answer → Balancer F K N R H × Answer
  after_node_cancel b handle info (n, err e) =
      (record b { nodes = set_node inode b.nodes info.node_id n }, err e)
  after_node_cancel b handle info (n, ok _) = (
    finalize_job_lifecycle (record b { nodes = set_node inode b.nodes info.node_id n })
        (record (default_job normal) { id = info.job_id }) (some handle) false,
    ok tt,
  )

  unfoldable pub cancel_on : Balancer F K N R H → ℕ → Route → Option N → Balancer F K N R H × Answer
  unfolding after_node_cancel
  cancel_on b handle info none = (b, err not_found)
  cancel_on b handle info (some n) = after_node_cancel b handle info (inode.cancel n handle)

  unfoldable pub cancel_routed : Balancer F K N R H → ℕ → Option Route → Balancer F K N R H × Answer
  unfolding cancel_on
  cancel_routed b handle none = (b, err not_found)
  cancel_routed b handle (some info) =
      cancel_on b handle info (find_node inode b.nodes info.node_id)

  unfoldable pub cancel : Balancer F K N R H → ℕ → Balancer F K N R H × Answer
  unfolding after_remove cancel_routed
  cancel b handle =
      if is_holding_handle handle
      then after_remove b (remove b.holding handle)
      else cancel_routed b handle (routing.find b.routes handle)

  -- The node's queue takes over a promotion; its answer is not read.
  unfoldable pub reprioritise_on :
      Balancer F K N R H → ℕ → Route → AgedEvent → Option N → Balancer F K N R H
  reprioritise_on b handle info e none = b
  reprioritise_on b handle info e (some n) = record b {
    nodes = set_node inode b.nodes info.node_id (inode.reprioritise n handle e.new_priority).0;
  }

  unfoldable pub reprioritise_routed :
      Balancer F K N R H → ℕ → AgedEvent → Option Route → Balancer F K N R H
  unfolding reprioritise_on
  reprioritise_routed b handle e none = b
  reprioritise_routed b handle e (some info) =
      reprioritise_on b handle info e (find_node inode b.nodes info.node_id)

  unfoldable pub forward_to : Balancer F K N R H → AgedEvent → Option ℕ → Balancer F K N R H
  unfolding reprioritise_routed
  forward_to b e none = b
  forward_to b e (some handle) = reprioritise_routed b handle e (routing.find b.routes handle)

  unfoldable pub forward_aged : Balancer F K N R H → List AgedEvent → Balancer F K N R H
  unfolding forward_to
  forward_aged b [] = b
  forward_aged b (e ∷ es) = forward_aged (forward_to b e (handling.find b.handles e.id)) es

  unfoldable pub cancel_found : Balancer F K N R H → Option ℕ → Balancer F K N R H
  unfolding cancel
  cancel_found b none = b
  cancel_found b (some handle) = (cancel b handle).0

  unfoldable pub cancel_expired : Balancer F K N R H → List ExpiredEvent → Balancer F K N R H
  unfolding cancel_found
  cancel_expired b [] = b
  cancel_expired b (e ∷ es) = cancel_expired (cancel_found b (handling.find b.handles e.id)) es

  -- The body of agingLoop after its sleep.
  unfoldable pub age : Balancer F K N R H → ℕ → Balancer F K N R H
  unfolding forward_aged cancel_expired
  age b now =
      let (aging, r) = tick b.aging now in
      cancel_expired (forward_aged (record b { aging = aging }) r.aged) r.expired

-- switchPolicy: it raises the flag, and goes on when no job is in flight; `none` is a wait.
module _ {F K N R H : Type 0} where
  unfoldable pub begin_switch : Balancer F K N R H → Balancer F K N R H
  begin_switch b = record b { draining = true }

  unfoldable pub end_switch : Balancer F K N R H → Policy F → Option (Balancer F K N R H)
  end_switch b p =
      if b.submitted_count == 0 then some (record b { policy = p; draining = false }) else none
