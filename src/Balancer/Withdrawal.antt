-- ===== src/Balancer/Withdrawal.antt =====
-- Balancer.h: a held job is withdrawn by the handle that submit returned for it.
use fatp_balancer.Base.{
  ℕ, ◌<◌, ◌^◌, ◌≡◌, refl, ap, ◌∙◌, inl, inr, true, false, [], Option, none, some, ok, err, arith,
  if_true,
}
use fatp_balancer.Job.{Job, dec_u32}
use fatp_balancer.Floats.{Floats}
use fatp_balancer.Admission.{release_from_holding_queue}
use fatp_balancer.HoldingQueue.{Entry, HoldingQueue, enqueue, remove, is_holding_handle}
use fatp_balancer.HoldingQueue.Waiting.{waiting}
use fatp_balancer.HoldingQueue.Invariant.{IsValid}
use fatp_balancer.HoldingQueue.Refinement.{enqueue-waiting}
use fatp_balancer.HoldingQueue.Handles.{IsUnique, holding_handle-is_holding}
use fatp_balancer.HoldingQueue.Withdraw.{remove-enqueue}
use fatp_balancer.Balancer.State.{Balancer, INode, Costs, FastHashMap, Route, Times}
use fatp_balancer.Balancer.Lifecycle.{holding_callback, finalize_job_lifecycle_frame, observed}
use fatp_balancer.Balancer.Submit.{Reply, stamped, next_id, after_enqueue, hold}
use fatp_balancer.Balancer.Cancel.{Answer, after_remove, cancel_routed, cancel}

-- The queue gives out only handles that cancel takes for its own.
enqueue-is_holding :
    (q : HoldingQueue Job) (j : Job) (handle : ℕ)
    → IsValid q
    → (enqueue q j j).1 ≡ ok handle
    → is_holding_handle handle ≡ true
enqueue-is_holding q j handle v h = elim (enqueue-waiting q j j v) [
  | inl (_, refused) ↦ cc
  | inr (_, accepted, _) ↦ ground (arith, holding_handle-is_holding q.next_seq)
]

module _ {F K N R H : Type 0} ⦃fl : Floats F⦄ ⦃costs : Costs K F⦄ ⦃routing : FastHashMap Route R⦄
    ⦃handling : FastHashMap ℕ H⦄ (inode : INode N F) where
  -- `r` is what is left of `b` after a cancelled hold.
  Undone : Balancer F K N R H → Balancer F K N R H × Answer → Type 0
  Undone b r =
      (r.1 ≡ ok tt)
      × (waiting r.0.holding ≡ waiting b.holding)
      × (r.0.submitted_count ≡ dec_u32 b.submitted_count)

  after_remove-Undone :
      (b c : Balancer F K N R H) (q : HoldingQueue Job) (o : Option (Entry Job)) (e : Entry Job)
      → o ≡ some e
      → waiting q ≡ waiting b.holding
      → c.submitted_count ≡ b.submitted_count
      → Undone b (after_remove inode c (q, o))
  unfolding after_remove Undone holding_callback
  after_remove-Undone b c q none e h w same = cc
  after_remove-Undone b c q (some x) e h w same =
      let (count, holding, _, _, _, _) =
        finalize_job_lifecycle_frame
          (record c { holding = q; admission = release_from_holding_queue c.admission })
          (observed x.on_done x.job) none false in
      (refl, rw holding w, rw count (ap dec_u32 same))

  enqueue_ok-Undone :
      (b : Balancer F K N R H) (j : Job) (r : HoldingQueue Job × Reply) (handle : ℕ)
      → enqueue b.holding j j ≡ r
      → IsValid b.holding
      → IsUnique (record { queue = b.holding; in_hand = [] })
      → b.holding.next_seq < 2 ^ 63
      → (after_enqueue b r).1 ≡ ok handle
      → Undone b (cancel inode (after_enqueue b r).0 handle)
  unfolding after_enqueue cancel
  enqueue_ok-Undone b j (q, err e) handle s v u small h = cc
  enqueue_ok-Undone b j (q, ok raw) handle s v u small h =
      let counted : Balancer F K N R H = (after_enqueue b (q, ok raw)).0 in
      let accepted : (enqueue b.holding j j).1 ≡ ok handle =
        ap (λ (r : HoldingQueue Job × Reply). r.1) s ∙ h in
      let (w, found) = remove-enqueue b.holding j j v u small accepted in
      let same : (enqueue b.holding j j).0 ≡ q = ap (λ (r : HoldingQueue Job × Reply). r.0) s in
      if_true (Undone b) (is_holding_handle handle)
        (cancel_routed inode counted handle (routing.find counted.routes handle))
        (enqueue-is_holding b.holding j handle v accepted)
        (after_remove-Undone b counted (remove q handle).0 (remove q handle).1
          (record { job = j; on_done = j; hold_handle = handle }) (rw same at found) (rw same at w)
          refl)

  -- Where the queue is valid, its handles are unique and fewer than 2^63 were given out, a job
  -- that is held can be cancelled by the handle that was returned: the cancellation succeeds, the
  -- waiting jobs are those of before, and one is taken from the count of jobs in flight.
  pub cancel-hold :
      (b : Balancer F K N R H) (job : Job) (t : Times) {handle : ℕ}
      → IsValid b.holding
      → IsUnique (record { queue = b.holding; in_hand = [] })
      → b.holding.next_seq < 2 ^ 63
      → (hold b job t).1 ≡ ok handle
      → let r = cancel inode (hold b job t).0 handle in
        (r.1 ≡ ok tt)
        × (waiting r.0.holding ≡ waiting b.holding)
        × (r.0.submitted_count ≡ dec_u32 b.submitted_count)
  unfolding hold next_id Undone
  cancel-hold b job t {handle} v u small h =
      let held = stamped b job t.at_submit in
      enqueue_ok-Undone (next_id b) held (enqueue b.holding held held) handle refl v u small h
