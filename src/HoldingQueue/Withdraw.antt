-- ===== src/HoldingQueue/Withdraw.antt =====
-- HoldingQueue.h: enqueue, then remove by the handle that enqueue returned.
use fatp_balancer.Base.{ℕ, ◌<◌, ◌^◌, ◌≡◌, some, List, [], ◌∷◌, arith, ok, inl, inr}
use fatp_balancer.Job.{Job}
use fatp_balancer.HoldingQueue.Defs.{Entry, HoldingQueue, holding_handle, enqueue, remove}
use fatp_balancer.HoldingQueue.Waiting.{waiting, insert, without, first_with}
use fatp_balancer.HoldingQueue.Invariant.{IsValid}
use fatp_balancer.HoldingQueue.Refinement.{enqueue-waiting, remove-waiting}
use fatp_balancer.HoldingQueue.Handles.{occurs, occurs-append, total, IsUnique}

module _ {ℓ} {C : Type ℓ} where
  without-insert :
      (e : Entry C) (xs : List (Entry C))
      → occurs e.hold_handle xs ≡ 0
      → (without e.hold_handle (insert e xs) ≡ xs)
        × (first_with e.hold_handle (insert e xs) ≡ some e)
  unfolding insert without first_with occurs
  without-insert e [] z = ground arith
  without-insert e (x ∷ xs) z = ground (arith, without-insert e xs)

  none_waits :
      (q : HoldingQueue C)
      → IsUnique (record { queue = q; in_hand = [] })
      → q.next_seq < 2 ^ 63
      → occurs (holding_handle q.next_seq) (waiting q) ≡ 0
  unfolding total holding_handle
  none_waits q u small = omega (
    arith,
    occurs-append (holding_handle q.next_seq) q.critical q.high,
    u.fresh (holding_handle q.next_seq) (omega arith),
  )

  -- On a valid queue with unique handles, of which fewer than 2^63 were given out, a job that was
  -- accepted can be withdrawn by the handle that was returned for it: the entry comes back with
  -- its job and callback, and the entries that wait are those of before.
  pub remove-enqueue :
      (q : HoldingQueue C) (j : Job) (d : C) {raw : ℕ}
      → IsValid q
      → IsUnique (record { queue = q; in_hand = [] })
      → q.next_seq < 2 ^ 63
      → (enqueue q j d).1 ≡ ok raw
      → let r = remove (enqueue q j d).0 raw in
        (waiting r.0 ≡ waiting q)
        × (r.1 ≡ some (record { job = j; on_done = d; hold_handle = raw }))
  remove-enqueue q j d {raw} v u small h = elim (enqueue-waiting q j d v) [
    | inl (_, refused) ↦ cc
    | inr (_, accepted, w) ↦ ground (
      arith,
      none_waits q u small,
      remove-waiting (enqueue q j d).0 raw,
      without-insert (record { job = j; on_done = d; hold_handle = raw }) (waiting q),
    )
  ]
