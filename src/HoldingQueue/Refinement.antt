-- ===== src/HoldingQueue/Refinement.antt =====
-- The methods of HoldingQueue.h against a bounded list kept in the order of service.
use fatp_balancer.Base.{
  ℕ, ◌<◌, ◌≡◌, refl, sym, ◌∙◌, ◌⊎◌, false, Option, none, some, List, [], ◌∷◌, arith, leb, leb→le,
  length, length-append, ok, err, Bool-cases, inl, inr,
}
use fatp_balancer.Job.{Job, holding_queue_full}
use fatp_balancer.HoldingQueue.Defs.{
  Entry, HoldingQueue, holding_handle, push, enqueue, try_dequeue, remove_from, remove, requeue,
}
use fatp_balancer.HoldingQueue.Waiting.{
  is_first, waiting, insert, without, first_with, insert-critical, insert-high, extract_from_lem,
  first_with-append, first_with-append-none, without-none,
}
use fatp_balancer.HoldingQueue.Invariant.{
  IsValid, next_seq-IsValid, try_dequeue-IsValid, size-try_dequeue,
}
use mathlib.Core.List.{append_assoc}

module _ {ℓ} {C : Type ℓ} where
  waiting-push :
      (q : HoldingQueue C) (e : Entry C) → IsValid q → waiting (push q e) ≡ insert e (waiting q)
  unfolding push
  waiting-push q e v = elim (Bool-cases (is_first e)) [
    | inl f ↦ rw f (insert-critical e q.critical q.high f v.firsts v.seconds)
    | inr f ↦ rw f (sym (append_assoc q.critical q.high (e ∷ [])) ∙ insert-high e (waiting q) f)
  ]

  -- On a valid queue, enqueue refuses with HoldingQueueFull, and changes nothing, when as many
  -- entries wait as the capacity; else it returns the handle of the next sequence number, and the
  -- entry waits behind those of its band and, if it is not Critical, behind all.
  pub enqueue-waiting :
      (q : HoldingQueue C) (j : Job) (c : C)
      → IsValid q
      → ((length (waiting q) ≡ q.capacity) × (enqueue q j c ≡ (q, err holding_queue_full)))
        ⊎ ((length (waiting q) < q.capacity)
            × ((enqueue q j c).1 ≡ ok (holding_handle q.next_seq))
            × (waiting (enqueue q j c).0
                ≡ insert
                    (record { job = j; on_done = c; hold_handle = holding_handle q.next_seq })
                    (waiting q)))
  unfolding enqueue
  enqueue-waiting q j c v = elim (Bool-cases (leb q.capacity q.size)) [
    | inl full ↦ inl (
      omega (arith, leb→le _ _ full, v.counted, v.bounded, length-append q.critical q.high),
      rw full,
    )
    | inr room ↦ inr (below room, rw room, rw room (waiting-push _ _ (next_seq-IsValid q v)))
  ]
    where
      below : leb q.capacity q.size ≡ false → length (waiting q) < q.capacity
      below h = ground (arith, length-append q.critical q.high)

  try_dequeue_cases :
      (q : HoldingQueue C) (xs ys : List (Entry C))
      → q.critical ≡ xs
      → q.high ≡ ys
      → ((waiting q ≡ []) × (try_dequeue q ≡ (q, none)))
        ⊎ ((e : Entry C) × (waiting q ≡ e ∷ waiting (try_dequeue q).0)
            × ((try_dequeue q).1 ≡ some e))
  unfolding try_dequeue
  try_dequeue_cases q [] [] h k = inl (ground arith, ground arith)
  try_dequeue_cases q [] (y ∷ ys) h k = inr (y, ground arith, ground arith)
  try_dequeue_cases q (x ∷ xs) ys h k = inr (x, ground arith, ground arith)

  -- Dequeue hands out the first waiting entry, and changes nothing if none waits.
  pub try_dequeue-waiting :
      (q : HoldingQueue C)
      → ((waiting q ≡ []) × (try_dequeue q ≡ (q, none)))
        ⊎ ((e : Entry C) × (waiting q ≡ e ∷ waiting (try_dequeue q).0)
            × ((try_dequeue q).1 ≡ some e))
  try_dequeue-waiting q = try_dequeue_cases q q.critical q.high refl refl

  remove_from-waiting :
      (q : HoldingQueue C) (raw : ℕ) (a b : Option (Entry C))
      → first_with raw q.critical ≡ a
      → first_with raw q.high ≡ b
      → let r = remove_from q (without raw q.critical) a (without raw q.high) b in
        (waiting r.0 ≡ without raw (waiting q)) × (r.1 ≡ first_with raw (waiting q))
  unfolding remove_from
  remove_from-waiting q raw (some e) b h k =
      ground (arith, first_with-append raw q.critical q.high e)
  remove_from-waiting q raw none (some e) h k =
      ground (arith, first_with-append-none raw q.critical q.high)
  remove_from-waiting q raw none none h k =
      ground (arith, first_with-append-none raw q.critical q.high, without-none raw q.high)

  -- Remove takes out the first waiting entry with the handle and returns it; without one it returns
  -- none and the waiting entries stay.
  pub remove-waiting :
      (q : HoldingQueue C) (raw : ℕ)
      → (waiting (remove q raw).0 ≡ without raw (waiting q))
        × ((remove q raw).1 ≡ first_with raw (waiting q))
  unfolding remove
  remove-waiting q raw =
      rw (extract_from_lem q.critical raw, extract_from_lem q.high raw)
        (remove_from-waiting q raw _ _ refl refl)

  -- On a valid queue, an entry that was just taken out always goes back in, under its handle and
  -- behind every waiting entry of its band.
  pub requeue-try_dequeue :
      (q : HoldingQueue C) (e : Entry C)
      → IsValid q
      → (try_dequeue q).1 ≡ some e
      → let r = requeue (try_dequeue q).0 e in
        (r.1 ≡ ok e.hold_handle) × (waiting r.0 ≡ insert e (waiting (try_dequeue q).0))
  unfolding requeue
  requeue-try_dequeue q e v h =
      let room : leb (try_dequeue q).0.capacity (try_dequeue q).0.size ≡ false =
        ground (arith, size-try_dequeue q e v h) in
      rw room (refl, waiting-push _ e (try_dequeue-IsValid q v))

  -- On a valid queue, an entry that is taken out and given back has lost its turn: if another one
  -- of its band came next, that one is handed out before it.
  pub requeue_overtaken :
      (q : HoldingQueue C) (e f : Entry C) (rest : List (Entry C))
      → IsValid q
      → waiting q ≡ e ∷ f ∷ rest
      → is_first f ≡ is_first e
      → ((try_dequeue q).1 ≡ some e) × ((try_dequeue (requeue (try_dequeue q).0 e).0).1 ≡ some f)
  unfolding insert
  requeue_overtaken q e f rest v w same = ground (
    arith,
    try_dequeue-waiting q,
    requeue-try_dequeue q e v,
    try_dequeue-waiting (requeue (try_dequeue q).0 e).0,
  )
