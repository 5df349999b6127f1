-- ===== src/HoldingQueue/Invariant.antt =====
-- HoldingQueue.h: what the methods rely on and keep, over any sequence of calls.
use fatp_balancer.Base.{
  ℕ, ◌+◌, ◌≤◌, ◌<◌, ◌^◌, ◌≡◌, refl, true, false, Option, none, some, List, [], ◌∷◌, arith, leb,
  ◌==◌, if◌then◌else◌, length, length-append, All, All-append, Bool-cases, inl, inr, is_some,
}
use fatp_balancer.Job.{Job}
use fatp_balancer.HoldingQueue.Defs.{
  Entry, HoldingQueue, new, push, enqueue, try_dequeue, extract_from, remove_from, remove, cancel,
  requeue,
}
use fatp_balancer.HoldingQueue.Waiting.{is_first}

pub data Call {ℓ} (C : Type ℓ) : Type ℓ where
  enqueues : Job → C → Call C
  dequeues : Call C
  removes : ℕ → Call C
  cancels : ℕ → Call C
  requeues : Entry C → Call C

module _ {ℓ} {C : Type ℓ} where
  -- The size is that of the deques and within the capacity, and each deque holds its band.
  pub record IsValid (q : HoldingQueue C) : Type ℓ where
    pub counted : q.size ≡ length q.critical + length q.high
    pub bounded : q.size ≤ q.capacity
    pub small : q.capacity < 2 ^ 32
    pub firsts : All (λ e. is_first e ≡ true) q.critical
    pub seconds : All (λ e. is_first e ≡ false) q.high

  unfoldable pub step : HoldingQueue C → Call C → HoldingQueue C
  step q (enqueues job on_done) = (enqueue q job on_done).0
  step q dequeues = (try_dequeue q).0
  step q (removes raw) = (remove q raw).0
  step q (cancels raw) = (cancel q raw).0
  step q (requeues e) = (requeue q e).0

  unfoldable pub run : HoldingQueue C → List (Call C) → HoldingQueue C
  run q [] = q
  run q (c ∷ cs) = run (step q c) cs

  length-extract_from :
      (xs : List (Entry C)) (raw : ℕ)
      → length xs
        ≡ length (extract_from xs raw).0 + (if is_some (extract_from xs raw).1 then 1 else 0)
  unfolding extract_from
  length-extract_from [] raw = refl
  length-extract_from (x ∷ xs) raw = ground (arith, length-extract_from xs raw)

  All-extract_from {κ} :
      (P : Entry C → Type κ) (xs : List (Entry C)) (raw : ℕ)
      → All P xs
      → All P (extract_from xs raw).0
  unfolding extract_from
  All-extract_from P [] raw h = tt
  All-extract_from P (x ∷ xs) raw h = elim (Bool-cases (x.hold_handle == raw)) [
    | inl e ↦ rw e h.1
    | inr e ↦ rw e (h.0, All-extract_from P xs raw h.1)
  ]

  push-IsValid :
      (q : HoldingQueue C) (e : Entry C) → IsValid q → q.size < q.capacity → IsValid (push q e)
  unfolding push
  push-IsValid q e v room = elim (Bool-cases (is_first e)) [
    | inl f ↦ rw f (record {
      counted = omega (arith, v.counted, length-append q.critical (e ∷ []));
      bounded = omega (arith, v.small);
      small = v.small;
      firsts = All-append _ q.critical (e ∷ []) v.firsts (f, tt);
      seconds = v.seconds;
    })
    | inr f ↦ rw f (record {
      counted = omega (arith, v.counted, length-append q.high (e ∷ []));
      bounded = omega (arith, v.small);
      small = v.small;
      firsts = v.firsts;
      seconds = All-append _ q.high (e ∷ []) v.seconds (f, tt);
    })
  ]

  -- The invariant does not mention the counter of handles.
  pub next_seq-IsValid :
      (q : HoldingQueue C) {n : ℕ} → IsValid q → IsValid (record q { next_seq = n })
  next_seq-IsValid q v = record {
    counted = v.counted;
    bounded = v.bounded;
    small = v.small;
    firsts = v.firsts;
    seconds = v.seconds;
  }

  pub enqueue-IsValid :
      (q : HoldingQueue C) (j : Job) (c : C) → IsValid q → IsValid (enqueue q j c).0
  unfolding enqueue
  enqueue-IsValid q j c v = elim (Bool-cases (leb q.capacity q.size)) [
    | inl full ↦ rw full v
    | inr room ↦ rw room (push-IsValid _ _ (next_seq-IsValid q v) (ground arith))
  ]

  pub try_dequeue-IsValid : (q : HoldingQueue C) → IsValid q → IsValid (try_dequeue q).0
  unfolding try_dequeue
  try_dequeue-IsValid q v = ground arith

  -- What leaves makes room for one entry.
  pub size-try_dequeue :
      (q : HoldingQueue C) (e : Entry C)
      → IsValid q
      → (try_dequeue q).1 ≡ some e
      → ((try_dequeue q).0.size + 1 ≡ q.size) × ((try_dequeue q).0.capacity ≡ q.capacity)
  unfolding try_dequeue
  size-try_dequeue q e v h = ground arith

  remove_from-IsValid :
      (q : HoldingQueue C) (cs : List (Entry C)) (a : Option (Entry C)) (hs : List (Entry C))
      (b : Option (Entry C))
      → IsValid q
      → length q.critical ≡ length cs + (if is_some a then 1 else 0)
      → length q.high ≡ length hs + (if is_some b then 1 else 0)
      → All (λ e. is_first e ≡ true) cs
      → All (λ e. is_first e ≡ false) hs
      → IsValid (remove_from q cs a hs b).0
  unfolding remove_from
  remove_from-IsValid q cs (some e) hs b v m n f s = ground arith
  remove_from-IsValid q cs none hs (some e) v m n f s = ground arith
  remove_from-IsValid q cs none hs none v m n f s = v

  pub remove-IsValid : (q : HoldingQueue C) (raw : ℕ) → IsValid q → IsValid (remove q raw).0
  unfolding remove
  remove-IsValid q raw v =
      remove_from-IsValid q _ _ _ _ v (length-extract_from q.critical raw)
        (length-extract_from q.high raw) (All-extract_from _ q.critical raw v.firsts)
        (All-extract_from _ q.high raw v.seconds)

  -- Also for an entry that is removed.
  size-remove_from :
      (q : HoldingQueue C) (cs : List (Entry C)) (a : Option (Entry C)) (hs : List (Entry C))
      (b : Option (Entry C))
      → IsValid q
      → length q.critical ≡ length cs + (if is_some a then 1 else 0)
      → length q.high ≡ length hs + (if is_some b then 1 else 0)
      → let r = remove_from q cs a hs b in
        (r.0.size + (if is_some r.1 then 1 else 0) ≡ q.size) × (r.0.capacity ≡ q.capacity)
  unfolding remove_from
  size-remove_from q cs (some x) hs b v m n = ground arith
  size-remove_from q cs none hs (some x) v m n = ground arith
  size-remove_from q cs none hs none v m n = ground arith

  pub size-remove :
      (q : HoldingQueue C) (raw : ℕ)
      → IsValid q
      → let r = remove q raw in
        (r.0.size + (if is_some r.1 then 1 else 0) ≡ q.size) × (r.0.capacity ≡ q.capacity)
  unfolding remove
  size-remove q raw v =
      size-remove_from q _ _ _ _ v (length-extract_from q.critical raw)
        (length-extract_from q.high raw)

  pub requeue-IsValid : (q : HoldingQueue C) (e : Entry C) → IsValid q → IsValid (requeue q e).0
  unfolding requeue
  requeue-IsValid q e v = elim (Bool-cases (leb q.capacity q.size)) [
    | inl full ↦ rw full v
    | inr room ↦ rw room (push-IsValid q e v (ground arith))
  ]

  -- Every method keeps the invariant.
  pub step-IsValid : (q : HoldingQueue C) (c : Call C) → IsValid q → IsValid (step q c)
  unfolding step cancel
  step-IsValid q (enqueues job on_done) v = enqueue-IsValid q job on_done v
  step-IsValid q dequeues v = try_dequeue-IsValid q v
  step-IsValid q (removes raw) v = remove-IsValid q raw v
  step-IsValid q (cancels raw) v = remove-IsValid q raw v
  step-IsValid q (requeues e) v = requeue-IsValid q e v

  pub new-IsValid : (capacity : ℕ) → capacity < 2 ^ 32 → IsValid (new capacity)
  unfolding new
  new-IsValid capacity h = record {
    counted = refl;
    bounded = omega arith;
    small = h;
    firsts = tt;
    seconds = tt;
  }

  pub run-IsValid : (q : HoldingQueue C) (cs : List (Call C)) → IsValid q → IsValid (run q cs)
  unfolding run
  run-IsValid q [] v = v
  run-IsValid q (c ∷ cs) v = run-IsValid (step q c) cs (step-IsValid q c v)

  -- Whatever calls are made on a new queue of a 32-bit capacity, its size is the number of entries
  -- in its two deques, which is never above the capacity, the one deque holds Critical jobs only
  -- and the other none.
  pub run-new-IsValid :
      (capacity : ℕ) (cs : List (Call C)) → capacity < 2 ^ 32 → IsValid (run (new capacity) cs)
  run-new-IsValid capacity cs h = run-IsValid (new capacity) cs (new-IsValid capacity h)
