-- ===== src/HoldingQueue/Handles.antt =====
-- HoldingQueue.h: a handle names at most one entry, in the queue or in the hands of the caller
-- that dequeued it.
use fatp_balancer.Base.{
  ℕ, ◌+◌, ◌≤◌, ◌<◌, ◌^◌, ◌≡◌, refl, ◌⊎◌, true, Option, none, some, List, [], ◌∷◌, ◌++◌, arith, leb,
  ◌==◌, if◌then◌else◌, length, Bool-cases, inl, inr,
}
use fatp_balancer.Job.{Job, u64}
use fatp_balancer.HoldingQueue.Defs.{
  Entry, HoldingQueue, is_holding_handle, holding_handle, holding_handle_bit, new, push, enqueue,
  try_dequeue, extract_from, remove_from, remove, requeue,
}

-- Every handle that the queue gives out is recognised as one, and its low bits are the sequence
-- number.
pub holding_handle-is_holding : (seq : ℕ) → is_holding_handle (holding_handle seq) ≡ true
unfolding holding_handle is_holding_handle
holding_handle-is_holding seq = ground arith

-- The queue, and the entries that were dequeued and not yet requeued or dropped.
pub record Custody {ℓ} (C : Type ℓ) : Type ℓ where
  pub queue : HoldingQueue C
  pub in_hand : List (Entry C)

-- What a client does with the queue: the entry that it gives back or drops is the last it took.
pub data Turn {ℓ} (C : Type ℓ) : Type ℓ where
  submits : Job → C → Turn C
  takes : Turn C
  gives_back : Turn C
  drops : Turn C
  cancels : ℕ → Turn C

module _ {ℓ} {C : Type ℓ} where
  -- How many entries of a list have the handle.
  unfoldable pub occurs : ℕ → List (Entry C) → ℕ
  occurs h [] = 0
  occurs h (x ∷ xs) = (if x.hold_handle == h then 1 else 0) + occurs h xs

  pub occurs-append :
      (h : ℕ) (xs ys : List (Entry C)) → occurs h (xs ++ ys) ≡ occurs h xs + occurs h ys
  unfolding occurs
  occurs-append h [] ys = omega arith
  occurs-append h (x ∷ xs) ys = omega (arith, occurs-append h xs ys)

  occurs-extract_from :
      (h raw : ℕ) (xs : List (Entry C)) → occurs h (extract_from xs raw).0 ≤ occurs h xs
  unfolding occurs extract_from
  occurs-extract_from h raw [] = omega arith
  occurs-extract_from h raw (x ∷ xs) = ground (arith, occurs-extract_from h raw xs)

  took : List (Entry C) → HoldingQueue C × Option (Entry C) → Custody C
  took hand (q, none) = record { queue = q; in_hand = hand }
  took hand (q, some e) = record { queue = q; in_hand = e ∷ hand }

  give_back : HoldingQueue C → List (Entry C) → Custody C
  give_back q [] = record { queue = q; in_hand = [] }
  give_back q (e ∷ hand) = record { queue = (requeue q e).0; in_hand = hand }

  drop_last : List (Entry C) → List (Entry C)
  drop_last [] = []
  drop_last (e ∷ hand) = hand

  pub turn : Custody C → Turn C → Custody C
  turn c (submits j on_done) = record c { queue = (enqueue c.queue j on_done).0 }
  turn c takes = took c.in_hand (try_dequeue c.queue)
  turn c gives_back = give_back c.queue c.in_hand
  turn c drops = record c { in_hand = drop_last c.in_hand }
  turn c (cancels raw) = record c { queue = (remove c.queue raw).0 }

  pub turns : Custody C → List (Turn C) → Custody C
  turns c [] = c
  turns c (t ∷ ts) = turns (turn c t) ts

  -- The entries with the handle, wherever they are.
  unfoldable pub total : ℕ → Custody C → ℕ
  total h c = occurs h c.queue.critical + occurs h c.queue.high + occurs h c.in_hand

  pub record IsUnique (c : Custody C) : Type ℓ where
    pub once : (h : ℕ) → total h c ≤ 1
    pub fresh : (h : ℕ) → holding_handle_bit + c.queue.next_seq ≤ h → total h c ≡ 0

  occurs-push :
      (h : ℕ) (q : HoldingQueue C) (e : Entry C)
      → occurs h (push q e).critical + occurs h (push q e).high
        ≡ occurs h q.critical + occurs h q.high + (if e.hold_handle == h then 1 else 0)
  unfolding push occurs
  occurs-push h q e =
      ground (arith, occurs-append h q.critical (e ∷ []), occurs-append h q.high (e ∷ []))

  -- A turn makes no entry, or one, with the next handle.
  Grows : ℕ → Custody C → Custody C → Type 0
  Grows h c d =
      ((d.queue.next_seq ≡ c.queue.next_seq) × (total h d ≤ total h c))
      ⊎ ((d.queue.next_seq ≡ u64 (c.queue.next_seq + 1))
          × (total h d ≤ total h c + (if holding_handle c.queue.next_seq == h then 1 else 0)))

  enqueue-Grows : (h : ℕ) (c : Custody C) (j : Job) (d : C) → Grows h c (turn c (submits j d))
  unfolding total turn enqueue Grows push
  enqueue-Grows h c j d = elim (Bool-cases (leb c.queue.capacity c.queue.size)) [
    | inl full ↦ rw full (inl (refl, omega arith))
    | inr room ↦ rw room (
        inr (
          ground arith,
          omega (
            arith,
            occurs-push h (record c.queue { next_seq = u64 (c.queue.next_seq + 1) })
                (record { job = j; on_done = d; hold_handle = holding_handle c.queue.next_seq }),
          ),
        ))
  ]

  total-takes : (h : ℕ) (c : Custody C) → total h (turn c takes) ≤ total h c
  unfolding total turn try_dequeue took occurs
  total-takes h c = ground arith

  total-gives_back :
      (h : ℕ) (q : HoldingQueue C) (hand : List (Entry C))
      → total h (give_back q hand) ≤ occurs h q.critical + occurs h q.high + occurs h hand
  unfolding total give_back requeue occurs
  total-gives_back h q [] = omega arith
  total-gives_back h q (e ∷ hand) = elim (Bool-cases (leb q.capacity q.size)) [
    | inl full ↦ rw full (omega arith)
    | inr room ↦ rw room (omega (arith, occurs-push h q e))
  ]

  occurs-drop_last : (h : ℕ) (hand : List (Entry C)) → occurs h (drop_last hand) ≤ occurs h hand
  unfolding occurs drop_last
  occurs-drop_last h [] = omega arith
  occurs-drop_last h (e ∷ hand) = omega arith

  total-cancels : (h raw : ℕ) (c : Custody C) → total h (turn c (cancels raw)) ≤ total h c
  unfolding total turn remove remove_from
  total-cancels h raw c =
      ground
        (arith, occurs-extract_from h raw c.queue.critical, occurs-extract_from h raw c.queue.high)

  next_seq-takes : (c : Custody C) → (turn c takes).queue.next_seq ≡ c.queue.next_seq
  unfolding turn try_dequeue took
  next_seq-takes c = ground arith

  next_seq-give_back :
      (q : HoldingQueue C) (hand : List (Entry C)) → (give_back q hand).queue.next_seq ≡ q.next_seq
  unfolding give_back requeue
  next_seq-give_back q [] = refl
  next_seq-give_back q (e ∷ hand) = ground arith

  next_seq-cancels :
      (raw : ℕ) (c : Custody C) → (turn c (cancels raw)).queue.next_seq ≡ c.queue.next_seq
  unfolding turn remove remove_from
  next_seq-cancels raw c = ground arith

  turn-Grows : (h : ℕ) (c : Custody C) (t : Turn C) → Grows h c (turn c t)
  unfolding Grows
  turn-Grows h c (submits j d) = enqueue-Grows h c j d
  turn-Grows h c takes = inl (next_seq-takes c, total-takes h c)
  turn-Grows h c gives_back = inl (
    unfold turn in next_seq-give_back c.queue c.in_hand,
    unfold turn total in total-gives_back h c.queue c.in_hand,
  )
  turn-Grows h c drops =
      inl (unfold turn in refl, unfold total turn in omega (arith, occurs-drop_last h c.in_hand))
  turn-Grows h c (cancels raw) = inl (next_seq-cancels raw c, total-cancels h raw c)

  turn-IsUnique :
      (c : Custody C) (t : Turn C) → c.queue.next_seq < 2 ^ 63 → IsUnique c → IsUnique (turn c t)
  unfolding Grows holding_handle
  turn-IsUnique c t small u = record {
    once = λ h. ground (arith, turn-Grows h c t, u.once h, u.fresh h);
    fresh = λ h above. ground (arith, turn-Grows h c t, u.once h, u.fresh h);
  }

  next_seq-turn :
      (c : Custody C) (t : Turn C)
      → c.queue.next_seq < 2 ^ 63
      → (turn c t).queue.next_seq ≤ c.queue.next_seq + 1
  unfolding Grows
  next_seq-turn c t small = ground (arith, turn-Grows 0 c t)

  turns-IsUnique :
      (c : Custody C) (ts : List (Turn C))
      → c.queue.next_seq + length ts ≤ 2 ^ 63
      → IsUnique c
      → IsUnique (turns c ts)
  unfolding turns
  turns-IsUnique c [] few u = u
  turns-IsUnique c (t ∷ ts) few u =
      turns-IsUnique (turn c t) ts (omega (arith, next_seq-turn c t (omega arith)))
        (turn-IsUnique c t (omega arith) u)

  abbrev pub start : ℕ → Custody C
  start capacity = record { queue = new capacity; in_hand = [] }

  pub start-IsUnique : (capacity : ℕ) → IsUnique (start capacity)
  unfolding new total occurs
  start-IsUnique capacity = record { once = λ h. omega arith; fresh = λ h above. refl }

  -- After fewer than 2^63 turns on a new queue, whichever they are, a handle names at most one
  -- entry among those that wait and those in the caller's hands.
  pub total-turns :
      (capacity : ℕ) (ts : List (Turn C)) (h : ℕ)
      → length ts < 2 ^ 63
      → total h (turns (start capacity) ts) ≤ 1
  unfolding new
  total-turns capacity ts h few =
      (turns-IsUnique (start capacity) ts (omega arith) (start-IsUnique capacity)).once h
