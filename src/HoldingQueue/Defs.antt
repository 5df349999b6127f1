-- ===== src/HoldingQueue/Defs.antt =====
-- HoldingQueue.h: handles, entries and the methods of the class, deque by deque.
use fatp_balancer.Base.{
  ℕ, ◌+◌, ◌/◌, ◌%◌, ◌^◌, Bool, Option, none, some, List, [], ◌∷◌, ◌++◌, leb, ◌==◌, if◌then◌else◌,
  Expected, ok, err, is_some,
}
use fatp_balancer.Job.{Job, SubmitError, holding_queue_full, is_critical, u32, u64, dec_u32}

abbrev pub holding_handle_bit : ℕ
holding_handle_bit = 2 ^ 63

-- `(raw & kHoldingHandleBit) != 0`: bit 63 of a 64-bit word.
unfoldable pub is_holding_handle : ℕ → Bool
is_holding_handle raw = (raw / 2 ^ 63) % 2 == 1

-- `kHoldingHandleBit | seq` of a 64-bit word: bit 63 set, the lower 63 bits kept.
unfoldable pub holding_handle : ℕ → ℕ
holding_handle seq = holding_handle_bit + seq % 2 ^ 63

pub record Entry {ℓ} (C : Type ℓ) : Type ℓ where
  pub job : Job
  pub on_done : C
  pub hold_handle : ℕ

pub record HoldingQueue {ℓ} (C : Type ℓ) : Type ℓ where
  pub capacity : ℕ
  pub size : ℕ
  pub critical : List (Entry C)
  pub high : List (Entry C)
  pub next_seq : ℕ

unfoldable pub new {ℓ} : {C : Type ℓ} → ℕ → HoldingQueue C
new capacity = record { capacity = capacity; size = 0; critical = []; high = []; next_seq = 1 }

module _ {ℓ} {C : Type ℓ} where
  -- push_back to the deque of the entry's priority, and ++mSize.
  unfoldable pub push : HoldingQueue C → Entry C → HoldingQueue C
  push q e =
      if is_critical e.job.priority
      then record q { critical = q.critical ++ e ∷ []; size = u32 (q.size + 1) }
      else record q { high = q.high ++ e ∷ []; size = u32 (q.size + 1) }

  unfoldable pub enqueue : HoldingQueue C → Job → C → HoldingQueue C × Expected ℕ SubmitError
  unfolding push holding_handle
  enqueue q job on_done =
      let raw = holding_handle q.next_seq in
      if leb q.capacity q.size then (q, err holding_queue_full) else (
        push (record q { next_seq = u64 (q.next_seq + 1) })
            (record { job = job; on_done = on_done; hold_handle = raw }),
        ok raw,
      )

  pop_high : HoldingQueue C → List (Entry C) → HoldingQueue C × Option (Entry C)
  pop_high q [] = (q, none)
  pop_high q (e ∷ rest) = (record q { high = rest; size = dec_u32 q.size }, some e)

  pop_critical : HoldingQueue C → List (Entry C) → HoldingQueue C × Option (Entry C)
  unfolding pop_high
  pop_critical q [] = pop_high q q.high
  pop_critical q (e ∷ rest) = (record q { critical = rest; size = dec_u32 q.size }, some e)

  unfoldable pub try_dequeue : HoldingQueue C → HoldingQueue C × Option (Entry C)
  unfolding pop_critical
  try_dequeue q = pop_critical q q.critical

  -- The first entry of the deque with the handle, and the deque without it.
  unfoldable pub extract_from : List (Entry C) → ℕ → List (Entry C) × Option (Entry C)
  extract_from [] raw = ([], none)
  extract_from (e ∷ es) raw =
      let (es', found) = extract_from es raw in
      if e.hold_handle == raw then (es, some e) else (e ∷ es', found)

  -- The entry found in the first deque, else the one found in the second.
  unfoldable pub remove_from :
      HoldingQueue C
      → List (Entry C)
      → Option (Entry C)
      → List (Entry C)
      → Option (Entry C)
      → HoldingQueue C × Option (Entry C)
  remove_from q cs (some e) hs found = (record q { critical = cs; size = dec_u32 q.size }, some e)
  remove_from q cs none hs (some e) = (record q { high = hs; size = dec_u32 q.size }, some e)
  remove_from q cs none hs none = (q, none)

  unfoldable pub remove : HoldingQueue C → ℕ → HoldingQueue C × Option (Entry C)
  unfolding remove_from
  remove q raw =
      let (cs, in_critical) = extract_from q.critical raw in
      let (hs, in_high) = extract_from q.high raw in remove_from q cs in_critical hs in_high

  unfoldable pub cancel : HoldingQueue C → ℕ → HoldingQueue C × Bool
  unfolding remove
  cancel q raw = let (q', removed) = remove q raw in (q', is_some removed)

  unfoldable pub requeue : HoldingQueue C → Entry C → HoldingQueue C × Expected ℕ SubmitError
  unfolding push
  requeue q e =
      if leb q.capacity q.size then (q, err holding_queue_full) else (push q e, ok e.hold_handle)

  unfoldable pub is_empty : HoldingQueue C → Bool
  is_empty q = q.size == 0
