-- ===== src/HoldingQueue/Tests.antt =====
-- HoldingQueue.h on concrete calls: a queue of capacity 2 with a High job before a Critical one.
use fatp_balancer.Base.{
  ℕ, ◌^◌, ◌<◌, true, false, ◌≡◌, ◌≤◌, refl, arith, List, [], ◌∷◌, length, none, some, ok, err, ◌⊎◌,
}
use fatp_balancer.Job.{critical, high, default_job, holding_queue_full}
use fatp_balancer.HoldingQueue.Defs.{
  Entry, HoldingQueue, holding_handle, new, push, enqueue, try_dequeue, remove, cancel,
  extract_from, is_empty,
}
use fatp_balancer.HoldingQueue.Waiting.{waiting, insert, without, first_with}
use fatp_balancer.HoldingQueue.Invariant.{
  Call, enqueues, dequeues, cancels, IsValid, run, step, run-new-IsValid,
}
use fatp_balancer.HoldingQueue.Refinement.{enqueue-waiting, try_dequeue-waiting, remove-waiting}
use fatp_balancer.HoldingQueue.Handles.{
  submits, takes, gives_back, turns, total, start, total-turns,
}

abbrev calls : List (Call ℕ)
calls = enqueues (default_job high) 7 ∷ enqueues (default_job high) 8 ∷ []

abbrev two_held : HoldingQueue ℕ
two_held = run (new 2) calls

two_held-IsValid : IsValid two_held
two_held-IsValid = run-new-IsValid 2 calls (omega arith)

abbrev first_held : Entry ℕ
first_held = record { job = default_job high; on_done = 7; hold_handle = holding_handle 1 }

abbrev second_held : Entry ℕ
second_held = record { job = default_job high; on_done = 8; hold_handle = holding_handle 2 }

full_queue : (enqueue two_held (default_job critical) 9).1 ≡ err holding_queue_full
unfolding run step enqueue new push
full_queue = refl

-- A Critical job overtakes a High one.
overtakes :
    (try_dequeue {C = ℕ}
      (enqueue (enqueue (new 2) (default_job high) 7).0 (default_job critical) 8).0).1
    ≡ some (record { job = default_job critical; on_done = 8; hold_handle = holding_handle 2 })
unfolding enqueue new push try_dequeue
overtakes = refl

cancelled_twice : (cancel (cancel two_held (holding_handle 1)).0 (holding_handle 1)).1 ≡ false
unfolding run step enqueue new push cancel remove extract_from holding_handle
cancelled_twice = refl

is_empty-new : is_empty (new {C = ℕ} 4) ≡ true
unfolding is_empty new
is_empty-new = refl

run-new-IsValid_example :
    IsValid {C = ℕ} (run (new 2) (enqueues (default_job critical) 7 ∷ dequeues ∷ cancels 3 ∷ []))
run-new-IsValid_example =
    run-new-IsValid 2 (enqueues (default_job critical) 7 ∷ dequeues ∷ cancels 3 ∷ []) (omega arith)

enqueue-waiting_example :
    ((length (waiting two_held) ≡ 2)
      × (enqueue two_held (default_job critical) 9 ≡ (two_held, err holding_queue_full)))
    ⊎ ((length (waiting two_held) < 2)
        × ((enqueue two_held (default_job critical) 9).1 ≡ ok (holding_handle two_held.next_seq))
        × (waiting (enqueue two_held (default_job critical) 9).0
            ≡ insert
                (record {
                  job = default_job critical;
                  on_done = 9;
                  hold_handle = holding_handle two_held.next_seq;
                })
                (waiting two_held)))
unfolding run step enqueue new push
enqueue-waiting_example = enqueue-waiting two_held (default_job critical) 9 two_held-IsValid

try_dequeue-waiting_example :
    ((waiting two_held ≡ []) × (try_dequeue two_held ≡ (two_held, none)))
    ⊎ ((e : Entry ℕ) × (waiting two_held ≡ e ∷ waiting (try_dequeue two_held).0)
        × ((try_dequeue two_held).1 ≡ some e))
try_dequeue-waiting_example = try_dequeue-waiting two_held

remove-waiting_example :
    (waiting (remove two_held (holding_handle 2)).0 ≡ without (holding_handle 2) (waiting two_held))
    × ((remove two_held (holding_handle 2)).1 ≡ first_with (holding_handle 2) (waiting two_held))
remove-waiting_example = remove-waiting two_held (holding_handle 2)

two_held-first : (try_dequeue two_held).1 ≡ some first_held
unfolding run step enqueue new push try_dequeue
two_held-first = refl

two_held-waiting : waiting two_held ≡ first_held ∷ second_held ∷ []
unfolding run step enqueue new push
two_held-waiting = refl

total-turns_example :
    total {C = ℕ}
      (holding_handle 1)
      (turns (start 2) (submits (default_job high) 7 ∷ takes ∷ gives_back ∷ []))
    ≤ 1
total-turns_example =
    total-turns 2 (submits (default_job high) 7 ∷ takes ∷ gives_back ∷ []) (holding_handle 1)
      (omega arith)

empty-IsValid : IsValid (new {C = ℕ} 2)
unfolding run
empty-IsValid = run-new-IsValid 2 [] (omega arith)

first_accepted : (enqueue {C = ℕ} (new 2) (default_job high) 7).1 ≡ ok (holding_handle 1)
unfolding enqueue new
first_accepted = refl

new-next_seq : (new {C = ℕ} 2).next_seq < 2 ^ 63
unfolding new
new-next_seq = omega arith
