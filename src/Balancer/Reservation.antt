-- ===== src/Balancer/Reservation.antt =====
-- Balancer.h: the slots that AdmissionControl has reserved are the jobs that HoldingQueue stores.
use fatp_balancer.Base.{
  ℕ, ◌+◌, ◌<◌, ◌^◌, ◌≡◌, Bool, true, false, ◌&&◌, not, if◌then◌else◌, leb, some, has_value, is_some,
  arith,
}
use fatp_balancer.Job.{Job, Priority, SubmitError, is_urgent}
use fatp_balancer.Floats.{Floats}
use fatp_balancer.Admission.{AdmissionControl, evaluate, release_from_holding_queue}
use fatp_balancer.Admission.Layers.{IsSettled, slots, evaluate-IsAccounted, evaluate-admits}
use fatp_balancer.HoldingQueue.{Entry, HoldingQueue, enqueue, try_dequeue, requeue, remove, push}
use fatp_balancer.HoldingQueue.Invariant.{
  IsValid, enqueue-IsValid, try_dequeue-IsValid, requeue-IsValid, remove-IsValid, size-try_dequeue,
  size-remove,
}

module _ {F : Type 0} ⦃fl : Floats F⦄ where
  -- `k` slots are reserved for jobs that the queue does not hold now.
  pub record Agrees (q : HoldingQueue Job) (a : AdmissionControl F) (k : ℕ) : Type 0 where
    pub valid : IsValid q
    pub settled : IsSettled a
    pub capacities : q.capacity ≡ a.holding_queue_capacity
    pub reserved : a.holding_queue_depth ≡ q.size + k

  pub of_eq-Agrees :
      {q q' : HoldingQueue Job} {a a' : AdmissionControl F} (k : ℕ)
      → q' ≡ q
      → a' ≡ a
      → Agrees q a k
      → Agrees q' a' k
  of_eq-Agrees k e f g = rw (e, f) g

  pub evaluate-Agrees :
      (q : HoldingQueue Job) (a : AdmissionControl F) (p : Priority) (saturated : Bool)
      (now band : ℕ)
      → Agrees q a 0
      → let r = evaluate a p saturated now band in Agrees q r.0 (slots r.1 saturated)
  evaluate-Agrees q a p saturated now band g =
      let c = evaluate-IsAccounted a p saturated now band g.settled in
      let below : (x : SubmitError) → (evaluate a p saturated now band).0.rejections x < 2 ^ 64 =
        λ x. omega (arith, c.rejections x) in
      record {
        valid = g.valid;
        settled = record {
          small = λ x. below x;
          within = omega (arith, c.bounded, c.capacity);
          word = omega (arith, c.capacity, g.settled.word);
        };
        capacities = omega (arith, c.capacity, g.capacities);
        reserved = omega (arith, c.depth, g.reserved);
      }

  -- Only urgent jobs are admitted into a saturated cluster.
  pub admits_urgent :
      (a : AdmissionControl F) (p : Priority) (saturated : Bool) (now band : ℕ)
      → (saturated && not (is_urgent p) && has_value (evaluate a p saturated now band).1) ≡ false
  admits_urgent a p saturated now band = ground (arith, evaluate-admits a p saturated now band)

  pub enqueue-Agrees :
      (q : HoldingQueue Job) (a : AdmissionControl F) (j : Job) (c : Job)
      → Agrees q a 1
      → (has_value (enqueue q j c).1 ≡ true) × Agrees (enqueue q j c).0 a 0
  unfolding enqueue push
  enqueue-Agrees q a j c g =
      let room : leb q.capacity q.size ≡ false =
        ground (arith, g.reserved, g.capacities, g.settled.within) in
      (
        ground arith,
        record {
          valid = enqueue-IsValid q j c g.valid;
          settled = g.settled;
          capacities = ground (arith, g.capacities);
          reserved = ground (arith, g.reserved, g.valid.small);
        },
      )

  pub release-Agrees :
      (q : HoldingQueue Job) (a : AdmissionControl F)
      → Agrees q a 1
      → Agrees q (release_from_holding_queue a) 0
  unfolding release_from_holding_queue
  release-Agrees q a g = record {
    valid = g.valid;
    settled = record {
      small = g.settled.small;
      within = ground (arith, g.settled.within, g.settled.word, g.reserved);
      word = g.settled.word;
    };
    capacities = g.capacities;
    reserved = ground (arith, g.settled.within, g.settled.word, g.reserved);
  }

  pub try_dequeue-Agrees :
      (q : HoldingQueue Job) (a : AdmissionControl F) (e : Entry Job)
      → Agrees q a 0
      → (try_dequeue q).1 ≡ some e
      → Agrees (try_dequeue q).0 a 1
  try_dequeue-Agrees q a e g h = record {
    valid = try_dequeue-IsValid q g.valid;
    settled = g.settled;
    capacities = omega (arith, size-try_dequeue q e g.valid h, g.capacities);
    reserved = omega (arith, size-try_dequeue q e g.valid h, g.reserved);
  }

  pub requeue-Agrees :
      (q : HoldingQueue Job) (a : AdmissionControl F) (e : Entry Job)
      → Agrees q a 1
      → Agrees (requeue q e).0 a 0
  unfolding requeue push
  requeue-Agrees q a e g =
      let room : leb q.capacity q.size ≡ false =
        ground (arith, g.reserved, g.capacities, g.settled.within) in
      record {
        valid = requeue-IsValid q e g.valid;
        settled = g.settled;
        capacities = ground (arith, g.capacities);
        reserved = ground (arith, g.reserved, g.valid.small);
      }

  pub remove-Agrees :
      (q : HoldingQueue Job) (a : AdmissionControl F) (raw : ℕ)
      → Agrees q a 0
      → Agrees (remove q raw).0 a (if is_some (remove q raw).1 then 1 else 0)
  remove-Agrees q a raw g = record {
    valid = remove-IsValid q raw g.valid;
    settled = g.settled;
    capacities = omega (arith, size-remove q raw g.valid, g.capacities);
    reserved = omega (arith, size-remove q raw g.valid, g.reserved);
  }
