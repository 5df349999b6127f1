-- ===== src/Admission/Tests.antt =====
-- AdmissionControl.h on concrete calls: a gate of two jobs each second, one of them Bulk, and one
-- slot of the holding queue.
use fatp_balancer.Base.{
  ℕ, ◌≡◌, ◌⊎◌, ◌&&◌, refl, arith, true, false, List, [], ◌∷◌, ok, err, has_value,
}
use fatp_balancer.Job.{
  critical, high, normal, bulk, holding_queue_full, priority_rejected, cluster_saturated,
}
use fatp_balancer.Floats.{nat_floats, nat_floats-IsAsymmetric, nat_floats-KeepsBound}
use fatp_balancer.Admission.Defs.{
  AdmissionConfig, AdmissionControl, Verdict, new, new_bucket, refill, try_consume, evaluate,
  layer2, set_shed_bulk, set_admission_strict, release_from_holding_queue,
}
use fatp_balancer.Admission.Buckets.{IsMetered, try_consume_cases, evaluate-IsMetered}
use fatp_balancer.Admission.Layers.{
  IsSettled, IsAccounted, passes_modes, passes_capacity, evaluate-IsAccounted, evaluate-admits,
}
use fatp_balancer.Admission.Reserve.{Attempt}

abbrev config : AdmissionConfig
config = record {
  global_rate_limit_jps = 2;
  normal_rate_limit_jps = 0;
  low_rate_limit_jps = 0;
  bulk_rate_limit_jps = 1;
  holding_queue_capacity = 1;
}

abbrev gate : AdmissionControl ℕ
gate = new config 0

-- The gate after a Critical job took the slot.
abbrev full_gate : AdmissionControl ℕ
full_gate = (evaluate gate critical true 0 0).0

held : (full_gate.holding_queue_depth ≡ 1) × ((evaluate gate critical true 0 0).1 ≡ ok tt)
unfolding evaluate new layer2 new_bucket try_consume refill
held = (refl, refl)

released : (release_from_holding_queue full_gate).holding_queue_depth ≡ 0
unfolding release_from_holding_queue evaluate new layer2 new_bucket try_consume refill
released = refl

sheds_bulk : (evaluate (set_shed_bulk gate true) bulk false 0 0).1 ≡ err priority_rejected
unfolding evaluate set_shed_bulk new layer2 new_bucket try_consume refill
sheds_bulk = refl

strict : (evaluate (set_admission_strict gate true) normal false 0 0).1 ≡ err priority_rejected
unfolding evaluate set_admission_strict new layer2 new_bucket try_consume refill
strict = refl

saturated_normal : (evaluate gate normal true 0 0).1 ≡ err cluster_saturated
unfolding evaluate new layer2 new_bucket try_consume refill
saturated_normal = refl

second_refused : (evaluate full_gate high true 0 0).1 ≡ err holding_queue_full
unfolding evaluate new layer2 new_bucket try_consume refill
second_refused = refl

gate-IsSettled : IsSettled gate
unfolding new
gate-IsSettled = record { small = λ x. omega arith; within = omega arith; word = omega arith }

gate-IsMetered : IsMetered gate
unfolding new new_bucket
gate-IsMetered = record { global = refl; normal = refl; low = refl; bulk = refl }

evaluate-IsAccounted_example :
    let r = evaluate gate critical true 0 0 in IsAccounted gate true r.0 r.1
evaluate-IsAccounted_example = evaluate-IsAccounted gate critical true 0 0 gate-IsSettled

evaluate-admits_example : has_value (evaluate gate bulk false 0 0).1 ≡ (
    (try_consume gate.global_bucket 0).1
    && passes_modes gate bulk 0
    && passes_capacity gate bulk false)
evaluate-admits_example = evaluate-admits gate bulk false 0 0

evaluate-IsMetered_example : IsMetered (evaluate gate bulk false 3 3).0
evaluate-IsMetered_example =
    evaluate-IsMetered nat_floats-IsAsymmetric nat_floats-KeepsBound gate bulk false 3 3
      gate-IsMetered

try_consume_cases_example :
    let b = gate.global_bucket in
    ((b.rate ≡ 0) × (try_consume b 5 ≡ (b, true)))
    ⊎ ((nat_floats.le (nat_floats.of_ℕ 1) (refill b 5).tokens ≡ false)
        × (try_consume b 5 ≡ (refill b 5, false)))
    ⊎ ((nat_floats.le (nat_floats.of_ℕ 1) (refill b 5).tokens ≡ true)
        × (try_consume b 5 ≡ (
          record (refill b 5) { tokens = nat_floats.sub (refill b 5).tokens (nat_floats.of_ℕ 1) },
          true,
        )))
try_consume_cases_example = try_consume_cases gate.global_bucket 5

-- A first exchange that another thread beat, then one that succeeds.
abbrev attempts : List Attempt
attempts = record { depth = 0; spurious = true } ∷ record { depth = 0; spurious = false } ∷ []

abbrev one_taken : AdmissionControl ℕ × Verdict
one_taken = (record gate { holding_queue_depth = 1 }, ok tt)
