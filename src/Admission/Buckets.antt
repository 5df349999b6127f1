-- ===== src/Admission/Buckets.antt =====
-- TokenBucket: the bound on the tokens, and when a token is refused.
use fatp_balancer.Base.{ℕ, ◌-◌, ◌≡◌, ◌⊎◌, Bool, true, false, arith}
use fatp_balancer.Job.{Priority}
use fatp_balancer.Floats.{Floats, IsAsymmetric, KeepsBound}
use fatp_balancer.Admission.Defs.{TokenBucket, AdmissionControl, refill, try_consume, evaluate}

module _ {F : Type 0} ⦃fl : Floats F⦄ where
  -- Never more tokens than the capacity.
  abbrev pub IsCapped : TokenBucket F → Type 0
  IsCapped b = fl.lt (fl.of_ℕ b.capacity) b.tokens ≡ false

  -- The buckets of the gate.
  pub record IsMetered (a : AdmissionControl F) : Type 0 where
    pub global : IsCapped a.global_bucket
    pub normal : IsCapped a.normal_bucket
    pub low : IsCapped a.low_bucket
    pub bulk : IsCapped a.bulk_bucket

  -- A bucket with no rate never refuses and never changes; another refuses exactly when it holds
  -- less than one token after its refill, and a refusal leaves the refilled bucket.
  pub try_consume_cases :
      (b : TokenBucket F) (now : ℕ)
      → ((b.rate ≡ 0) × (try_consume b now ≡ (b, true)))
        ⊎ ((fl.le (fl.of_ℕ 1) (refill b now).tokens ≡ false)
            × (try_consume b now ≡ (refill b now, false)))
        ⊎ ((fl.le (fl.of_ℕ 1) (refill b now).tokens ≡ true)
            × (try_consume b now ≡ (
              record (refill b now) { tokens = fl.sub (refill b now).tokens (fl.of_ℕ 1) },
              true,
            )))
  unfolding try_consume
  try_consume_cases b now = ground arith

  module _ (asymmetric : IsAsymmetric fl) (keeps : KeepsBound fl) where
    refill-IsCapped : (b : TokenBucket F) (now : ℕ) → IsCapped (refill b now)
    unfolding refill
    refill-IsCapped b now =
        let filled =
          fl.add b.tokens (fl.mul (fl.of_ticks (now - b.last_refill)) (fl.of_ℕ b.rate)) in
        let top = fl.of_ℕ b.capacity in ground (arith, asymmetric filled top, asymmetric top top)

    try_consume-IsCapped :
        (b : TokenBucket F) (now : ℕ) → IsCapped b → IsCapped (try_consume b now).0
    try_consume-IsCapped b now h = ground (
      arith,
      try_consume_cases b now,
      refill-IsCapped b now,
      keeps (fl.of_ℕ (refill b now).capacity) (refill b now).tokens,
    )

    -- If `<` is asymmetric and taking 1 away does not lead above a bound, every evaluation keeps
    -- the tokens of all four buckets within their capacity.
    pub evaluate-IsMetered :
        (a : AdmissionControl F) (p : Priority) (saturated : Bool) (now now_band : ℕ)
        → IsMetered a
        → IsMetered (evaluate a p saturated now now_band).0
    unfolding evaluate
    evaluate-IsMetered a p saturated now now_band m =
        let kept = λ (b : TokenBucket F) (t : ℕ) (h : IsCapped b). try_consume-IsCapped b t h in
        ground (
          arith,
          kept a.global_bucket now m.global,
          kept a.normal_bucket now_band m.normal,
          kept a.low_bucket now_band m.low,
          kept a.bulk_bucket now_band m.bulk,
        )
