-- ===== src/Admission/Layers.antt =====
-- AdmissionControl::evaluate: who is admitted, what is counted, and the holding-queue counter.
use fatp_balancer.Base.{
  ℕ, ◌+◌, ◌≤◌, ◌<◌, ◌^◌, ◌≡◌, ◌⊎◌, Bool, true, ◌&&◌, ◌||◌, not, ltb, ◌==◌, if◌then◌else◌, ok, err,
  arith, has_value,
}
use fatp_balancer.Job.{
  Priority, critical, high, normal, low, bulk, is_urgent, is_bulk, SubmitError, rate_limited,
  holding_queue_full, error_index, u64,
}
use fatp_balancer.Floats.{Floats}
use fatp_balancer.Admission.Defs.{AdmissionControl, TokenBucket, Verdict, evaluate, try_consume}

-- How a verdict adds to the counter of an error.
abbrev pub counts : Verdict → SubmitError → ℕ
counts (ok _) x = 0
counts (err e) x = if error_index x == error_index e then 1 else 0

-- A slot of the holding queue is reserved by an admission into a saturated cluster.
abbrev pub slots : Verdict → Bool → ℕ
slots v saturated = if has_value v && saturated then 1 else 0

module _ {F : Type 0} ⦃fl : Floats F⦄ where
  -- What an evaluation does to the counters.
  pub record IsAccounted (a : AdmissionControl F) (saturated : Bool) (b : AdmissionControl F)
      (v : Verdict) : Type 0 where
    pub rejections : (x : SubmitError) → b.rejections x ≡ u64 (a.rejections x + counts v x)
    pub depth : b.holding_queue_depth ≡ a.holding_queue_depth + slots v saturated
    pub bounded : b.holding_queue_depth ≤ a.holding_queue_capacity
    pub capacity : b.holding_queue_capacity ≡ a.holding_queue_capacity
    pub modes : (b.shed_bulk ≡ a.shed_bulk) × (b.admission_strict ≡ a.admission_strict)

  pub record IsSettled (a : AdmissionControl F) : Type 0 where
    pub small : (x : SubmitError) → a.rejections x < 2 ^ 64
    pub within : a.holding_queue_depth ≤ a.holding_queue_capacity
    pub word : a.holding_queue_capacity < 2 ^ 32

  -- Where the counters are words and the holding-queue counter is within the capacity, every
  -- evaluation counts a rejection once, modulo 2^64, under its own error, and an admission not at
  -- all; it adds one to the holding-queue counter exactly when it admits into a saturated cluster,
  -- never above the capacity; and it leaves the capacity and the two modes alone.
  pub evaluate-IsAccounted :
      (a : AdmissionControl F) (p : Priority) (saturated : Bool) (now now_band : ℕ)
      → IsSettled a
      → let r = evaluate a p saturated now now_band in IsAccounted a saturated r.0 r.1
  unfolding evaluate
  evaluate-IsAccounted a p saturated now now_band s = record {
    rejections = λ x. ground (arith, s.small x);
    depth = ground (arith, s);
    bounded = ground (arith, s);
    capacity = ground arith;
    modes = ground arith;
  }

  -- The bucket that layer 2 asks for a job that is not urgent.
  abbrev pub band_bucket : AdmissionControl F → Priority → TokenBucket F
  band_bucket a low = a.low_bucket
  band_bucket a bulk = a.bulk_bucket
  band_bucket a _ = a.normal_bucket

  -- When layer 2 lets a job through.
  abbrev pub passes_modes : AdmissionControl F → Priority → ℕ → Bool
  passes_modes a p now =
      is_urgent p
      || not a.admission_strict
        && not (is_bulk p && a.shed_bulk)
        && (try_consume (band_bucket a p) now).1

  -- When layer 3 lets a job through.
  abbrev pub passes_capacity : AdmissionControl F → Priority → Bool → Bool
  passes_capacity a p saturated =
      not saturated || is_urgent p && ltb a.holding_queue_depth a.holding_queue_capacity

  -- A job is admitted exactly when the global bucket had a token, and it is urgent or passes the
  -- modes and its own bucket, and the cluster is not saturated or it is urgent and a slot of the
  -- holding queue is free.
  pub evaluate-admits :
      (a : AdmissionControl F) (p : Priority) (saturated : Bool) (now now_band : ℕ)
      → has_value (evaluate a p saturated now now_band).1 ≡ (
          (try_consume a.global_bucket now).1
          && passes_modes a p now_band
          && passes_capacity a p saturated)
  unfolding evaluate
  evaluate-admits a critical saturated now now_band = ground arith
  evaluate-admits a high saturated now now_band = ground arith
  evaluate-admits a normal saturated now now_band = ground arith
  evaluate-admits a low saturated now now_band = ground arith
  evaluate-admits a bulk saturated now now_band = ground arith

  -- A Critical or High job is refused for two reasons only: the global rate, or a full holding
  -- queue while the cluster is saturated.
  pub evaluate_urgent :
      (a : AdmissionControl F) (p : Priority) (saturated : Bool) (now now_band : ℕ)
      {e : SubmitError}
      → is_urgent p ≡ true
      → (evaluate a p saturated now now_band).1 ≡ err e
      → (e ≡ rate_limited)
        ⊎ ((e ≡ holding_queue_full)
            × (saturated ≡ true)
            × (a.holding_queue_capacity ≤ a.holding_queue_depth))
  unfolding evaluate
  evaluate_urgent a p saturated now now_band u h = ground arith
