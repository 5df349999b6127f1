-- ===== src/Admission/Defs.antt =====
-- AdmissionControl.h: TokenBucket and AdmissionControl. A call of steady_clock::now() is an
-- argument, one for each bucket that a call may reach; the clock is monotonic, so `now` is never
-- before `last_refill` and the subtraction is exact.
use fatp_balancer.Base.{
  ℕ, ◌+◌, ◌-◌, Bool, true, false, ◌&&◌, leb, ltb, ◌==◌, if◌then◌else◌, Expected, ok, err,
}
use fatp_balancer.Job.{
  Priority, critical, high, normal, low, bulk, is_urgent, is_bulk, SubmitError, rate_limited,
  priority_rejected, cluster_saturated, holding_queue_full, error_index, u32, u64, dec_u32,
}
use fatp_balancer.Floats.{Floats, float_min}

pub record TokenBucket (F : Type 0) : Type 0 where
  pub rate : ℕ
  pub capacity : ℕ
  pub tokens : F
  pub last_refill : ℕ

pub record AdmissionConfig : Type 0 where
  pub global_rate_limit_jps : ℕ
  pub normal_rate_limit_jps : ℕ
  pub low_rate_limit_jps : ℕ
  pub bulk_rate_limit_jps : ℕ
  pub holding_queue_capacity : ℕ

-- `rejections e` is mRejections[static_cast<size_t>(e)].
pub record AdmissionControl (F : Type 0) : Type 0 where
  pub global_bucket : TokenBucket F
  pub normal_bucket : TokenBucket F
  pub low_bucket : TokenBucket F
  pub bulk_bucket : TokenBucket F
  pub shed_bulk : Bool
  pub admission_strict : Bool
  pub holding_queue_capacity : ℕ
  pub holding_queue_depth : ℕ
  pub rejections : SubmitError → ℕ

-- A value of fat_p::Expected<void, SubmitError>.
abbrev pub Verdict : Type 0
Verdict = Expected (Unit {0}) SubmitError

module _ {F : Type 0} ⦃fl : Floats F⦄ where
  unfoldable pub new_bucket : ℕ → ℕ → ℕ → TokenBucket F
  new_bucket rate burst now = record {
    rate = rate;
    capacity = if ltb 0 burst then burst else rate;
    tokens = if ltb 0 burst then fl.of_ℕ burst else fl.of_ℕ rate;
    last_refill = now;
  }

  unfoldable pub refill : TokenBucket F → ℕ → TokenBucket F
  refill b now =
      let elapsed = fl.of_ticks (now - b.last_refill) in
      record b {
        tokens = float_min (fl.of_ℕ b.capacity) (fl.add b.tokens (fl.mul elapsed (fl.of_ℕ b.rate)));
        last_refill = now;
      }

  -- The bucket after `if (mTokens >= 1.0f) mTokens -= 1.0f`, and whether it had a token.
  take_token : TokenBucket F → TokenBucket F × Bool
  take_token b =
      if fl.le (fl.of_ℕ 1) b.tokens
      then (record b { tokens = fl.sub b.tokens (fl.of_ℕ 1) }, true)
      else (b, false)

  unfoldable pub try_consume : TokenBucket F → ℕ → TokenBucket F × Bool
  unfolding refill take_token
  try_consume b now = if b.rate == 0 then (b, true) else take_token (refill b now)

  unfoldable pub new : AdmissionConfig → ℕ → AdmissionControl F
  unfolding new_bucket
  new c now = record {
    global_bucket = new_bucket c.global_rate_limit_jps 0 now;
    normal_bucket = new_bucket c.normal_rate_limit_jps 0 now;
    low_bucket = new_bucket c.low_rate_limit_jps 0 now;
    bulk_bucket = new_bucket c.bulk_rate_limit_jps 0 now;
    shed_bulk = false;
    admission_strict = false;
    holding_queue_capacity = c.holding_queue_capacity;
    holding_queue_depth = 0;
    rejections = λ e. 0;
  }

  unfoldable pub set_shed_bulk : AdmissionControl F → Bool → AdmissionControl F
  set_shed_bulk a enabled = record a { shed_bulk = enabled }

  unfoldable pub set_admission_strict : AdmissionControl F → Bool → AdmissionControl F
  set_admission_strict a enabled = record a { admission_strict = enabled }

  -- `++mRejections[e]; return unexpected(e);`
  unfoldable pub reject : AdmissionControl F → SubmitError → AdmissionControl F × Verdict
  reject a e = (
    record a {
      rejections =
          λ x. if error_index x == error_index e then u64 (a.rejections x + 1) else a.rejections x;
    },
    err e,
  )

  -- The outcome of the compare-exchange loop, which takes effect at one instant (see Reserve).
  unfoldable pub try_reserve_holding_slot : AdmissionControl F → AdmissionControl F × Verdict
  unfolding reject
  try_reserve_holding_slot a =
      if leb a.holding_queue_capacity a.holding_queue_depth
      then reject a holding_queue_full
      else (record a { holding_queue_depth = u32 (a.holding_queue_depth + 1) }, ok tt)

  unfoldable pub release_from_holding_queue : AdmissionControl F → AdmissionControl F
  release_from_holding_queue a = record a { holding_queue_depth = dec_u32 a.holding_queue_depth }

  -- Layer 3: cluster capacity.
  unfoldable pub layer3 : AdmissionControl F → Priority → Bool → AdmissionControl F × Verdict
  unfolding try_reserve_holding_slot reject
  layer3 a p saturated =
      if saturated
      then (if is_urgent p then try_reserve_holding_slot a else reject a cluster_saturated)
      else (a, ok tt)

  -- After a band's bucket was asked.
  metered : AdmissionControl F → Bool → Priority → Bool → AdmissionControl F × Verdict
  unfolding layer3 reject
  metered a had_token p saturated =
      if had_token then layer3 a p saturated else reject a priority_rejected

  -- The bucket of the job's own band; Critical and High have none.
  band : AdmissionControl F → Priority → Bool → ℕ → AdmissionControl F × Verdict
  unfolding metered layer3
  band a normal saturated now =
      let (b, had) = try_consume a.normal_bucket now in
      metered (record a { normal_bucket = b }) had normal saturated
  band a low saturated now =
      let (b, had) = try_consume a.low_bucket now in
      metered (record a { low_bucket = b }) had low saturated
  band a bulk saturated now =
      let (b, had) = try_consume a.bulk_bucket now in
      metered (record a { bulk_bucket = b }) had bulk saturated
  band a critical saturated now = layer3 a critical saturated
  band a high saturated now = layer3 a high saturated

  -- Layer 2: the modes, then the band's bucket.
  unfoldable pub layer2 : AdmissionControl F → Priority → Bool → ℕ → AdmissionControl F × Verdict
  unfolding band reject
  layer2 a p saturated now =
      if is_urgent p
      then band a p saturated now
      else if a.admission_strict
      then reject a priority_rejected
      else if is_bulk p && a.shed_bulk
      then reject a priority_rejected
      else band a p saturated now

  unfoldable pub evaluate :
      AdmissionControl F → Priority → Bool → ℕ → ℕ → AdmissionControl F × Verdict
  unfolding layer2 reject
  evaluate a p saturated now now_band =
      let (b, had) = try_consume a.global_bucket now in
      let a' = record a { global_bucket = b } in
      if had then layer2 a' p saturated now_band else reject a' rate_limited
