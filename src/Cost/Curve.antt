-- ===== src/Cost/Curve.antt =====
-- CostModel.h: Ema, DegradationCurve and NodeLearningState. The array of buckets is a function of
-- the index.
use fatp_balancer.Base.{ℕ, ◌+◌, ◌-◌, ◌/◌, ◌&&◌, ltb, leb, ◌==◌, if◌then◌else◌}
use fatp_balancer.Job.{u32}
use fatp_balancer.Floats.{Floats}
use fatp_balancer.Cost.Matrix.{blend}

pub record DegradationCurveConfig (F : Type 0) : Type 0 where
  pub bucket_count : ℕ
  pub bucket_size : ℕ
  pub alpha : F
  pub warm_threshold : ℕ

pub record Ema (F : Type 0) : Type 0 where
  pub value : F
  pub alpha : F

pub record Bucket (F : Type 0) : Type 0 where
  pub multiplier : Ema F
  pub observations : ℕ

pub record DegradationCurve (F : Type 0) : Type 0 where
  pub buckets : ℕ → Bucket F
  pub bucket_count : ℕ
  pub bucket_size : ℕ
  pub alpha : F
  pub warm_threshold : ℕ

pub record NodeLearningState (F : Type 0) : Type 0 where
  pub throughput_multiplier : Ema F
  pub observation_count : ℕ
  pub degradation : DegradationCurve F

-- kMaxBuckets
abbrev pub max_buckets : ℕ
max_buckets = 32

-- The float literals of the source, its division of a cost by a cost apart.
pub record Literals (F : Type 0) : Type 0 where
  pub half : F  -- 0.5f
  pub tenth : F  -- 0.1f
  pub twentieth : F  -- 0.05f
  pub to_u64 : F → ℕ  -- static_cast<uint64_t>

module _ {F : Type 0} ⦃fl : Floats F⦄ where
  unfoldable pub update_ema : Ema F → F → Ema F
  unfolding blend
  update_ema e observation = record e { value = blend e.alpha observation e.value }

  unfoldable pub configure : DegradationCurve F → DegradationCurveConfig F → DegradationCurve F
  configure d config = record d {
    bucket_count =
        if ltb 0 config.bucket_count && leb config.bucket_count max_buckets
        then config.bucket_count
        else max_buckets;
    bucket_size = if ltb 0 config.bucket_size then config.bucket_size else 1;
    alpha = config.alpha;
    warm_threshold = config.warm_threshold;
  }

  unfoldable pub bucket_index : DegradationCurve F → ℕ → ℕ
  bucket_index d depth =
      let idx = depth / d.bucket_size in if ltb idx d.bucket_count then idx else d.bucket_count - 1

  unfoldable pub update_bucket : DegradationCurve F → F → Bucket F → Bucket F
  unfolding update_ema
  update_bucket d ratio b = record {
    multiplier = update_ema (record b.multiplier { alpha = d.alpha }) ratio;
    observations = u32 (b.observations + 1);
  }

  unfoldable pub update_curve : DegradationCurve F → ℕ → F → DegradationCurve F
  unfolding bucket_index update_bucket
  update_curve d depth ratio =
      let idx = bucket_index d depth in
      record d {
        buckets = λ i. if i == idx then update_bucket d ratio (d.buckets i) else d.buckets i;
      }

  unfoldable pub get_curve : DegradationCurve F → ℕ → F
  unfolding bucket_index
  get_curve d depth =
      let b = d.buckets (bucket_index d depth) in
      if ltb b.observations d.warm_threshold then fl.of_ℕ 1 else b.multiplier.value

  unfoldable pub bucket_observations : DegradationCurve F → ℕ → ℕ
  unfolding bucket_index
  bucket_observations d depth = (d.buckets (bucket_index d depth)).observations

  -- A NodeLearningState as it is constructed.
  unfoldable pub new_state : ⦃lit : Literals F⦄ → NodeLearningState F
  new_state ⦃lit⦄ = record {
    throughput_multiplier = record { value = fl.of_ℕ 1; alpha = lit.twentieth };
    observation_count = 0;
    degradation = record {
      buckets = λ i. record {
        multiplier = record { value = fl.of_ℕ 1; alpha = lit.tenth };
        observations = 0;
      };
      bucket_count = 8;
      bucket_size = 4;
      alpha = lit.tenth;
      warm_threshold = 5;
    };
  }
