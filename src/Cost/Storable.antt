-- ===== src/Cost/Storable.antt =====
-- CostModel.h and AffinityMatrix.h: the models whose snapshot holds all that they predict from, and
-- update, which leads from such a model to another.
use fatp_balancer.Base.{
  ℕ, ◌^◌, ◌<◌, ◌≡◌, refl, sym, ap, subst, ◌∙◌, Bool, true, false, ◌||◌, ◌==◌, if◌then◌else◌, Option,
  none, some, arith,
}
use fatp_balancer.Job.{Job}
use fatp_balancer.Floats.{Floats}
use fatp_balancer.Balancer.State.{FastHashMap}
use fatp_balancer.Cost.Matrix.{AffinityMatrix, update_cell, set_cell, new_matrix}
use fatp_balancer.Cost.Curve.{
  DegradationCurveConfig, DegradationCurve, NodeLearningState, Literals, new_state, configure,
  update_curve, update_bucket, bucket_index,
}
use fatp_balancer.Cost.Model.{
  CostModel, CostModelConfig, found_or_new, learned, teach, update, new_cost_model,
}
use fatp_balancer.Cost.Learning.{MapLaws}

-- Counts of 32 bits, and a curve with the settings that the configuration makes.
pub record IsStorable {F : Type 0} (fl : Floats F) (config : DegradationCurveConfig F)
    (s : NodeLearningState F) : Type 0 where
  pub count : s.observation_count < 2 ^ 32
  pub curve : configure ⦃fl = fl⦄ s.degradation config ≡ s.degradation
  pub buckets : (i : ℕ) → (s.degradation.buckets i).observations < 2 ^ 32

-- A matrix of the model's configuration, counts of 32 bits in it, and storable states.
pub record IsStorableModel {F M : Type 0} (fl : Floats F)
    (states : FastHashMap (NodeLearningState F) M) (m : CostModel F M) : Type 0 where
  pub matrix : m.affinity_matrix.config ≡ m.config.affinity
  pub cells : (r c : ℕ) → m.affinity_matrix.observations r c < 2 ^ 32
  pub nodes :
      (n : ℕ) (s : NodeLearningState F)
      → states.find m.node_states n ≡ some s
      → IsStorable fl m.config.degradation s

module _ {F : Type 0} ⦃fl : Floats F⦄ where
  configure-update_curve :
      (d : DegradationCurve F) (config : DegradationCurveConfig F) (depth : ℕ) (ratio : F)
      → configure d config ≡ d
      → configure (update_curve d depth ratio) config ≡ update_curve d depth ratio
  unfolding configure update_curve
  configure-update_curve d config depth ratio h =
      ap {A = DegradationCurve F} {B = DegradationCurve F}
        (λ e. record e { buckets = (update_curve d depth ratio).buckets }) h

  observations-update_curve :
      (d : DegradationCurve F) (depth : ℕ) (ratio : F)
      → ((i : ℕ) → (d.buckets i).observations < 2 ^ 32)
      → (i : ℕ) → ((update_curve d depth ratio).buckets i).observations < 2 ^ 32
  unfolding update_curve update_bucket
  observations-update_curve d depth ratio h i = go (i == bucket_index d depth)
    where
      go :
          (b : Bool)
          → (if b then update_bucket d ratio (d.buckets i) else d.buckets i).observations < 2 ^ 32
      go true = omega arith
      go false = h i

  pub observations-update_cell :
      (m : AffinityMatrix F) (r c : ℕ) (ratio : F)
      → ((i k : ℕ) → m.observations i k < 2 ^ 32)
      → (i k : ℕ) → (update_cell m r c ratio).observations i k < 2 ^ 32
  unfolding update_cell set_cell
  observations-update_cell m r c ratio h i k = ground (arith, h i k)

module _ {F M : Type 0} ⦃fl : Floats F⦄ ⦃lit : Literals F⦄
    ⦃states : FastHashMap (NodeLearningState F) M⦄ where
  pub learned-IsStorable :
      (m : CostModel F M) (job : Job) (ratio : F) (s? : Option (NodeLearningState F))
      → ((s : NodeLearningState F) → s? ≡ some s → IsStorable fl m.config.degradation s)
      → IsStorable fl m.config.degradation (learned m job ratio (found_or_new s?))
  unfolding learned found_or_new new_state configure
  learned-IsStorable m job ratio none h = record {
    count = omega arith;
    curve =
        configure-update_curve (configure (new_state {F = F}).degradation m.config.degradation)
          m.config.degradation job.queue_depth_at_dispatch ratio refl;
    buckets =
        observations-update_curve (configure (new_state {F = F}).degradation m.config.degradation)
          job.queue_depth_at_dispatch ratio (λ i. omega arith);
  }
  learned-IsStorable m job ratio (some s) h = record {
    count = omega arith;
    curve = curve (s.observation_count == 0);
    buckets = buckets (s.observation_count == 0);
  }
    where
      curve :
          (b : Bool)
          → configure
              (update_curve
                (if b then configure s.degradation m.config.degradation else s.degradation)
                job.queue_depth_at_dispatch
                ratio)
              m.config.degradation
            ≡ update_curve
                (if b then configure s.degradation m.config.degradation else s.degradation)
                job.queue_depth_at_dispatch
                ratio
      curve true =
          configure-update_curve (configure s.degradation m.config.degradation) m.config.degradation
            job.queue_depth_at_dispatch ratio refl
      curve false =
          configure-update_curve s.degradation m.config.degradation job.queue_depth_at_dispatch
            ratio (h s refl).curve

      buckets :
          (b : Bool) (i : ℕ)
          → ((update_curve
                (if b then configure s.degradation m.config.degradation else s.degradation)
                job.queue_depth_at_dispatch
                ratio).buckets
              i).observations
            < 2 ^ 32
      buckets true =
          observations-update_curve (configure s.degradation m.config.degradation)
            job.queue_depth_at_dispatch ratio (h s refl).buckets
      buckets false =
          observations-update_curve s.degradation job.queue_depth_at_dispatch ratio
            (h s refl).buckets

  pub new_cost_model-IsStorableModel :
      (config : CostModelConfig F) (clear : M)
      → ((k : ℕ) → states.find clear k ≡ none)
      → IsStorableModel fl states (new_cost_model config clear)
  unfolding new_cost_model new_matrix
  new_cost_model-IsStorableModel config clear h = record {
    matrix = refl;
    cells = λ r c. omega arith;
    nodes = λ n s e. ground (arith, sym (h n) ∙ e);
  }

  module _ ⦃laws : MapLaws states⦄ where
    teach-IsStorableModel :
        (m : CostModel F M) (job : Job) (ratio : F)
        → IsStorableModel fl states m
        → IsStorableModel fl states (teach m job ratio)
    unfolding teach update_cell found_or_new
    teach-IsStorableModel m job ratio h = record {
      matrix = h.matrix;
      cells =
          observations-update_cell m.affinity_matrix job.executed_by job.job_class ratio h.cells;
      nodes = λ n s e.
          go n s (n == job.executed_by)
            (sym (laws.find-insert m.node_states job.executed_by taught n) ∙ e);
    }
      where
        s? : Option (NodeLearningState F)
        s? = states.find m.node_states job.executed_by

        taught : NodeLearningState F
        taught = learned m job ratio (found_or_new s?)

        go :
            (n : ℕ) (s : NodeLearningState F) (b : Bool)
            → (if b then some taught else states.find m.node_states n) ≡ some s
            → IsStorable fl m.config.degradation s
        go n s true e =
            subst (IsStorable fl m.config.degradation) (ap found_or_new e)
              (learned-IsStorable m job ratio s? (h.nodes job.executed_by))
        go n s false e = h.nodes n s e

    -- Over a map that changes only the key that is written, a completed job leaves a model storable.
    pub update-IsStorableModel :
        (m : CostModel F M) (job : Job)
        → IsStorableModel fl states m
        → IsStorableModel fl states (update m job)
    unfolding update
    update-IsStorableModel m job h = go (job.estimated_cost == 0 || job.observed_cost == 0)
      where
        ratio : F
        ratio = fl.div (fl.of_ℕ job.observed_cost) (fl.of_ℕ job.estimated_cost)

        go : (b : Bool) → IsStorableModel fl states (if b then m else teach m job ratio)
        go true = h
        go false = teach-IsStorableModel m job ratio h
