-- ===== src/Cost/Model.antt =====
-- CostModel.h: predict, update, the queries and reset. FastHashMap is an interface; `clear` gives
-- the map with no entries.
use fatp_balancer.Base.{
  ℕ, ◌+◌, Bool, true, false, ◌||◌, leb, ◌==◌, if◌then◌else◌, Option, none, some,
}
use fatp_balancer.Job.{Job, u32}
use fatp_balancer.Floats.{Floats}
use fatp_balancer.Balancer.State.{FastHashMap, Costs}
use fatp_balancer.Cost.Matrix.{
  AffinityMatrixConfig, AffinityMatrix, new_matrix, update_cell, get_cell, matrix_observations,
  is_cell_warm, reset_matrix,
}
use fatp_balancer.Cost.Curve.{
  DegradationCurveConfig, NodeLearningState, Literals, new_state, configure, update_ema,
  update_curve, get_curve, bucket_observations,
}

pub record CostModelConfig (F : Type 0) : Type 0 where
  pub warm_threshold : ℕ
  pub node_alpha : F
  pub max_multiplier : F
  pub min_multiplier : F
  pub degradation : DegradationCurveConfig F
  pub affinity : AffinityMatrixConfig F

-- `M` holds the learning states by the number of the node.
pub record CostModel (F M : Type 0) : Type 0 where
  pub config : CostModelConfig F
  pub degradation_enabled : Bool
  pub node_states : M
  pub affinity_matrix : AffinityMatrix F

module _ {F : Type 0} ⦃fl : Floats F⦄ where
  unfoldable pub clampf : F → F → F → F
  clampf v lo hi = if fl.lt v lo then lo else if fl.lt hi v then hi else v

  unfoldable pub count_found : Option (NodeLearningState F) → ℕ
  count_found none = 0
  count_found (some s) = s.observation_count

  unfoldable curve_found : Option (NodeLearningState F) → ℕ → F
  unfolding get_curve
  curve_found none depth = fl.of_ℕ 1
  curve_found (some s) depth = get_curve s.degradation depth

  unfoldable bucket_found : Option (NodeLearningState F) → ℕ → ℕ
  unfolding bucket_observations
  bucket_found none depth = 0
  bucket_found (some s) depth = bucket_observations s.degradation depth

  -- `mNodeStates[node_id]`
  unfoldable pub found_or_new :
      ⦃lit : Literals F⦄ → Option (NodeLearningState F) → NodeLearningState F
  unfolding new_state
  found_or_new none = new_state
  found_or_new (some s) = s

module _ {F M : Type 0} where
  unfoldable pub set_degradation_enabled : CostModel F M → Bool → CostModel F M
  set_degradation_enabled m enabled = record m { degradation_enabled = enabled }

module _ {F M : Type 0} ⦃fl : Floats F⦄ ⦃lit : Literals F⦄
    ⦃states : FastHashMap (NodeLearningState F) M⦄ where
  unfoldable pub new_cost_model : CostModelConfig F → M → CostModel F M
  unfolding new_matrix
  new_cost_model config clear = record {
    config = config;
    degradation_enabled = true;
    node_states = clear;
    affinity_matrix = new_matrix config.affinity;
  }

  unfoldable pub is_warm_unlocked : CostModel F M → NodeLearningState F → Bool
  is_warm_unlocked m s = leb m.config.warm_threshold s.observation_count

  -- The multiplier of a node that is warm.
  unfoldable pub multiplier : CostModel F M → Job → ℕ → NodeLearningState F → F
  unfolding get_cell get_curve clampf
  multiplier m job node_id s =
      let x =
        fl.mul s.throughput_multiplier.value (get_cell m.affinity_matrix node_id job.job_class) in
      let y =
        if m.degradation_enabled
        then fl.mul x (get_curve s.degradation job.queue_depth_at_dispatch)
        else x in
      clampf y m.config.min_multiplier m.config.max_multiplier

  unfoldable pub predict_from : CostModel F M → Job → ℕ → Option (NodeLearningState F) → ℕ
  unfolding is_warm_unlocked multiplier
  predict_from m job node_id none = job.estimated_cost
  predict_from m job node_id (some s) =
      if is_warm_unlocked m s
      then lit.to_u64
          (fl.add (fl.mul (fl.of_ℕ job.estimated_cost) (multiplier m job node_id s)) lit.half)
      else job.estimated_cost

  unfoldable pub predict : CostModel F M → Job → ℕ → ℕ
  unfolding predict_from
  predict m job node_id = predict_from m job node_id (states.find m.node_states node_id)

  -- The state of the node that ran the job.
  unfoldable pub learned : CostModel F M → Job → F → NodeLearningState F → NodeLearningState F
  unfolding configure update_ema update_curve
  learned m job ratio s =
      let d =
        if s.observation_count == 0
        then configure s.degradation m.config.degradation
        else s.degradation in
      record {
        throughput_multiplier =
            update_ema (record s.throughput_multiplier { alpha = m.config.node_alpha }) ratio;
        observation_count = u32 (s.observation_count + 1);
        degradation = update_curve d job.queue_depth_at_dispatch ratio;
      }

  -- The three dimensions of the model.
  unfoldable pub teach : CostModel F M → Job → F → CostModel F M
  unfolding learned found_or_new update_cell
  teach m job ratio =
      let s = found_or_new (states.find m.node_states job.executed_by) in
      record m {
        node_states = states.insert m.node_states job.executed_by (learned m job ratio s);
        affinity_matrix = update_cell m.affinity_matrix job.executed_by job.job_class ratio;
      }

  -- kUnknownCost is 0.
  unfoldable pub update : CostModel F M → Job → CostModel F M
  unfolding teach
  update m job =
      if job.estimated_cost == 0 || job.observed_cost == 0
      then m
      else teach m job (fl.div (fl.of_ℕ job.observed_cost) (fl.of_ℕ job.estimated_cost))

  is_warm_found : CostModel F M → Option (NodeLearningState F) → Bool
  unfolding is_warm_unlocked
  is_warm_found m none = false
  is_warm_found m (some s) = is_warm_unlocked m s

  unfoldable pub is_warm : CostModel F M → ℕ → Bool
  unfolding is_warm_found
  is_warm m node_id = is_warm_found m (states.find m.node_states node_id)

  unfoldable pub observation_count : CostModel F M → ℕ → ℕ
  unfolding count_found
  observation_count m node_id = count_found (states.find m.node_states node_id)

  unfoldable pub multiplier_found : CostModel F M → Option (NodeLearningState F) → F
  unfolding is_warm_unlocked clampf
  multiplier_found m none = fl.of_ℕ 1
  multiplier_found m (some s) =
      if is_warm_unlocked m s
      then clampf s.throughput_multiplier.value m.config.min_multiplier m.config.max_multiplier
      else fl.of_ℕ 1

  unfoldable pub node_multiplier : CostModel F M → ℕ → F
  unfolding multiplier_found
  node_multiplier m node_id = multiplier_found m (states.find m.node_states node_id)

  unfoldable pub affinity_score : CostModel F M → ℕ → ℕ → F
  unfolding get_cell
  affinity_score m node_id job_class = get_cell m.affinity_matrix node_id job_class

  unfoldable pub affinity_observations : CostModel F M → ℕ → ℕ → ℕ
  unfolding matrix_observations
  affinity_observations m node_id job_class =
      matrix_observations m.affinity_matrix node_id job_class

  unfoldable pub is_affinity_cell_warm : CostModel F M → ℕ → ℕ → Bool
  unfolding is_cell_warm
  is_affinity_cell_warm m node_id job_class = is_cell_warm m.affinity_matrix node_id job_class

  unfoldable pub degradation_multiplier : CostModel F M → ℕ → ℕ → F
  unfolding curve_found
  degradation_multiplier m node_id depth = curve_found (states.find m.node_states node_id) depth

  unfoldable pub degradation_bucket_observations : CostModel F M → ℕ → ℕ → ℕ
  unfolding bucket_found
  degradation_bucket_observations m node_id depth =
      bucket_found (states.find m.node_states node_id) depth

  -- `clear` is mNodeStates after its clear().
  unfoldable pub reset : CostModel F M → M → CostModel F M
  unfolding reset_matrix
  reset m clear = record m { node_states = clear; affinity_matrix = reset_matrix m.affinity_matrix }

  -- The calls of the balancer and of its policies.
  instance abbrev pub cost_model : Costs (CostModel F M) F
  cost_model = record {
    view = λ m. record {
      predict = predict m;
      node_multiplier = node_multiplier m;
      affinity_score = affinity_score m;
      is_affinity_cell_warm = is_affinity_cell_warm m;
    };
    update = update;
  }
