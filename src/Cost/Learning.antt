-- ===== src/Cost/Learning.antt =====
-- CostModel.h: what the model learns, and where it is used.
use fatp_balancer.Base.{
  ℕ, ◌+◌, ◌^◌, ◌≤◌, ◌<◌, ◌≡◌, refl, sym, ap, subst, ◌∙◌, inl, inr, Bool, true, false, not, ◌&&◌,
  ◌||◌, leb, ◌==◌, if◌then◌else◌, List, [], ◌∷◌, Option, none, some, arith, Bool-cases,
}
use fatp_balancer.Job.{Job, u32}
use fatp_balancer.Floats.{Floats}
use fatp_balancer.Balancer.State.{FastHashMap}
use fatp_balancer.Cost.Matrix.{
  AffinityMatrixConfig, AffinityMatrix, update_cell, get_cell, matrix_observations, clamp_row,
  clamp_col, set_cell,
}
use fatp_balancer.Cost.Curve.{
  DegradationCurveConfig, NodeLearningState, Literals, new_state, configure, get_curve,
  bucket_index, DegradationCurve, max_buckets,
}
use fatp_balancer.Cost.Model.{
  CostModel, is_warm_unlocked, clampf, multiplier, predict_from, predict, found_or_new, learned,
  teach, update, count_found, is_warm, observation_count, affinity_observations,
}

module _ {F : Type 0} ⦃fl : Floats F⦄ where
  -- Whatever the configuration, a curve that was configured reads and writes a bucket of its array,
  -- one of those that it counts.
  pub bucket_index-configure :
      (d : DegradationCurve F) (config : DegradationCurveConfig F) (depth : ℕ)
      → (bucket_index (configure d config) depth < (configure d config).bucket_count)
        × ((configure d config).bucket_count ≤ max_buckets)
  unfolding bucket_index configure
  bucket_index-configure d config depth = (ground arith, ground arith)

  get_cell-update_cell :
      (m : AffinityMatrix F) (r c : ℕ) (x : F) (r' c' : ℕ)
      → (clamp_row m.config r' == clamp_row m.config r) ≡ false
      → get_cell (update_cell m r c x) r' c' ≡ get_cell m r' c'
  unfolding get_cell update_cell set_cell
  get_cell-update_cell m r c x r' c' h = ground (arith, h)

  observed-update_cell :
      (m : AffinityMatrix F) (r c : ℕ) (x : F) (r' c' : ℕ)
      → matrix_observations (update_cell m r c x) r' c' ≡ (
          if clamp_row m.config r' == clamp_row m.config r
            && clamp_col m.config c' == clamp_col m.config c
          then u32 (matrix_observations m r' c' + 1)
          else matrix_observations m r' c')
  unfolding matrix_observations update_cell set_cell
  observed-update_cell m r c x r' c' = ground arith

  clampf-bounds :
      (v lo hi : F)
      → fl.lt hi lo ≡ false
      → fl.lt lo lo ≡ false
      → fl.lt hi hi ≡ false
      → (fl.lt (clampf v lo hi) lo ≡ false) × (fl.lt hi (clampf v lo hi) ≡ false)
  unfolding clampf
  clampf-bounds v lo hi a b c = (ground arith, ground arith)

-- What the map of learning states promises.
pub record MapLaws {V M : Type 0} (states : FastHashMap V M) : Type 0 where
  pub find-insert :
      (m : M) (k : ℕ) (v : V) (i : ℕ)
      → states.find (states.insert m k v) i ≡ (if i == k then some v else states.find m i)

-- A completed job teaches the model if it has an estimate and a cost.
abbrev pub teaches : Job → Bool
teaches j = not (j.estimated_cost == 0 || j.observed_cost == 0)

-- The jobs of a list that teach the model of a node, or its cell for a row and a column.
unfoldable pub lessons : List Job → ℕ → ℕ
lessons [] n = 0
lessons (j ∷ js) n = (if teaches j && n == j.executed_by then 1 else 0) + lessons js n

unfoldable pub cell_lessons :
    {F : Type 0} → ⦃fl : Floats F⦄ → AffinityMatrixConfig F → List Job → ℕ → ℕ → ℕ
unfolding clamp_row clamp_col
cell_lessons config [] r c = 0
cell_lessons config (j ∷ js) r c =
    (if teaches j
        && (clamp_row config r == clamp_row config j.executed_by
            && clamp_col config c == clamp_col config j.job_class)
      then 1
      else 0)
    + cell_lessons config js r c

module _ {F M : Type 0} ⦃fl : Floats F⦄ ⦃lit : Literals F⦄
    ⦃states : FastHashMap (NodeLearningState F) M⦄ where
  -- The completions, the last one first.
  unfoldable pub learn : CostModel F M → List Job → CostModel F M
  learn m [] = m
  learn m (j ∷ js) = update (learn m js) j

  -- A prediction for a job on a node.
  pub data IsPrediction (m : CostModel F M) (job : Job) (n : ℕ) : ℕ → Type 0 where
    estimate : is_warm m n ≡ false → IsPrediction m job n job.estimated_cost
    scaled :
        (x : F)
        → is_warm m n ≡ true
        → fl.lt x m.config.min_multiplier ≡ false
        → fl.lt m.config.max_multiplier x ≡ false
        → IsPrediction m job n
            (lit.to_u64 (fl.add (fl.mul (fl.of_ℕ job.estimated_cost) x) lit.half))

  -- If the bounds of the multiplier are in order and no NaN, a prediction for a node that is not
  -- warm is the estimate, and for one that is warm the rounded product of the estimate and a
  -- multiplier between the bounds.
  pub predict-IsPrediction :
      (m : CostModel F M) (job : Job) (n : ℕ)
      → fl.lt m.config.max_multiplier m.config.min_multiplier ≡ false
      → fl.lt m.config.min_multiplier m.config.min_multiplier ≡ false
      → fl.lt m.config.max_multiplier m.config.max_multiplier ≡ false
      → IsPrediction m job n (predict m job n)
  unfolding predict predict_from is_warm multiplier
  predict-IsPrediction m job n a b c = go (states.find m.node_states n) refl
    where
      go :
          (s? : Option (NodeLearningState F))
          → states.find m.node_states n ≡ s?
          → IsPrediction m job n (predict_from m job n s?)
      go none e = estimate (ground (arith, e))
      go (some s) e = elim (Bool-cases (is_warm_unlocked m s)) [
        | inl h ↦
            let k = clampf-bounds _ m.config.min_multiplier m.config.max_multiplier a b c in
            subst (IsPrediction m job n) (ground (arith, h))
              (scaled (multiplier m job n s) (ground (arith, e, h)) k.0 k.1)
        | inr h ↦ subst (IsPrediction m job n) (ground (arith, h)) (estimate (ground (arith, e, h)))
      ]

  module _ ⦃laws : MapLaws states⦄ where
    observation_count-teach :
        (m : CostModel F M) (j : Job) (x : F) (n : ℕ)
        → observation_count (teach m j x) n
          ≡ (if n == j.executed_by then u32 (observation_count m n + 1) else observation_count m n)
    unfolding observation_count teach learned count_found found_or_new new_state
    observation_count-teach m j x n =
        ap count_found (laws.find-insert m.node_states j.executed_by _ n)
        ∙ go (n == j.executed_by) refl
      where
        found :
            (s? : Option (NodeLearningState F))
            → (found_or_new s?).observation_count ≡ count_found s?
        found none = refl
        found (some s) = refl

        go :
            (b : Bool)
            → (n == j.executed_by) ≡ b
            → count_found (
                if b
                then some (learned m j x (found_or_new (states.find m.node_states j.executed_by)))
                else states.find m.node_states n)
              ≡ (if b then u32 (observation_count m n + 1) else observation_count m n)
        go false e = refl
        go true e =
            let k : n ≡ j.executed_by = ground (arith, e) in
            ap (λ i. u32 (i + 1))
              (found (states.find m.node_states j.executed_by)
                ∙ ap (λ i. count_found (states.find m.node_states i)) (sym k))

    observation_count-update :
        (m : CostModel F M) (j : Job) (n : ℕ)
        → observation_count (update m j) n ≡ (
            if teaches j && n == j.executed_by
            then u32 (observation_count m n + 1)
            else observation_count m n)
    unfolding update
    observation_count-update m j n = ground (
      arith,
      observation_count-teach m j (fl.div (fl.of_ℕ j.observed_cost) (fl.of_ℕ j.estimated_cost)) n,
    )

    -- Over a map that changes only the key that is written, a node has been observed as often,
    -- since the model was given, as jobs that it ran were completed with a cost and an estimate,
    -- while the count stays below 2^32.
    pub observation_count-learn :
        (m : CostModel F M) (js : List Job) (n : ℕ)
        → observation_count m n + lessons js n < 2 ^ 32
        → observation_count (learn m js) n ≡ observation_count m n + lessons js n
    unfolding learn lessons
    observation_count-learn m [] n h = omega arith
    observation_count-learn m (j ∷ js) n h =
        ground (arith, observation_count-update (learn m js) j n, observation_count-learn m js n, h)

    find-teach :
        (m : CostModel F M) (j : Job) (x : F) (n : ℕ)
        → (n == j.executed_by) ≡ false
        → states.find (teach m j x).node_states n ≡ states.find m.node_states n
    unfolding teach
    find-teach m j x n e = laws.find-insert m.node_states j.executed_by _ n ∙ ground (arith, e)

    -- Over a map that changes only the key that is written, a completion changes no prediction for
    -- another node, as long as the two nodes do not share the last row of the affinity matrix.
    pub predict-update :
        (m : CostModel F M) (j job : Job) (n : ℕ)
        → (n == j.executed_by) ≡ false
        → (clamp_row m.affinity_matrix.config n == clamp_row m.affinity_matrix.config j.executed_by)
          ≡ false
        → predict (update m j) job n ≡ predict m job n
    unfolding update predict predict_from multiplier is_warm_unlocked teach
    predict-update m j job n e h = go (j.estimated_cost == 0 || j.observed_cost == 0)
      where
        x : F
        x = fl.div (fl.of_ℕ j.observed_cost) (fl.of_ℕ j.estimated_cost)

        from :
            (s? : Option (NodeLearningState F))
            → predict_from (teach m j x) job n s? ≡ predict_from m job n s?
        from none = refl
        from (some s) =
            let d = m.config in
            let y : F → F = fl.mul s.throughput_multiplier.value in
            ap
              (λ g.
                if leb d.warm_threshold s.observation_count
                then lit.to_u64 (
                    fl.add
                      (fl.mul (fl.of_ℕ job.estimated_cost) (
                        clampf
                          (if m.degradation_enabled
                            then fl.mul (y g) (get_curve s.degradation job.queue_depth_at_dispatch)
                            else y g)
                          d.min_multiplier d.max_multiplier))
                      lit.half)
                else job.estimated_cost)
              (get_cell-update_cell m.affinity_matrix j.executed_by j.job_class x n job.job_class h)

        go : (b : Bool) → predict (if b then m else teach m j x) job n ≡ predict m job n
        go true = refl
        go false =
            ap (predict_from (teach m j x) job n) (find-teach m j x n e)
            ∙ from (states.find m.node_states n)

  config-learn :
      (m : CostModel F M) (js : List Job)
      → (learn m js).affinity_matrix.config ≡ m.affinity_matrix.config
  unfolding learn update teach update_cell
  config-learn m [] = refl
  config-learn m (j ∷ js) = ground (arith, config-learn m js)

  affinity_observations-update :
      (m : CostModel F M) (j : Job) (r c : ℕ)
      → affinity_observations (update m j) r c ≡ (
          if teaches j
            && (clamp_row m.affinity_matrix.config r
                  == clamp_row m.affinity_matrix.config j.executed_by
                && clamp_col m.affinity_matrix.config c
                  == clamp_col m.affinity_matrix.config j.job_class)
          then u32 (affinity_observations m r c + 1)
          else affinity_observations m r c)
  unfolding affinity_observations update teach
  affinity_observations-update m j r c = ground (
    arith,
    observed-update_cell m.affinity_matrix j.executed_by j.job_class
        (fl.div (fl.of_ℕ j.observed_cost) (fl.of_ℕ j.estimated_cost)) r c,
  )

  -- A cell of the affinity matrix has been observed as often as jobs that taught the model were of
  -- a node and a class that are clamped to it, fewer than 2^32 of them.
  pub affinity_observations-learn :
      (m : CostModel F M) (js : List Job) (r c : ℕ)
      → affinity_observations m r c + cell_lessons m.affinity_matrix.config js r c < 2 ^ 32
      → affinity_observations (learn m js) r c
        ≡ affinity_observations m r c + cell_lessons m.affinity_matrix.config js r c
  unfolding learn cell_lessons
  affinity_observations-learn m [] r c h = omega arith
  affinity_observations-learn m (j ∷ js) r c h =
      let e = config-learn m js in
      ground (
        arith,
        affinity_observations-update (learn m js) j r c,
        affinity_observations-learn m js r c,
        e,
        ap (λ d. clamp_row d r) e,
        ap (λ d. clamp_row d j.executed_by) e,
        ap (λ d. clamp_col d c) e,
        ap (λ d. clamp_col d j.job_class) e,
        h,
      )
