-- ===== src/Cost/Forecast.antt =====
-- CostModel.h: the predictions of a model that loads what was saved of another.
use fatp_balancer.Base.{
  ℕ, ◌+◌, ◌*◌, ◌^◌, ◌<◌, ◌≡◌, refl, sym, ap, subst, ◌∙◌, Bool, true, false, ◌&&◌, ltb, leb,
  if◌then◌else◌, List, get_elem?, Option, none, some, ok, err, All, arith,
}
use fatp_balancer.Job.{Job, u32}
use fatp_balancer.Floats.{Floats}
use fatp_balancer.Balancer.State.{FastHashMap}
use fatp_balancer.Cost.Matrix.{
  AffinityMatrix, AffinityMatrixConfig, new_matrix, reset_matrix, get_cell, clamp_row, clamp_col,
}
use fatp_balancer.Cost.Curve.{NodeLearningState, Literals, get_curve}
use fatp_balancer.Cost.Model.{
  CostModel, CostModelConfig, predict, predict_from, multiplier, clampf, is_warm_unlocked,
  observation_count, node_multiplier, affinity_score,
}
use fatp_balancer.Cost.Json.{Json, JsonText, JsonLaws, TextLaws}
use fatp_balancer.Cost.Persist.{read_count, restored}
use fatp_balancer.Cost.File.{Entries, content, save, load, commit}
use fatp_balancer.Cost.Snapshot.{arrays, load_matrix-restored, value-restored, count-restored}
use fatp_balancer.Cost.Reload.{
  map_option, EntriesLaws, reloaded, read_back, matrix_of, find-commit, written, load-written,
  load-to_json,
}
use fatp_balancer.Cost.Storable.{IsStorable, IsStorableModel}
use fatp_balancer.Cost.Restored.{get_curve-reloaded}

-- Cells that are equal.
record HasSameCells {F : Type 0} (p q : AffinityMatrix F) : Type 0 where
  config : p.config ≡ q.config
  values :
      (r c : ℕ)
      → r < q.config.max_nodes
      → c < q.config.max_job_classes
      → p.values r c ≡ q.values r c
  observations :
      (r c : ℕ)
      → r < q.config.max_nodes
      → c < q.config.max_job_classes
      → p.observations r c ≡ q.observations r c

-- A row and a column to clamp to, and sizes of 32 bits.
pub record IsSized {F : Type 0} (config : AffinityMatrixConfig F) : Type 0 where
  pub some_row : 0 < config.max_nodes
  pub rows : config.max_nodes < 2 ^ 32
  pub some_column : 0 < config.max_job_classes
  pub columns : config.max_job_classes < 2 ^ 32

-- What the balancer and its policies ask of a cost model.
pub record HasSameAnswers {F M : Type 0} ⦃fl : Floats F⦄ ⦃lit : Literals F⦄
    ⦃states : FastHashMap (NodeLearningState F) M⦄ (m m' : CostModel F M) : Type 0 where
  pub predictions : (job : Job) (n : ℕ) → predict m job n ≡ predict m' job n
  pub counts : (n : ℕ) → observation_count m n ≡ observation_count m' n
  pub multipliers : (n : ℕ) → node_multiplier m n ≡ node_multiplier m' n
  pub scores : (n c : ℕ) → affinity_score m n c ≡ affinity_score m' n c

module _ {F : Type 0} ⦃fl : Floats F⦄ where
  get_cell-HasSameCells :
      (p q : AffinityMatrix F) (n k : ℕ)
      → HasSameCells p q
      → IsSized q.config
      → get_cell p n k ≡ get_cell q n k
  unfolding get_cell clamp_row clamp_col
  get_cell-HasSameCells p q n k h z =
      let r = clamp_row q.config n in
      let c = clamp_col q.config k in
      let i : r < q.config.max_nodes = ground (arith, z.some_row, z.rows) in
      let j : c < q.config.max_job_classes = ground (arith, z.some_column, z.columns) in
      let d : get_cell p n k
          ≡ (if ltb (p.observations r c) q.config.warm_threshold then fl.of_ℕ 1 else p.values r c) =
        ap
          (λ e.
            if ltb (p.observations (clamp_row e n) (clamp_col e k)) e.warm_threshold
            then fl.of_ℕ 1
            else p.values (clamp_row e n) (clamp_col e k))
          h.config in
      d
      ∙ ap (λ o. if ltb o q.config.warm_threshold then fl.of_ℕ 1 else p.values r c)
          (h.observations r c i j)
      ∙ ap (λ v. if ltb (q.observations r c) q.config.warm_threshold then fl.of_ℕ 1 else v)
          (h.values r c i j)

module _ (J : Type 0) {F : Type 0} ⦃fl : Floats F⦄ ⦃json : Json J F⦄ where
  observations-restored :
      (m : AffinityMatrix F) (a : List J × List J) (r c : ℕ)
      → (restored m a).observations r c < 2 ^ 32
  unfolding restored read_count
  observations-restored m (vals, obs) r c =
      go (ltb r m.config.max_nodes && ltb c m.config.max_job_classes)
    where
      found : Option J → ℕ
      found o = read_count json 0 o

      counted : (o : Option J) → found o < 2 ^ 32
      counted none = omega arith
      counted (some j) = ground arith

      go :
          (b : Bool)
          → (if b then read_count json 0 (get_elem? obs (r * m.config.max_job_classes + c)) else 0)
            < 2 ^ 32
      go true = counted (get_elem? obs (r * m.config.max_job_classes + c))
      go false = omega arith

module _ (J : Type 0) {F : Type 0} ⦃fl : Floats F⦄ ⦃json : Json J F⦄ (ρ : J → J)
    (laws : JsonLaws json ρ) where
  restored-HasSameCells :
      (m m' : AffinityMatrix F)
      → m'.config ≡ m.config
      → ((r c : ℕ) → m.observations r c < 2 ^ 32)
      → HasSameCells (restored m' (arrays J ρ laws m)) m
  unfolding restored
  restored-HasSameCells m m' e o = record {
    config = e;
    values = λ r c h k. value-restored J ρ laws m m' r c e h k;
    observations = λ r c h k. count-restored J ρ laws m m' r c e (o r c) h k;
  }

module _ {F : Type 0} ⦃fl : Floats F⦄ ⦃lit : Literals F⦄ where
  -- The multiplier that a prediction is made with, and the prediction.
  answer : CostModelConfig F → Job → NodeLearningState F → Bool → F → F → ℕ → ℕ
  answer config job s enabled cell curve count =
      let x = fl.mul s.throughput_multiplier.value cell in
      let y = if enabled then fl.mul x curve else x in
      let v = clampf y config.min_multiplier config.max_multiplier in
      if leb config.warm_threshold count
      then lit.to_u64 (fl.add (fl.mul (fl.of_ℕ job.estimated_cost) v) lit.half)
      else job.estimated_cost

module _ (J : Type 0) {F M : Type 0} ⦃fl : Floats F⦄ ⦃lit : Literals F⦄ ⦃json : Json J F⦄
    (ρ : J → J) (laws : JsonLaws json ρ) ⦃states : FastHashMap (NodeLearningState F) M⦄ where
  predict_from-reloaded :
      (m m' : CostModel F M) (job : Job) (n : ℕ) (s? : Option (NodeLearningState F))
      → m'.config ≡ m.config
      → m'.degradation_enabled ≡ m.degradation_enabled
      → get_cell m'.affinity_matrix n job.job_class ≡ get_cell m.affinity_matrix n job.job_class
      → ((s : NodeLearningState F) → s? ≡ some s → IsStorable fl m.config.degradation s)
      → predict_from m' job n (map_option (reloaded J ρ laws m.config.degradation) s?)
        ≡ predict_from m job n s?
  unfolding predict_from multiplier is_warm_unlocked reloaded answer
  predict_from-reloaded m m' job n none c d e h = refl
  predict_from-reloaded m m' job n (some s) c d e h =
      let depth = job.queue_depth_at_dispatch in
      let cell = get_cell m.affinity_matrix n job.job_class in
      let cell' = get_cell m'.affinity_matrix n job.job_class in
      let curve' = get_curve (reloaded J ρ laws m.config.degradation s).degradation depth in
      let curve = get_curve s.degradation depth in
      let k : u32 s.observation_count ≡ s.observation_count = omega (arith, (h s refl).count) in
      ap (λ x. answer x job s m'.degradation_enabled cell' curve' (u32 s.observation_count)) c
      ∙ ap (λ x. answer m.config job s x cell' curve' (u32 s.observation_count)) d
      ∙ ap (λ x. answer m.config job s m.degradation_enabled x curve' (u32 s.observation_count)) e
      ∙ ap (λ x. answer m.config job s m.degradation_enabled cell x (u32 s.observation_count))
          (get_curve-reloaded J ρ laws m.config.degradation s depth (h s refl))
      ∙ ap (answer m.config job s m.degradation_enabled cell curve) k

module _ (J : Type 0) {F M : Type 0} ⦃fl : Floats F⦄ ⦃lit : Literals F⦄ ⦃json : Json J F⦄
    (ρ : J → J) (laws : JsonLaws json ρ) (memory : JsonLaws json (λ j. j))
    ⦃states : FastHashMap (NodeLearningState F) M⦄ ⦃all : Entries (NodeLearningState F) M⦄
    ⦃entries : EntriesLaws states all⦄ where
  -- A cell after a load, which saves and loads the matrix of the file once more.
  get_cell-commit :
      (m m' : CostModel F M) (n k : ℕ)
      → IsStorableModel fl states m
      → m'.affinity_matrix.config ≡ m.affinity_matrix.config
      → IsSized m.affinity_matrix.config
      → get_cell (commit json m' (read_back J ρ laws m, matrix_of J ρ laws m)).affinity_matrix n k
        ≡ get_cell m.affinity_matrix n k
  unfolding commit matrix_of new_matrix reset_matrix restored
  get_cell-commit m m' n k h e z =
      let x = matrix_of J ρ laws m in
      let y = reset_matrix m'.affinity_matrix in
      let d : y.config ≡ x.config = e ∙ h.matrix in
      let w : IsSized x.config = subst IsSized h.matrix z in
      ap (λ p. get_cell p.0 n k) (load_matrix-restored J (λ j. j) memory x y w.rows w.columns d)
      ∙ get_cell-HasSameCells (restored y (arrays J (λ j. j) memory x)) x n k
          (restored-HasSameCells J (λ j. j) memory x y d
            (observations-restored J (new_matrix m.config.affinity)
              (arrays J ρ laws m.affinity_matrix)))
          w
      ∙ get_cell-HasSameCells x m.affinity_matrix n k
          (restored-HasSameCells J ρ laws m.affinity_matrix (new_matrix m.config.affinity)
            (sym h.matrix) h.cells)
          z

module _ {F M T : Type 0} (J : Type 0) ⦃fl : Floats F⦄ ⦃lit : Literals F⦄ ⦃json : Json J F⦄
    (text : JsonText J T) ⦃laws : TextLaws json text⦄ ⦃memory : JsonLaws json (λ j. j)⦄
    ⦃states : FastHashMap (NodeLearningState F) M⦄ ⦃all : Entries (NodeLearningState F) M⦄
    ⦃entries : EntriesLaws states all⦄ where
  -- Over JSON values that give back what was put in, texts that are parsed as what was written, where
  -- a double may come back as an integer of the same value, and maps whose iteration meets every
  -- entry once, for a model whose counts have 32 bits, whose curves and matrix have the settings
  -- that its configuration makes, with a row and a column or more of the matrix, fewer than 2^32 of
  -- each, and numbers of nodes below 2^32: a model of the same configurations and switch of the
  -- degradation that loads the text that was saved of it succeeds, and predicts the same cost for
  -- every job on every node, with the same counts, multipliers and affinity scores.
  pub load-HasSameAnswers :
      (m m' : CostModel F M) {t : T}
      → save text m true ≡ ok t
      → IsStorableModel fl states m
      → m'.config ≡ m.config
      → m'.affinity_matrix.config ≡ m.affinity_matrix.config
      → m'.degradation_enabled ≡ m.degradation_enabled
      → IsSized m.affinity_matrix.config
      → All (λ x. x.0 < 2 ^ 32) (all.entries m.node_states)
      → ((load text m' (content t)).1 ≡ ok tt) × HasSameAnswers (load text m' (content t)).0 m
  unfolding save predict affinity_score commit
  load-HasSameAnswers m m' {t} saved h d c g z a =
      let w : IsSized m.config.affinity = subst IsSized h.matrix z in
      let k : t ≡ written J text m = ap (λ r. elim r [ ok t' ↦ t' | err e ↦ t ]) (sym saved) in
      let l =
        ap (λ t. load text m' (content t)) k
        ∙ load-written J text m m' d h.matrix w.rows w.columns a in
      let x = matrix_of J laws.reread laws.laws m in
      let new = commit json m' (read_back J laws.reread laws.laws m, x) in
      let old =
        subst
          (λ t.
            ((load text m' (content t)).1 ≡ ok tt)
            × ((n : ℕ)
                → (observation_count (load text m' (content t)).0 n ≡ observation_count m n)
                  × (node_multiplier (load text m' (content t)).0 n ≡ node_multiplier m n)))
          (sym k)
          (load-to_json J text m m' d h.matrix w.rows w.columns a
            (λ n s e. (h.nodes n s e).count)) in
      (
        old.0,
        record {
          predictions = λ job n.
              ap (λ y. predict y.0 job n) l
              ∙ ap (predict_from new job n) (find-commit J laws.reread laws.laws m m' x n)
              ∙ predict_from-reloaded J laws.reread laws.laws m new job n
                  (states.find m.node_states n) d g
                  (get_cell-commit J laws.reread laws.laws memory m m' n job.job_class h c z)
                  (h.nodes n);
          counts = λ n. (old.1 n).0;
          multipliers = λ n. (old.1 n).1;
          scores = λ n k.
              ap (λ y. affinity_score y.0 n k) l
              ∙ get_cell-commit J laws.reread laws.laws memory m m' n k h c z;
        },
      )
