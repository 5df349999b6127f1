-- ===== src/Cost/Matrix.antt =====
-- AffinityMatrix.h but its persistence. fat_p::RowMajorTensor is a function of the row and the
-- column.
use fatp_balancer.Base.{ℕ, zero, suc, ◌+◌, ◌*◌, Bool, false, ◌&&◌, ltb, leb, ◌==◌, if◌then◌else◌}
use fatp_balancer.Job.{u32, dec_u32}
use fatp_balancer.Floats.{Floats}

pub record AffinityMatrixConfig (F : Type 0) : Type 0 where
  pub max_nodes : ℕ
  pub max_job_classes : ℕ
  pub alpha : F
  pub warm_threshold : ℕ

pub record AffinityMatrix (F : Type 0) : Type 0 where
  pub config : AffinityMatrixConfig F
  pub values : ℕ → ℕ → F
  pub observations : ℕ → ℕ → ℕ

-- A write to one cell.
unfoldable pub set_cell : {A : Type 0} → (ℕ → ℕ → A) → ℕ → ℕ → A → ℕ → ℕ → A
set_cell t r c x r' c' = if r' == r && c' == c then x else t r' c'

module _ {F : Type 0} ⦃fl : Floats F⦄ where
  -- `alpha * observation + (1.0f - alpha) * value`
  unfoldable pub blend : F → F → F → F
  blend alpha x value = fl.add (fl.mul alpha x) (fl.mul (fl.sub (fl.of_ℕ 1) alpha) value)

  unfoldable pub new_matrix : AffinityMatrixConfig F → AffinityMatrix F
  new_matrix config = record { config = config; values = λ r c. fl.of_ℕ 1; observations = λ r c. 0 }

  unfoldable pub clamp_row : AffinityMatrixConfig F → ℕ → ℕ
  clamp_row config r = if ltb r config.max_nodes then r else dec_u32 config.max_nodes

  unfoldable pub clamp_col : AffinityMatrixConfig F → ℕ → ℕ
  clamp_col config c = if ltb c config.max_job_classes then c else dec_u32 config.max_job_classes

  unfoldable pub update_cell : AffinityMatrix F → ℕ → ℕ → F → AffinityMatrix F
  unfolding blend clamp_row clamp_col set_cell
  update_cell m node_idx class_idx ratio =
      let r = clamp_row m.config node_idx in
      let c = clamp_col m.config class_idx in
      record m {
        values = set_cell m.values r c (blend m.config.alpha ratio (m.values r c));
        observations = set_cell m.observations r c (u32 (m.observations r c + 1));
      }

  unfoldable pub matrix_observations : AffinityMatrix F → ℕ → ℕ → ℕ
  unfolding clamp_row clamp_col
  matrix_observations m node_idx class_idx =
      m.observations (clamp_row m.config node_idx) (clamp_col m.config class_idx)

  unfoldable pub get_cell : AffinityMatrix F → ℕ → ℕ → F
  unfolding clamp_row clamp_col
  get_cell m node_idx class_idx =
      let r = clamp_row m.config node_idx in
      let c = clamp_col m.config class_idx in
      if ltb (m.observations r c) m.config.warm_threshold then fl.of_ℕ 1 else m.values r c

  unfoldable pub is_cell_warm : AffinityMatrix F → ℕ → ℕ → Bool
  unfolding matrix_observations
  is_cell_warm m node_idx class_idx =
      leb m.config.warm_threshold (matrix_observations m node_idx class_idx)

  -- The two loops of isMatrixWarm, from the last cell; `n` rows or columns are left.
  unfoldable pub warm_in_row : AffinityMatrix F → ℕ → ℕ → ℕ
  warm_in_row m r zero = 0
  warm_in_row m r (suc n) =
      let warm = warm_in_row m r n in
      if leb m.config.warm_threshold (m.observations r n) then warm + 1 else warm

  unfoldable pub warm_cells : AffinityMatrix F → ℕ → ℕ
  unfolding warm_in_row
  warm_cells m zero = 0
  warm_cells m (suc n) = warm_cells m n + warm_in_row m n m.config.max_job_classes

  unfoldable pub is_matrix_warm : AffinityMatrix F → F → Bool
  unfolding warm_cells
  is_matrix_warm m fraction =
      let total = u32 (m.config.max_nodes * m.config.max_job_classes) in
      if total == 0
      then false
      else fl.le fraction (fl.div (fl.of_ℕ (u32 (warm_cells m m.config.max_nodes))) (fl.of_ℕ total))

  unfoldable pub reset_matrix : AffinityMatrix F → AffinityMatrix F
  reset_matrix m = record m { values = λ r c. fl.of_ℕ 1; observations = λ r c. 0 }
