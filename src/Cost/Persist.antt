-- ===== src/Cost/Persist.antt =====
-- AffinityMatrix.h and CostModel.h: save and load. The file is what could be opened and parsed of
-- it.
use fatp_balancer.Base.{
  ℕ, zero, suc, ◌+◌, ◌*◌, Bool, true, false, ◌&&◌, ltb, ◌==◌, if◌then◌else◌, List, [], ◌∷◌, ◌++◌,
  Option, none, some, length, get_elem?, Expected, ok, err,
}
use fatp_balancer.Job.{u32}
use fatp_balancer.Floats.{Floats}
use fatp_balancer.Cost.Matrix.{AffinityMatrixConfig, AffinityMatrix}
use fatp_balancer.Cost.Json.{
  max_nodes, max_job_classes, warm_threshold, alpha, values, observations, Json, find_key, ◌>>=◌,
  ◌>>◌, some_or, require,
}

pub data PersistError : Type 0 where
  file_open_failed malformed_json dimension_mismatch : PersistError

-- The two loops over the cells: `n` columns from `c`, and `n` rows from `r`.
unfoldable pub row_cells : {A : Type 0} → (ℕ → ℕ → A) → ℕ → ℕ → ℕ → List A
row_cells f r c zero = []
row_cells f r c (suc n) = f r c ∷ row_cells f r (suc c) n

unfoldable pub all_cells : {A : Type 0} → (ℕ → ℕ → A) → ℕ → ℕ → ℕ → List A
unfolding row_cells
all_cells f columns r zero = []
all_cells f columns r (suc n) = row_cells f r 0 columns ++ all_cells f columns (suc r) n

unfoldable pub read_count : {J F : Type 0} → Json J F → ℕ → Option J → ℕ
read_count json n none = n
read_count json n (some j) = elim (json.as_int j) [ some k ↦ u32 k | none ↦ n ]

module _ {J F : Type 0} ⦃fl : Floats F⦄ ⦃json : Json J F⦄ where
  unfoldable pub save_matrix : AffinityMatrix F → J
  unfolding all_cells
  save_matrix m =
      let c = m.config in
      json.object (
        (max_nodes, json.int c.max_nodes)
        ∷ (max_job_classes, json.int c.max_job_classes)
        ∷ (warm_threshold, json.int c.warm_threshold)
        ∷ (alpha, json.double c.alpha)
        ∷ (
          values,
          json.array
              (all_cells (λ r k. json.double (m.values r k)) c.max_job_classes 0 c.max_nodes),
        )
        ∷ (
          observations,
          json.array
              (all_cells (λ r k. json.int (m.observations r k)) c.max_job_classes 0 c.max_nodes),
        )
        ∷ [])

  -- `is_int`, else `double`, else what is there.
  unfoldable pub read_float : F → Option J → F
  read_float x none = x
  read_float x (some j) = elim (json.as_int j) [
    | some n ↦ json.int_to_float n
    | none ↦ elim (json.as_float j) [ some y ↦ y | none ↦ x ]
  ]

  -- The flat arrays of a snapshot that fits; every other one is refused with `e`.
  unfoldable pub parse_matrix :
      AffinityMatrixConfig F → PersistError → J → Expected (List J × List J) PersistError
  unfolding find_key
  parse_matrix c e j = do
    obj ← some_or e (json.as_object j)
    rows ← some_or e (find_key obj max_nodes)
    saved_nodes ← some_or e (json.as_int rows)
    columns ← some_or e (find_key obj max_job_classes)
    saved_classes ← some_or e (json.as_int columns)
    require e (u32 saved_nodes == c.max_nodes && u32 saved_classes == c.max_job_classes)
    vj ← some_or e (find_key obj values)
    oj ← some_or e (find_key obj observations)
    vals ← some_or e (json.as_array vj)
    obs ← some_or e (json.as_array oj)
    let expected = c.max_nodes * c.max_job_classes
    require e (length vals == expected && length obs == expected)
    ok (vals, obs)

  -- The cells of the flat arrays, which are written over a matrix that was reset.
  unfoldable pub restored : AffinityMatrix F → List J × List J → AffinityMatrix F
  unfolding read_float read_count
  restored m (vals, obs) =
      let c = m.config in
      record m {
        values = λ r k.
            if ltb r c.max_nodes && ltb k c.max_job_classes
            then read_float (fl.of_ℕ 1) (get_elem? vals (r * c.max_job_classes + k))
            else fl.of_ℕ 1;
        observations = λ r k.
            if ltb r c.max_nodes && ltb k c.max_job_classes
            then read_count json 0 (get_elem? obs (r * c.max_job_classes + k))
            else 0;
      }

  unfoldable pub load_arrays :
      AffinityMatrix F → Expected (List J × List J) PersistError → AffinityMatrix F × Bool
  unfolding restored
  load_arrays m (ok arrays) = (restored m arrays, true)
  load_arrays m (err e) = (m, false)

  -- AffinityMatrix::load
  unfoldable pub load_matrix : AffinityMatrix F → J → AffinityMatrix F × Bool
  unfolding parse_matrix load_arrays
  load_matrix m j = load_arrays m (parse_matrix m.config dimension_mismatch j)
