-- ===== src/Cost/File.antt =====
-- CostModel.h: save and load, with AffinityMatrix's. FastHashMap is an interface; the file is what
-- could be opened, and parsed, of it.
use fatp_balancer.Base.{
  ℕ, zero, suc, ◌+◌, Bool, true, false, leb, ◌==◌, if◌then◌else◌, List, [], ◌∷◌, Option, none, some,
  Expected, ok, err,
}
use fatp_balancer.Job.{u32}
use fatp_balancer.Floats.{Floats}
use fatp_balancer.Balancer.State.{FastHashMap}
use fatp_balancer.Cost.Matrix.{AffinityMatrix, new_matrix, reset_matrix}
use fatp_balancer.Cost.Curve.{
  Bucket, NodeLearningState, DegradationCurveConfig, Literals, new_state, configure, max_buckets,
}
use fatp_balancer.Cost.Model.{CostModel, reset}
use fatp_balancer.Cost.Json.{
  JsonText, Key, version, nodes, affinity, observations, throughput_multiplier, observation_count,
  degradation_buckets, value, number, Json, find_key,
}
use fatp_balancer.Cost.Persist.{
  PersistError, file_open_failed, malformed_json, dimension_mismatch, save_matrix, read_float,
  read_count, load_matrix,
}

-- What FastHashMap is iterated over.
pub record Entries (V M : Type 0) : Type 0 where
  pub clear : M
  pub entries : M → List (ℕ × V)

-- What std::ifstream makes of a path.
pub data Source (T : Type 0) : Type 0 where
  unopened : Source T
  content : T → Source T

-- std::stoul
abbrev pub parse_key : Key → Option ℕ
parse_key (number n) = some n
parse_key _ = none

module _ {F M : Type 0} ⦃states : FastHashMap (NodeLearningState F) M⦄ where
  -- `mNodeStates[k] = v`
  unfoldable pub insert_all : M → List (ℕ × NodeLearningState F) → M
  insert_all m [] = m
  insert_all m ((k, s) ∷ xs) = insert_all (states.insert m k s) xs

module _ {F M : Type 0} ⦃fl : Floats F⦄ ⦃lit : Literals F⦄
    ⦃states : FastHashMap (NodeLearningState F) M⦄ ⦃all : Entries (NodeLearningState F) M⦄ where
  -- clearModel, and the error that is returned.
  unfoldable pub clear_model :
      CostModel F M → PersistError → CostModel F M × Expected (Unit {0}) PersistError
  unfolding reset
  clear_model m e = (reset m all.clear, err e)

module _ {J F : Type 0} ⦃fl : Floats F⦄ ⦃lit : Literals F⦄ ⦃json : Json J F⦄ where
  unfoldable pub bucket_json : Bucket F → J
  bucket_json b =
      json.object
        ((value, json.double b.multiplier.value) ∷ (observations, json.int b.observations) ∷ [])

  -- `n` buckets from the b-th.
  unfoldable pub buckets_json : (ℕ → Bucket F) → ℕ → ℕ → List J
  unfolding bucket_json
  buckets_json buckets b zero = []
  buckets_json buckets b (suc n) = bucket_json (buckets b) ∷ buckets_json buckets (suc b) n

  unfoldable pub state_json : NodeLearningState F → J
  unfolding buckets_json
  state_json s = json.object (
      (throughput_multiplier, json.double s.throughput_multiplier.value)
      ∷ (observation_count, json.int s.observation_count)
      ∷ (
        degradation_buckets,
        json.array (buckets_json s.degradation.buckets 0 s.degradation.bucket_count),
      )
      ∷ [])

  unfoldable pub load_bucket : Bucket F → List (Key × J) → Bucket F
  unfolding read_float read_count find_key
  load_bucket b obj = record {
    multiplier = record b.multiplier { value = read_float b.multiplier.value (find_key obj value) };
    observations = read_count json b.observations (find_key obj observations);
  }

  -- The buckets from the b-th; an entry that is no object is passed over.
  unfoldable pub load_buckets : (ℕ → Bucket F) → ℕ → List J → ℕ → Bucket F
  unfolding load_bucket
  load_buckets buckets b [] = buckets
  load_buckets buckets b (j ∷ js) =
      let skip = load_buckets buckets b js in
      let take : List (Key × J) → ℕ → Bucket F = λ obj.
        load_buckets (λ i. if i == b then load_bucket (buckets b) obj else buckets i) (b + 1) js in
      if leb max_buckets b
      then buckets
      else elim (json.as_object j) [ none ↦ skip | some obj ↦ take obj ]

  unfoldable pub found_buckets : (ℕ → Bucket F) → Option J → ℕ → Bucket F
  unfolding load_buckets
  found_buckets buckets none = buckets
  found_buckets buckets (some j) = elim (json.as_array j) [
    | none ↦ buckets
    | some js ↦ load_buckets buckets 0 js
  ]

  -- A node's state, once its two required fields were found.
  unfoldable pub read_state :
      DegradationCurveConfig F → List (Key × J) → J → J → NodeLearningState F
  unfolding new_state configure read_float read_count found_buckets find_key
  read_state config ns tm oc =
      let fresh = new_state in
      let d = configure fresh.degradation config in
      record {
        throughput_multiplier = record fresh.throughput_multiplier {
          value = read_float (fl.of_ℕ 1) (some tm);
        };
        observation_count = read_count json 0 (some oc);
        degradation = record d {
          buckets = found_buckets d.buckets (find_key ns degradation_buckets);
        };
      }

  unfoldable pub nodes_json : List (ℕ × NodeLearningState F) → List (Key × J)
  unfolding state_json
  nodes_json [] = []
  nodes_json ((k, s) ∷ xs) = (number k, state_json s) ∷ nodes_json xs

  module _ {M : Type 0} ⦃states : FastHashMap (NodeLearningState F) M⦄
      ⦃all : Entries (NodeLearningState F) M⦄ where
    unfoldable pub to_json : CostModel F M → J
    unfolding nodes_json save_matrix
    to_json m = json.object (
        (version, json.int 1)
        ∷ (nodes, json.object (nodes_json (all.entries m.node_states)))
        ∷ (affinity, save_matrix m.affinity_matrix)
        ∷ [])

    -- `is_open` is out.is_open(); the text is what is written.
    unfoldable pub save :
        {T : Type 0} → JsonText J T → CostModel F M → Bool → Expected T PersistError
    unfolding to_json
    save text m is_open =
        if is_open then ok (text.to_json_string (to_json m) true) else err file_open_failed

    unfoldable pub commit : Json J F → CostModel F M → M × AffinityMatrix F → CostModel F M
    unfolding insert_all save_matrix load_matrix reset_matrix
    commit j m (read, matrix) = record m {
      node_states = insert_all all.clear (all.entries read);
      affinity_matrix =
          (load_matrix ⦃json = j⦄ (reset_matrix m.affinity_matrix)
            (save_matrix ⦃json = j⦄ matrix)).0;
    }

    -- The loop over the nodes, then the commit; `matrix` is what was read of the affinity matrix.
    unfoldable pub load_nodes :
        CostModel F M
        → AffinityMatrix F
        → M
        → List (Key × J)
        → CostModel F M × Expected (Unit {0}) PersistError
    unfolding clear_model commit find_key read_state
    load_nodes m matrix read [] = (commit json m (read, matrix), ok tt)
    load_nodes m matrix read ((k, j) ∷ xs) =
        let rest : NodeLearningState F → ℕ → CostModel F M × Expected (Unit {0}) PersistError =
          λ s n. load_nodes m matrix (states.insert read (u32 n) s) xs in
        elim (json.as_object j) [
          | none ↦ clear_model m malformed_json
          | some ns ↦ elim (find_key ns throughput_multiplier) [
            | none ↦ clear_model m malformed_json
            | some tm ↦ elim (find_key ns observation_count) [
              | none ↦ clear_model m malformed_json
              | some oc ↦ elim (parse_key k) [
                | none ↦ clear_model m malformed_json
                | some n ↦ rest (read_state m.config.degradation ns tm oc) n
              ]
            ]
          ]
        ]

    -- The nodes of the file, once its affinity matrix was loaded or refused.
    unfoldable pub load_rest :
        CostModel F M
        → List (Key × J)
        → AffinityMatrix F × Bool
        → CostModel F M × Expected (Unit {0}) PersistError
    unfolding clear_model find_key load_nodes
    load_rest m root (matrix, false) = clear_model m dimension_mismatch
    load_rest m root (matrix, true) = elim (find_key root nodes) [
      | none ↦ clear_model m malformed_json
      | some nj ↦ elim (json.as_object nj) [
        | none ↦ clear_model m malformed_json
        | some ns ↦ load_nodes m matrix all.clear ns
      ]
    ]

    unfoldable pub load_root :
        CostModel F M → Option (List (Key × J)) → CostModel F M × Expected (Unit {0}) PersistError
    unfolding clear_model find_key new_matrix load_matrix load_rest
    load_root m none = clear_model m malformed_json
    load_root m (some root) = elim (find_key root affinity) [
      | none ↦ clear_model m malformed_json
      | some aj ↦ load_rest m root (load_matrix (new_matrix m.config.affinity) aj)
    ]

    -- Every failure clears the model where the code does; a file that does not open leaves it.
    unfoldable pub load :
        {T : Type 0}
        → JsonText J T
        → CostModel F M
        → Source T
        → CostModel F M × Expected (Unit {0}) PersistError
    unfolding clear_model load_root
    load text m unopened = (m, err file_open_failed)
    load text m (content t) = elim (text.parse_json t) [
      | none ↦ clear_model m malformed_json
      | some root ↦ load_root m (json.as_object root)
    ]
