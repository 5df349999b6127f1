-- ===== src/Cost/Reload.antt =====
-- CostModel.h: load of what save wrote of a whole model.
use fatp_balancer.Base.{
  ℕ, ◌^◌, ◌<◌, ◌≡◌, refl, sym, ap, subst, ◌∙◌, true, leb, if◌then◌else◌, List, [], ◌∷◌, Option,
  none, some, ok, All, arith,
}
use fatp_balancer.Job.{u32}
use fatp_balancer.Floats.{Floats}
use fatp_balancer.Balancer.State.{FastHashMap}
use fatp_balancer.Cost.Matrix.{AffinityMatrix, new_matrix}
use fatp_balancer.Cost.Curve.{
  NodeLearningState, DegradationCurveConfig, Literals, new_state, configure,
}
use fatp_balancer.Cost.Model as Model
use fatp_balancer.Cost.Model.{
  CostModel, count_found, node_multiplier, multiplier_found, clampf, is_warm_unlocked,
}
use fatp_balancer.Cost.Json.{
  Json, JsonText, JsonLaws, TextLaws, map_values, find_key, Key, version, nodes, affinity,
  throughput_multiplier, observation_count, degradation_buckets,
}
use fatp_balancer.Cost.Persist.{read_float, save_matrix, load_matrix, restored}
use fatp_balancer.Cost.File.{
  Entries, content, state_json, buckets_json, found_buckets, read_state, nodes_json, to_json,
  insert_all, commit, load_nodes, load_rest, load_root, load,
}
use fatp_balancer.Cost.Snapshot.{load_matrix-restored, arrays, read_float-IsNumber, read_count-int}

-- Option.map
abbrev pub map_option : {A B : Type 0} → (A → B) → Option A → Option B
map_option f none = none
map_option f (some a) = some (f a)

-- What iteration promises: every entry is met once.
pub record EntriesLaws {F M : Type 0} (states : FastHashMap (NodeLearningState F) M)
    (all : Entries (NodeLearningState F) M) : Type 0 where
  pub find-entries :
      (f : NodeLearningState F → NodeLearningState F) (m : M) (k : ℕ)
      → states.find (insert_all ⦃states = states⦄ all.clear (map_values f (all.entries m))) k
        ≡ map_option f (states.find m k)

map_values_id : {V : Type 0} (xs : List (ℕ × V)) → map_values (λ v. v) xs ≡ xs
map_values_id [] = refl
map_values_id ((k, v) ∷ xs) = ap (λ ys. (k, v) ∷ ys) (map_values_id xs)

map_option_id : {V : Type 0} (o : Option V) → map_option (λ v. v) o ≡ o
map_option_id none = refl
map_option_id (some v) = refl

module _ (J : Type 0) {F : Type 0} ⦃fl : Floats F⦄ ⦃lit : Literals F⦄ ⦃json : Json J F⦄ (ρ : J → J)
    (laws : JsonLaws json ρ) where
  -- What is read of a state that was written.
  unfoldable pub reloaded : DegradationCurveConfig F → NodeLearningState F → NodeLearningState F
  unfolding new_state configure found_buckets buckets_json
  reloaded config s =
      let d = configure (new_state {F = F}).degradation config in
      record {
        throughput_multiplier = record (new_state {F = F}).throughput_multiplier {
          value = s.throughput_multiplier.value;
        };
        observation_count = u32 s.observation_count;
        degradation = record d {
          buckets = found_buckets d.buckets (
              some
                (ρ (json.array (buckets_json s.degradation.buckets 0 s.degradation.bucket_count))));
        };
      }

  read_float-double : (x y : F) → read_float x (some (ρ (json.double y))) ≡ y
  read_float-double x y = read_float-IsNumber x (ρ (json.double y)) y (laws.double-IsNumber y)

  -- The fields of a state, as they are read.
  abbrev state_fields : NodeLearningState F → List (Key × J)
  state_fields s = map_values ρ (
      (throughput_multiplier, json.double s.throughput_multiplier.value)
      ∷ (observation_count, json.int s.observation_count)
      ∷ (
        degradation_buckets,
        json.array (buckets_json s.degradation.buckets 0 s.degradation.bucket_count),
      )
      ∷ [])

  read_state-state_fields :
      (config : DegradationCurveConfig F) (s : NodeLearningState F)
      → read_state config
          (state_fields s)
          (ρ (json.double s.throughput_multiplier.value))
          (ρ (json.int s.observation_count))
        ≡ reloaded config s
  unfolding read_state reloaded find_key new_state configure
  read_state-state_fields config s = simp (read_float-double, read_count-int ρ laws)

  load_nodes-nodes_json :
      {M : Type 0} ⦃states : FastHashMap (NodeLearningState F) M⦄
      ⦃all : Entries (NodeLearningState F) M⦄ (m : CostModel F M) (x : AffinityMatrix F) (read : M)
      (xs : List (ℕ × NodeLearningState F))
      → All (λ x. x.0 < 2 ^ 32) xs
      → load_nodes m x read (map_values ρ (nodes_json xs)) ≡ (
        commit json m (insert_all read (map_values (reloaded m.config.degradation) xs), x),
        ok tt,
      )
  unfolding load_nodes nodes_json insert_all state_json find_key
  load_nodes-nodes_json m x read [] h = refl
  load_nodes-nodes_json ⦃states = states⦄ m x read ((k, s) ∷ xs) h =
      let e : u32 k ≡ k = omega (arith, h.0) in
      simp (
        laws.as_object-object,
        read_state-state_fields,
        e,
        load_nodes-nodes_json m x (states.insert read k (reloaded m.config.degradation s)) xs h.1,
      )

  count-reloaded :
      (config : DegradationCurveConfig F) (s? : Option (NodeLearningState F))
      → ((s : NodeLearningState F) → s? ≡ some s → s.observation_count < 2 ^ 32)
      → count_found (map_option (reloaded config) s?) ≡ count_found s?
  unfolding count_found reloaded
  count-reloaded config none h = refl
  count-reloaded config (some s) h = omega (arith, h s refl)

module _ (J : Type 0) {F M : Type 0} ⦃fl : Floats F⦄ ⦃lit : Literals F⦄ ⦃json : Json J F⦄
    (ρ : J → J) (laws : JsonLaws json ρ) ⦃states : FastHashMap (NodeLearningState F) M⦄
    ⦃all : Entries (NodeLearningState F) M⦄ ⦃entries : EntriesLaws states all⦄ where
  unfoldable pub read_back : CostModel F M → M
  read_back m =
      insert_all all.clear
        (map_values (reloaded J ρ laws m.config.degradation) (all.entries m.node_states))

  -- What is read of the affinity matrix.
  unfoldable pub matrix_of : CostModel F M → AffinityMatrix F
  matrix_of m = restored (new_matrix m.config.affinity) (arrays J ρ laws m.affinity_matrix)

  -- The fields of the file, as they are read.
  abbrev root_of : CostModel F M → List (Key × J)
  root_of m = map_values ρ (
      (version, json.int 1)
      ∷ (nodes, json.object (nodes_json (all.entries m.node_states)))
      ∷ (affinity, save_matrix m.affinity_matrix)
      ∷ [])

  load_rest-root_of :
      (m m' : CostModel F M) (x : AffinityMatrix F)
      → m'.config ≡ m.config
      → All (λ x. x.0 < 2 ^ 32) (all.entries m.node_states)
      → load_rest m' (root_of m) (x, true) ≡ (commit json m' (read_back m, x), ok tt)
  unfolding load_rest find_key read_back
  load_rest-root_of m m' x d h =
      simp
        (
          laws.as_object-object,
          load_nodes-nodes_json J ρ laws m' x all.clear (all.entries m.node_states) h,
        )
        (ap
          (λ c. (
            commit json m' (
              insert_all all.clear
                  (map_values (reloaded J ρ laws c.degradation) (all.entries m.node_states)),
              x,
            ),
            ok tt,
          ))
          d)

  load_root-to_json :
      (m m' : CostModel F M)
      → m'.config ≡ m.config
      → m.affinity_matrix.config ≡ m.config.affinity
      → m.config.affinity.max_nodes < 2 ^ 32
      → m.config.affinity.max_job_classes < 2 ^ 32
      → All (λ x. x.0 < 2 ^ 32) (all.entries m.node_states)
      → load_root m' (json.as_object (ρ (to_json m)))
        ≡ (commit json m' (read_back m, matrix_of m), ok tt)
  unfolding load_root to_json find_key matrix_of new_matrix
  load_root-to_json m m' d e a b h =
      let fresh = new_matrix m.config.affinity in
      let l =
        load_matrix-restored J ρ laws m.affinity_matrix fresh
          (subst (λ c. c.max_nodes < 2 ^ 32) (sym e) a)
          (subst (λ c. c.max_job_classes < 2 ^ 32) (sym e) b) (sym e) in
      ap (load_root m') (laws.as_object-object _)
      ∙ ap
          (λ c.
            load_rest m' (root_of m)
              (load_matrix (new_matrix c.affinity) (ρ (save_matrix m.affinity_matrix))))
          d
      ∙ ap (load_rest m' (root_of m)) l
      ∙ load_rest-root_of m m' (matrix_of m) d h

  -- The states of the nodes after a load, by those that were saved.
  pub find-commit :
      (m m' : CostModel F M) (x : AffinityMatrix F) (n : ℕ)
      → states.find (commit json m' (read_back m, x)).node_states n
        ≡ map_option (reloaded J ρ laws m.config.degradation) (states.find m.node_states n)
  unfolding commit read_back
  find-commit m m' x n =
      ap (λ xs. states.find (insert_all all.clear xs) n)
        (sym (map_values_id (all.entries (read_back m))))
      ∙ entries.find-entries (λ s. s) (read_back m) n
      ∙ map_option_id (states.find (read_back m) n)
      ∙ entries.find-entries (reloaded J ρ laws m.config.degradation) m.node_states n

  multiplier-reloaded :
      (m c : CostModel F M) (config : DegradationCurveConfig F) (s? : Option (NodeLearningState F))
      → c.config ≡ m.config
      → ((s : NodeLearningState F) → s? ≡ some s → s.observation_count < 2 ^ 32)
      → multiplier_found c (map_option (reloaded J ρ laws config) s?) ≡ multiplier_found m s?
  unfolding multiplier_found is_warm_unlocked reloaded
  multiplier-reloaded m c config none e h = refl
  multiplier-reloaded m c config (some s) e h =
      let k : u32 s.observation_count ≡ s.observation_count = omega (arith, h s refl) in
      ap
        (λ d.
          if leb d.warm_threshold (u32 s.observation_count)
          then clampf s.throughput_multiplier.value d.min_multiplier d.max_multiplier
          else fl.of_ℕ 1)
        e
      ∙ ap
          (λ n.
            if leb m.config.warm_threshold n
            then clampf s.throughput_multiplier.value m.config.min_multiplier
                m.config.max_multiplier
            else fl.of_ℕ 1)
          k

module _ {F M T : Type 0} (J : Type 0) ⦃fl : Floats F⦄ ⦃lit : Literals F⦄ ⦃json : Json J F⦄
    (text : JsonText J T) ⦃laws : TextLaws json text⦄ ⦃states : FastHashMap (NodeLearningState F) M⦄
    ⦃all : Entries (NodeLearningState F) M⦄ ⦃entries : EntriesLaws states all⦄ where
  -- What save writes to a file.
  abbrev pub written : CostModel F M → T
  written m = text.to_json_string (to_json m) true

  pub load-written :
      (m m' : CostModel F M)
      → m'.config ≡ m.config
      → m.affinity_matrix.config ≡ m.config.affinity
      → m.config.affinity.max_nodes < 2 ^ 32
      → m.config.affinity.max_job_classes < 2 ^ 32
      → All (λ x. x.0 < 2 ^ 32) (all.entries m.node_states)
      → load text m' (content (written m)) ≡ (
        commit json m' (read_back J laws.reread laws.laws m, matrix_of J laws.reread laws.laws m),
        ok tt,
      )
  unfolding load
  load-written m m' d e a b h =
      rw (load, laws.parse_json-to_json_string (to_json m) true)
        (load_root-to_json J laws.reread laws.laws m m' d e a b h)

  -- Over texts that are parsed as what was written and maps whose iteration meets every entry once,
  -- for a model with an affinity matrix of its configuration, fewer than 2^32 rows and columns, and
  -- numbers of nodes and counts below 2^32: a model of the same configuration that loads what was
  -- saved of it succeeds, and has the same observation count and multiplier for every node.
  pub load-to_json :
      (m m' : CostModel F M)
      → m'.config ≡ m.config
      → m.affinity_matrix.config ≡ m.config.affinity
      → m.config.affinity.max_nodes < 2 ^ 32
      → m.config.affinity.max_job_classes < 2 ^ 32
      → All (λ x. x.0 < 2 ^ 32) (all.entries m.node_states)
      → ((n : ℕ) (s : NodeLearningState F)
          → states.find m.node_states n ≡ some s
          → s.observation_count < 2 ^ 32)
      → ((load text m' (content (written m))).1 ≡ ok tt)
        × ((n : ℕ)
            → (Model.observation_count (load text m' (content (written m))).0 n
                ≡ Model.observation_count m n)
              × (node_multiplier (load text m' (content (written m))).0 n ≡ node_multiplier m n))
  unfolding Model.observation_count node_multiplier commit
  load-to_json m m' d e a b h g =
      let l = load-written m m' d e a b h in
      let x = matrix_of J laws.reread laws.laws m in
      let new = commit json m' (read_back J laws.reread laws.laws m, x) in
      (
        ap (λ y. y.1) l,
        λ n. (
          ap (λ y. Model.observation_count y.0 n) l
              ∙ ap count_found (find-commit J laws.reread laws.laws m m' x n)
              ∙ count-reloaded J laws.reread laws.laws m.config.degradation
                  (states.find m.node_states n) (g n),
          ap (λ y. node_multiplier y.0 n) l
              ∙ ap (multiplier_found new) (find-commit J laws.reread laws.laws m m' x n)
              ∙ multiplier-reloaded J laws.reread laws.laws m new m.config.degradation
                  (states.find m.node_states n) d (g n),
        ),
      )
