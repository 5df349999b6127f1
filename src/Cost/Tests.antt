-- ===== src/Cost/Tests.antt =====
-- CostModel.h with natural numbers for floats, association lists for the map, and trees for JSON.
mod Trees
mod Answers
use fatp_balancer.Base.{
  Bool, ok, All, ℕ, ◌+◌, ◌^◌, ◌<◌, ◌≡◌, refl, ap, ◌⊎◌, true, false, ltb, ◌==◌, if◌then◌else◌, List,
  [], ◌∷◌, Option, none, some, err, arith,
}
use fatp_balancer.Job.{Job, normal, default_job}
use fatp_balancer.Floats.{nat_floats}
use fatp_balancer.Balancer.State.{FastHashMap}
use fatp_balancer.Cost.Matrix.{
  AffinityMatrix, new_matrix, update_cell, clamp_row, clamp_col, matrix_observations, set_cell,
}
use fatp_balancer.Cost.Curve.{DegradationCurve, NodeLearningState, Literals, new_state}
use fatp_balancer.Cost.Model.{
  CostModelConfig, CostModel, new_cost_model, predict, update, teach, count_found,
  observation_count, node_multiplier, learned, found_or_new, affinity_observations, reset,
}
use fatp_balancer.Cost.Learning.{
  MapLaws, learn, lessons, cell_lessons, IsPrediction, predict-IsPrediction, predict-update,
  observation_count-learn,
}
use fatp_balancer.Cost.Json.{affinity, find_key}
use fatp_balancer.Cost.Persist.{dimension_mismatch, parse_matrix, load_arrays, load_matrix}
use fatp_balancer.Cost.File.{
  Entries, Source, unopened, content, clear_model, load_root, load_rest, load,
}
use fatp_balancer.Cost.Tests.Trees.{Tree, members, integer, no_members, member, trees, texts}
use fatp_balancer.Cost.Failing.{load-err}

abbrev Map : Type 0
Map = List (ℕ × NodeLearningState ℕ)

abbrev find_in : Map → ℕ → Option (NodeLearningState ℕ)
find_in [] k = none
find_in ((a, s) ∷ rest) k = if k == a then some s else find_in rest k

instance abbrev states : FastHashMap (NodeLearningState ℕ) Map
states = record { find = find_in; insert = λ m k s. (k, s) ∷ m; erase = λ m k. m }

instance states_laws : MapLaws states
states_laws = record { find-insert = λ m k s i. refl }

instance abbrev all : Entries (NodeLearningState ℕ) Map
all = record { clear = []; entries = λ m. m }

instance abbrev pub literals : Literals ℕ
literals = record { half = 0; tenth = 0; twentieth = 0; to_u64 = λ x. x }

abbrev pub config : CostModelConfig ℕ
config = record {
  warm_threshold = 1;
  node_alpha = 1;
  max_multiplier = 10;
  min_multiplier = 1;
  degradation = record { bucket_count = 40; bucket_size = 0; alpha = 1; warm_threshold = 1 };
  affinity = record { max_nodes = 2; max_job_classes = 3; alpha = 1; warm_threshold = 1 };
}

abbrev empty_map : Map
empty_map = []

abbrev cold : CostModel ℕ Map
cold = new_cost_model config empty_map

-- A job of cost 10 that was run by a node in 20.
abbrev pub done : ℕ → Job
done n = record (default_job normal) { estimated_cost = 10; observed_cost = 20; executed_by = n }

abbrev jobs : List Job
jobs = done 1 ∷ done 0 ∷ done 1 ∷ []

abbrev taught : CostModel ℕ Map
taught = learn cold jobs

in_order : (ltb taught.config.max_multiplier taught.config.min_multiplier ≡ false)
unfolding learn update new_cost_model teach
in_order = refl

lowest : (ltb taught.config.min_multiplier taught.config.min_multiplier ≡ false)
unfolding learn update new_cost_model teach
lowest = refl

highest : (ltb taught.config.max_multiplier taught.config.max_multiplier ≡ false)
unfolding learn update new_cost_model teach
highest = refl

predict-IsPrediction_example : IsPrediction taught (done 1) 1 (predict taught (done 1) 1)
predict-IsPrediction_example = predict-IsPrediction taught (done 1) 1 in_order lowest highest

rows_apart :
    (clamp_row taught.affinity_matrix.config 1 == clamp_row taught.affinity_matrix.config 0) ≡ false
unfolding learn update new_cost_model new_matrix teach update_cell clamp_row
rows_apart = refl

predict-update_example : predict (update taught (done 0)) (done 1) 1 ≡ predict taught (done 1) 1
predict-update_example = predict-update taught (done 0) (done 1) 1 refl rows_apart

few_cell_lessons :
    affinity_observations cold 7 0 + cell_lessons cold.affinity_matrix.config jobs 7 0 < 2 ^ 32
unfolding affinity_observations matrix_observations cell_lessons new_cost_model new_matrix clamp_row
    clamp_col
few_cell_lessons = omega arith

-- A file whose affinity is no matrix.
abbrev no_matrix : Source (Option Tree)
no_matrix = content (some (members (member affinity (integer 1) no_members)))

no_matrix_fails : (load texts taught no_matrix).1 ≡ err dimension_mismatch
unfolding load load_root load_rest load_matrix load_arrays parse_matrix find_key clear_model
no_matrix_fails = refl

load-err_example :
    ((no_matrix ≡ unopened) × ((load texts taught no_matrix).0 ≡ taught))
    ⊎ (((load texts taught no_matrix).0 ≡ reset taught empty_map)
        × ((job : Job) (n : ℕ)
            → predict (load texts taught no_matrix).0 job n ≡ job.estimated_cost))
load-err_example = load-err texts taught no_matrix dimension_mismatch (λ k. refl) no_matrix_fails
