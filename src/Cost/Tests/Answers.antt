-- ===== src/Cost/Tests/Answers.antt =====
-- CostModel.h: a model that learned of one job, saved and loaded.
use fatp_balancer.Base.{
  ℕ, ◌^◌, ◌<◌, ◌≡◌, refl, ap, subst, Bool, true, false, ◌==◌, if◌then◌else◌, List, [], ◌∷◌, Option,
  none, some, ok, All, arith,
}
use fatp_balancer.Floats.{nat_floats}
use fatp_balancer.Balancer.State.{FastHashMap}
use fatp_balancer.Cost.Matrix.{new_matrix, update_cell}
use fatp_balancer.Cost.Curve.{NodeLearningState}
use fatp_balancer.Cost.Model.{CostModel, new_cost_model, update, teach, learned, found_or_new}
use fatp_balancer.Cost.File.{Entries, content, insert_all, save, load}
use fatp_balancer.Cost.Reload.{map_option, EntriesLaws, written}
use fatp_balancer.Cost.Json.{map_values}
use fatp_balancer.Cost.Storable.{
  IsStorable, IsStorableModel, learned-IsStorable, observations-update_cell,
}
use fatp_balancer.Cost.Forecast.{IsSized, HasSameAnswers, load-HasSameAnswers}
use fatp_balancer.Cost.Tests.Trees.{Tree, trees, trees_laws, texts, texts_laws}
use fatp_balancer.Cost.Tests.{literals, config, done}

-- A map with room for the node 1 alone.
abbrev Cell : Type 0
Cell = Option (NodeLearningState ℕ)

instance abbrev cell : FastHashMap (NodeLearningState ℕ) Cell
cell = record {
  find = λ m k. if k == 1 then m else none;
  insert = λ m k s. if k == 1 then some s else m;
  erase = λ m k. if k == 1 then none else m;
}

abbrev entries_in : Cell → List (ℕ × NodeLearningState ℕ)
entries_in none = []
entries_in (some s) = (1, s) ∷ []

instance abbrev cell_entries : Entries (NodeLearningState ℕ) Cell
cell_entries = record { clear = none; entries = entries_in }

cell-find :
    (f : NodeLearningState ℕ → NodeLearningState ℕ) (m : Cell) (k : ℕ)
    → cell.find (insert_all none (map_values f (entries_in m))) k ≡ map_option f (cell.find m k)
unfolding insert_all
cell-find f none k = go (k == 1)
  where
    go : (b : Bool) → (if b then none else none) ≡ map_option f (if b then none else none)
    go true = refl
    go false = refl
cell-find f (some s) k = go (k == 1)
  where
    go : (b : Bool) → (if b then some (f s) else none) ≡ map_option f (if b then some s else none)
    go true = refl
    go false = refl

instance cell_laws : EntriesLaws cell cell_entries
cell_laws = record { find-entries = cell-find }

abbrev no_states : Cell
no_states = none

abbrev known : CostModel ℕ Cell
known = update (new_cost_model config no_states) (done 1)

abbrev unknown : CostModel ℕ Cell
unknown = new_cost_model config no_states

same_configs : unknown.config ≡ known.config
unfolding update teach new_cost_model
same_configs = refl

known_keys : All (λ x. x.0 < 2 ^ 32) (entries_in known.node_states)
unfolding update teach new_cost_model
known_keys = (omega arith, tt)

known_storable : IsStorableModel nat_floats cell known
unfolding update teach new_cost_model new_matrix update_cell
known_storable = record {
  matrix = refl;
  cells = observations-update_cell (new_matrix config.affinity) 1 0 2 (λ i k. omega arith);
  nodes = λ n s e. go s (n == 1) e;
}
  where
    first : NodeLearningState ℕ
    first = learned (new_cost_model config no_states) (done 1) 2 (found_or_new none)

    go :
        (s : NodeLearningState ℕ) (b : Bool)
        → (if b then some first else none) ≡ some s
        → IsStorable nat_floats config.degradation s
    go s true e = subst (IsStorable nat_floats config.degradation) (ap found_or_new e) (
        learned-IsStorable (new_cost_model config no_states) (done 1) 2 none
          (λ s h. ground (arith, h)))
    go s false e = ground (arith, e)

known_size : IsSized known.affinity_matrix.config
unfolding update teach new_cost_model new_matrix update_cell
known_size = record {
  some_row = omega arith;
  rows = omega arith;
  some_column = omega arith;
  columns = omega arith;
}

same_matrices : unknown.affinity_matrix.config ≡ known.affinity_matrix.config
unfolding update teach new_cost_model new_matrix update_cell
same_matrices = refl

same_switch : unknown.degradation_enabled ≡ known.degradation_enabled
unfolding update teach new_cost_model
same_switch = refl

-- The text of the model.
abbrev known_text : Option Tree
known_text = written Tree texts known

known_saved : save texts known true ≡ ok known_text
unfolding save
known_saved = refl

load-HasSameAnswers_example :
    ((load texts unknown (content known_text)).1 ≡ ok tt)
    × HasSameAnswers (load texts unknown (content known_text)).0 known
load-HasSameAnswers_example =
    load-HasSameAnswers Tree texts known unknown known_saved known_storable same_configs
      same_matrices same_switch known_size known_keys
