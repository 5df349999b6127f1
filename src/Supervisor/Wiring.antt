-- ===== src/Supervisor/Wiring.antt =====
-- FeatureSupervisor.h: what the batch observer does to the balancer.
use Prim.Native.String.{String}
use fatp_balancer.Base.{Bool, true, List, [], ◌∷◌, Option, none, some}
use fatp_balancer.Floats.{Floats}
use fatp_balancer.Admission as Gate
use fatp_balancer.Policy.Kinds.{Policy}
use fatp_balancer.Policy.Factory.{make_policy}
use fatp_balancer.Cost.Model.{CostModel}
use fatp_balancer.Balancer.Control as Control
use fatp_balancer.Balancer.State.{Balancer}
use fatp_balancer.Balancer.Cancel.{begin_switch, end_switch}
use fatp_balancer.Supervisor.Defs.{
  Command, set_aging_enabled, set_degradation_enabled, set_shed_bulk, set_admission_strict,
  switch_policy, FeatureChange, observe,
}

-- What one call of the manager tells the observer.
pub record Report : Type 0 where
  pub changes : List FeatureChange
  pub committed : Bool

-- makePolicyFromFeatureName, with the live cost model and the configured chain.
unfoldable pub make_policy_from_feature_name :
    {F : Type 0} → List String → String → Option (Policy F)
make_policy_from_feature_name chain name = make_policy 3 name true chain

module _ {F M N R H : Type 0} ⦃fl : Floats F⦄ where
  -- switchPolicy, up to its wait; `none` is a wait.
  unfoldable pub switch_to :
      Balancer F (CostModel F M) N R H
      → Option (Policy F)
      → Option (Balancer F (CostModel F M) N R H)
  unfolding begin_switch end_switch
  switch_to b none = none
  switch_to b (some p) = end_switch (begin_switch b) p

  unfoldable pub execute :
      List String
      → Balancer F (CostModel F M) N R H
      → Command
      → Option (Balancer F (CostModel F M) N R H)
  unfolding switch_to make_policy_from_feature_name Gate.set_shed_bulk Gate.set_admission_strict
      Control.set_aging_enabled Control.set_degradation_enabled
  execute chain b (set_aging_enabled enabled) = some (Control.set_aging_enabled b enabled)
  execute chain b (set_degradation_enabled enabled) =
      some (Control.set_degradation_enabled b enabled)
  execute chain b (set_shed_bulk enabled) =
      some (record b { admission = Gate.set_shed_bulk b.admission enabled })
  execute chain b (set_admission_strict enabled) =
      some (record b { admission = Gate.set_admission_strict b.admission enabled })
  execute chain b (switch_policy name) = switch_to b (make_policy_from_feature_name chain name)

  -- The loop over the changes, one command at most for each.
  unfoldable pub execute_all :
      List String
      → Balancer F (CostModel F M) N R H
      → List Command
      → Option (Balancer F (CostModel F M) N R H)
  unfolding execute
  execute_all chain b [] = some b
  execute_all chain b (c ∷ cs) = elim (execute chain b c) [
    | none ↦ none
    | some b' ↦ execute_all chain b' cs
  ]

  -- The observer over the calls of the manager, one after the other.
  unfoldable pub notify :
      List String
      → Balancer F (CostModel F M) N R H
      → List Report
      → Option (Balancer F (CostModel F M) N R H)
  unfolding execute_all
  notify chain b [] = some b
  notify chain b (r ∷ rs) = elim (execute_all chain b (observe r.changes r.committed)) [
    | none ↦ none
    | some b' ↦ notify chain b' rs
  ]
