-- ===== src/Supervisor/Consequences.antt =====
-- FeatureSupervisor.h: what the graph of buildGraph says, and the one active policy.
use Prim.Native.String.{String}
use text.Mathlib.Text.{◌==◌}
use text.Mathlib.TextEquality.{eq_iff}
use fatp_balancer.Base.{
  ◌≡◌, refl, subst, sym, ap, ◌∙◌, inl, inr, Bool, true, false, ◌&&◌, ◌||◌, if◌then◌else◌, List, [],
  ◌∷◌, ◌++◌, arith, Bool-cases,
}
use mathlib.Core.List.{append-nil, append_assoc}
use fatp_balancer.Policy.Factory.{
  policy_round_robin, policy_least_loaded, policy_affinity, policy_work_stealing, policy_composite,
}
use fatp_balancer.Supervisor.Defs.{
  FeatureManager, FeatureSupervisor, feature_aging, admission_bulk_shed, admission_strict,
  alert_none, alert_overload, alert_latency, alert_node_fault, is_policy_feature,
}
use fatp_balancer.Supervisor.Graph.{
  entails, GraphCalls, all_features, alert_group, policy_group, entailments, add_features,
  add_entailments, build_graph, first_enabled, active_policy,
}

-- What a manager says of its graph, and what the calls do to it. A relationship is taken if both
-- of its features are known.
pub record GraphLaws {G : Type 0} (graph : GraphCalls G) : Type 0 where
  pub knows : G → String → Bool
  pub entailed : G → String → List String
  pub knows-feature :
      (g : G) (n x : String) → knows (graph.add_feature g n).0 x ≡ (n == x || knows g x)
  pub entailed-feature :
      (g : G) (n x : String) → entailed (graph.add_feature g n).0 x ≡ entailed g x
  pub knows-group :
      (g : G) (n : String) (ms : List String) (x : String)
      → knows (graph.add_mutually_exclusive_group g n ms).0 x ≡ knows g x
  pub entailed-group :
      (g : G) (n : String) (ms : List String) (x : String)
      → entailed (graph.add_mutually_exclusive_group g n ms).0 x ≡ entailed g x
  pub knows-relationship :
      (g : G) (a b x : String) → knows (graph.add_relationship g a entails b).0 x ≡ knows g x
  pub entailed-relationship :
      (g : G) (a b x : String)
      → (knows g a && knows g b) ≡ true
      → entailed (graph.add_relationship g a entails b).0 x
        ≡ (if a == x then entailed g x ++ b ∷ [] else entailed g x)

-- The consequences of an alert, as BalancerFeatures.h documents them.
abbrev pub consequences : String → List String
consequences name =
    if alert_none == name
    then policy_round_robin ∷ []
    else if alert_overload == name
    then policy_work_stealing ∷ admission_bulk_shed ∷ []
    else if alert_latency == name
    then policy_round_robin ∷ admission_bulk_shed ∷ feature_aging ∷ []
    else if alert_node_fault == name
    then policy_round_robin ∷ admission_strict ∷ []
    else []

abbrev pub has : List String → String → Bool
has [] x = false
has (n ∷ ns) x = n == x || has ns x

all_three : (x y z : Bool) → (x && y && z) ≡ true → (x ≡ true) × (y ≡ true) × (z ≡ true)
all_three x y z h = ground arith

-- Every end of the edges is a feature.
all_known : List (String × String) → Bool
all_known [] = true
all_known ((a, b) ∷ es) = has all_features a && has all_features b && all_known es

all_known-entailments : all_known entailments ≡ true
unfolding all_known
all_known-entailments = refl

targets : List (String × String) → String → List String
targets [] x = []
targets ((a, b) ∷ es) x = (if a == x then b ∷ [] else []) ++ targets es x

targets-entailments : (x : String) → targets entailments x ≡ consequences x
unfolding targets
targets-entailments x = elim (Bool-cases (alert_none == x)) [
  | inl e ↦ subst (λ y. targets entailments y ≡ consequences y) ((eq_iff alert_none x).0 e) refl
  | inr n ↦ elim (Bool-cases (alert_overload == x)) [
    | inl e ↦
        subst (λ y. targets entailments y ≡ consequences y) ((eq_iff alert_overload x).0 e) refl
    | inr o ↦ elim (Bool-cases (alert_latency == x)) [
      | inl e ↦
          subst (λ y. targets entailments y ≡ consequences y) ((eq_iff alert_latency x).0 e) refl
      | inr l ↦ ground arith
    ]
  ]
]

module _ {G : Type 0} (graph : GraphCalls G) (laws : GraphLaws graph) where
  knows-features :
      (g : G) (ns : List String) (x : String)
      → laws.knows (add_features graph g ns) x ≡ (has ns x || laws.knows g x)
  unfolding add_features
  knows-features g [] x = refl
  knows-features g (n ∷ ns) x =
      ground (arith, knows-features (graph.add_feature g n).0 ns x, laws.knows-feature g n x)

  entailed-features :
      (g : G) (ns : List String) (x : String)
      → laws.entailed (add_features graph g ns) x ≡ laws.entailed g x
  unfolding add_features
  entailed-features g [] x = refl
  entailed-features g (n ∷ ns) x =
      entailed-features (graph.add_feature g n).0 ns x ∙ laws.entailed-feature g n x

  -- Every end of the edges is known.
  abbrev Known : G → List (String × String) → Type 0
  Known g [] = Unit
  Known g ((a, b) ∷ es) = ((laws.knows g a && laws.knows g b) ≡ true) × Known g es

  Known-relationship :
      (g : G) (a b : String) (es : List (String × String))
      → Known g es
      → Known (graph.add_relationship g a entails b).0 es
  Known-relationship g a b [] k = k
  Known-relationship g a b ((c, d) ∷ es) k = (
    ground (arith, laws.knows-relationship g a b c, laws.knows-relationship g a b d, k.0),
    Known-relationship g a b es k.1,
  )

  entailed-entailments :
      (g : G) (es : List (String × String)) (x : String)
      → Known g es
      → laws.entailed (add_entailments graph g es) x ≡ laws.entailed g x ++ targets es x
  unfolding add_entailments targets
  entailed-entailments g [] x k = sym (append-nil (laws.entailed g x))
  entailed-entailments g ((a, b) ∷ es) x k =
      let g' = (graph.add_relationship g a entails b).0 in
      let ih = entailed-entailments g' es x (Known-relationship g a b es k.1) in
      let e = laws.entailed-relationship g a b x k.0 in
      elim (Bool-cases (a == x)) [
        | inl same ↦ rw same (
            ih
            ∙ ap (λ l. l ++ targets es x) (rw same at e)
            ∙ append_assoc (laws.entailed g x) (b ∷ []) (targets es x))
        | inr other ↦ rw other (ih ∙ ap (λ l. l ++ targets es x) (rw other at e))
      ]

  -- The graph before its edges.
  unrelated : G → G
  unrelated g =
      (graph.add_mutually_exclusive_group
        (graph.add_mutually_exclusive_group (add_features graph g all_features) "alert_group"
          alert_group).0
        "policy_group" policy_group).0

  knows-unrelated :
      (g : G) (x : String) → laws.knows (unrelated g) x ≡ (has all_features x || laws.knows g x)
  unfolding unrelated
  knows-unrelated g x =
      laws.knows-group _ "policy_group" policy_group x
      ∙ laws.knows-group _ "alert_group" alert_group x
      ∙ knows-features g all_features x

  entailed-unrelated : (g : G) (x : String) → laws.entailed (unrelated g) x ≡ laws.entailed g x
  unfolding unrelated
  entailed-unrelated g x =
      laws.entailed-group _ "policy_group" policy_group x
      ∙ laws.entailed-group _ "alert_group" alert_group x
      ∙ entailed-features g all_features x

  knows-pair :
      (g : G) (a b : String)
      → has all_features a ≡ true
      → has all_features b ≡ true
      → (laws.knows (unrelated g) a && laws.knows (unrelated g) b) ≡ true
  knows-pair g a b ha hb = rw (knows-unrelated g a, knows-unrelated g b) (ground (arith, ha, hb))

  Known-unrelated :
      (g : G) (es : List (String × String)) → all_known es ≡ true → Known (unrelated g) es
  unfolding all_known
  Known-unrelated g [] h = tt
  Known-unrelated g ((a, b) ∷ es) h =
      let (ha, hb, rest) = all_three (has all_features a) (has all_features b) (all_known es) h in
      (knows-pair g a b ha hb, Known-unrelated g es rest)

  knows-entailments :
      (g : G) (es : List (String × String)) (x : String)
      → laws.knows (add_entailments graph g es) x ≡ laws.knows g x
  unfolding add_entailments
  knows-entailments g [] x = refl
  knows-entailments g ((a, b) ∷ es) x =
      knows-entailments (graph.add_relationship g a entails b).0 es x
      ∙ laws.knows-relationship g a b x

  -- From a manager without edges, buildGraph registers every feature before it relates it, so that
  -- no edge is refused: each alert entails what BalancerFeatures.h documents, in that order, and
  -- nothing else entails anything; and exactly the fifteen features are known besides the old ones.
  pub entailed-build_graph :
      (g : G) (x : String)
      → laws.entailed g x ≡ []
      → let g' = build_graph graph g in
        (laws.entailed g' x ≡ consequences x)
        × (laws.knows g' x ≡ (has all_features x || laws.knows g x))
  unfolding build_graph unrelated
  entailed-build_graph g x none_yet = (
    entailed-entailments (unrelated g) entailments x
          (Known-unrelated g entailments all_known-entailments)
        ∙ ap (λ l. l ++ targets entailments x) (entailed-unrelated g x ∙ none_yet)
        ∙ targets-entailments x,
    knows-entailments (unrelated g) entailments x ∙ knows-unrelated g x,
  )

-- A group of policies of which exactly one is enabled.
module _ {G : Type 0} (features : FeatureManager G) where
  -- If a policy of the group is enabled and no other one is, it is the active policy; if none is,
  -- the active policy is round_robin.
  pub active_policy_cases :
      (s : FeatureSupervisor G) (p : String)
      → ((q : String) → is_policy_feature q ≡ true → features.is_enabled s.manager q ≡ (q == p))
      → active_policy features s ≡ (if is_policy_feature p then p else policy_round_robin)
  unfolding active_policy first_enabled
  active_policy_cases s p only =
      rw
        (
          only policy_round_robin refl,
          only policy_least_loaded refl,
          only policy_work_stealing refl,
          only policy_affinity refl,
          only policy_composite refl,
        )
        (ground (
          arith,
          eq_iff policy_round_robin p,
          eq_iff policy_least_loaded p,
          eq_iff policy_work_stealing p,
          eq_iff policy_affinity p,
          eq_iff policy_composite p,
          eq_iff p policy_round_robin,
          eq_iff p policy_least_loaded,
          eq_iff p policy_work_stealing,
          eq_iff p policy_affinity,
          eq_iff p policy_composite,
        ))
