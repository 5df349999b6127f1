-- ===== src/Policy/Factory.antt =====
-- include/balancer/PolicyFactory.h: makePolicy, with the names of BalancerFeatures.h. `live` is
-- costModel != nullptr. The recursion is on fuel; `none` means that it ran out.
use Prim.Native.String.{String}
use text.Mathlib.Text.{◌==◌}
use fatp_balancer.Base.{
  ℕ, zero, suc, ◌≡◌, refl, ap, Bool, true, false, if◌then◌else◌, List, [], ◌∷◌, Option, none, some,
  is_some, arith,
}
use fatp_balancer.Policy.Kinds.{
  Policy, Chain, round_robin, least_loaded, work_stealing, affinity_routing, composite,
  shortest_job_first, weighted_capacity, earliest_deadline_first, end, child,
}

abbrev pub policy_round_robin : String
policy_round_robin = "policy.round_robin"

abbrev pub policy_least_loaded : String
policy_least_loaded = "policy.least_loaded"

abbrev pub policy_affinity : String
policy_affinity = "policy.affinity_routing"

abbrev pub policy_work_stealing : String
policy_work_stealing = "policy.work_stealing"

abbrev pub policy_composite : String
policy_composite = "policy.composite"

-- CompositePolicyConfig::chain by default.
abbrev pub default_chain : List String
default_chain = "earliest_deadline_first" ∷ "least_loaded" ∷ []

module _ {F : Type 0} where
  -- The lines of makePolicy below the Composite branch.
  named_alternative : String → Policy F
  named_alternative name =
      if name == "shortest_job_first"
      then shortest_job_first
      else if name == "weighted_capacity"
      then weighted_capacity []
      else if name == "earliest_deadline_first"
      then earliest_deadline_first
      else round_robin 0

  composite_or : String → Chain F → Policy F
  unfolding named_alternative
  composite_or name end = named_alternative name
  composite_or name (child p c) = composite (child p c)

  in_front : Option (Policy F) → Option (Chain F) → Option (Chain F)
  in_front (some p) (some c) = some (child p c)
  in_front none c = none
  in_front (some p) none = none

  -- The loop over the configured child names, each built by `build`.
  unfoldable pub make_chain : (String → Option (Policy F)) → List String → Option (Chain F)
  unfolding in_front
  make_chain build [] = some end
  make_chain build (name ∷ names) = in_front (build name) (make_chain build names)

  from_chain : String → Option (Chain F) → Option (Policy F)
  unfolding composite_or
  from_chain name none = none
  from_chain name (some c) = some (composite_or name c)

  -- The branches of makePolicy; `children` is read by Composite only.
  build_policy : String → Bool → Option (Chain F) → Option (Policy F)
  unfolding from_chain named_alternative
  build_policy name live children =
      if name == policy_least_loaded
      then some least_loaded
      else if name == policy_work_stealing
      then some (work_stealing 4)
      else if (if name == policy_affinity then live else false)
      then some affinity_routing
      else if name == policy_composite
      then from_chain name children
      else some (named_alternative name)

  unfoldable pub make_policy : ℕ → String → Bool → List String → Option (Policy F)
  unfolding build_policy make_chain
  make_policy zero name live chain = none
  make_policy (suc depth) name live chain =
      build_policy name live (make_chain (λ n. make_policy depth n live default_chain) chain)

  -- What the default configuration builds: the second child is a RoundRobin, since "least_loaded"
  -- is not the name that makePolicy compares with.
  pub default_composite :
      (depth : ℕ) (live : Bool)
      → make_policy (suc (suc depth)) policy_composite live default_chain
        ≡ some (composite (child earliest_deadline_first (child (round_robin 0) end)))
  unfolding make_policy
  default_composite depth live = refl

  -- With the default chain, two levels are enough for every name.
  make_policy_default :
      (depth : ℕ) (name : String) (live : Bool)
      → (make_policy (suc (suc depth)) name live default_chain
          ≡ make_policy 2 name live default_chain)
        × (is_some (make_policy 2 name live default_chain) ≡ true)
  unfolding make_policy
  make_policy_default depth name live = ground arith

  make_chain_built :
      (build : String → Option (Policy F)) (names : List String)
      → ((n : String) → is_some (build n) ≡ true)
      → is_some (make_chain build names) ≡ true
  unfolding make_chain
  make_chain_built build [] h = refl
  make_chain_built build (name ∷ names) h = ground (arith, h name, make_chain_built build names h)

  make_chain_ext :
      (build other : String → Option (Policy F)) (names : List String)
      → ((n : String) → build n ≡ other n)
      → make_chain build names ≡ make_chain other names
  unfolding make_chain
  make_chain_ext build other [] h = refl
  make_chain_ext build other (name ∷ names) h = rw (h name, make_chain_ext build other names h) refl

  build_policy_built :
      (name : String) (live : Bool) (children : Option (Chain F))
      → is_some children ≡ true
      → is_some (build_policy name live children) ≡ true
  unfolding build_policy
  build_policy_built name live none h = cc
  build_policy_built name live (some c) h = ground arith

  -- makePolicy ends for every name and configured chain, a chain that names Composite included:
  -- three levels give a policy, and more levels give the same one.
  pub make_policy_total :
      (depth : ℕ) (name : String) (live : Bool) (chain : List String)
      → (is_some (make_policy 3 name live chain) ≡ true)
        × (make_policy (suc (suc (suc depth))) name live chain ≡ make_policy 3 name live chain)
  unfolding make_policy
  make_policy_total depth name live chain =
      let same =
        make_chain_ext (λ n. make_policy (suc (suc depth)) n live default_chain)
          (λ n. make_policy 2 n live default_chain) chain
          (λ n. (make_policy_default depth n live).0) in
      let built =
        make_chain_built (λ n. make_policy 2 n live default_chain) chain
          (λ n. (make_policy_default depth n live).1) in
      (build_policy_built name live _ built, ap (build_policy name live) same)
