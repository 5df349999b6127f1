-- ===== src/Balancer/Account/Tests.antt =====
-- A run of the balancer over the nodes of Balancer.Tests, with maps that erase one entry a time.
use fatp_balancer.Base.{
  ℕ, ◌+◌, ◌<◌, ◌^◌, ◌≡◌, ◌==◌, ◌↔◌, refl, inl, inr, true, if◌then◌else◌, List, [], ◌∷◌, length,
  Option, none, some, is_some, arith, ==_refl, Bool-cases,
}
use fatp_balancer.Job.{normal, default_job}
use fatp_balancer.Floats.{nat_floats}
use fatp_balancer.Metrics.{idle, node_accepts_priority}
use fatp_balancer.Policy.Kinds.{Policy, select_node, round_robin, least_loaded}
use fatp_balancer.Admission as Gate
use fatp_balancer.HoldingQueue as Held
use fatp_balancer.Balancer.Snapshot.{are_all_eligible_overloaded, find_node, set_node}
use fatp_balancer.Balancer.Lifecycle.{register_dispatched_job, deliver}
use fatp_balancer.Policy.RoundRobin.{select_round_robin}
use fatp_balancer.Balancer.State.{Balancer, FastHashMap, Route}
use fatp_balancer.Balancer.Submit.{submit}
use fatp_balancer.Balancer.Cancel.{cancel, begin_switch, end_switch}
use fatp_balancer.Balancer.Construct.{BalancerConfig, new_balancer, destruct}
use fatp_balancer.Balancer.Tests.{Node, node_calls, fixed_costs, gate_config, no_aging, at}
use fatp_balancer.Balancer.Account.{SizeLaws}
use fatp_balancer.Balancer.Account.Turns.{
  IsBalanced, Turns, submits, cancels, sets_admission_strict, begins_switch, here, next,
}
use fatp_balancer.Balancer.Account.Quiet.{Turns-new_balancer-IsBalanced, end_switch-destruct_quiet}

abbrev look_up : {V : Type 0} → List (ℕ × V) → ℕ → Option V
look_up [] k = none
look_up ((a, v) ∷ rest) k = if a == k then some v else look_up rest k

abbrev erase_one : {V : Type 0} → List (ℕ × V) → ℕ → List (ℕ × V)
erase_one [] k = []
erase_one ((a, v) ∷ rest) k = if a == k then rest else (a, v) ∷ erase_one rest k

abbrev entries_of : (V : Type 0) → FastHashMap V (List (ℕ × V))
entries_of V = record {
  find = look_up;
  insert = λ m k v. (k, v) ∷ erase_one m k;
  erase = erase_one;
}

instance abbrev route_map : FastHashMap Route (List (ℕ × Route))
route_map = entries_of Route

instance abbrev handle_map : FastHashMap ℕ (List (ℕ × ℕ))
handle_map = entries_of ℕ

length-erase_one :
    (m : List (ℕ × Route)) (k : ℕ) (v : Route)
    → look_up m k ≡ some v
    → length (erase_one m k) + 1 ≡ length m
length-erase_one [] k v h = absurd (ground arith)
length-erase_one ((a, w) ∷ m) k v h = elim (Bool-cases (a == k)) [
  | inl e ↦ rw e (omega arith)
  | inr e ↦ let ih = length-erase_one m k v (rw e at h) in rw e (omega (arith, ih))
]

erase_one-absent : (m : List (ℕ × Route)) (k : ℕ) → look_up m k ≡ none → erase_one m k ≡ m
erase_one-absent [] k h = refl
erase_one-absent ((a, w) ∷ m) k h = elim (Bool-cases (a == k)) [
  | inl e ↦ absurd (ground arith)
  | inr e ↦ ground (arith, erase_one-absent m k)
]

route_map-find-insert :
    (m : List (ℕ × Route)) (k : ℕ) (v : Route) → route_map.find (route_map.insert m k v) k ≡ some v
route_map-find-insert m k v = rw (==_refl k) refl

route_map-size-insert :
    (m : List (ℕ × Route)) (k : ℕ) (v : Route)
    → look_up m k ≡ none
    → length (route_map.insert m k v) ≡ length m + 1
route_map-size-insert m k v h = rw (erase_one-absent m k h) (omega arith)

instance abbrev route_sizes : SizeLaws route_map
route_sizes = record {
  size = length;
  find-insert = route_map-find-insert;
  size-insert = route_map-size-insert;
  size-erase = length-erase_one;
}

abbrev config : BalancerConfig
config = record {
  admission = gate_config;
  aging = no_aging.config;
  composite_chain = [];
  max_retries = 3;
}

abbrev Cluster : Type 0
Cluster = Balancer ℕ (Unit {0}) Node (List (ℕ × Route)) (List (ℕ × ℕ))

abbrev nodes : List Node
nodes =
    record { id = 1; state = idle; next_handle = 0 }
    ∷ record { id = 2; state = idle; next_handle = 2 ^ 32 }
    ∷ []

abbrev policy : Policy ℕ
policy = round_robin 0

abbrev fresh : Cluster
fresh = new_balancer nodes policy config tt [] [] 0

abbrev one_sent : Cluster
one_sent = (submit node_calls nat_floats fresh (default_job normal) at none).0

abbrev taken_back : Cluster
taken_back = (cancel node_calls (begin_switch one_sent) 0).0

run : Turns node_calls nat_floats fresh taken_back
unfolding new_balancer
run =
    next
      (next (next here (submits (default_job normal) at none (λ id n j h found sent. refl)))
        begins_switch)
      (cancels 0)

Turns-new_balancer-IsBalanced_example : IsBalanced taken_back
Turns-new_balancer-IsBalanced_example =
    Turns-new_balancer-IsBalanced node_calls nat_floats nodes policy config tt [] [] 0 refl
      (omega arith) run

-- A job is submitted under strict admission.
abbrev strict : Cluster
strict = record fresh { admission = Gate.set_admission_strict fresh.admission true }

strict_run :
    Turns node_calls nat_floats fresh
      (submit node_calls nat_floats strict (default_job normal) at none).0
unfolding new_balancer
strict_run =
    next (next here (sets_admission_strict true))
      (submits (default_job normal) at none (λ id n j h found sent. refl))

none_left : length taken_back.routes + taken_back.holding.size ≡ 0
unfolding new_balancer submit cancel begin_switch Gate.new Held.new Gate.new_bucket Gate.try_consume
    Gate.evaluate Gate.layer2 Gate.layer3 are_all_eligible_overloaded node_accepts_priority
    Held.is_holding_handle Held.remove select_node select_round_robin find_node set_node
    register_dispatched_job deliver
none_left = refl

few : length taken_back.routes + taken_back.holding.size < 2 ^ 32
few = omega (arith, none_left)

end_switch-destruct_quiet_example :
    ((is_some (end_switch taken_back least_loaded) ≡ true)
      ↔ ((length taken_back.routes ≡ 0) × (taken_back.holding.size ≡ 0)))
    × (is_some (destruct taken_back) ≡ is_some (end_switch taken_back least_loaded))
end_switch-destruct_quiet_example =
    end_switch-destruct_quiet node_calls nat_floats nodes policy config tt [] [] 0 least_loaded refl
      (omega arith) run few
