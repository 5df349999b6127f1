-- ===== src/Balancer/Account/Quiet.antt =====
-- Balancer.h from its construction on: what mSubmittedCount counts, and so what switchPolicy and the
-- destructor wait for.
use fatp_balancer.Base.{ℕ, ◌+◌, ◌<◌, ◌^◌, ◌≡◌, ◌↔◌, true, List, is_some, arith}
use fatp_balancer.Floats.{Floats}
use fatp_balancer.Policy.Kinds.{Policy}
use fatp_balancer.Balancer.State.{Balancer, INode, Costs, FastHashMap, Route}
use fatp_balancer.Balancer.Cancel.{end_switch}
use fatp_balancer.Balancer.Construct.{BalancerConfig, new_balancer, destruct, new_balancer-Agrees}
use fatp_balancer.Balancer.Account.{SizeLaws}
use fatp_balancer.Balancer.Account.Turns.{IsBalanced, Turns, Turns-IsBalanced}

module _ {F D K N R H : Type 0} ⦃fl : Floats F⦄ ⦃costs : Costs K F⦄ ⦃routing : FastHashMap Route R⦄
    ⦃handling : FastHashMap ℕ H⦄ ⦃laws : SizeLaws routing⦄ (inode : INode N F) (dl : Floats D) where
  new_balancer-IsBalanced :
      (nodes : List N) (policy : Policy F) (config : BalancerConfig) (cost_model : K) (routes : R)
      (handles : H) (now : ℕ)
      → laws.size routes ≡ 0
      → config.admission.holding_queue_capacity < 2 ^ 32
      → IsBalanced (new_balancer nodes policy config cost_model routes handles now)
  unfolding new_balancer
  new_balancer-IsBalanced nodes policy config cost_model routes handles now none_yet word = record {
    agrees = new_balancer-Agrees nodes policy config cost_model routes handles now word;
    count = ground (arith, none_yet);
  }

  -- From the construction of the balancer, over any operations in any order, those that set the modes
  -- of the admission, the aging and the degradation and those that measure included, with nodes that
  -- work in between, call back for routed jobs only and never give out a handle that still names one: the
  -- count of jobs in flight is the number of routed jobs and of held jobs, modulo 2^32, and every
  -- slot of the holding queue is matched with a held job.
  pub Turns-new_balancer-IsBalanced :
      (nodes : List N) (policy : Policy F) (config : BalancerConfig) (cost_model : K) (routes : R)
      (handles : H) (now : ℕ) {b : Balancer F K N R H}
      → laws.size routes ≡ 0
      → config.admission.holding_queue_capacity < 2 ^ 32
      → Turns inode dl (new_balancer nodes policy config cost_model routes handles now) b
      → IsBalanced b
  Turns-new_balancer-IsBalanced nodes policy config cost_model routes handles now none_yet word ts =
      Turns-IsBalanced inode dl ts
        (new_balancer-IsBalanced nodes policy config cost_model routes handles now none_yet word)

  -- After such a run, with fewer than 2^32 jobs routed or held: a policy switch and the destructor
  -- stop waiting exactly when no job is routed to a node and none is held.
  pub end_switch-destruct_quiet :
      (nodes : List N) (policy : Policy F) (config : BalancerConfig) (cost_model : K) (routes : R)
      (handles : H) (now : ℕ) (next_policy : Policy F) {b : Balancer F K N R H}
      → laws.size routes ≡ 0
      → config.admission.holding_queue_capacity < 2 ^ 32
      → Turns inode dl (new_balancer nodes policy config cost_model routes handles now) b
      → laws.size b.routes + b.holding.size < 2 ^ 32
      → ((is_some (end_switch b next_policy) ≡ true)
          ↔ ((laws.size b.routes ≡ 0) × (b.holding.size ≡ 0)))
        × (is_some (destruct b) ≡ is_some (end_switch b next_policy))
  unfolding end_switch destruct
  end_switch-destruct_quiet nodes policy config cost_model routes handles now next_policy none_yet
        word ts few =
      let h =
        Turns-new_balancer-IsBalanced nodes policy config cost_model routes handles now none_yet
          word ts in
      ((λ e. ground (arith, h.count), λ e. ground (arith, h.count)), ground arith)
