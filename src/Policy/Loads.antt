-- ===== src/Policy/Loads.antt =====
-- policies/LeastLoaded.h, ShortestJobFirst.h, WeightedCapacity.h and EarliestDeadlineFirst.h: the
-- score of each, how scores compare, and the selection. Durations of EarliestDeadlineFirst are
-- integers, so an overflow of its 64-bit products is not modelled.
use fatp_balancer.Base.{
  ℕ, ◌+◌, ◌*◌, ◌≡◌, not, ◌||◌, ltb, ◌==◌, if◌then◌else◌, List, [], ◌∷◌, Option, none, some, arith,
  ok, inl, inr, Option-cases,
}
use fatp_balancer.Base.Int.{ℤ, sub_ℕ, ltb_ℤ}
use fatp_balancer.Job.{Job, u32}
use fatp_balancer.Floats.{Floats, IsOrder}
use fatp_balancer.Metrics.{LoadMetrics}
use fatp_balancer.Policy.View.{ClusterView, Selection, IsEligible}
use fatp_balancer.Policy.Best.{Ranking, IsTotal, select_best, select_best-IsEligible}

module _ {F : Type 0} ⦃fl : Floats F⦄ where
  -- `<` and `==` on float scores, and `>` and `==`.
  abbrev pub lowest : Ranking F
  lowest = record { better = fl.lt; same = fl.eq }

  abbrev pub highest : Ranking F
  highest = record { better = λ a b. fl.lt b a; same = fl.eq }

  pub lowest-IsTotal : IsOrder fl → IsTotal lowest
  lowest-IsTotal o = record {
    irrefl = o.irrefl;
    trans = o.trans;
    connected = o.eq_of_incomparable;
    same_refl = o.eq_refl;
    same_sound = o.eq_sound;
  }

  pub highest-IsTotal : IsOrder fl → IsTotal highest
  highest-IsTotal o = record {
    irrefl = o.irrefl;
    trans = λ a b c h k. o.trans c b a k h;
    connected = λ a b h k. o.eq_of_incomparable a b k h;
    same_refl = o.eq_refl;
    same_sound = o.eq_sound;
  }

  -- (queueDepth + 1) * multiplier
  unfoldable pub effective_load : ClusterView F → LoadMetrics F → F
  effective_load view m =
      fl.mul (fl.of_ℕ (u32 (m.queue_depth + 1))) (view.cost_model.node_multiplier m.node_id)

  unfoldable pub select_least_loaded : Job → ClusterView F → Selection
  select_least_loaded job view = select_best lowest (effective_load view) job.priority view.nodes

  -- predictedCost * (queueDepth + 1)
  unfoldable pub completion : Job → ClusterView F → LoadMetrics F → F
  completion job view m =
      fl.mul (fl.of_ℕ (view.cost_model.predict job m.node_id)) (fl.of_ℕ (u32 (m.queue_depth + 1)))

  unfoldable pub select_shortest_job_first : Job → ClusterView F → Selection
  select_shortest_job_first job view =
      select_best lowest (completion job view) job.priority view.nodes

  -- `weight > 0.0f ? weight : 1.0f` of the first entry with the id, else 1.
  unfoldable pub weight_for : List (ℕ × F) → ℕ → F
  weight_for [] id = fl.of_ℕ 1
  weight_for ((node, weight) ∷ rest) id =
      let others = weight_for rest id in
      if node == id then (if fl.lt (fl.of_ℕ 0) weight then weight else fl.of_ℕ 1) else others

  -- weight * (1 - utilization)
  unfoldable pub available_capacity : List (ℕ × F) → LoadMetrics F → F
  available_capacity weights m =
      fl.mul (weight_for weights m.node_id) (fl.sub (fl.of_ℕ 1) m.utilization)

  unfoldable pub select_weighted_capacity : List (ℕ × F) → Job → ClusterView F → Selection
  select_weighted_capacity weights job view =
      select_best highest (available_capacity weights) job.priority view.nodes

-- `slack > bestSlack` and `slack == bestSlack`.
abbrev pub most_slack : Ranking ℤ
most_slack = record { better = λ a b. ltb_ℤ b a; same = λ a b. not (ltb_ℤ a b || ltb_ℤ b a) }

pub most_slack-IsTotal : IsTotal most_slack
most_slack-IsTotal = record {
  irrefl = λ a. ground arith;
  trans = λ a b c h k. ground arith;
  connected = λ a b h k. ground arith;
  same_refl = λ a. ground arith;
  same_sound = λ a b h. ground arith;
}

abbrev pub least_depth : Ranking ℕ
least_depth = record { better = ltb; same = λ a b. a == b }

pub least_depth-IsTotal : IsTotal least_depth
least_depth-IsTotal = record {
  irrefl = λ a. ground arith;
  trans = λ a b c h k. ground arith;
  connected = λ a b h k. ground arith;
  same_refl = λ a. ground arith;
  same_sound = λ a b h. ground arith;
}

-- Clock ticks in a microsecond; a steady clock of nanoseconds.
abbrev pub ticks_per_us : ℕ
ticks_per_us = 1000

module _ {F : Type 0} where
  -- deadline - (now + microseconds(predicted * (queueDepth + 1)))
  unfoldable pub slack : Job → ClusterView F → ℕ → ℕ → LoadMetrics F → ℤ
  slack job view now deadline m =
      let work = view.cost_model.predict job m.node_id * u32 (m.queue_depth + 1) in
      sub_ℕ deadline (now + ticks_per_us * work)

  deadline_or_depth : Job → ClusterView F → ℕ → Option ℕ → Selection
  deadline_or_depth job view now none =
      select_best least_depth (λ m. m.queue_depth) job.priority view.nodes
  deadline_or_depth job view now (some deadline) =
      select_best most_slack (slack job view now deadline) job.priority view.nodes

  unfoldable pub select_earliest_deadline_first : Job → ClusterView F → ℕ → Selection
  unfolding deadline_or_depth
  select_earliest_deadline_first job view now = deadline_or_depth job view now job.deadline

  pub select_earliest_deadline_first-IsEligible :
      (job : Job) (view : ClusterView F) (now id : ℕ)
      → select_earliest_deadline_first job view now ≡ ok id
      → IsEligible view.nodes job.priority id
  unfolding select_earliest_deadline_first
  select_earliest_deadline_first-IsEligible job view now id h = elim (Option-cases job.deadline) [
    | inl e ↦
        select_best-IsEligible least_depth (λ m. m.queue_depth) job.priority view.nodes id
          (ground arith)
    | inr (d, e) ↦
        select_best-IsEligible most_slack (slack job view now d) job.priority view.nodes id
          (ground arith)
  ]
