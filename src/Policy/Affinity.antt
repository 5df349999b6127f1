-- ===== src/Policy/Affinity.antt =====
-- policies/AffinityRouting.h. The CostModel that the policy was built with is the view's: the
-- balancer shares one.
use fatp_balancer.Base.{
  ℕ, ◌+◌, ◌≡◌, ◌⊎◌, inl, inr, refl, ◌||◌, Bool, true, false, not, ◌&&◌, if◌then◌else◌, List, [],
  ◌∷◌, ok, err, In, arith, Bool-cases,
}
use fatp_balancer.Job.{Job, u32}
use fatp_balancer.Floats.{Floats}
use fatp_balancer.Metrics.{LoadMetrics, node_accepts_priority}
use fatp_balancer.Policy.View.{ClusterView, Selection, none_eligible, any_eligible, IsEligible}

pub record Scored (F : Type 0) : Type 0 where
  pub id : ℕ
  pub score : F

module _ {F : Type 0} ⦃fl : Floats F⦄ (job : Job) (view : ClusterView F) where
  -- The first pass: some eligible node has a warm cell for the job's class.
  unfoldable pub any_warm : List (LoadMetrics F) → Bool
  any_warm [] = false
  any_warm (m ∷ ms) =
      node_accepts_priority m.state job.priority
        && view.cost_model.is_affinity_cell_warm m.node_id job.job_class
      || any_warm ms

  -- `if (affinity <= 0.0f) affinity = 1.0f;`
  positive : F → F
  positive a = if fl.le a (fl.of_ℕ 0) then fl.of_ℕ 1 else a

  unfoldable pub affinity_score : Bool → LoadMetrics F → F
  unfolding positive
  affinity_score warm m =
      let weighted =
        fl.mul (fl.of_ℕ (view.cost_model.predict job m.node_id))
          (fl.of_ℕ (u32 (m.queue_depth + 1))) in
      if warm
      then fl.div weighted (positive (view.cost_model.affinity_score m.node_id job.job_class))
      else weighted

  -- The second pass.
  unfoldable pub scan_affinity : Bool → List (LoadMetrics F) → Scored F → Scored F
  scan_affinity warm [] b = b
  scan_affinity warm (m ∷ ms) b =
      let s = affinity_score warm m in
      scan_affinity warm ms (
        if node_accepts_priority m.state job.priority && fl.lt s b.score
        then record { id = m.node_id; score = s }
        else b)

  unfoldable pub select_affinity : Selection
  unfolding scan_affinity any_warm
  select_affinity =
      let best =
        scan_affinity (any_warm view.nodes) view.nodes (record { id = 0; score = fl.largest }) in
      if not (any_eligible job.priority view.nodes)
      then err none_eligible
      else if fl.eq best.score fl.largest
      then err none_eligible
      else ok best.id

  scan_affinity_cases :
      (warm : Bool) (ms : List (LoadMetrics F)) (b : Scored F)
      → (scan_affinity warm ms b ≡ b)
        ⊎ ((m : LoadMetrics F) × In m ms
            × ((scan_affinity warm ms b).id ≡ m.node_id)
            × (node_accepts_priority m.state job.priority ≡ true))
  unfolding scan_affinity
  scan_affinity_cases warm [] b = inl refl
  scan_affinity_cases warm (m ∷ ms) b =
      elim (Bool-cases
        (node_accepts_priority m.state job.priority && fl.lt (affinity_score warm m) b.score)) [
          | inr e ↦ elim (scan_affinity_cases warm ms b) [
            | inl h ↦ inl (rw e h)
            | inr (c, i, h, a) ↦ inr (c, inr i, ground arith, a)
          ]
          | inl e ↦
              elim (scan_affinity_cases warm ms
                (record { id = m.node_id; score = affinity_score warm m })) [
                  | inl h ↦ inr (m, inl refl, ground arith, ground arith)
                  | inr (c, i, h, a) ↦ inr (c, inr i, ground arith, a)
                ]
        ]

  -- A selected node accepts the priority, where `==` holds of the largest float and itself.
  pub select_affinity-IsEligible :
      (id : ℕ)
      → fl.eq fl.largest fl.largest ≡ true
      → select_affinity ≡ ok id
      → IsEligible view.nodes job.priority id
  unfolding select_affinity
  select_affinity-IsEligible id same h =
      elim (scan_affinity_cases (any_warm view.nodes) view.nodes
        (record { id = 0; score = fl.largest })) [
          | inl e ↦ absurd (ground arith)
          | inr (m, i, e, a) ↦ (m, i, ground arith, a)
        ]
