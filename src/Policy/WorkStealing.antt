-- ===== src/Policy/WorkStealing.antt =====
-- policies/WorkStealing.h. Its scores are doubles, of the type `D`. The NodeId 0 stands for "none
-- found yet".
use fatp_balancer.Base.{
  ℕ, ◌+◌, ◌≡◌, ◌∙◌, ◌≢◌, ◌⊎◌, inl, inr, refl, ap, ◌||◌, Bool, true, false, not, ◌&&◌, ltb, ◌==◌,
  if◌then◌else◌, List, [], ◌∷◌, ok, err, In, All, All-In, arith, Bool-cases,
}
use fatp_balancer.Job.{Job, u32}
use fatp_balancer.Floats.{Floats}
use fatp_balancer.Metrics.{LoadMetrics, node_accepts_priority}
use fatp_balancer.Policy.View.{ClusterView, Selection, none_eligible, any_eligible, IsEligible}

pub record Best (D : Type 0) : Type 0 where
  pub id : ℕ
  pub score : D
  pub is_underloaded : Bool

module _ {F D : Type 0} (dl : Floats D) (threshold : ℕ) (job : Job) (view : ClusterView F) where
  -- predicted * (queueDepth + 1)
  pub score_of : LoadMetrics F → D
  score_of m =
      dl.mul (dl.of_ℕ (view.cost_model.predict job m.node_id)) (dl.of_ℕ (u32 (m.queue_depth + 1)))

  abbrev pub underloaded : LoadMetrics F → Bool
  underloaded m = ltb m.queue_depth threshold

  abbrev pub taken : LoadMetrics F → Best D
  taken m = record { id = m.node_id; score = score_of m; is_underloaded = underloaded m }

  -- The body of the loop for an eligible candidate.
  unfoldable pub steal : Best D → LoadMetrics F → Best D
  steal b m =
      if b.id == 0
      then taken m
      else if underloaded m && not b.is_underloaded
      then taken m
      else if not (underloaded m) && b.is_underloaded
      then b
      else if dl.lt (score_of m) b.score
      then taken m
      else b

  unfoldable pub scan_steal : List (LoadMetrics F) → Best D → Best D
  unfolding steal
  scan_steal [] b = b
  scan_steal (m ∷ ms) b =
      scan_steal ms (if node_accepts_priority m.state job.priority then steal b m else b)

  unfoldable pub select_work_stealing : Selection
  unfolding scan_steal
  select_work_stealing =
      let best =
        scan_steal view.nodes (record { id = 0; score = dl.largest; is_underloaded = false }) in
      if best.id == 0 then err none_eligible else ok best.id

  steal_cases : (b : Best D) (m : LoadMetrics F) → (steal b m ≡ b) ⊎ (steal b m ≡ taken m)
  unfolding steal
  steal_cases b m = ground arith

  scan_steal_cases :
      (ms : List (LoadMetrics F)) (b : Best D)
      → (scan_steal ms b ≡ b)
        ⊎ ((m : LoadMetrics F) × In m ms
            × (scan_steal ms b ≡ taken m)
            × (node_accepts_priority m.state job.priority ≡ true))
  unfolding scan_steal
  scan_steal_cases [] b = inl refl
  scan_steal_cases (m ∷ ms) b = elim (Bool-cases (node_accepts_priority m.state job.priority)) [
    | inr e ↦ elim (scan_steal_cases ms b) [
      | inl h ↦ inl (rw e h)
      | inr (c, i, h, a) ↦ inr (c, inr i, rw e h, a)
    ]
    | inl e ↦ elim (scan_steal_cases ms (steal b m)) [
      | inr (c, i, h, a) ↦ inr (c, inr i, rw e h, a)
      | inl h ↦ elim (steal_cases b m) [
        | inl k ↦ inl (rw e (h ∙ k))
        | inr k ↦ inr (m, inl refl, rw e (h ∙ k), e)
      ]
    ]
  ]

  abbrev start : Best D
  start = record { id = 0; score = dl.largest; is_underloaded = false }

  -- The outcome: nothing kept, or an eligible node of the snapshot whose NodeId is not 0.
  select_cases :
      ((select_work_stealing ≡ err none_eligible) × ((scan_steal view.nodes start).id ≡ 0))
      ⊎ ((m : LoadMetrics F) × In m view.nodes
          × (select_work_stealing ≡ ok m.node_id)
          × (scan_steal view.nodes start ≡ taken m)
          × (node_accepts_priority m.state job.priority ≡ true))
  unfolding select_work_stealing
  select_cases = elim (scan_steal_cases view.nodes start) [
    | inl h ↦ inl (ground arith, ap (λ (b : Best D). b.id) h)
    | inr (m, i, h, a) ↦ elim (Bool-cases (m.node_id == 0)) [
      | inl z ↦ inl (ground arith, ground arith)
      | inr z ↦ inr (m, i, ground arith, h, a)
    ]
  ]

  -- A selected node accepts the priority.
  pub select_work_stealing-IsEligible :
      (id : ℕ) → select_work_stealing ≡ ok id → IsEligible view.nodes job.priority id
  select_work_stealing-IsEligible id h = elim select_cases [
    | inl (e, _) ↦ absurd (ground arith)
    | inr (m, i, e, _, a) ↦ (m, i, ground arith, a)
  ]

  -- Some eligible node of the list is underloaded.
  unfoldable pub any_underloaded : List (LoadMetrics F) → Bool
  any_underloaded [] = false
  any_underloaded (m ∷ ms) =
      node_accepts_priority m.state job.priority && underloaded m || any_underloaded ms

  abbrev is_found : Best D → Bool
  is_found b = not (b.id == 0)

  -- The kept node after one round.
  next : LoadMetrics F → Best D → Best D
  next m b = if node_accepts_priority m.state job.priority then steal b m else b

  next-found :
      (m : LoadMetrics F) (b : Best D)
      → m.node_id ≢ 0
      → (is_found b || node_accepts_priority m.state job.priority) ≡ true
      → is_found (next m b) ≡ true
  unfolding next steal
  next-found m b z h = ground arith

  next-underloaded :
      (m : LoadMetrics F) (b : Best D)
      → m.node_id ≢ 0
      → (is_found b && b.is_underloaded
          || node_accepts_priority m.state job.priority && underloaded m)
        ≡ true
      → (is_found (next m b) && (next m b).is_underloaded) ≡ true
  unfolding next steal
  next-underloaded m b z h = ground arith

  scan_steal_found :
      (ms : List (LoadMetrics F)) (b : Best D)
      → All (λ m. m.node_id ≢ 0) ms
      → (is_found b || any_eligible job.priority ms) ≡ true
      → is_found (scan_steal ms b) ≡ true
  unfolding scan_steal any_eligible next
  scan_steal_found [] b z h = ground arith
  scan_steal_found (m ∷ ms) b z h =
      scan_steal_found ms (next m b) z.1 (ground (arith, next-found m b z.0))

  scan_steal_underloaded :
      (ms : List (LoadMetrics F)) (b : Best D)
      → All (λ m. m.node_id ≢ 0) ms
      → (is_found b && b.is_underloaded || any_underloaded ms) ≡ true
      → (is_found (scan_steal ms b) && (scan_steal ms b).is_underloaded) ≡ true
  unfolding scan_steal any_underloaded next
  scan_steal_underloaded [] b z h = ground arith
  scan_steal_underloaded (m ∷ ms) b z h =
      scan_steal_underloaded ms (next m b) z.1 (ground (arith, next-underloaded m b z.0))

  -- If no node has the NodeId 0 and one accepts the priority, a node is selected; and if one that
  -- accepts it is underloaded, the selected node is underloaded.
  pub select_work_stealing_finds :
      All (λ m. m.node_id ≢ 0) view.nodes
      → any_eligible job.priority view.nodes ≡ true
      → (m : LoadMetrics F) × In m view.nodes
        × (select_work_stealing ≡ ok m.node_id)
        × (node_accepts_priority m.state job.priority ≡ true)
        × ((any_underloaded view.nodes ≡ false) ⊎ (underloaded m ≡ true))
  select_work_stealing_finds z h =
      let found = scan_steal_found view.nodes start z h in
      elim select_cases [
        | inl (_, lost) ↦ absurd (ground arith)
        | inr (m, i, e, kept, a) ↦ (
          m,
          i,
          e,
          a,
          elim (Bool-cases (any_underloaded view.nodes)) [
            | inr u ↦ inl u
            | inl u ↦ inr (ground (arith, scan_steal_underloaded view.nodes start z (rw u refl)))
          ],
        )
      ]

  select_work_stealing-ne_zero : (id : ℕ) → select_work_stealing ≡ ok id → id ≢ 0
  unfolding select_work_stealing
  select_work_stealing-ne_zero id h z = ground arith

  -- The NodeId 0 is never selected: if only nodes of that id accept the priority, none is found.
  pub select_work_stealing_zero :
      All (λ m. node_accepts_priority m.state job.priority ≡ true → m.node_id ≡ 0) view.nodes
      → select_work_stealing ≡ err none_eligible
  select_work_stealing_zero h = elim select_cases [
    | inl (e, _) ↦ e
    | inr (m, i, e, _, a) ↦
        absurd (select_work_stealing-ne_zero m.node_id e (All-In _ view.nodes m h i a))
  ]
