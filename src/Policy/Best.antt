-- ===== src/Policy/Best.antt =====
-- The loop of LeastLoaded, ShortestJobFirst, WeightedCapacity and EarliestDeadlineFirst: keep the
-- eligible node of the best score, and of equal scores the lower NodeId.
use fatp_balancer.Base.{
  ℕ, ◌≡◌, ◌≢◌, sym, ap, ◌∙◌, ◌⊎◌, inl, inr, refl, Bool, true, false, ◌&&◌, ◌||◌, ltb, if◌then◌else◌,
  List, [], ◌∷◌, Option, none, some, ok, err, In, All, arith, Bool-cases,
}
use fatp_balancer.Job.{Priority}
use fatp_balancer.Metrics.{LoadMetrics, node_accepts_priority}
use fatp_balancer.Policy.View.{Selection, no_nodes, none_eligible, any_eligible, IsEligible}

-- How scores compare: `better a b` for `a < b` or `a > b`, and `same` for `==`.
pub record Ranking (S : Type 0) : Type 0 where
  pub better : S → S → Bool
  pub same : S → S → Bool

-- The comparison is a strict total order.
pub record IsTotal {S : Type 0} (r : Ranking S) : Type 0 where
  pub irrefl : (a : S) → r.better a a ≡ false
  pub trans : (a b c : S) → r.better a b ≡ true → r.better b c ≡ true → r.better a c ≡ true
  pub connected : (a b : S) → r.better a b ≡ false → r.better b a ≡ false → a ≡ b
  pub same_refl : (a : S) → r.same a a ≡ true
  pub same_sound : (a b : S) → r.same a b ≡ true → a ≡ b

module _ {F S : Type 0} (r : Ranking S) (score : LoadMetrics F → S) where
  -- `score < best || (score == best && m.nodeId < bestNode)`
  abbrev pub displaces : LoadMetrics F → LoadMetrics F → Bool
  displaces m b =
      r.better (score m) (score b) || r.same (score m) (score b) && ltb m.node_id b.node_id

  -- `none` is anyFound == false; else the node of bestNode and bestScore.
  unfoldable pub consider : Option (LoadMetrics F) → LoadMetrics F → Option (LoadMetrics F)
  consider none m = some m
  consider (some b) m = if displaces m b then some m else some b

  unfoldable pub scan :
      Priority → List (LoadMetrics F) → Option (LoadMetrics F) → Option (LoadMetrics F)
  unfolding consider
  scan p [] best = best
  scan p (m ∷ ms) best =
      scan p ms (if node_accepts_priority m.state p then consider best m else best)

  unfoldable pub best_or_error : Option (LoadMetrics F) → Selection
  best_or_error none = err none_eligible
  best_or_error (some b) = ok b.node_id

  unfoldable pub select_best : Priority → List (LoadMetrics F) → Selection
  unfolding scan best_or_error
  select_best p [] = err no_nodes
  select_best p (m ∷ ms) = best_or_error (scan p (m ∷ ms) none)

  -- No eligible node of the list would displace the node.
  abbrev pub Unbeaten : Priority → LoadMetrics F → List (LoadMetrics F) → Type 0
  Unbeaten p b = All (λ m. (node_accepts_priority m.state p && displaces m b) ≡ false)

  -- What a successful selection means.
  pub record IsChoice (p : Priority) (ms : List (LoadMetrics F)) (id : ℕ) : Type 0 where
    pub node : LoadMetrics F
    pub listed : In node ms
    pub named : node.node_id ≡ id
    pub accepts : node_accepts_priority node.state p ≡ true
    pub unbeaten : Unbeaten p node ms

  -- The node kept after one round, and after all.
  keep : Priority → LoadMetrics F → LoadMetrics F → LoadMetrics F
  keep p m b = if node_accepts_priority m.state p then (if displaces m b then m else b) else b

  final : Priority → List (LoadMetrics F) → LoadMetrics F → LoadMetrics F
  final p [] b = b
  final p (m ∷ ms) b = final p ms (keep p m b)

  scan-final :
      (p : Priority) (ms : List (LoadMetrics F)) (b : LoadMetrics F)
      → scan p ms (some b) ≡ some (final p ms b)
  unfolding scan final keep
  scan-final p [] b = refl
  scan-final p (m ∷ ms) b = ground (arith, scan-final p ms (keep p m b))

  keep_cases :
      (p : Priority) (m b : LoadMetrics F)
      → (keep p m b ≡ b) ⊎ ((keep p m b ≡ m) × (node_accepts_priority m.state p ≡ true))
  unfolding keep
  keep_cases p m b = ground arith

  final-In :
      (p : Priority) (ms : List (LoadMetrics F)) (b : LoadMetrics F)
      → (final p ms b ≡ b)
        ⊎ (In (final p ms b) ms × (node_accepts_priority (final p ms b).state p ≡ true))
  unfolding final
  final-In p [] b = inl refl
  final-In p (m ∷ ms) b = elim (final-In p ms (keep p m b)) [
    | inr (h, k) ↦ inr (inr h, k)
    | inl h ↦ elim (keep_cases p m b) [
      | inl k ↦ inl (h ∙ k)
      | inr (k, e) ↦ inr (inl (sym (h ∙ k)), rw (h ∙ k) e)
    ]
  ]

  first-IsEligible :
      (p : Priority) (ms : List (LoadMetrics F)) (id : ℕ)
      → best_or_error (scan p ms none) ≡ ok id
      → IsEligible ms p id
  unfolding scan best_or_error
  first-IsEligible p [] id h = cc
  first-IsEligible p (m ∷ ms) id h = elim (Bool-cases (node_accepts_priority m.state p)) [
    | inr e ↦ let (c, i, n, a) = first-IsEligible p ms id (rw e at h) in (c, inr i, n, a)
    | inl e ↦
        let h' : ok (final p ms m).node_id ≡ ok id = rw (e, scan-final p ms m) at h in
        elim (final-In p ms m) [
          | inl k ↦ (m, inl refl, cc, e)
          | inr (i, a) ↦ (final p ms m, inr i, cc, a)
        ]
  ]

  -- Whatever the scores and their comparison, a selected node accepts the priority.
  pub select_best-IsEligible :
      (p : Priority) (ms : List (LoadMetrics F)) (id : ℕ)
      → select_best p ms ≡ ok id
      → IsEligible ms p id
  unfolding select_best
  select_best-IsEligible p [] id h = cc
  select_best-IsEligible p (m ∷ ms) id h = first-IsEligible p (m ∷ ms) id h

  module _ (total : IsTotal r) where
    -- What does not displace `b` does not displace what `b` does not displace.
    displaces_trans :
        (m b c : LoadMetrics F)
        → displaces m b ≡ false
        → displaces b c ≡ false
        → displaces m c ≡ false
    displaces_trans m b c h k = ground (
      arith,
      total.trans (score b) (score m) (score c),
      total.connected (score m) (score b),
      total.connected (score b) (score c),
      total.same_sound (score m) (score c),
      total.same_refl (score c),
    )

    displaces_asym : (m b : LoadMetrics F) → displaces m b ≡ true → displaces b m ≡ false
    displaces_asym m b h = ground (
      arith,
      total.trans (score b) (score m) (score b),
      total.irrefl (score b),
      total.same_sound (score m) (score b),
      total.same_sound (score b) (score m),
    )

    displaces_irrefl : (b : LoadMetrics F) → displaces b b ≡ false
    displaces_irrefl b = ground (arith, total.irrefl (score b))

    keep-displaces :
        (p : Priority) (m b c : LoadMetrics F)
        → displaces (keep p m b) c ≡ false
        → (displaces b c ≡ false) × ((node_accepts_priority m.state p && displaces m c) ≡ false)
    unfolding keep
    keep-displaces p m b c h = elim (Bool-cases (node_accepts_priority m.state p)) [
      | inr e ↦ (rw e at h, rw e refl)
      | inl e ↦ elim (Bool-cases (displaces m b)) [
        | inr d ↦
            let h' : displaces b c ≡ false = rw (e, d) at h in
            (h', ground (arith, displaces_trans m b c d h'))
        | inl d ↦
            let h' : displaces m c ≡ false = rw (e, d) at h in
            (displaces_trans b m c (displaces_asym m b d) h', ground arith)
      ]
    ]

    final-Unbeaten :
        (p : Priority) (ms : List (LoadMetrics F)) (b : LoadMetrics F)
        → (displaces b (final p ms b) ≡ false) × Unbeaten p (final p ms b) ms
    unfolding final
    final-Unbeaten p [] b = (displaces_irrefl b, tt)
    final-Unbeaten p (m ∷ ms) b =
        let (kept, rest) = final-Unbeaten p ms (keep p m b) in
        let (old, new) = keep-displaces p m b (final p ms (keep p m b)) kept in (old, (new, rest))

    scan-IsChoice :
        (p : Priority) (ms : List (LoadMetrics F))
        → ((any_eligible p ms ≡ false) × (scan p ms none ≡ none))
          ⊎ ((c : LoadMetrics F) × (scan p ms none ≡ some c)
              × In c ms
              × (node_accepts_priority c.state p ≡ true)
              × Unbeaten p c ms)
    unfolding scan any_eligible
    scan-IsChoice p [] = inl (refl, refl)
    scan-IsChoice p (m ∷ ms) = elim (Bool-cases (node_accepts_priority m.state p)) [
      | inr e ↦ elim (scan-IsChoice p ms) [
        | inl (h, k) ↦ inl (rw e h, rw e k)
        | inr (c, h, i, a, u) ↦ inr (c, rw e h, inr i, a, (rw e refl, u))
      ]
      | inl e ↦
          let (kept, rest) = final-Unbeaten p ms m in
          let whole : (node_accepts_priority m.state p && displaces m (final p ms m)) ≡ false =
            ground arith in
          elim (final-In p ms m) [
            | inl h ↦
                inr (final p ms m, rw e (scan-final p ms m), inl (sym h), rw h e, (whole, rest))
            | inr (h, a) ↦ inr (final p ms m, rw e (scan-final p ms m), inr h, a, (whole, rest))
          ]
    ]

    -- Where the comparison of scores is a strict total order, the loop fails with NoNodes on an
    -- empty snapshot, with NoneEligible if no node accepts the priority, and otherwise returns a
    -- node that accepts it and that no eligible node displaces.
    pub select_best_cases :
        (p : Priority) (ms : List (LoadMetrics F))
        → ((ms ≡ []) × (select_best p ms ≡ err no_nodes))
          ⊎ ((ms ≢ []) × (any_eligible p ms ≡ false) × (select_best p ms ≡ err none_eligible))
          ⊎ ((id : ℕ) × (select_best p ms ≡ ok id) × IsChoice p ms id)
    unfolding select_best
    select_best_cases p [] = inl (refl, refl)
    select_best_cases p (m ∷ ms) = elim (scan-IsChoice p (m ∷ ms)) [
      | inl (h, k) ↦ inr (inl (λ e. cc, h, ap best_or_error k))
      | inr (c, h, i, a, u) ↦ inr (
          inr (
            c.node_id,
            ap best_or_error h,
            record { node = c; listed = i; named = refl; accepts = a; unbeaten = u },
          ))
    ]
