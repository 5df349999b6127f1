-- ===== src/Policy/RoundRobin.antt =====
-- policies/RoundRobin.h: the cursor is a uint32_t that every call advances.
use fatp_balancer.Base.{
  ℕ, zero, suc, ◌+◌, ◌-◌, ◌%◌, ◌≤◌, ◌<◌, ◌≡◌, inl, inr, refl, true, false, if◌then◌else◌, leb,
  leb→le, has_value, List, [], ◌∷◌, none, some, ok, err, In, arith, Bool-cases, Option-cases,
  length, get_elem?,
}
use native.Mathlib.Decide.{dec_lt}
use native.Mathlib.Nat.{mod-eq_of_lt, add-zero}
use fatp_balancer.Job.{Priority, u32}
use fatp_balancer.Metrics.{LoadMetrics, node_accepts_priority}
use fatp_balancer.Policy.View.{Selection, no_nodes, none_eligible, any_eligible, IsEligible}

-- The round in which an index is looked at.
round_of : ℕ → ℕ → ℕ → ℕ
round_of count start j = if leb start j then j - start else j + count - start

mod_wrap : (x n : ℕ) → x < n → (x + n) % n ≡ x
mod_wrap x n h = grind arith

round_of_lem :
    (count start j : ℕ)
    → start < count
    → j < count
    → (round_of count start j < count) × ((start + round_of count start j) % count ≡ j)
unfolding round_of
round_of_lem count start j h k = elim (Bool-cases (leb start j)) [
  | inl e ↦
      let above : start ≤ j = leb→le _ _ e in
      let sum : start + (j - start) ≡ j = omega arith in rw e (omega arith, rw sum (mod-eq_of_lt k))
  | inr e ↦
      let below : j < start = ground arith in
      let sum : start + (j + count - start) ≡ j + count = omega arith in
      rw e (omega arith, rw sum (mod_wrap j count k))
]

module _ {F : Type 0} where
  -- Round `i` of at most `rounds` more; `none` cannot be met, since the index is below the count.
  unfoldable pub rounds_from : Priority → List (LoadMetrics F) → ℕ → ℕ → ℕ → Selection
  rounds_from p ms start i zero = err none_eligible
  rounds_from p ms start i (suc rounds) =
      let rest = rounds_from p ms start (i + 1) rounds in
      elim (get_elem? ms ((start + i) % length ms)) [
        | none ↦ rest
        | some m ↦ if node_accepts_priority m.state p then ok m.node_id else rest
      ]

  unfoldable pub select_round_robin : ℕ → Priority → List (LoadMetrics F) → ℕ × Selection
  unfolding rounds_from
  select_round_robin cursor p [] = (cursor, err no_nodes)
  select_round_robin cursor p (m ∷ ms) =
      let nodes = m ∷ ms in
      (u32 (cursor + 1), rounds_from p nodes (cursor % length nodes) 0 (length nodes))

  get_elem?-In :
      (ms : List (LoadMetrics F)) (i : ℕ) {m : LoadMetrics F} → get_elem? ms i ≡ some m → In m ms
  get_elem?-In [] i h = cc
  get_elem?-In (x ∷ ms) zero h = inl (ground arith)
  get_elem?-In (x ∷ ms) (suc i) h = inr (get_elem?-In ms i h)

  rounds_from-IsEligible :
      (p : Priority) (ms : List (LoadMetrics F)) (start i rounds : ℕ) (id : ℕ)
      → rounds_from p ms start i rounds ≡ ok id
      → IsEligible ms p id
  unfolding rounds_from
  rounds_from-IsEligible p ms start i zero id h = cc
  rounds_from-IsEligible p ms start i (suc rounds) id h =
      elim (Option-cases (get_elem? ms ((start + i) % length ms))) [
        | inl e ↦ rounds_from-IsEligible p ms start (i + 1) rounds id (ground arith)
        | inr (m, e) ↦ elim (Bool-cases (node_accepts_priority m.state p)) [
          | inl a ↦ (m, get_elem?-In ms _ e, ground arith, a)
          | inr a ↦ rounds_from-IsEligible p ms start (i + 1) rounds id (ground arith)
        ]
      ]

  pub select_round_robin-IsEligible :
      (cursor : ℕ) (p : Priority) (ms : List (LoadMetrics F)) (id : ℕ)
      → (select_round_robin cursor p ms).1 ≡ ok id
      → IsEligible ms p id
  unfolding select_round_robin
  select_round_robin-IsEligible cursor p [] id h = cc
  select_round_robin-IsEligible cursor p (m ∷ ms) id h =
      rounds_from-IsEligible p (m ∷ ms) (cursor % length (m ∷ ms)) 0 (length (m ∷ ms)) id h

  -- A failed scan has met no accepting node in its rounds.
  rounds_from_failed :
      (p : Priority) (ms : List (LoadMetrics F)) (start i rounds k : ℕ) (m : LoadMetrics F)
      → has_value (rounds_from p ms start i rounds) ≡ false
      → i ≤ k
      → k < i + rounds
      → get_elem? ms ((start + k) % length ms) ≡ some m
      → node_accepts_priority m.state p ≡ false
  unfolding rounds_from
  rounds_from_failed p ms start i zero k m f lo hi e = absurd (omega arith)
  rounds_from_failed p ms start i (suc rounds) k m f lo hi e = elim (dec_lt i k) [
    | yes later ↦
        rounds_from_failed p ms start (i + 1) rounds k m (ground arith) (omega arith) (omega arith)
          e
    | no now ↦ let same : i ≡ k = omega arith in ground arith
  ]

  any_eligible-In :
      (p : Priority) (ms : List (LoadMetrics F))
      → any_eligible p ms ≡ true
      → (j : ℕ) × (m : LoadMetrics F) × (get_elem? ms j ≡ some m)
        × (j < length ms)
        × (node_accepts_priority m.state p ≡ true)
  unfolding any_eligible
  any_eligible-In p [] h = cc
  any_eligible-In p (m ∷ ms) h = elim (Bool-cases (node_accepts_priority m.state p)) [
    | inl a ↦ (0, m, refl, omega arith, a)
    | inr a ↦
        let (j, c, e, lt, b) = any_eligible-In p ms (ground arith) in (suc j, c, e, omega arith, b)
  ]

  -- The scan reaches every node: if one accepts the priority, wherever the cursor stands, a node
  -- is selected.
  pub select_round_robin_finds :
      (cursor : ℕ) (p : Priority) (ms : List (LoadMetrics F))
      → any_eligible p ms ≡ true
      → has_value (select_round_robin cursor p ms).1 ≡ true
  unfolding select_round_robin any_eligible
  select_round_robin_finds cursor p [] h = cc
  select_round_robin_finds cursor p (m ∷ ms) h =
      let n = length (m ∷ ms) in
      let (j, c, e, lt, a) = any_eligible-In p (m ∷ ms) h in
      let (few, at) = round_of_lem n (cursor % n) j (grind arith) lt in
      elim (Bool-cases (has_value (rounds_from p (m ∷ ms) (cursor % n) 0 n))) [
        | inl found ↦ found
        | inr failed ↦ absurd (
            ground (
              arith,
              rounds_from_failed p (m ∷ ms) (cursor % n) 0 n (round_of n (cursor % n) j) c failed,
            ))
      ]

  -- If the node under the cursor accepts the priority it is the one selected, and the cursor moves
  -- on by one: while every node accepts, the nodes take turns in the order of the snapshot.
  pub select_round_robin_turn :
      (cursor : ℕ) (p : Priority) (ms : List (LoadMetrics F)) (m : LoadMetrics F)
      → get_elem? ms (cursor % length ms) ≡ some m
      → node_accepts_priority m.state p ≡ true
      → select_round_robin cursor p ms ≡ (u32 (cursor + 1), ok m.node_id)
  unfolding select_round_robin rounds_from
  select_round_robin_turn cursor p [] m h a = cc
  select_round_robin_turn cursor p (x ∷ ms) m h a =
      let n = suc (length ms) in
      let first : (cursor % n + 0) % n ≡ cursor % n = rw add-zero (mod-eq_of_lt (grind arith)) in
      ground (arith, first)
