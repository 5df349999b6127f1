-- ===== src/Node/State.antt =====
-- SimulatedNode.h: the members of the class, updateStateUnlocked, the counters and the latencies.
-- fat_p::SlotMap and fat_p::FastHashMap are interfaces. The calls of the state callback are a list,
-- the last one first; the random device is not modelled.
use fatp_balancer.Base.{
  ℕ, ◌+◌, ◌-◌, ◌*◌, ◌/◌, ◌%◌, ◌^◌, Bool, true, false, not, ◌&&◌, ◌||◌, ltb, leb, ◌==◌,
  if◌then◌else◌, List, [], ◌∷◌, ◌++◌, Option, none, some, length, get_elem?,
}
use fatp_balancer.Job.{Priority, index, u32, u64, dec_u32}
use fatp_balancer.Metrics.{
  NodeState, offline, initializing, idle, busy, overloaded, draining, failed, recovering, is_failed,
  is_overloaded,
}

pub data FaultType : Type 0 where
  no_fault crash slowdown partition : FaultType

abbrev pub is_crash : FaultType → Bool
is_crash crash = true
is_crash _ = false

abbrev pub is_partition : FaultType → Bool
is_partition partition = true
is_partition _ = false

abbrev pub is_slowdown : FaultType → Bool
is_slowdown slowdown = true
is_slowdown _ = false

abbrev pub is_no_fault : FaultType → Bool
is_no_fault no_fault = true
is_no_fault _ = false

pub record SimulatedNodeConfig : Type 0 where
  pub worker_count : ℕ
  pub us_per_cost_unit : ℕ
  pub overload_threshold : ℕ
  pub recover_threshold : ℕ
  pub min_job_duration_us : ℕ
  pub max_job_duration_us : ℕ

pub data PendingJobState : Type 0 where
  queued running : PendingJobState

-- fat_p::SlotMapHandle
pub record SlotHandle : Type 0 where
  pub slot : ℕ
  pub generation : ℕ

abbrev pub same_handle : SlotHandle → SlotHandle → Bool
same_handle h k = h.slot == k.slot && h.generation == k.generation

-- fat_p::SlotMap<V>; `put` is a write through the pointer that `get` returns.
pub record SlotMap (V S : Type 0) : Type 0 where
  pub insert : S → V → S × SlotHandle
  pub get : S → SlotHandle → Option V
  pub put : S → SlotHandle → V → S
  pub erase : S → SlotHandle → S

-- (index << 32) | generation, of two 32-bit words.
unfoldable pub encode : SlotHandle → ℕ
encode h = u64 (h.slot * 2 ^ 32 + h.generation)

unfoldable pub decode : ℕ → SlotHandle
decode raw = record { slot = raw / 2 ^ 32; generation = raw % 2 ^ 32 }

-- `S` holds the slots and `O` the priority overrides; `pooled` is mThreadPool != nullptr.
pub record Node (S O : Type 0) : Type 0 where
  pub id : ℕ
  pub config : SimulatedNodeConfig
  pub state : NodeState
  pub fault : FaultType
  pub slowdown_factor : ℕ
  pub shutdown : Bool
  pub queue_depth : ℕ
  pub queue_depth_by_priority : Priority → ℕ
  pub slots : S
  pub overrides : O
  pub completed_jobs : ℕ
  pub failed_jobs : ℕ
  pub latencies : List ℕ
  pub notified : List NodeState
  pub pooled : Bool

-- static_cast<uint8_t>(state)
abbrev pub state_index : NodeState → ℕ
state_index offline = 0
state_index initializing = 1
state_index idle = 2
state_index busy = 3
state_index overloaded = 4
state_index draining = 5
state_index failed = 6
state_index recovering = 7

abbrev pub bump : (Priority → ℕ) → Priority → (ℕ → ℕ) → Priority → ℕ
bump f p g q = if index q == index p then g (f q) else f q

unfoldable pub drop_first : List ℕ → List ℕ
drop_first [] = []
drop_first (x ∷ xs) = xs

module _ {S O : Type 0} where
  -- The state that the depth calls for.
  unfoldable pub next_state : Node S O → NodeState
  next_state n =
      if leb n.config.overload_threshold n.queue_depth
      then overloaded
      else if ltb 0 n.queue_depth
      then if is_overloaded n.state && ltb n.config.recover_threshold n.queue_depth
        then overloaded
        else busy
      else idle

  unfoldable pub update_state_unlocked : Node S O → Node S O × Option NodeState
  unfolding next_state
  update_state_unlocked n =
      if is_crash n.fault || is_failed n.state
      then (n, none)
      else if not (state_index (next_state n) == state_index n.state)
      then (record n { state = next_state n }, some (next_state n))
      else (n, none)

  unfoldable pub notify_state_change : Node S O × Option NodeState → Node S O
  notify_state_change (n, none) = n
  notify_state_change (n, some s) = record n { notified = s ∷ n.notified }

  unfoldable pub increment_queue_counters : Node S O → Priority → Node S O
  increment_queue_counters n p = record n {
    queue_depth = u32 (n.queue_depth + 1);
    queue_depth_by_priority = bump n.queue_depth_by_priority p (λ d. u32 (d + 1));
  }

  unfoldable pub decrement_queue_counters : Node S O → Priority → Node S O
  decrement_queue_counters n p = record n {
    queue_depth = if ltb 0 n.queue_depth then dec_u32 n.queue_depth else n.queue_depth;
    queue_depth_by_priority =
        bump n.queue_depth_by_priority p (λ d. if ltb 0 d then dec_u32 d else d);
  }

  unfoldable pub record_latency : Node S O → ℕ → Node S O
  unfolding drop_first
  record_latency n us =
      let window = n.latencies ++ us ∷ [] in
      record n { latencies = if ltb 256 (length window) then drop_first window else window }

-- std::sort
unfoldable pub insert_sorted : ℕ → List ℕ → List ℕ
insert_sorted x [] = x ∷ []
insert_sorted x (y ∷ ys) = let rest = insert_sorted x ys in if leb x y then x ∷ y ∷ ys else y ∷ rest

unfoldable pub sort : List ℕ → List ℕ
unfolding insert_sorted
sort [] = []
sort (x ∷ xs) = insert_sorted x (sort xs)

-- The index of the percentile; the subtraction is met only on a list that is not empty.
unfoldable pub percentile_index : ℕ → ℕ → ℕ
percentile_index pct size = let i = pct * size / 100 in if leb size i then size - 1 else i

unfoldable pub elem_or : List ℕ → ℕ → ℕ
elem_or [] i = 0
elem_or (x ∷ xs) i = elim (get_elem? (x ∷ xs) i) [ none ↦ 0 | some y ↦ y ]

unfoldable pub percentile : List ℕ → ℕ → ℕ
unfolding elem_or sort percentile_index
percentile latencies pct = elem_or (sort latencies) (percentile_index pct (length latencies))
