-- ===== src/Node/Tests.antt =====
-- SimulatedNode.h with a concrete slot map, that numbers its slots and never uses one again.
use fatp_balancer.Base.{
  ℕ, ◌+◌, ◌*◌, ◌<◌, ◌^◌, ◌≡◌, refl, Bool, true, false, not, ◌&&◌, ltb, ◌==◌, if◌then◌else◌, List,
  [], ◌∷◌, Option, none, some, is_some, ok, arith, has_value, All,
}
use fatp_balancer.Job.{Priority, normal, high, default_job}
use fatp_balancer.Balancer.State.{FastHashMap}
use fatp_balancer.Node.State.{
  crash, no_fault, PendingJobState, queued, encode, SlotHandle, same_handle, SlotMap,
  SimulatedNodeConfig, decode,
}
use fatp_balancer.Metrics.{node_accepts_priority}
use fatp_balancer.Cluster.Defs.{SimulatedCluster, is_drained}
use fatp_balancer.Cluster.Stop.{Shutdown}
use fatp_balancer.Cluster.Agreement.{reading}
use fatp_balancer.Node.Jobs.{cancel, start, submit, reprioritise, begin_job, end_job}
use fatp_balancer.Node.Run.{
  Run, Event, pick, starts, injects, submits, cancels, reprioritises, begins, ends, step, steps,
  constructed,
}
use fatp_balancer.Node.Calls.{submit_run, cancel-submit, submit_run_collides}
use fatp_balancer.Node.Ledger.{IsSound, steps-constructed-IsSound}
use fatp_balancer.Node.Handles.{SlotMapLaws, Phase, waits, Reaches, uses, HasPhase}
use fatp_balancer.Node.Dropped.{In, steps-constructed-dropped}
use fatp_balancer.Node.Cancelling.{IsTracked, steps-Reaches, steps-constructed-IsTracked}

record Slots : Type 0 where
  next : ℕ
  states : SlotHandle → Option PendingJobState

abbrev is_given : Slots → SlotHandle → Bool
is_given s h = ltb h.slot s.next && h.generation == 0

abbrev next_handle : Slots → SlotHandle
next_handle s = record { slot = s.next; generation = 0 }

abbrev put_state : Slots → SlotHandle → Option PendingJobState → Slots
put_state s k v = record s { states = λ h. if same_handle h k then v else s.states h }

instance abbrev slots : SlotMap PendingJobState Slots
slots = record {
  insert =
      λ s v. (record (put_state s (next_handle s) (some v)) { next = s.next + 1 }, next_handle s);
  get = λ s h. if is_given s h then s.states h else none;
  put = λ s h v. put_state s h (some v);
  erase = λ s h. put_state s h none;
}

instance slots_laws : SlotMapLaws slots
slots_laws = record {
  past = λ s h. is_given s h && not (is_some (s.states h));
  get-fresh = λ s v. ground arith;
  past-fresh = λ s v. ground arith;
  get-insert = λ s v h. ground arith;
  past-insert = λ s v h. ground arith;
  get-put = λ s k v h g. ground arith;
  past-put = λ s k v h g. ground arith;
  get-erase = λ s k h. ground arith;
  past-erase = λ s k h g. ground arith;
}

abbrev find_in : List (ℕ × Priority) → ℕ → Option Priority
find_in [] k = none
find_in ((a, p) ∷ rest) k = if a == k then some p else find_in rest k

abbrev without : List (ℕ × Priority) → ℕ → List (ℕ × Priority)
without [] k = []
without ((a, p) ∷ rest) k =
    let others = without rest k in if a == k then others else (a, p) ∷ others

instance abbrev overrides : FastHashMap Priority (List (ℕ × Priority))
overrides = record { find = find_in; insert = λ m k p. (k, p) ∷ m; erase = without }

abbrev config : SimulatedNodeConfig
config = record {
  worker_count = 2;
  us_per_cost_unit = 1;
  overload_threshold = 2;
  recover_threshold = 1;
  min_job_duration_us = 0;
  max_job_duration_us = 0;
}

abbrev no_slots : Slots
no_slots = record { next = 0; states = λ h. none }

-- Two jobs are taken, one starts and one is promoted.
abbrev some_events : List Event
some_events =
    starts
    ∷ submits (default_job normal)
    ∷ submits (default_job normal)
    ∷ begins 1
    ∷ reprioritises (2 ^ 32) high
    ∷ []

abbrev more_events : List Event
more_events = begins 0 ∷ ends 0 7 true ∷ injects crash 1 ∷ injects no_fault 1 ∷ []

abbrev no_overrides : List (ℕ × Priority)
no_overrides = []

abbrev some_run : Run Slots (List (ℕ × Priority))
some_run = steps (constructed 1 config no_slots no_overrides) some_events

no_slots-empty :
    (h : SlotHandle) → (slots.get no_slots h ≡ none) × (slots_laws.past no_slots h ≡ false)
unfolding slots_laws
no_slots-empty h = (ground arith, ground arith)

some_run-IsTracked : IsTracked some_run
some_run-IsTracked =
    steps-constructed-IsTracked some_events 1 config no_slots no_overrides no_slots-empty

-- A job is taken back, and dropped when it begins.
abbrev cancel_events : List Event
cancel_events = starts ∷ submits (default_job normal) ∷ cancels 0 ∷ begins 0 ∷ []

steps-constructed-dropped_example :
    IsSound (steps (constructed 1 config no_slots no_overrides) cancel_events) 0
    × All
        (λ h. In h (steps (constructed 1 config no_slots no_overrides) cancel_events).withdrawn)
        (steps (constructed 1 config no_slots no_overrides) cancel_events).dropped
steps-constructed-dropped_example =
    steps-constructed-dropped 1 config no_slots no_overrides cancel_events no_slots-empty
      (omega arith) (omega arith)

-- The job that waits is taken back, and the one that runs is not.
second-HasPhase : HasPhase some_run (decode (2 ^ 32)) waits
unfolding decode steps step reprioritise pick submit start node_accepts_priority begin_job
    slots_laws uses
second-HasPhase = record { slot = refl; past = refl; waiting = refl; running = refl }

steps-Reaches_example :
    (q : Phase) × Reaches waits q × HasPhase (steps some_run more_events) (decode (2 ^ 32)) q
steps-Reaches_example =
    steps-Reaches more_events some_run (decode (2 ^ 32)) waits some_run-IsTracked second-HasPhase

-- The one job of the node has run.
abbrev quiet_events : List Event
quiet_events = starts ∷ submits (default_job normal) ∷ begins 0 ∷ ends 0 7 true ∷ []

abbrev quiet_run : Run Slots (List (ℕ × Priority))
quiet_run = steps (constructed 1 config no_slots no_overrides) quiet_events

quiet_run-IsSound : IsSound quiet_run 0
quiet_run-IsSound =
    steps-constructed-IsSound 1 config no_slots no_overrides quiet_events (omega arith)
      (omega arith)

quiet_run_drained : is_drained (reading quiet_run) ≡ true
unfolding is_drained steps step pick submit start node_accepts_priority begin_job end_job
quiet_run_drained = refl

-- The third job is taken by the node of the first two.
third_taken : (submit_run some_run (default_job high)).1 ≡ ok (2 * 2 ^ 32)
unfolding submit_run steps step reprioritise pick submit start node_accepts_priority begin_job
    encode decode
third_taken = refl

third_slot : (slots.insert some_run.node.slots queued).1.slot < 2 ^ 32
unfolding steps step reprioritise pick submit start node_accepts_priority begin_job decode
third_slot = omega arith

cancel-submit_example :
    (cancel (submit_run some_run (default_job high)).0.node (2 * 2 ^ 32)).1 ≡ ok tt
cancel-submit_example =
    cancel-submit some_run (default_job high) (2 * 2 ^ 32) third_slot (omega arith) third_taken

-- A new node of the given id.
abbrev new_node : ℕ → Run Slots (List (ℕ × Priority))
new_node id = steps (constructed id config no_slots no_overrides) (starts ∷ [])

first_taken : (submit_run (new_node 1) (default_job high)).1 ≡ ok 0
unfolding submit_run steps step submit start node_accepts_priority encode
first_taken = refl

second_taken : has_value (submit_run (new_node 2) (default_job normal)).1 ≡ true
unfolding submit_run steps step submit start node_accepts_priority encode
second_taken = refl

same_slots : (new_node 1).node.slots ≡ (new_node 2).node.slots
unfolding steps step start
same_slots = refl

submit_run_collides_example : (submit_run (new_node 2) (default_job normal)).1 ≡ ok 0
submit_run_collides_example =
    submit_run_collides (new_node 1) (new_node 2) (default_job high) (default_job normal) 0
      same_slots first_taken second_taken

-- A node with two jobs, of which its pool begins one while the node is stopped.
abbrev busy_events : List Event
busy_events = starts ∷ submits (default_job normal) ∷ submits (default_job high) ∷ []

abbrev busy_run : Run Slots (List (ℕ × Priority))
busy_run = steps (constructed 1 config no_slots no_overrides) busy_events

abbrev shutdown : Shutdown
shutdown = record { meanwhile = begins 0 ∷ []; outcome = λ n. (7, true) }

abbrev busy_cluster : SimulatedCluster Slots (List (ℕ × Priority))
busy_cluster = record { nodes = busy_run ∷ []; started = true }
