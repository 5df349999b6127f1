-- ===== src/Cluster/Tests/Files.antt =====
-- SimulatedCluster.h: a run of the snapshot writer, with documents that are lists of numbers.
use fatp_balancer.Base.{
  ℕ, ◌≤◌, ◌≡◌, refl, ◌⊎◌, true, false, List, [], ◌∷◌, ◌++◌, none, some, All, arith,
}
use fatp_balancer.Cluster.Defs.{NodeEntry, TelemetrySnapshot}
use fatp_balancer.Cluster.Format.{Field, Writes, entry_json, entries_json, format_json}
use fatp_balancer.Cluster.Writer.{
  unstarted, SnapshotWriter, Turn, Event, turns, reaches, clears, joins, launches, rename, reach,
  launch, turn, step, steps,
}
use fatp_balancer.Cluster.Published.{Arrives, IsDocument, steps-IsDocument}
use fatp_balancer.Cluster.Joined.{IsThread, count_turns, clears-joins}

abbrev joined : List (List ℕ) → List ℕ
joined [] = []
joined (x ∷ xs) = x ++ joined xs

abbrev values_of : List (Field × List ℕ) → List ℕ
values_of [] = []
values_of ((k, v) ∷ xs) = v ++ values_of xs

abbrev numbers : Writes ℕ (List ℕ) ℕ
numbers = record {
  object = values_of;
  array = joined;
  int = λ n. n ∷ [];
  double = λ x. x ∷ [];
  to_json_string = λ j pretty. j;
}

abbrev entry : NodeEntry ℕ
entry = record {
  node_id = 1;
  state = 3;
  utilization = 0;
  queue_depth = 2;
  p50_latency_us = 10;
  p99_latency_us = 20;
  completed_jobs = 5;
  failed_jobs = 0;
}

abbrev snapshot : TelemetrySnapshot ℕ
snapshot = record {
  nodes = entry ∷ [];
  active_nodes = 1;
  unavailable_nodes = 0;
  total_submitted = 7;
  in_flight_jobs = 2;
  rejected_rate_limited = 0;
  rejected_priority_rejected = 0;
  rejected_cluster_saturated = 0;
  overloaded_fraction = 0;
  failed_fraction = 0;
  cluster_p99_latency_us = 20;
  cluster_p50_latency_us = 10;
}

abbrev document : List ℕ
document = 1 ∷ 3 ∷ 0 ∷ 2 ∷ 10 ∷ 20 ∷ 5 ∷ 0 ∷ 1 ∷ 0 ∷ 7 ∷ 2 ∷ 0 ∷ 0 ∷ 0 ∷ 0 ∷ 0 ∷ 20 ∷ 10 ∷ []

-- Nodes come first in the document, in their order.
formatted : format_json numbers snapshot false ≡ document
unfolding format_json entries_json entry_json
formatted = refl

abbrev all_well : Turn ℕ
all_well = record { snapshot = snapshot; opens = true; arrives = true; renames = true }

abbrev unwritten : SnapshotWriter ℕ
unwritten = record { running = false; place = unstarted; tmp = none; path = some (9 ∷ []) }

-- A snapshot is published; the next is half written.
abbrev run : List (Event ℕ)
run =
    launches
    ∷ turns all_well
    ∷ turns all_well
    ∷ reaches
    ∷ turns all_well
    ∷ turns all_well
    ∷ turns all_well
    ∷ turns all_well
    ∷ turns all_well
    ∷ reaches
    ∷ []

run-Arrives : All (Arrives numbers) run
run-Arrives = (tt, (refl, (refl, (tt, (refl, (refl, (refl, (refl, (refl, (tt, tt))))))))))

published : (steps numbers unwritten run).path ≡ some document
unfolding steps step launch turn reach rename format_json entries_json entry_json
published = refl

steps-IsDocument_example : (unwritten.path ≡ some document) ⊎ IsDocument numbers run document
steps-IsDocument_example =
    steps-IsDocument numbers unwritten run document refl refl run-Arrives published

-- The turns while the owner waits.
abbrev waiting_run : List (Event ℕ)
waiting_run =
    turns all_well
    ∷ reaches
    ∷ turns all_well
    ∷ turns all_well
    ∷ turns all_well
    ∷ turns all_well
    ∷ []

waiting_run-IsThread : All IsThread waiting_run
waiting_run-IsThread = (tt, (tt, (tt, (tt, (tt, (tt, tt))))))

five_turns : 5 ≤ count_turns waiting_run
five_turns = omega arith

abbrev busy : SnapshotWriter ℕ
busy = steps numbers unwritten run

clears-joins_example :
    ((step numbers (steps numbers (step numbers busy clears) waiting_run) joins).place ≡ unstarted)
    × ((steps numbers (step numbers busy clears) waiting_run).running ≡ false)
clears-joins_example = clears-joins numbers busy waiting_run waiting_run-IsThread five_turns
