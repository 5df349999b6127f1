-- ===== src/Lib.antt =====
-- A load balancer of jobs over nodes: the C++ headers under include/balancer and policies, and
-- the simulation of a cluster under sim.
--
-- A job is submitted with a priority. AdmissionControl decides whether it is taken. A job that is
-- urgent (Critical or High) and meets a cluster whose nodes are all overloaded waits in the
-- HoldingQueue, under a handle with bit 63 set, in a slot that AdmissionControl has reserved for it.
-- Any other job goes to the node that the active policy selects on a snapshot of the nodes. A thread
-- drains the HoldingQueue; another one ages the dispatched jobs, so that they climb to a higher
-- priority or expire.
--
-- - Base: names of the libraries, Boolean tests, list helpers, and Expected, for fat_p::Expected.
-- - Job, Metrics: include/balancer/Job.h and LoadMetrics.h.
-- - Floats: the float arithmetic of the sources as an interface with named laws.
-- - HoldingQueue: include/balancer/HoldingQueue.h. Defs has the methods under their names (tryDequeue
--   is try_dequeue, extractFrom is extract_from); Waiting the list in the order of service that
--   specifies them; Invariant, Refinement, Handles and Withdraw the proofs.
-- - Admission: include/balancer/AdmissionControl.h. Defs has TokenBucket and evaluate, split at the
--   three layers; Reserve has the compare-exchange loop of tryReserveHoldingSlot, given what each of
--   its attempts meets; Buckets and Layers the proofs.
-- - Aging: include/balancer/AgingEngine.h. Defs has track, untrack and tick, whose loop body is fate;
--   Tracking and Tick the proofs.
-- - Policy: View has ClusterView.h; Best the loop that four policies share, with their scores in Loads;
--   RoundRobin, WorkStealing and Affinity the others; Kinds selectNode over all of them with
--   Composite.h; Factory include/balancer/PolicyFactory.h.
-- - Balancer: include/balancer/Balancer.h. State has the members and the interfaces of what it calls;
--   Snapshot the cluster metrics and findNode; Lifecycle the registration and the end of a job;
--   Submit, Cancel (with switchPolicy and the aging loop) and Drain the operations, cut at their early
--   returns; Construct the constructor and the destructor, Control setAgingEnabled and other settings;
--   Reservation, Submitting, Draining, Cancelling and Withdrawal the proofs for one operation, and
--   Account those on the count of jobs in flight over runs of all operations in any order, Turns.
-- - Node: sim/SimulatedNode.h and sim/FaultInjector.h. State has the members, updateStateUnlocked and
--   the counters; Jobs the operations, executeJob as begin_job and end_job; Run a node with its pool
--   over a sequence of events; Depth, Tally and Ledger the proofs on the counters, Dropped
--   on tasks that were dropped, Handles, Phases and Cancelling those on the life of a handle, Latencies those on percentiles; Calls the node as the
--   INode of the balancer.
-- - Cluster: sim/SimulatedCluster.h and TelemetrySnapshot.h. Defs has drainAll, captureSnapshot and
--   toClusterMetrics; Agreement compares them with Balancer and Node; Stop has stop and tick;
--   Format has formatJson, Writer the thread that writes snapshots to a file, with a list of characters
--   for a text and two files; Published and Joined are its proofs.
-- - Cost: include/balancer/CostModel.h and AffinityMatrix.h. Matrix and Curve have the learned tables,
--   Model predict and update, Persist and File saving and loading over the calls of Json, by a text that
--   is written and parsed; Learning, Failing, Snapshot and Reload the proofs, with Storable, Restored and Forecast for what a loaded model predicts.
-- - Supervisor: include/balancer/FeatureSupervisor.h, TelemetryAdvisor.h and NNAdvisor.h. Defs has
--   applyChanges, the batch observer and determineAlert; Graph buildGraph, the constructor and
--   activePolicy; Wiring what the observer does to the balancer; NnAdvisor the advisor that reads a file;
--   Alerts, Reports and Consequences the proofs.
--
-- State is passed on explicitly. A time is a number of clock ticks and an argument, one for each call
-- of Clock::now(). Unsigned integers wrap around as written; a StrongId is its integer. A completion
-- callback is the job that it has captured, and its invocation an event: Lifecycle.callback, or the
-- argument `early` of submit and drain for a node that completes a job before its submit returns.
--
-- Fuel: make_policy takes the depth of nested Composite policies, and three levels are enough for every
-- configuration. The drain loop is given its rounds, and as many as jobs are held are enough. The
-- compare-exchange loop is given its attempts.
--
-- Parameters: fat_p::FastHashMap, fat_p::SlotMap, fat_p::feature::FeatureManager, the calls of
-- fat_p::JsonLite and INode (an abstract class) are interfaces; Balancer and Policy see the cost model
-- through one too, that Cost.Model fills. So is the float arithmetic an interface, of which a theorem
-- assumes what its hypotheses name.
--
-- Not modelled: the random device of a node; the threads
-- of the balancer, of which each operation is one step, and interleavings inside one operation, other
-- than the early completion of a job and the reservation loop; what fat_p's FeatureManager derives from
-- the edges of its graph; the names of states and errors for logs; tests, tools, the demo and the
-- WebAssembly bindings, which only pass calls on.
pub mod Base
pub mod Job
pub mod HoldingQueue
pub mod Floats
pub mod Admission
pub mod Aging
pub mod Metrics
pub mod Policy
pub mod Balancer
pub mod Supervisor
pub mod Node
pub mod Cost
pub mod Cluster
