-- ===== src/Lib.antt =====
-- temporal-entity: long-lived entities as Temporal workflows, with their commands, lifecycle and
-- labels.
--
-- A kind of entity is declared with `entdefine.New` and `Handle` (pkg/entdefine/definition.go).
-- Its workflow (`workflowFn`, pkg/entdefine/loop.go) keeps one envelope (internal/wire/wire.go):
-- update handlers put commands into the envelope's queue and wait, the main loop executes them
-- one at a time, records each outcome in the envelope's dedup cache, mirrors phase and labels
-- into search attributes, and carries the envelope into a new run by continue-as-new. A delete
-- signal makes the loop reject the queue, wait for the handlers, run the finalizer and end.
-- `Saga` (pkg/entdefine/saga.go) is for handlers with several steps.
--
-- The files:
-- - Base: strings, lists, maps, Go's errors and `%q`, shared by all.
-- - Entity/Id, Entity/State, Entity/Command: pkg/entity/id.go, state.go and command.go. The
--   request types of Go are records `CommandType` of their name, their JSON codecs and the
--   validation methods that they implement.
-- - Wire: internal/wire/wire.go, `RecordCompleted` as `record_completed`, `Snapshot` as
--   `snapshot`, `MergeLabels` as `merge_labels`; Wire/Cache, Wire/Labels and Wire/Recent hold
--   the proofs.
-- - Entdefine/Context, Entdefine/Typed, Entdefine/Definition: pkg/entdefine/definition.go,
--   that is `Ctx`, the closures that `Handle` and `HandleQuery` build, and the registration;
--   the proofs are in Entdefine/Definition/Registry.
-- - Entdefine/Attributes and Entdefine/Loop: pkg/entdefine/loop.go. Attributes/Sorted is on
--   the order of the published labels. Loop/Run has the machine, the state of one run;
--   Loop/Setup its entry, Loop/Main the main coroutine, one function for the code between two
--   points at which it can block; Loop/Messages the update handlers, the signal, the queries,
--   and `act` and `Reach`, the steps of a run and the machines that it reaches.
-- - Entdefine/Frame, Effects, Induction: what the pieces of the loop do and leave alone, and
--   the induction over a run that the theorems on all interleavings use.
-- - Entdefine/Queue, Emptied, Dedup, Resent, Lifecycle, Carried, Rollover, Marked, Rejected,
--   Serving, Draining, Mirror: the theorems on a run, each file on what it is named for.
-- - Entdefine/Serial: the entity as a user may think of it, for the whole loop: a world, a
--   spec, a state, labels and a bounded memory of outcomes, which serves one command after
--   another. It has no queue and no handlers, and models no code by itself; the files below
--   relate the runs of the loop to it.
-- - Entdefine/Saga: pkg/entdefine/saga.go. Saga/Steps says what one step does to a saga, for
--   its users; the theorems are in Saga/Rollback and Saga/Restore.
-- - Entclient: pkg/entclient/client.go and operator.go. Server is what the code uses of
--   Temporal's client, a parameter; Retry is `withCANRetry`, counted in Retry/Bounded, Typed
--   and Operator are the operations. Calls follows a command, Queries a query and Labels a
--   patch of labels from the client to the entity and back, and Operating compares the two
--   clients.
-- - K8slib: examples/reconciler/k8slib/k8slib.go, cluster.go and ops.go. Ref has the
--   references, Config the options, Digest `digestOf`, Handlers the universal handlers, Kind
--   `NewKind`, Ops the wrappers of ops.go. Cluster has the interface to a cluster, the
--   activities on it and what its documentation asks of it; the handlers take the activities
--   as a record, which Cluster/Registered and Fake/Api compare to what a worker runs. Fake is
--   the in-memory cluster of fake/fake.go. A poll recurses on its number of attempts.
-- - Reconciler: examples/reconciler/main.go. Deployment is the user's type with its predicates
--   and the hook by which the in-memory cluster converges, BlueGreen the command with its saga
--   and its child workflow, Kind what `newDeploymentKind` builds. The files below them run
--   these on the in-memory cluster, through the handlers of K8slib; Kind/Served runs the apply
--   command on the sequential entity, Kind/Deleted a deletion on the machine of the loop.
-- - Tests: runs at concrete inputs.
--
-- How the code is modelled:
-- - A string is the list of its bytes. A map is an association list, nil the empty one; where
--   Go iterates over a map, the definitions take the order that the list has.
-- - An error is its message and the type of the first `ApplicationError` of its chain.
-- - JSON is a parameter: a codec per Go type, and `patches` for `map[string]string`. So are
--   SHA-256, the form that `%d` gives a number (Base/Decimal has Go's), the errors with which
--   Temporal refuses a handler, and the way in which Temporal runs a child workflow.
-- - A Go `int` of a deployment is an integer without a bound.
-- - What handlers, initializers, finalizers and reconcilers do outside is a function on a
--   world `W`; what they do to their entity is a list of the calls that `Ctx` offers.
-- - Coroutines of a workflow switch only where one blocks. The machine says where the main
--   coroutine stands; a message is handled where it is blocked. A wait for the handlers blocks
--   only while some handler has not returned. Handlers return in any order once their outcome
--   is recorded; the SDK runs them before the next message comes, the machine also lets a
--   message come first, so that it has all the interleavings of the code and some more.
-- - `history` records what can be observed of a run, for the theorems; the code reads none of
--   it.
-- - Durations and counts are naturals: one that is not positive switches its feature off.
-- - The loop of a run has no fuel: one step is one action, and the theorems on progress give
--   the actions. `evict` recurses on the list of ids, and a saga on its steps.
--
-- Not modelled: errors of `Await` when a workflow is cancelled, failed upserts of search
-- attributes (which are only logged), logging, the note signal (it changes nothing), bytes of 128
-- and more in `%q` (they are passed on), the timeouts and the retry policy of activities, and
-- `run` of examples/reconciler/main.go but for its hook: it dials a server, calls the client and
-- prints.
pub mod Base
pub mod Entity
pub mod Wire
pub mod Entdefine
pub mod Entclient
pub mod K8slib
pub mod Reconciler
pub mod Tests
