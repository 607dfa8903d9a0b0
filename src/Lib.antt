-- ===== src/Lib.antt =====
-- The orchestrator's core: the store of worker tasks and leases, through which the worker processes share
-- the work, the policies that decide on merging, cleaning up, classifying and retrying the runs, the
-- reconciliation that decides what may be done with an issue, and the workers that use them.
--
-- State (internal/state/store.go). `State` has the rows, the errors and the actions; an operation of the
-- store is an action `Exec`, which takes the database and returns a result and the database after it. It
-- takes a function `fails` that says which calls of the database return an error, so that a theorem for all
-- `fails` covers each error path; `transact` undoes what a failed transaction did. An UPDATE is `set_task` or
-- `set_lease`, which also count the rows affected. The clock is an argument, used where the source defaults a
-- time to time.Now. `State.Tasks` is the queue (UpsertWorkerTask to RequeueReconciliationNeededWorkerTask),
-- `State.Leases` the leases and heartbeats (UpsertLease to UpsertDaemonHeartbeat), `State.Recovery` the
-- recovery of stale claims (MarkStaleClaimedWorkerTasksReconciliationNeeded). `State.Holds` has the rules by
-- which a postcondition is shown of an action, `State.Results` the results of the
-- workers (UpsertWorkerResult), and `State.Steps` the runs of any operations of the queue.
--
-- SQLite and Go's library are the record `Platform`: the comparison by julianday in milliseconds, the format
-- of times, the order of TEXT columns, json.Valid, and the SHA-256 name of an event. A time is the nanoseconds
-- since Go's zero time, 0 being the zero time. A transaction is one step, since SQLite serialises the writers.
-- A returned error of a driver stands for an unchanged row; the text of an error is left out. An operation of
-- the store outside a transaction, as a read and the UPDATE after it, or the rounds of the recovery, is one step
-- too. The error of RowsAffected, which the lease operations drop, is modelled in RenewLease and ReleaseLease and
-- left out in AcquireLease and ReclaimLease. An attempt and a priority, ints of Go, are natural numbers, so that
-- the refusal of a negative attempt has no counterpart.
--
-- Gate (internal/gate, internal/mergegate, internal/cleanup/policy.go). `Gate` is the result that the gates
-- share, `Gate.Merge` the merge gate and `Gate.Cleanup` the cleanup policy. Runs (internal/runclassification,
-- internal/attemptlifecycle). `Runs` has the fields of a run's record that the policies read,
-- `Runs.Classification` and `Runs.Attempt` the two policies, of which the second calls the first. Candidates
-- (candidate_selection.go) has the order of the candidates, the back-off, with an int64 as its 64 bits, and
-- `Candidates.Retry` the decision on a retry, which takes the facts of the store as an argument.
--
-- Reconcile (reconciler.go, feedback.go, status.go, and the tests of merge.go and handoff.go that they call).
-- `Reconcile` has the decision on an issue and what it is drawn from: the answers of the code host, of the
-- store and of the files of a workspace, which are arguments, `none` or an error where the read fails.
-- `Reconcile.Identity` is who may have made a pull request (internal/codeownership, internal/ghapi/app.go),
-- `Reconcile.Blocks` the tests, `Reconcile.Evidence` what ReconcileIssueWithArtifactContext gathers,
-- `Reconcile.Settle` what it decides with and without a pull request, and `Reconcile.Decide` the whole of it,
-- the list of issues, and the repair. A body of early returns is `first_return` on a list of tests and values.
-- Selection (candidate_selection.go) is the choice of the next candidate: the two loops over the ordered
-- candidates, with the events that they record and the test of the queue, on top of State and Reconcile.
--
-- Workers (internal/workertask/policy.go) has the policy of a task's next attempt on top of the store, and
-- `Workers.Dispatch` the enqueue, the claim and the completion of the merge and cleanup tasks (merge.go,
-- internal/cleanupworker/task.go). `Workers.Cleaning` is the worker that deletes workspaces
-- (RunQueued of the latter): what it does to the files and tells its callbacks is drawn up from their answers,
-- which are parameters. Linear (internal/linearstatus) is the worker that moves issues, from the
-- queueing of a transition to its completion; Linear's answers and the encoding of payloads are a parameter.
-- Lanes (continuous.go) is the loop of a lane, with its work, its sleep and the cancellation as functions on a
-- state of the world, and `Lanes.Turn` a turn at a lane's task (runContinuousWorkerTask): what happens while the
-- work runs is a sequence of moments, in which the renewals of the lease and the steps of the work come in any
-- order. `Common` has what they share: tests, texts by code points, words, early returns, lists
-- without repetition, tables with a unique key, and a stable sort. `Tests` runs them on concrete inputs.
--
-- Loops are by structural recursion on a list or on the number of rounds that are left. The loop of a lane has
-- fuel, since a lane without a maximum of rounds never stops by itself; the maximum is enough where there is one.
-- The case folding of texts is written out for the comparison with ASCII texts, the only one made.
--
-- Not modelled: the code hosts, Linear, the agent processes and the command line, which are input and output;
-- the scheduler of the lanes, which starts and waits for goroutines; the heartbeats of a turn; the events that a
-- reconciliation scan records; what the merge worker does with a claimed task; the reports, which
-- format texts; the schema and its migrations, which are SQL; and the parts of the store about issues and
-- attempts.
pub mod Common
pub mod State
pub mod Gate
pub mod Reconcile
pub mod Runs
pub mod Candidates
pub mod Workers
pub mod Selection
pub mod Linear
pub mod Lanes
pub mod Tests
