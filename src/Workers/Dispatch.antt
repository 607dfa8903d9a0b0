-- ===== src/Workers/Dispatch.antt =====
-- How a worker's task is put in the queue, taken from it and finished: enqueueMergeWorkerTask,
-- claimNextQueuedMergeWorkerTask and completeClaimedMergeWorkerTask of merge.go, and Enqueue, Claim and
-- Complete of internal/cleanupworker/task.go, which have the same bodies.
pub mod Enqueued
use agent_machine.Common.{
  ℕ, String, Bool, true, false, not, ◌&&◌, ◌||◌, Option, none, some, List, [], ◌∷◌, ◌++◌, ◌==◌,
  concat, if◌then◌else◌,
}
use agent_machine.Common.Table.{find}
use agent_machine.State.{
  Time, Platform, WorkerTask, WorkerResult, encoded, Event, Json, text, Payload, Result, ok, err,
  Error, Db, Call, Exec, ◌>>=◌, ◌>>◌, pure, choose, task_key, time_or, text_or, status_queued,
  status_failed,
}
use agent_machine.State.Tasks.{
  worker_tasks, upsert_worker_task, claim_next_worker_task, complete_worker_task, append_event,
}
use agent_machine.State.Results.{upsert_worker_result}
use agent_machine.Workers.{blocks_dispatch, available_at_after_latest_failure}

-- The calls of the store, each of which meets failures of its own.
pub data Stage : Type 0 where
  listing delay queueing claiming completion storing noting : Stage

-- What the workers of the two roles put in the queue. `payload` is the encoded payload of the task.
pub record Errand : Type 0 where
  pub role : String
  pub key : String
  pub issue_key : String
  pub issue_id : String
  pub priority : ℕ
  pub lease_name : String
  pub payload : String
  pub details : Payload

-- mergeWorkerTaskKey, where `decimal` is the verb %d of fmt
abbrev pub merge_worker_task_key : (ℕ → String) → String → ℕ → String
merge_worker_task_key decimal issue_key number =
    concat ("merge:" ∷ issue_key ∷ ":" ∷ decimal number ∷ [])

abbrev pub cleanup_task_key : String → String
cleanup_task_key workspace = concat ("cleanup:" ∷ workspace ∷ [])

-- The errands of the two enqueues; `details` is what their event says beside the task.
abbrev pub merge_errand : (ℕ → String) → String → String → ℕ → ℕ → String → String → Errand
merge_errand decimal issue_key issue_id priority number url payload = record {
  role = "merge";
  key = merge_worker_task_key decimal issue_key number;
  issue_key = issue_key;
  issue_id = issue_id;
  priority = priority;
  lease_name = concat ("worker:merge:" ∷ issue_key ∷ []);
  payload = payload;
  details =
      ("lane", text "merge")
      ∷ ("issue_key", text issue_key)
      ∷ ("pr_url", text url)
      ∷ ("pr_number", Json.number number)
      ∷ [];
}

abbrev pub cleanup_errand : String → String → String → Errand
cleanup_errand name workspace payload = record {
  role = "cleanup";
  key = cleanup_task_key name;
  issue_key = name;
  issue_id = "";
  priority = 0;
  lease_name = concat ("worker:cleanup:" ∷ name ∷ []);
  payload = payload;
  details = ("lane", text "cleanup") ∷ ("workspace", text workspace) ∷ [];
}

abbrev pub queued_row : Errand → Time → Time → WorkerTask
queued_row e now available_at = record {
  task_key = e.key;
  role = e.role;
  issue_key = e.issue_key;
  issue_id = e.issue_id;
  attempt = 1;
  status = status_queued;
  priority = e.priority;
  available_at = available_at;
  lease_name = e.lease_name;
  payload = e.payload;
  created_at = now;
  updated_at = now;
}

-- an error is logged and dropped
abbrev pub or_log : {A : Type 0} → Exec A → Exec (Unit {0})
or_log m db = (ok tt, (m db).1)

-- the entries that every event and result of a task has
abbrev pub with_task : Payload → String → String → String → Payload
with_task details key role status =
    details ++ ("task_key", text key) ∷ ("role", text role) ∷ ("status", text status) ∷ []

abbrev pub error_entry : String → Payload
error_entry error = if error == "" then [] else ("error", text error) ∷ []

-- what the payload of a finished task says beside those
abbrev pub finished_details : String → WorkerTask → Bool → String → String → Payload
finished_details role t did_work reason error =
    ("lane", text role)
    ∷ ("reason", text reason)
    ∷ ("did_work", Json.flag did_work)
    ∷ ("issue_key", text t.issue_key)
    ∷ error_entry error

-- the event of recordContinuousWorkerTaskEvent
abbrev pub task_event : String → WorkerTask → Payload → Time → Event
task_event event_type task details at = record {
  occurred_at = at;
  issue_key = task.issue_key;
  issue_id = task.issue_id;
  attempt = task.attempt;
  run_id = task.task_key;
  source = concat ("worker." ∷ task.role ∷ []);
  event_type = event_type;
  payload = with_task details task.task_key task.role task.status;
}

-- errors.Join of the errors of the completion and of the result
abbrev pub joined : Result (Unit {0}) → Result (Unit {0}) → Result (Unit {0})
joined (err e) second = err e
joined (ok u) second = second

module _ (sys : Platform) (fails : Stage → Call → Bool) (clock : Time) where
  unfoldable pub record_task_event : String → WorkerTask → Payload → Exec (Unit {0})
  unfolding append_event
  record_task_event event_type task details =
      or_log
        (append_event sys (fails Stage.noting) clock (task_event event_type task details clock))

  -- the body from the delay on
  unfoldable pub queue_errand : Errand → Time → Exec (WorkerTask × Bool)
  queue_errand e now = do
    available_at ← available_at_after_latest_failure sys (fails Stage.delay) clock e.key e.role now
    let task = queued_row e now available_at
    _ ← upsert_worker_task sys (fails Stage.queueing) clock task
    _ ← record_task_event "worker_task_queued" task e.details
    pure (task, true)

  unfoldable pub dispatch : Errand → Time → Option WorkerTask → Exec (WorkerTask × Bool)
  dispatch e now none = queue_errand e now
  dispatch e now (some t) = choose (blocks_dispatch t.status) (pure (t, false)) (queue_errand e now)

  unfoldable pub enqueue : Errand → Time → Exec (WorkerTask × Bool)
  unfolding find
  enqueue e now = do
    tasks ← worker_tasks sys (fails Stage.listing) clock e.role
    dispatch e (time_or clock now) (find task_key e.key tasks)

  -- A claimed task of the lane itself is completed and passed over.
  unfoldable pub take_claimed : String → Time → Option WorkerTask → Exec (Option WorkerTask)
  take_claimed role now none = pure none
  take_claimed role now (some t) =
      choose
        (t.task_key == concat ("continuous:" ∷ role ∷ [])
          || t.task_key == concat ("process:" ∷ role ∷ []))
        (do
          _ ← complete_worker_task sys (fails Stage.completion) clock t.task_key "completed" now
          pure none)
        (do
          _ ←
              record_task_event "worker_task_claimed" t
                (("lane", text role) ∷ ("issue_key", text t.issue_key) ∷ [])
          pure (some t))

  unfoldable pub claim : String → Time → Exec (Option WorkerTask)
  claim role now = do
    claimed ← claim_next_worker_task sys (fails Stage.claiming) clock role now
    take_claimed role now claimed

  abbrev pub finished_result :
      String → WorkerTask → String → Bool → String → String → Time → Time → WorkerResult
  finished_result role t status did_work reason error started_at finished_at = record {
    task_key = t.task_key;
    role = role;
    lane_name = role;
    issue_key = t.issue_key;
    issue_id = t.issue_id;
    attempt = t.attempt;
    status = status;
    did_work = did_work;
    reason = reason;
    error = error;
    payload =
        encoded (with_task (finished_details role t did_work reason error) t.task_key role status);
    started_at = started_at;
    finished_at = finished_at;
    updated_at = finished_at;
  }

  -- `started_at` and `finished_at` are not the zero time, or the clock's.
  unfoldable pub complete :
      String → String → WorkerTask → String → Bool → String → String → Time → Time → Exec (Unit {0})
  complete role default_reason t status did_work reason error started_at finished_at db =
      let status' = text_or "completed" status in
      let why = text_or default_reason reason in
      let at = time_or clock finished_at in
      let result =
        finished_result role t status' did_work why error (time_or clock started_at) at in
      let details = finished_details role t did_work why error in
      let (completed, db₁) =
        complete_worker_task sys (fails Stage.completion) clock t.task_key status' at db in
      let (stored, db₂) = upsert_worker_result sys (fails Stage.storing) clock result db₁ in
      let event_type =
        if status' == status_failed then "worker_task_failed" else "worker_task_completed" in
      let noted =
        record_task_event event_type (record t { status = status'; updated_at = at }) details db₂ in
      if t.task_key == "" then (ok tt, db) else (joined completed stored, noted.1)
