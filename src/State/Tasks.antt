-- ===== src/State/Tasks.antt =====
-- The queue of worker tasks: UpsertWorkerTask to RequeueReconciliationNeededWorkerTask of
-- internal/state/store.go.
pub mod Claims
pub mod Outcomes
pub mod Completed
pub mod Repair
use mathlib.Core.List.{head?}
use agent_machine.Common.{
  ℕ, String, Bool, not, ◌&&◌, ◌||◌, Option, none, some, List, [], ◌∷◌, ◌++◌, ◌==◌, ltb, eqb, any,
  trim_space, if◌then◌else◌,
}
use agent_machine.Common.Table.{select_where, upsert}
use agent_machine.Common.Sort.{sort_by}
use agent_machine.State.Rows.{has_status, view, update_task}
use agent_machine.State.{
  Time, Platform, day_le, status_queued, status_claimed, status_reconciliation_needed, WorkerTask,
  Event, text, Result, task_key, required, invalid_payload, lease_held, not_found, wrong_status,
  status_changed, Call, begin, insert, select, update, rows_affected, read_back, event, commit,
  Exec, ◌>>=◌, ◌>>◌, pure, raise, gets, reject_if, call, choose, transact, time_or, text_or,
}

-- ON CONFLICT(task_key) DO UPDATE: all columns but the key and `created_at`
abbrev pub task_conflict : WorkerTask → WorkerTask → WorkerTask
task_conflict old new = record new { task_key = old.task_key; created_at = old.created_at }

-- status = 'queued' AND julianday(available_at) <= julianday(?)
unfoldable pub is_claimable : Platform → Time → WorkerTask → Bool
is_claimable sys at t = t.status == status_queued && day_le sys t.available_at at

unfoldable pub claim_row : Time → WorkerTask → WorkerTask
claim_row at t = record t { status = status_claimed; updated_at = at }

unfoldable pub complete_row : String → Time → WorkerTask → WorkerTask
complete_row status at t = record t { status = status; updated_at = at }

unfoldable pub touch_row : Time → WorkerTask → WorkerTask
touch_row at t = record t { updated_at = at }

unfoldable pub requeue_row : Time → WorkerTask → WorkerTask
requeue_row at t = record t { status = status_queued; available_at = at; updated_at = at }

-- ORDER BY available_at, priority DESC, task_key
unfoldable pub precedes : Platform → WorkerTask → WorkerTask → Bool
precedes sys s t =
    sys.text_lt (sys.format_time s.available_at) (sys.format_time t.available_at)
    || (not (sys.text_lt (sys.format_time t.available_at) (sys.format_time s.available_at))
        && (ltb t.priority s.priority
            || (eqb s.priority t.priority && sys.text_lt s.task_key t.task_key)))

unfoldable pub is_due : Platform → String → Time → WorkerTask → Bool
is_due sys role at t = t.role == role && is_claimable sys at t

-- INSERT OR IGNORE: an event whose name is there already is dropped
abbrev pub insert_event : Platform → Event → List Event → List Event
insert_event sys e events =
    if any (λ old. sys.event_id old == sys.event_id e) events then events else events ++ e ∷ []

-- normalizeEvent: the name of the event is `event_id` of what it returns
abbrev pub normalize_event : Time → Event → Event
normalize_event clock e = record e { occurred_at = time_or clock e.occurred_at }

abbrev pub defaulted : Time → WorkerTask → WorkerTask
defaulted clock task = record task {
  status = text_or status_queued task.status;
  available_at = time_or clock task.available_at;
  payload = text_or "{}" task.payload;
  created_at = time_or clock task.created_at;
  updated_at = time_or clock task.updated_at;
}

-- SELECT … ORDER BY … LIMIT 1
unfoldable pub first_due : Platform → String → Time → List WorkerTask → Option WorkerTask
unfolding sort_by select_where precedes
first_due sys role at tasks =
    head? (sort_by (precedes sys) (select_where (is_due sys role at) tasks))

unfoldable pub repair_reason : String → String
repair_reason reason =
    if trim_space reason == "" then "operator_requeued_reconciliation_task" else reason

abbrev pub repaired_event : WorkerTask → String → Time → Event
repaired_event task reason at = record {
  occurred_at = at;
  issue_key = task.issue_key;
  issue_id = task.issue_id;
  attempt = task.attempt;
  run_id = "";
  source = "repair";
  event_type = "worker_task_repaired";
  payload =
      ("task_key", text task.task_key)
      ∷ ("role", text task.role)
      ∷ ("old", text status_reconciliation_needed)
      ∷ ("new", text status_queued)
      ∷ ("reason", text reason)
      ∷ [];
}

module _ (sys : Platform) (fails : Call → Bool) (clock : Time) where
  unfoldable pub upsert_worker_task : WorkerTask → Exec (Unit {0})
  unfolding upsert
  upsert_worker_task task = do
    reject_if (task.task_key == "") (required "task_key")
    reject_if (task.role == "") (required "role")
    reject_if (not (sys.json_valid (text_or "{}" task.payload))) invalid_payload
    call (fails insert)
    λ db. (
      Result.ok tt,
      record db { tasks = upsert task_key task_conflict (defaulted clock task) db.tasks },
    )

  unfoldable pub worker_tasks : String → Exec (List WorkerTask)
  unfolding sort_by select_where precedes
  worker_tasks role = do
    call (fails select)
    gets (λ db. sort_by (precedes sys) (select_where (λ t. role == "" || t.role == role) db.tasks))

  unfoldable pub worker_task : String → Exec (Option WorkerTask)
  worker_task key = do call (fails read_back); gets (λ db. view db.tasks key)

  unfoldable pub claim_worker_task : String → Time → Exec (Option WorkerTask)
  unfolding worker_task
  claim_worker_task key now = do
    reject_if (key == "") (required "task_key")
    let at = time_or clock now
    call (fails update)
    rows ← update_task key (is_claimable sys at) (claim_row at)
    call (fails rows_affected)
    choose (eqb rows 0) (pure none) (worker_task key)

  unfoldable pub claim_selected : Time → Option WorkerTask → Exec (Option String)
  claim_selected at none = pure none
  claim_selected at (some chosen) = do
    call (fails update)
    rows ← update_task chosen.task_key (has_status status_queued) (claim_row at)
    call (fails rows_affected)
    choose (eqb rows 0) (pure none) (do call (fails commit); pure (some chosen.task_key))

  unfoldable pub read_claimed : Option String → Exec (Option WorkerTask)
  unfolding worker_task
  read_claimed none = pure none
  read_claimed (some key) = worker_task key

  unfoldable pub claim_next_worker_task : String → Time → Exec (Option WorkerTask)
  unfolding read_claimed
  claim_next_worker_task role now = do
    reject_if (role == "") (required "role")
    let at = time_or clock now
    claimed ← transact (fails begin) (do
      call (fails select)
      first ← gets (λ db. first_due sys role at db.tasks)
      claim_selected at first)
    read_claimed claimed

  unfoldable pub complete_worker_task : String → String → Time → Exec (Unit {0})
  complete_worker_task key status now = do
    reject_if (key == "") (required "task_key")
    reject_if (status == "") (required "status")
    call (fails update)
    rows ← update_task key (has_status status_claimed) (complete_row status (time_or clock now))
    call (fails rows_affected)
    reject_if (eqb rows 0) lease_held
    pure tt

  unfoldable pub touch_claimed_worker_task : String → Time → Exec (Unit {0})
  touch_claimed_worker_task key now = do
    reject_if (key == "") (required "task_key")
    call (fails update)
    rows ← update_task key (has_status status_claimed) (touch_row (time_or clock now))
    call (fails rows_affected)
    reject_if (eqb rows 0) lease_held
    pure tt

  unfoldable pub append_event : Event → Exec (Unit {0})
  append_event e = do
    reject_if (e.source == "") (required "source")
    reject_if (e.event_type == "") (required "type")
    call (fails event)
    λ db.
        (Result.ok tt, record db { events = insert_event sys (normalize_event clock e) db.events })

  unfoldable pub requeue_found : String → String → Time → Option WorkerTask → Exec WorkerTask
  requeue_found key reason at none = raise (not_found key)
  requeue_found key reason at (some task) = do
    reject_if (not (task.status == status_reconciliation_needed)) (wrong_status key task.status)
    transact (fails begin) (do
      call (fails update)
      rows ← update_task key (has_status status_reconciliation_needed) (requeue_row at)
      call (fails rows_affected)
      reject_if (eqb rows 0) (status_changed key)
      _ ← append_event (repaired_event task (repair_reason reason) at)
      call (fails commit)
      pure (requeue_row at task))

  unfoldable pub requeue_reconciliation_needed : String → String → Time → Exec WorkerTask
  unfolding worker_task requeue_found append_event
  requeue_reconciliation_needed key reason now = do
    reject_if (key == "") (required "task_key")
    found ← worker_task key
    requeue_found key reason (time_or clock now) found
