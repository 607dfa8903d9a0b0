-- ===== src/Lanes/Turn.antt =====
-- A turn of a lane at its task, runContinuousWorkerTask of continuous.go: the recovery of stale claims,
-- the queueing and the claim of the task, its lease, the work under supervision, and the end.
-- The heartbeats, which go to a function of the caller, are left out.
pub mod Steps
pub mod Occupied
pub mod Finished
pub mod Supervised
use agent_machine.Common.{
  ℕ, ◌+◌, String, Bool, true, false, not, ◌&&◌, ◌||◌, Option, none, some, List, [], ◌∷◌, ◌++◌, ◌==◌,
  trim_space, if◌then◌else◌,
}
use agent_machine.Common.Table.{passes, upsert}
use agent_machine.Gate.{is_nil}
use agent_machine.Reconcile.{is_some}
use agent_machine.Reconcile.Evidence.{or_else}
use agent_machine.State.{
  Time, Platform, WorkerTask, WorkerResult, encoded, Json, text, flag, Payload, Result, ok, err,
  Error, lease_held, Db, Call, Exec, ◌>>=◌, ◌>>◌, pure, raise, choose, status_queued,
  status_claimed, status_failed, status_reconciliation_needed,
}
use agent_machine.State.Tasks.{
  worker_task, upsert_worker_task, claim_worker_task, complete_worker_task,
  touch_claimed_worker_task, append_event,
}
use agent_machine.State.Leases.{acquire_lease, renew_lease, release_lease}
use agent_machine.State.Recovery.{mark_stale_claimed}
use agent_machine.State.Results.{upsert_worker_result}
use agent_machine.Workers.{available_at_after_latest_failure}
use agent_machine.Workers.Dispatch.{or_log, task_event, record_task_event}

-- continuousWorkerTask
pub record LaneTask : Type 0 where
  pub key : String
  pub role : String
  pub lane_name : String
  pub lease_name : String
  pub payload : Payload

-- The calls of the store, each of which meets failures of its own.
pub data Phase : Type 0 where
  reading delaying enqueuing taking leasing completing saving noting releasing : Phase

-- What happens while the work runs, in its order: a tick of the supervision with the failures that its two
-- calls of the store meet, the end of the context, or a step of the work on the store.
pub data Moment : Type 0 where
  tick : Time → (Call → Bool) → (Call → Bool) → Moment
  context_done : String → Moment
  step : (Db → Db) → Moment

-- A run of the work. `is_noticed` says that the supervision's error was seen before the work's end.
pub record Activity : Type 0 where
  pub moments : List Moment
  pub did_work : Bool
  pub error : Option String
  pub error_is_canceled : Bool
  pub is_noticed : Bool

pub record Outcome : Type 0 where
  pub did_work : Bool
  pub run_error : Option String
  pub supervision_error : Option String

pub record Verdict : Type 0 where
  pub status : String
  pub reason : String
  pub error : String
  pub event_type : String

-- What the turn returns: whether it did work, and the errors that errors.Join joins.
pub record Turn : Type 0 where
  pub did_work : Bool
  pub errors : List String

pub data Start : Type 0 where
  stop : Bool → Start
  go : WorkerTask → Start

-- the error of the work, unless it is the cancellation by the supervision
abbrev pub outcome_of : Activity → Option String → Outcome
outcome_of a supervision = record {
  did_work = a.did_work;
  run_error = if a.is_noticed && is_some supervision && a.error_is_canceled then none else a.error;
  supervision_error = supervision;
}

unfoldable pub judged : Bool → Option String → Option String → Verdict
judged did_work (some e) supervision = record {
  status = status_failed;
  reason = "worker_error";
  error = e;
  event_type = "worker_task_failed";
}
judged did_work none (some e) = record {
  status = status_failed;
  reason = "worker_supervision_error";
  error = e;
  event_type = "worker_task_failed";
}
judged did_work none none = record {
  status = "completed";
  reason = if did_work then "work_completed" else "idle";
  error = "";
  event_type = "worker_task_completed";
}

-- An error of the completion changes what is recorded, but not the type of the event.
unfoldable pub revised : Option String → Option String → Verdict → Verdict
revised (some e) completion v = v
revised none none v = v
revised none (some e) v = record v {
  status = status_failed;
  reason = "worker_completion_error";
  error = e;
}

-- an assignment to a map
abbrev pub put : String → Json → Payload → Payload
put key value p = upsert (λ e. e.0) (λ old new. new) (key, value) p

-- the entries of `p`, those of `q` in place of theirs
abbrev pub put_all : Payload → Payload → Payload
put_all p [] = p
put_all p (e ∷ q) = put_all (put e.0 e.1 p) q

abbrev pub texts_of : Option String → List String
texts_of none = []
texts_of (some e) = e ∷ []

abbrev pub noted_as : String → Option String → Payload
noted_as key none = []
noted_as key (some e) = (key, text e) ∷ []

-- what recordContinuousWorkerResult adds to a payload, which has its lane
unfoldable pub result_entries : WorkerTask → Verdict → Bool → Payload
result_entries t v did_work =
    ("task_key", text t.task_key)
    ∷ ("role", text t.role)
    ∷ ("status", text v.status)
    ∷ ("reason", text v.reason)
    ∷ ("did_work", flag did_work)
    ∷ (if v.error == "" then [] else ("error", text v.error) ∷ [])

abbrev pub recovery_outcome : List WorkerTask × Option Error → Result Bool
recovery_outcome (tasks, some e) = err e
recovery_outcome (tasks, none) = ok (not (is_nil tasks))

-- claimed, or in need of an operator
abbrev pub is_occupied : WorkerTask → Bool
is_occupied t = t.status == status_claimed || t.status == status_reconciliation_needed

abbrev pub start_of : Option WorkerTask → Start
start_of none = Start.stop false
start_of (some t) = Start.go t

-- staleWorkerTaskAfter and workerTaskLeaseTTL, in nanoseconds
abbrev pub stale_worker_task_after : ℕ
stale_worker_task_after = 900000000000

abbrev pub worker_task_lease_ttl : ℕ
worker_task_lease_ttl = 300000000000
