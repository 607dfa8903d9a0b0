-- ===== src/State/Recovery.antt =====
-- MarkStaleClaimedWorkerTasksReconciliationNeeded of internal/state/store.go, and what it calls.
-- The calls of one round of its loop fail as `fails` says for the round's task key.
pub mod Round
pub mod Loop
use Prim.Native.String
use agent_machine.Common.{
  ℕ, ◌-◌, ◌/◌, String, Bool, true, false, not, ◌&&◌, ◌||◌, Option, none, some, List, [], ◌∷◌, ◌++◌,
  map, ◌==◌, ltb, eqb, any, trim_space, if◌then◌else◌,
}
use agent_machine.Common.Table.{select_where, upsert}
use agent_machine.Common.Sort.{sort_by}
use agent_machine.State.{
  Time, is_zero, Platform, day_le, day_gt, status_claimed, status_reconciliation_needed, WorkerTask,
  Lease, WorkerResult, encoded, DaemonHeartbeat, Event, Payload, text, number, Db, task_key,
  result_key, Result, ok, err, Error, db_error, not_positive, Call, begin, select, update,
  rows_affected, heartbeat, result, commit, Exec, ◌>>=◌, ◌>>◌, pure, gets, reject_if, call, choose,
  transact, time_or,
}
use agent_machine.State.Rows.{has_status, update_task}
use agent_machine.State.Tasks.{worker_task, append_event}
use agent_machine.State.Leases.{read_lease}

-- status = 'claimed' AND julianday(updated_at) <= julianday(?)
unfoldable pub is_stale : Platform → Time → WorkerTask → Bool
is_stale sys cutoff t = t.status == status_claimed && day_le sys t.updated_at cutoff

-- ORDER BY updated_at, task_key
unfoldable pub updated_before : Platform → WorkerTask → WorkerTask → Bool
updated_before sys s t =
    sys.text_lt (sys.format_time s.updated_at) (sys.format_time t.updated_at)
    || (not (sys.text_lt (sys.format_time t.updated_at) (sys.format_time s.updated_at))
        && sys.text_lt s.task_key t.task_key)

unfoldable pub stale_keys : Platform → Time → List WorkerTask → List String
stale_keys sys cutoff tasks =
    map task_key (sort_by (updated_before sys) (select_where (is_stale sys cutoff) tasks))

-- SELECT COUNT(*) FROM daemon_heartbeats WHERE process_id = ? AND julianday(updated_at) > …
unfoldable pub beats_after : Platform → String → Time → List DaemonHeartbeat → Bool
beats_after sys owner cutoff = any (λ b. b.process_id == owner && day_gt sys b.updated_at cutoff)

unfoldable pub recover_row : Time → WorkerTask → WorkerTask
recover_row at t = record t { status = status_reconciliation_needed; updated_at = at }

-- `staleAfter` is a duration in nanoseconds, and a payload gives it in seconds.
abbrev pub recovery_payload : WorkerTask → ℕ → Payload
recovery_payload t stale_after =
    ("task_key", text t.task_key)
    ∷ ("role", text t.role)
    ∷ ("status", text status_reconciliation_needed)
    ∷ ("previous", text status_claimed)
    ∷ ("reason", text "stale_claim_reconciliation_required")
    ∷ ("stale_after_s", number (stale_after / 1000000000))
    ∷ (if trim_space t.lease_name == "" then [] else ("lease_name", text t.lease_name) ∷ [])

unfoldable pub recovery_result : WorkerTask → Time → ℕ → WorkerResult
recovery_result t at stale_after = record {
  task_key = t.task_key;
  role = t.role;
  lane_name = t.role;
  issue_key = t.issue_key;
  issue_id = t.issue_id;
  attempt = t.attempt;
  status = status_reconciliation_needed;
  did_work = false;
  reason = "stale_claim_reconciliation_required";
  error = "";
  payload = encoded (recovery_payload t stale_after);
  started_at = t.updated_at;
  finished_at = at;
  updated_at = at;
}

-- ON CONFLICT(task_key) DO UPDATE: all columns but the key and `started_at`
abbrev pub result_conflict : WorkerResult → WorkerResult → WorkerResult
result_conflict old new = record new { task_key = old.task_key; started_at = old.started_at }

unfoldable pub recovery_event : WorkerTask → Time → ℕ → Event
recovery_event t at stale_after = record {
  occurred_at = at;
  issue_key = t.issue_key;
  issue_id = t.issue_id;
  attempt = t.attempt;
  run_id = t.task_key;
  source = String.◌++◌ "worker." t.role;
  event_type = "reconciliation_needed";
  payload = recovery_payload t stale_after;
}

module _ (sys : Platform) (fails : Call → Bool) (clock : Time) where
  -- claimedWorkerTaskIsRecoverable, once the lease is read
  unfoldable pub lease_allows : Time → Time → Option Lease → Exec Bool
  lease_allows now cutoff none = pure true
  lease_allows now cutoff (some l) = choose (not (is_zero l.released_at)) (pure true) (
      choose (ltb now l.expires_at) (pure false) (
        choose (trim_space l.owner == "") (pure true) (do
          call (fails heartbeat)
          gets (λ db. not (beats_after sys l.owner cutoff db.heartbeats)))))

  unfoldable pub claimed_is_recoverable : WorkerTask → Time → Time → Exec Bool
  claimed_is_recoverable task now cutoff = choose (trim_space task.lease_name == "") (pure true) (do
    found ← read_lease sys fails clock (trim_space task.lease_name)
    lease_allows now cutoff found)

  abbrev pub put_result : WorkerResult → Exec (Unit {0})
  put_result r db = (ok tt, record db { results = upsert result_key result_conflict r db.results })

  unfoldable pub mark_reconciliation_needed : WorkerTask → Time → ℕ → Exec (Option WorkerTask)
  mark_reconciliation_needed task at stale_after = transact (fails begin) (do
    call (fails update)
    rows ← update_task task.task_key (has_status status_claimed) (recover_row at)
    call (fails rows_affected)
    choose (eqb rows 0) (pure none) (do
      call (fails result)
      _ ← put_result (recovery_result task at stale_after)
      _ ← append_event sys fails clock (recovery_event task at stale_after)
      call (fails commit)
      pure (some (recover_row at task))))

  unfoldable pub recover_found : Time → ℕ → Option WorkerTask → Exec (Option WorkerTask)
  recover_found at stale_after none = pure none
  recover_found at stale_after (some task) =
      choose (not (task.status == status_claimed)) (pure none) (do
        recoverable ← claimed_is_recoverable task at (at - stale_after)
        choose recoverable (mark_reconciliation_needed task at stale_after) (pure none))

  -- one round of the loop
  unfoldable pub recover_key : Time → ℕ → String → Exec (Option WorkerTask)
  recover_key at stale_after key = do
    found ← worker_task sys fails clock key
    recover_found at stale_after found

abbrev pub push_some {ℓ} : {A : Type ℓ} → List A → Option A → List A
push_some xs none = xs
push_some xs (some x) = xs ++ x ∷ []

module _ (sys : Platform) (fails : String → Call → Bool) (clock : Time) where
  -- An error ends the loop, and what was recovered before it is returned beside it.
  unfoldable pub recover_keys :
      Time → ℕ → List String → List WorkerTask → Db → (List WorkerTask × Option Error) × Db
  recover_keys at stale_after [] recovered db = ((recovered, none), db)
  recover_keys at stale_after (key ∷ keys) recovered db =
      let (r, db') = recover_key sys (fails key) clock at stale_after key db in
      elim r [
        | ok o ↦ recover_keys at stale_after keys (push_some recovered o) db'
        | err e ↦ ((recovered, some e), db')
      ]

  -- `at - stale_after` stops at 0, the zero time, before which no row was written.
  unfoldable pub mark_stale_claimed : Time → ℕ → Db → (List WorkerTask × Option Error) × Db
  mark_stale_claimed now stale_after db =
      let at : Time = time_or clock now in
      let keys = stale_keys sys (at - stale_after) db.tasks in
      if eqb stale_after 0
      then (([], some not_positive), db)
      else if fails "" select
      then (([], some db_error), db)
      else recover_keys at stale_after keys [] db
