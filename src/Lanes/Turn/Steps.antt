-- ===== src/Lanes/Turn/Steps.antt =====
-- The steps of a turn and the whole of it: runContinuousWorkerTask of continuous.go and the functions that
-- it calls.
use agent_machine.Common.{
  ◌+◌, String, Bool, true, false, Option, none, some, List, [], ◌∷◌, ◌++◌, ◌==◌, trim_space,
  if◌then◌else◌,
}
use agent_machine.Common.Table.{passes}
use agent_machine.Reconcile.Evidence.{or_else}
use agent_machine.State.{
  Time, Platform, WorkerTask, WorkerResult, encoded, text, flag, Payload, Result, ok, err, Error,
  lease_held, Db, Call, Exec, ◌>>=◌, pure, raise, choose, status_queued, status_failed,
}
use agent_machine.State.Tasks.{
  worker_task, upsert_worker_task, claim_worker_task, complete_worker_task,
  touch_claimed_worker_task, append_event,
}
use agent_machine.State.Leases.{acquire_lease, renew_lease, release_lease}
use agent_machine.State.Recovery.{mark_stale_claimed}
use agent_machine.State.Results.{upsert_worker_result}
use agent_machine.Workers.{available_at_after_latest_failure}
use agent_machine.Workers.Dispatch.{or_log, task_event, record_task_event}
use agent_machine.Lanes.Turn.{
  LaneTask, Phase, Moment, Activity, Outcome, Verdict, Turn, Start, outcome_of, judged, revised,
  put_all, texts_of, noted_as, result_entries, recovery_outcome, is_occupied, start_of,
  stale_worker_task_after, worker_task_lease_ttl, stop, go, tick, context_done, step,
}

module _ (sys : Platform) (fails : Phase → Call → Bool) (recovering : String → Call → Bool)
    (clock : Time)
    -- json.Marshal, the text of an error, and daemonProcessID
    (encode : Payload → String) (describe : Error → String) (process : String)
    -- the times at which the turn, its work and its end begin
    (now started finished : Time) (task : LaneTask) where
  abbrev pub lane_entry : Payload
  lane_entry = ("lane", text task.lane_name) ∷ []

  abbrev pub note : String → WorkerTask → Payload → Exec (Unit {0})
  note event_type t details =
      record_task_event sys (λ s. fails Phase.noting) clock event_type t details

  -- recoverStaleWorkerTasks
  unfoldable pub recover_stale : Exec Bool
  recover_stale db =
      let (out, db') = mark_stale_claimed sys recovering clock now stale_worker_task_after db in
      (recovery_outcome out, db')

  abbrev pub queued_at : Time → WorkerTask
  queued_at available_at = record {
    task_key = task.key;
    role = task.role;
    issue_key = "";
    issue_id = "";
    attempt = 0;
    status = status_queued;
    priority = 0;
    available_at = available_at;
    lease_name = task.lease_name;
    payload = encode (put_all lane_entry task.payload);
    created_at = 0;
    updated_at = now;
  }

  abbrev pub available : Option WorkerTask → Exec Time
  available none = pure now
  available (some t) =
      available_at_after_latest_failure sys (fails Phase.delaying) clock t.task_key task.role now

  abbrev pub note_claimed : Option WorkerTask → Exec (Unit {0})
  note_claimed none = pure tt
  note_claimed (some t) = note "worker_task_claimed" t lane_entry

  -- the body up to the lease
  unfoldable pub begin_turn : Exec Start
  begin_turn = do
    recovered ← recover_stale
    choose recovered (pure (Start.stop true)) (do
      current ← worker_task sys (fails Phase.reading) clock task.key
      choose (passes is_occupied current) (pure (Start.stop false)) (do
        available_at ← available current
        _ ← upsert_worker_task sys (fails Phase.enqueuing) clock (queued_at available_at)
        _ ← note "worker_task_queued" (queued_at available_at) lane_entry
        claimed ← claim_worker_task sys (fails Phase.taking) clock task.key now
        _ ← note_claimed claimed
        pure (start_of claimed)))

  -- leaseNameForWorkerTask
  abbrev pub lease_name_of : WorkerTask → String
  lease_name_of t =
      let name = trim_space task.lease_name in if name == "" then trim_space t.lease_name else name

  -- acquireWorkerTaskLease: the name of the lease, empty without one
  unfoldable pub acquire_worker_task_lease : WorkerTask → Exec String
  acquire_worker_task_lease t = choose (lease_name_of t == "") (pure "") (do
    acquired ←
        acquire_lease sys (fails Phase.leasing) clock
          (record {
            name = lease_name_of t;
            scope = t.task_key;
            owner = process;
            acquired_at = now;
            expires_at = now + worker_task_lease_ttl;
            renewed_at = now;
            released_at = 0;
            release_reason = "";
          })
          now
    choose acquired (pure (lease_name_of t)) (raise lease_held))

  -- renewWorkerTaskSupervision
  unfoldable pub renew_supervision :
      (Call → Bool) → (Call → Bool) → WorkerTask → String → Time → Exec (Unit {0})
  renew_supervision renewing touching t lease at = do
    _ ←
        choose (lease == "") (pure tt)
          (renew_lease sys renewing clock lease at (at + worker_task_lease_ttl))
    touch_claimed_worker_task sys touching clock t.task_key at

  abbrev pub error_of : {A : Type 0} → Result A → Option String
  error_of (ok a) = none
  error_of (err e) = some (describe e)

  -- The supervision beside the work. It ends with its first error.
  unfoldable pub supervise :
      WorkerTask → String → List Moment → Option String → Db → Option String × Db
  supervise t lease [] failure db = (failure, db)
  supervise t lease (step f ∷ ms) failure db = supervise t lease ms failure (f db)
  supervise t lease (context_done why ∷ ms) failure db =
      supervise t lease ms (or_else failure (some why)) db
  supervise t lease (tick at renewing touching ∷ ms) (some e) db = supervise t lease ms (some e) db
  supervise t lease (tick at renewing touching ∷ ms) none db =
      let (r, db') = renew_supervision renewing touching t lease at db in
      supervise t lease ms (error_of r) db'

  -- the result of recordContinuousWorkerResult
  unfoldable pub turn_result : WorkerTask → Verdict → Bool → Payload → WorkerResult
  turn_result t v did_work details = record {
    task_key = t.task_key;
    role = t.role;
    lane_name = task.lane_name;
    issue_key = t.issue_key;
    issue_id = t.issue_id;
    attempt = t.attempt;
    status = v.status;
    did_work = did_work;
    reason = v.reason;
    error = v.error;
    payload = encoded (put_all details (result_entries t v did_work));
    started_at = started;
    finished_at = finished;
    updated_at = finished;
  }

  abbrev pub complete_task : String → Exec (Unit {0})
  complete_task status =
      complete_worker_task sys (fails Phase.completing) clock task.key status finished

  abbrev pub save_result : WorkerTask → Verdict → Bool → Payload → Exec (Unit {0})
  save_result t v did_work details =
      upsert_worker_result sys (fails Phase.saving) clock (turn_result t v did_work details)

  abbrev pub refusal : String → Verdict
  refusal e = record {
    status = status_failed;
    reason = "lease_unavailable";
    error = e;
    event_type = "worker_task_failed";
  }

  -- the end of a turn that got no lease
  unfoldable pub refuse : WorkerTask → String → Db → Turn × Db
  refuse t e db =
      let failed = record t { status = status_failed; updated_at = finished } in
      let (completed, db₁) = complete_task status_failed db in
      let (saved, db₂) = save_result failed (refusal e) false lane_entry db₁ in
      let noted = note "worker_task_failed" failed (lane_entry ++ ("error", text e) ∷ []) db₂ in
      (
        record {
          did_work = false;
          errors = e ∷ texts_of (error_of completed) ++ texts_of (error_of saved);
        },
        noted.1,
      )

  abbrev pub details_of : Outcome → Option String → Payload
  details_of o completion =
      lane_entry
      ++ ("did_work", flag o.did_work) ∷ []
      ++ noted_as "error" o.run_error
      ++ noted_as "supervision_error" o.supervision_error
      ++ noted_as "completion_error" completion

  abbrev pub verdict_of : Outcome → Option String → Verdict
  verdict_of o completion =
      revised o.run_error completion (judged o.did_work o.run_error o.supervision_error)

  -- The event shares the map of the result, with what that added.
  abbrev pub note_end : WorkerTask → Outcome → Option String → Exec (Unit {0})
  note_end t o completion =
      let v = verdict_of o completion in
      let ended = record t { status = v.status; updated_at = finished } in
      or_log (
        append_event sys (fails Phase.noting) clock
          (record (task_event v.event_type ended [] clock) {
            payload = put_all (details_of o completion) (result_entries ended v o.did_work);
          }))

  -- the end of the body, once the result is written, and once the task is completed
  abbrev pub leave : WorkerTask → Outcome → Option String → Result (Unit {0}) → Db → Turn × Db
  leave t o completion saved db = (
    record {
      did_work = o.did_work;
      errors =
          texts_of o.run_error
          ++ texts_of o.supervision_error
          ++ texts_of completion
          ++ texts_of (error_of saved);
    },
    (note_end t o completion db).1,
  )

  abbrev pub conclude : WorkerTask → Outcome → Result (Unit {0}) → Db → Turn × Db
  conclude t o completed db =
      let completion = error_of completed in
      let v = verdict_of o completion in
      let (saved, db') = save_result t v o.did_work (details_of o completion) db in
      leave t o completion saved db'

  -- the end of a turn that worked
  unfoldable pub finish : WorkerTask → Outcome → Db → Turn × Db
  finish t o db =
      let judgement = judged o.did_work o.run_error o.supervision_error in
      let (completed, db') = complete_task judgement.status db in conclude t o completed db'

  -- the deferred release of the lease
  abbrev pub release : String → Exec (Unit {0})
  release lease =
      choose (lease == "") (pure tt) (
        or_log
          (release_lease sys (fails Phase.releasing) clock lease clock "worker task completed"))

  abbrev pub work_on : (WorkerTask → Activity) → WorkerTask → Result String → Db → Turn × Db
  work_on run t (err e) db = refuse t (describe e) db
  work_on run t (ok lease) db =
      let (failure, db₁) = supervise t lease (run t).moments none db in
      let (turn, db₂) = finish t (outcome_of (run t) failure) db₁ in (turn, (release lease db₂).1)

  abbrev pub continue_turn : (WorkerTask → Activity) → Result Start → Db → Turn × Db
  continue_turn run (err e) db = (record { did_work = false; errors = describe e ∷ [] }, db)
  continue_turn run (ok (stop recovered)) db = (record { did_work = recovered; errors = [] }, db)
  continue_turn run (ok (go t)) db =
      let (lease, db') = acquire_worker_task_lease t db in work_on run t lease db'

  unfoldable pub run_continuous_worker_task : (WorkerTask → Activity) → Db → Turn × Db
  run_continuous_worker_task run db = let (s, db') = begin_turn db in continue_turn run s db'
