-- ===== src/Lanes/Turn/Finished.antt =====
-- How a turn ends.
use agent_machine.Common.{
  String, ◌≡◌, refl, ◌∙◌, Bool, true, false, ◌||◌, Option, none, some, eq_refl, ◌==◌, ◌&&◌, not,
  if◌then◌else◌,
}
use agent_machine.Common.Table.{passes, map_some, IsUnique}
use agent_machine.Gate.{is_nil}
use agent_machine.Reconcile.{is_some}
use agent_machine.State.{
  Time, Platform, WorkerTask, WorkerResult, Payload, Result, ok, err, Error, Db, Call, time_or,
  result_key, status_failed,
}
use agent_machine.State.Rows.{has_status, view, HasUniqueKeys}
use agent_machine.State.Tasks.{complete_worker_task}
use agent_machine.State.Tasks.Completed.{
  completion, complete_worker_task_lem, view-completion, Completed, complete_worker_task-Completed,
  append_event-Kept, upsert_worker_result-tasks,
}
use agent_machine.State.Results.{
  result_of, defaulted_result, upsert_worker_result, upsert_worker_result-Stored, Stored,
}
use agent_machine.Lanes.Turn.{LaneTask, Phase, Outcome, Turn, judged, revised}
use agent_machine.Lanes.Turn.Steps.{turn_result, details_of, leave, conclude, finish}

-- The work or its supervision failed.
abbrev pub has_failed : Outcome → Bool
has_failed o = is_some o.run_error || is_some o.supervision_error

judged-status :
    (w : Bool) (a b : Option String)
    → (judged w a b).status ≡ (if is_some a || is_some b then status_failed else "completed")
unfolding judged
judged-status w (some e) b = refl
judged-status w none (some e) = refl
judged-status w none none = refl

judged-named : (w : Bool) (a b : Option String) → ((judged w a b).status == "") ≡ false
unfolding judged
judged-named w (some e) b = refl
judged-named w none (some e) = refl
judged-named w none none = refl

module _ (sys : Platform) (fails : Phase → Call → Bool) (recovering : String → Call → Bool)
    (clock : Time) (encode : Payload → String) (describe : Error → String) (process : String)
    (now started finished : Time) (task : LaneTask) (t : WorkerTask) (db : Db)
    (u : HasUniqueKeys db.tasks) where
  abbrev ending : Outcome → Turn × Db
  ending o =
      finish sys fails recovering clock encode describe process now started finished task t o db

  abbrev concluded : Outcome → Result (Unit {0}) → Db → Turn × Db
  concluded o =
      conclude sys fails recovering clock encode describe process now started finished task t o

  abbrev the_result : Bool → WorkerResult
  the_result w =
      let o : Outcome = record { did_work = w; run_error = none; supervision_error = none } in
      turn_result sys fails recovering clock encode describe process now started finished task t
        (judged w none none) w
        (details_of sys fails recovering clock encode describe process now started finished task o
          none)

  concluded-tasks :
      (o : Outcome) (completed : Result (Unit {0})) (db' : Db)
      → (concluded o completed db').1.tasks ≡ db'.tasks
  concluded-tasks o completed db' =
      (append_event-Kept sys (fails Phase.noting) clock _ _).at.0
      ∙ (upsert_worker_result-tasks sys (fails Phase.saving) clock _ db').at

  -- Whatever fails, the end of a turn gives a claimed task the status failed if the work or its supervision
  -- failed, and else completed, and the time of the end, unless its UPDATE fails: then, and where the task is
  -- no longer claimed, its row stays. Every other row stays. The task has a key, and the tasks of the store
  -- have different keys.
  pub finish_lem :
      (o : Outcome)
      → (task.key == "") ≡ false
      → (j : String)
      → view (ending o).1.tasks j ≡ (
          if task.key == j && not (fails Phase.completing Call.update)
          then map_some
              (completion (if has_failed o then "failed" else "completed") (time_or clock finished))
              (view db.tasks task.key)
          else view db.tasks j)
  unfolding finish
  finish_lem o named j =
      let v = judged o.did_work o.run_error o.supervision_error in
      let completed =
        complete_worker_task sys (fails Phase.completing) clock task.key v.status finished db in
      rw
        (
          concluded-tasks o completed.0 completed.1,
          ← judged-status o.did_work o.run_error o.supervision_error,
        )
        ((complete_worker_task_lem sys (fails Phase.completing) clock task.key v.status finished db
            u named (judged-named o.did_work o.run_error o.supervision_error)).1
          j)

  -- The task was claimed and is completed, every other task is as it was, and the result of a completed task
  -- is stored.
  abbrev pub IsReported : Bool → Db → Type 0
  IsReported w after =
      (passes (λ r. r.status == "claimed") (view db.tasks task.key) ≡ true)
      × ((j : String)
          → view after.tasks j ≡ (
              if task.key == j
              then map_some (completion "completed" (time_or clock finished))
                  (view db.tasks task.key)
              else view db.tasks j))
      × (result_of after.results t.task_key ≡ some (defaulted_result clock (the_result w)))

  abbrev untroubled : Bool → Outcome
  untroubled w = record { did_work = w; run_error = none; supervision_error = none }

  abbrev left : Bool → Result (Unit {0}) → Db → Turn × Db
  left w =
      leave sys fails recovering clock encode describe process now started finished task t
        (untroubled w) none

  left-result :
      (w : Bool) (saved : Result (Unit {0})) (before after : Db)
      → Stored clock (the_result w) before (saved, after)
      → is_nil (left w saved after).0.errors ≡ true
      → result_of (left w saved after).1.results t.task_key
        ≡ some (defaulted_result clock (the_result w))
  unfolding turn_result
  left-result w (err e) before after h none_left = cc
  left-result w (ok x) before after h none_left =
      rw
        (
          (append_event-Kept sys (fails Phase.noting) clock _ after).at.1,
          h.2 t.task_key,
          eq_refl t.task_key,
        )
        refl

  concluded-IsReported :
      (w : Bool) (completed : Result (Unit {0})) (after : Db)
      → IsUnique result_key db.results
      → Completed task.key "completed" (time_or clock finished) db (completed, after)
      → is_nil (concluded (untroubled w) completed after).0.errors ≡ true
      → IsReported w (concluded (untroubled w) completed after).1
  unfolding revised has_status
  concluded-IsReported w (err e) after v h none_left = cc
  concluded-IsReported w (ok x) after v h none_left =
      let r = the_result w in
      let unique : IsUnique result_key after.results = rw h.2 v in
      let saved = upsert_worker_result sys (fails Phase.saving) clock r after in
      let stored = (upsert_worker_result-Stored sys (fails Phase.saving) clock r after unique).at in
      (
        h.0,
        λ j.
            rw
              (
                concluded-tasks (untroubled w) (ok x) after,
                h.1,
                view-completion task.key "completed" (time_or clock finished) db.tasks j,
              )
              refl,
        left-result w saved.0 after saved.1 stored none_left,
      )

  abbrev with_errors : Bool → Option String → Option String → Outcome
  with_errors w a b = record { did_work = w; run_error = a; supervision_error = b }

  reported :
      (w : Bool) (a b : Option String)
      → IsUnique result_key db.results
      → is_nil (ending (with_errors w a b)).0.errors ≡ true
      → (has_failed (with_errors w a b) ≡ false) × IsReported w (ending (with_errors w a b)).1
  unfolding finish judged
  reported w (some e) b v h = cc
  reported w none (some e) v h = cc
  reported w none none v h =
      let completed =
        complete_worker_task sys (fails Phase.completing) clock task.key "completed" finished db in
      let done =
        (complete_worker_task-Completed sys (fails Phase.completing) clock task.key "completed"
          finished db u).at in
      (refl, concluded-IsReported w completed.0 completed.1 v done h)

  -- An end of a turn that reports no error, whatever fails: neither the work nor its supervision failed, the
  -- row of the task had the status claimed, whoever claimed it, and has the status completed and the time of
  -- the end, no other task changed, and the result of a completed task is stored for it. The tasks and the
  -- results of the store have different keys.
  pub finish-IsReported :
      (o : Outcome)
      → IsUnique result_key db.results
      → is_nil (ending o).0.errors ≡ true
      → (has_failed o ≡ false) × IsReported o.did_work (ending o).1
  finish-IsReported o v h = reported o.did_work o.run_error o.supervision_error v h
