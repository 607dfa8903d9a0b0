-- ===== src/Linear/Executed.antt =====
-- How a transition ends.
use agent_machine.Common.{
  String, ◌≡◌, refl, arith, Bool, true, false, not, ◌&&◌, ◌||◌, Option, List, ◌==◌, trim_space,
  if_holds, if◌then◌else◌,
}
use agent_machine.Common.Table.{passes, map_some}
use agent_machine.State.{
  Time, Platform, WorkerTask, Result, ok, err, Db, Call, status_failed, time_or,
}
use agent_machine.State.Rows.{view, HasUniqueKeys}
use agent_machine.State.Tasks.Completed.{
  completion, is_completed, succeeds, complete_worker_task_lem,
}
use agent_machine.Linear.{
  TransitionPayload, WorkflowState, Client, state_id, decode_transition_payload, move_to, move_in,
  attempt_payload, attempt, complete_transition_task, execute_transition_task,
}

module _ (client : Client) where
  -- Linear took the move, which was to a state that has a name
  abbrev pub is_accepted : String × String → Bool
  is_accepted (issue_id, id) = not (id == "") && not (client.update_fails issue_id id)

  -- A move failed exactly if none was sent that Linear took.
  abbrev pub IsHonest : Option (String × String) × Bool → Type 0
  IsHonest out = out.1 ≡ not (passes is_accepted out.0)

  accepted : (no_id : Bool) (failed : Bool) → no_id ≡ false → failed ≡ not (not no_id && not failed)
  accepted false true h = refl
  accepted false false h = refl
  accepted true failed h = cc

  no_target : (a b : Bool) → (a || b) ≡ false → b ≡ false
  no_target a b h = ground (arith, h)

  move_to-IsHonest :
      (states : List WorkflowState) (issue_id name : String)
      → IsHonest (move_to client states issue_id name)
  unfolding move_to
  move_to-IsHonest states issue_id name =
      let target = trim_space name in
      let id = state_id states target in
      if_holds IsHonest client.canceled_moving _ _ (λ _. refl)
        (λ _.
          if_holds IsHonest (target == "" || id == "") _ _ (λ _. refl)
            (λ there.
              accepted (id == "") (client.update_fails issue_id id)
                (no_target (target == "") (id == "") there)))

  move_in-IsHonest :
      (p : TransitionPayload) (r : Result (List WorkflowState)) → IsHonest (move_in client p r)
  move_in-IsHonest p (err e) = refl
  move_in-IsHonest p (ok states) = move_to-IsHonest states p.issue_id p.target_state

  payload-IsHonest : (r : Result TransitionPayload) → IsHonest (attempt_payload client r)
  payload-IsHonest (err e) = refl
  payload-IsHonest (ok p) =
      if_holds IsHonest client.canceled _ _ (λ _. refl)
        (λ _. move_in-IsHonest p (client.workflow_states p.team_id))

  attempt-IsHonest : (task : WorkerTask) → IsHonest (attempt client task)
  unfolding attempt
  attempt-IsHonest task = payload-IsHonest (decode_transition_payload client task.payload)

  module _ (sys : Platform) (fails : Call → Bool) (clock : Time) where
    completed_as : (failed : Bool) → ((if failed then status_failed else "completed") == "") ≡ false
    completed_as true = refl
    completed_as false = refl

    -- Whatever Linear and the store do, an execution fails exactly if it sent no move that Linear took. It
    -- then gives its task, if that is claimed, the status failed, and else completed, and the time of the
    -- end, unless the UPDATE fails; every other row stays. The completion returns no error exactly if the
    -- calls of the store work and the task is claimed. The task has a key, and the tasks of the store have
    -- different keys.
    pub execute_transition_task_lem :
        (task : WorkerTask) (db : Db)
        → HasUniqueKeys db.tasks
        → (task.task_key == "") ≡ false
        → let out = execute_transition_task client sys fails clock task db in
          let status : String = if out.0.has_failed then "failed" else "completed" in
          (out.0.has_failed ≡ not (passes is_accepted out.0.sent))
          × (succeeds out.0.completion ≡ is_completed fails (view db.tasks task.task_key))
          × ((j : String)
              → view out.1.tasks j ≡ (
                  if task.task_key == j && not (fails Call.update)
                  then map_some
                      (completion status (time_or clock clock))
                      (view db.tasks task.task_key)
                  else view db.tasks j))
    unfolding execute_transition_task complete_transition_task
    execute_transition_task_lem task db u named =
        let failed = (attempt client task).1 in
        let (done, rows) =
          complete_worker_task_lem sys fails clock task.task_key
            (if failed then status_failed else "completed") clock db u named
            (completed_as failed) in
        (attempt-IsHonest task, done, rows)
