-- ===== src/Workers.antt =====
-- The policy of the workers' roles and of a task's next attempt, internal/workertask/policy.go.
pub mod Laws
pub mod Dispatch
pub mod Cleaning
use agent_machine.Common.{
  ℕ, ◌+◌, ◌*◌, String, Bool, true, false, not, ◌&&◌, ◌||◌, Option, none, some, List, [], ◌∷◌, ◌==◌,
  any, ltb, trim_space, if◌then◌else◌,
}
use agent_machine.Common.Distinct.{contains}
use agent_machine.Common.Sort.{sort_by}
use agent_machine.Common.Table.{select_where, find}
use agent_machine.State.{
  Time, is_zero, Platform, WorkerTask, WorkerResult, Db, Result, ok, err, required, Call, result,
  Exec, ◌>>=◌, ◌>>◌, pure, gets, call, reject_if, choose, result_key, status_queued, status_claimed,
  status_failed, status_reconciliation_needed,
}
use agent_machine.State.Tasks.{requeue_reconciliation_needed}

abbrev pub normalize_role : String → String
normalize_role role = trim_space role

abbrev pub supported_selected_roles : List String
supported_selected_roles =
    "status" ∷ "plan" ∷ "cleanup" ∷ "merge" ∷ "reconciliation" ∷ "review" ∷ "implementation"
    ∷ "handoff" ∷ "linear-status" ∷ "work" ∷ []

unfoldable pub supported_selected_role : String → Bool
unfolding contains
supported_selected_role role = contains supported_selected_roles (normalize_role role)

unfoldable pub selected_role_needs_workspace_root : String → Bool
selected_role_needs_workspace_root role =
    let r = normalize_role role in
    r == "cleanup"
    || r == "merge"
    || r == "reconciliation"
    || r == "review"
    || r == "implementation"
    || r == "handoff"
    || r == "work"

unfoldable pub blocks_dispatch : String → Bool
blocks_dispatch status =
    status == status_queued || status == status_claimed || status == status_reconciliation_needed

abbrev pub minute : ℕ
minute = 60000000000

unfoldable pub retry_backoff : String → ℕ
retry_backoff role =
    if role == "implementation" || role == "work"
    then 5 * minute
    else if role == "review" || role == "handoff" || role == "merge"
    then 2 * minute
    else minute

abbrev pub operator_requeued : String
operator_requeued = "operator_requeued_reconciliation_task"

-- the return of AvailableAtAfterLatestFailure for the first result of the task's key
unfoldable pub available_after : String → Time → Option WorkerResult → Time
unfolding retry_backoff
available_after role now none = now
available_after role now (some r) =
    let finished_at = if is_zero r.finished_at then r.updated_at else r.finished_at in
    let available_at = finished_at + retry_backoff role in
    if not (r.status == status_failed)
    then now
    else if ltb now available_at
    then available_at
    else now

-- ORDER BY updated_at DESC, task_key
unfoldable pub newer : Platform → WorkerResult → WorkerResult → Bool
newer sys r s =
    sys.text_lt (sys.format_time s.updated_at) (sys.format_time r.updated_at)
    || (not (sys.text_lt (sys.format_time r.updated_at) (sys.format_time s.updated_at))
        && sys.text_lt r.task_key s.task_key)

-- the SELECT of WorkerResults
unfoldable pub results_of : Platform → String → List WorkerResult → List WorkerResult
unfolding sort_by select_where newer
results_of sys role results =
    sort_by (newer sys) (select_where (λ r. role == "" || r.role == role) results)

module _ (sys : Platform) (fails : Call → Bool) (clock : Time) where
  unfoldable pub worker_results : String → Exec (List WorkerResult)
  unfolding results_of
  worker_results role = do call (fails result); gets (λ db. results_of sys role db.results)

  unfoldable pub available_at_after_latest_failure : String → String → Time → Exec Time
  unfolding worker_results available_after find
  available_at_after_latest_failure key role now = choose (key == "" || role == "") (pure now) (do
    results ← worker_results role
    pure (available_after role now (find result_key key results)))

  -- RequeueReconciliationNeeded
  unfoldable pub repair_task : String → Time → Exec WorkerTask
  unfolding requeue_reconciliation_needed
  repair_task key now = do
    reject_if (trim_space key == "") (required "task key")
    requeue_reconciliation_needed sys fails clock (trim_space key) operator_requeued now
