-- ===== src/Workers/Cleaning.antt =====
-- The worker that deletes the workspaces, RunQueued of internal/cleanupworker/task.go.
-- What it does to the files and tells its callbacks is a `Course`, drawn up from their answers; what the
-- callbacks write to the store is theirs.
pub mod Safety
use agent_machine.Common.{
  String, Bool, true, false, not, ◌&&◌, Option, none, some, List, [], ◌∷◌, ◌++◌, ◌==◌, concat,
  if◌then◌else◌,
}
use agent_machine.State.{
  Time, Platform, WorkerTask, Result, ok, err, Error, Db, Call, status_failed,
}
use agent_machine.Gate.Cleanup.{Decision, first_non_empty, deletion_result}
use agent_machine.Reconcile.{Read, unavailable, missing, found}
use agent_machine.Workers.Dispatch.{Stage, claim, complete}

-- A value, or an error.
pub data Answer (A : Type 0) : Type 0 where
  refused : String → Answer A
  answer : A → Answer A

-- Config, and what the worker asks: Dependencies, the file system, filepath.Clean, and the decoding of a
-- payload, whose name is the task's issue unless the payload gives one. Missing dependencies are refusals.
pub record Dependencies : Type 0 where
  pub workspace_root : String
  pub safe_workspace_root : String → Answer String
  pub safe_workspace_path : String → String → Answer String
  pub unsafe_delete : String → String → Option String
  pub done_issues : Answer (String → Bool)
  pub cleanup_decision : String → String → (String → Bool) → Db → Answer Decision
  pub stat : String → Read (Unit {0})
  pub remove_all : String → Option String
  pub clean : String → String
  pub decode : WorkerTask → String × String
  pub describe : Error → String

-- the calls of recordCleanupEvent, recordCleanupError and mirrorState
pub data Report : Type 0 where
  noted : String → Decision → Report
  failed_with : String → Report
  mirrored : Decision → Bool → String → Bool → Report

-- What the worker does with a task: its reports in their order, the path that it gives to os.RemoveAll, its
-- error, and the status and the reason of the result.
pub record Course : Type 0 where
  pub reports : List Report
  pub removed : Option String
  pub error : Option String
  pub status : String
  pub reason : String

abbrev pub fails_with : String → String → List Report → Course
fails_with e reason reports = record {
  reports = reports;
  removed = none;
  error = some e;
  status = status_failed;
  reason = reason;
}

abbrev pub ends_with : String → List Report → Course
ends_with reason reports = record {
  reports = reports;
  removed = none;
  error = none;
  status = "completed";
  reason = reason;
}

abbrev pub found_report : Decision → Report
found_report d = noted "cleanup_candidate_found" d

abbrev pub attempt_reports : Decision → List Report
attempt_reports d = found_report d ∷ noted "cleanup_deletion_attempted" d ∷ []

-- the reports of a deletion that failed
abbrev pub failure_reports : Decision → String → List Report
failure_reports d e = attempt_reports d ++ mirrored d true "failed" true ∷ failed_with e ∷ []

abbrev pub path_conflict : String → String → String
path_conflict given workspace =
    concat
      ("cleanup task workspace " ∷ given ∷ " conflicts with expected workspace " ∷ workspace ∷ [])

-- after os.RemoveAll
abbrev pub on_removal : String → Decision → Option String → Course
on_removal workspace d (some e) =
    record (fails_with e "cleanup_delete_failed" (failure_reports d e)) { removed = some workspace }
on_removal workspace d none =
    record (ends_with "cleanup_deleted" (
      attempt_reports d
      ++ mirrored d true "deleted" false ∷ noted "cleanup_deletion_succeeded" d ∷ [])) {
        removed = some workspace;
      }

module _ (deps : Dependencies) where
  abbrev pub on_check : String → Decision → Option String → Course
  on_check workspace d (some e) = fails_with e "cleanup_delete_unsafe" (failure_reports d e)
  on_check workspace d none = on_removal workspace d (deps.remove_all workspace)

  abbrev pub kept_reports : Decision → List Report
  kept_reports d =
      found_report d
      ∷ mirrored d false (deletion_result d "kept") true
      ∷ noted "cleanup_skipped" d
      ∷ []

  abbrev pub on_decision : String → String → Answer Decision → Course
  on_decision root workspace (refused e) =
      fails_with e "cleanup_decision_failed" (failed_with e ∷ [])
  on_decision root workspace (answer d) =
      if not d.delete
      then ends_with "cleanup_kept" (kept_reports d)
      else on_check workspace d (deps.unsafe_delete root workspace)

  abbrev pub on_stat : String → String → (String → Bool) → Db → Read (Unit {0}) → Course
  on_stat root workspace done db missing = ends_with "workspace_missing" []
  on_stat root workspace done db (unavailable e) = fails_with e "workspace_stat_failed" []
  on_stat root workspace done db (found u) =
      on_decision root workspace (deps.cleanup_decision root workspace done db)

  abbrev pub on_issues : String → String → Db → Answer (String → Bool) → Course
  on_issues root workspace db (refused e) = fails_with e "linear_done_refresh_failed" []
  on_issues root workspace db (answer done) = on_stat root workspace done db (deps.stat workspace)

  -- The payload names another workspace than the expected one.
  abbrev pub conflicts : String → String → Bool
  conflicts given workspace = not (given == "") && not (deps.clean given == deps.clean workspace)

  abbrev pub on_path : String → String → Db → Answer String → Course
  on_path root given db (refused e) = fails_with e "unsafe_workspace_path" []
  on_path root given db (answer workspace) =
      if conflicts given workspace
      then fails_with (path_conflict given workspace) "workspace_path_conflict" []
      else on_issues root workspace db deps.done_issues

  abbrev pub workspace_name : WorkerTask → String
  workspace_name t = first_non_empty ((deps.decode t).0 ∷ t.issue_key ∷ [])

  abbrev pub on_root : WorkerTask → Db → Answer String → Course
  on_root t db (refused e) = fails_with e "unsafe_workspace_root" []
  on_root t db (answer root) =
      on_path root (deps.decode t).1 db (deps.safe_workspace_path root (workspace_name t))

  -- the body after the claim, up to the completion
  unfoldable pub course : WorkerTask → Db → Course
  course t db = on_root t db (deps.safe_workspace_root deps.workspace_root)

  abbrev pub error_text : Option String → String
  error_text none = ""
  error_text (some e) = e

  module _ (sys : Platform) (fails : Stage → Call → Bool) (clock : Time)
      -- whether the context is done, and the times at which the task is claimed, begun and finished
      (canceled : Bool) (now started finished : Time) where
    -- What the worker did, if it claimed a task, and what the completion of the task returned.
    abbrev pub clean_up : WorkerTask → Db → Result (Option (Course × Result (Unit {0}))) × Db
    clean_up t db =
        let c = course t db in
        let (completed, db') =
          complete sys fails clock "cleanup" "cleanup_task_completed" t c.status true c.reason
            (error_text c.error) started finished db in
        (ok (some (c, completed)), db')

    abbrev pub clean_up_claimed :
        Result (Option WorkerTask) → Db → Result (Option (Course × Result (Unit {0}))) × Db
    clean_up_claimed (err e) db = (err e, db)
    clean_up_claimed (ok none) db = (ok none, db)
    clean_up_claimed (ok (some t)) db = clean_up t db

    unfoldable pub run_queued : Db → Result (Option (Course × Result (Unit {0}))) × Db
    unfolding course claim complete
    run_queued db =
        let (claimed, db') = claim sys fails clock "cleanup" now db in
        if canceled then (err Error.unavailable, db) else clean_up_claimed claimed db'
