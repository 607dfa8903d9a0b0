-- ===== src/Reconcile/Decide.antt =====
-- The decision on one issue and on a list of issues: ReconcileIssuesContext,
-- ReconcileIssueWithArtifactContext of reconciler.go, and the repair of feedback.go.
use agent_machine.Common.{
  String, Bool, true, false, Option, none, some, List, [], ◌∷◌, ◌==◌, map, concat, if◌then◌else◌,
}
use agent_machine.Common.Returns.{first_return}
use agent_machine.State.{Time}
use agent_machine.Candidates.{Issue, is_blocked_candidate}
use agent_machine.Reconcile.{
  Lifecycle, PullRequestSummary, ArtifactSummary, Config, Workspace, Reader, Host, Decision,
  is_some, block,
}
use agent_machine.Reconcile.Blocks.{repairable_review_failed_pr, repair_next_action}
use agent_machine.Reconcile.Evidence.{Evidence, start, gather, active_run_lease, error_text}
use agent_machine.Reconcile.Settle.{settle}

-- the map of the issues by their names: of two issues of one name the last
abbrev pub issue_named : String → List Issue → Option Issue
issue_named name [] = none
issue_named name (i ∷ is) = elim (issue_named name is) [
  | none ↦ if i.identifier == name then some i else none
  | some later ↦ some later
]

module _ (host : Host) (config : Config) (workspaces : String → Workspace) (reader : Option Reader)
    (now : Time) (canceled : Option String) where
  -- the tests before those of the pull request, each with what the body returns
  unfoldable pub guards : Issue → Option PullRequestSummary → Evidence → List (Bool × Decision)
  unfolding is_blocked_candidate active_run_lease
  guards candidate pr ev =
      let d = ev.decision in
      let (lease_error, leased) = active_run_lease workspaces reader now candidate.identifier in
      (
        is_blocked_candidate candidate,
        block Lifecycle.blocked "issue has blocked label" "operator_unblock_issue" d,
      )
      ∷ (
        (workspaces candidate.identifier).run_lock,
        block Lifecycle.running "active run lock exists" "wait_for_or_clear_run_lock" d,
      )
      ∷ (
        is_some d.state_store_error,
        block Lifecycle.blocked
            (concat
              ("SQLite reconciliation state unavailable: " ∷ error_text d.state_store_error ∷ []))
            "repair_sqlite_state_store" d,
      )
      ∷ (
        ev.missing_facts,
        block Lifecycle.blocked "SQLite has no attempt state for current PR"
            "repair_sqlite_state_store" d,
      )
      ∷ (
        is_some lease_error,
        block Lifecycle.blocked
            (concat ("SQLite run lease unavailable: " ∷ error_text lease_error ∷ []))
            "repair_sqlite_state_store"
            (record d { state_store_error = lease_error; reconciliation_needed = true }),
      )
      ∷ (
        leased,
        block Lifecycle.running "active SQLite run lease exists" "wait_for_or_release_run_lease" d,
      )
      ∷ (
        ev.artifact_only,
        block Lifecycle.blocked "artifact exists without SQLite attempt state"
            "repair_sqlite_state_store" d,
      )
      ∷ (
        ev.artifact_conflict,
        block Lifecycle.blocked "artifact state conflicts with SQLite attempt state"
            "repair_artifact_or_sqlite_state" d,
      )
      ∷ (
        candidate.state == config.needs_info_state,
        block Lifecycle.needs_info "Linear issue needs more information"
            "answer_questions_then_move_ready" d,
      )
      ∷ (
        candidate.state == config.done_state,
        block Lifecycle.done "Linear issue is done" "cleanup_workspace" d,
      )
      ∷ []

  -- the body after the test of the context
  unfoldable pub reconcile_active :
      Issue → Option PullRequestSummary → Option ArtifactSummary → Decision
  unfolding guards gather
  reconcile_active candidate pr artifact =
      let ev = gather workspaces reader candidate pr artifact in
      first_return (guards candidate pr ev)
        (settle host config workspaces reader candidate pr ev.decision)

  -- `canceled` is the text of ctx.Err()
  unfoldable pub reconcile_issue :
      Issue → Option PullRequestSummary → Option ArtifactSummary → Decision
  unfolding reconcile_active
  reconcile_issue candidate pr artifact =
      first_return
        ((
          is_some canceled,
          block Lifecycle.blocked
              (concat ("reconciliation context canceled: " ∷ error_text canceled ∷ []))
              "retry_when_worker_context_active"
              (record (start candidate) {
                state_store_error = canceled;
                reconciliation_needed = true;
              }),
        )
          ∷ [])
        (reconcile_active candidate pr artifact)

  -- ReconcileIssuesContext, with the two maps as functions
  unfoldable pub reconcile_issues :
      (String → Option PullRequestSummary)
      → (String → Option ArtifactSummary)
      → List Issue
      → List Decision
  unfolding reconcile_issue
  reconcile_issues prs artifacts issues =
      map (λ i. reconcile_issue i (prs i.identifier) (artifacts i.identifier)) issues

  -- decisionWithRepairableReviewFailedPR
  unfoldable pub with_repair : Issue → Option PullRequestSummary → Decision → Decision
  unfolding repairable_review_failed_pr
  with_repair candidate pr d =
      let w = workspaces candidate.identifier in
      if repairable_review_failed_pr host config w candidate pr d.next_action
        d.reconciliation_needed d.db_facts
      then record d {
        lifecycle = Lifecycle.review_failed;
        can_run = true;
        can_merge = false;
        should_retry = true;
        blockers = [];
        next_action = repair_next_action;
      }
      else d

  -- reconcileCandidateForSelectionContext
  unfoldable pub reconcile_candidate : Issue → Option PullRequestSummary → Decision
  unfolding reconcile_issue with_repair
  reconcile_candidate candidate pr = with_repair candidate pr (reconcile_issue candidate pr none)

  abbrev pub repair_named :
      (String → Option PullRequestSummary) → Decision → Option Issue → Decision
  repair_named prs d none = d
  repair_named prs d (some candidate) = with_repair candidate (prs candidate.identifier) d

  -- the loop of repairableReviewFailedReconciliationDecisions
  abbrev pub repair_decision :
      List Issue → (String → Option PullRequestSummary) → Decision → Decision
  repair_decision issues prs d = repair_named prs d (issue_named d.issue_identifier issues)

  -- The decisions of runReconciliationScanContext. Without any pull request the loop changes nothing.
  unfoldable pub scan_decisions :
      (String → Option PullRequestSummary)
      → (String → Option ArtifactSummary)
      → List Issue
      → List Decision
  unfolding reconcile_issues with_repair
  scan_decisions prs artifacts issues =
      map (repair_decision issues prs) (reconcile_issues prs artifacts issues)
