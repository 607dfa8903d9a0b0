-- ===== src/Reconcile/Settle.antt =====
-- The decision after the tests of the issue's state: applyTerminalArtifact, applyPRInvariants and the end
-- of ReconcileIssueWithArtifactContext, reconciler.go.
use agent_machine.Common.{
  String, true, false, not, ◌&&◌, ◌||◌, Option, none, some, [], ◌∷◌, ◌++◌, ◌==◌, concat,
  if◌then◌else◌,
}
use agent_machine.Common.Returns.{first_return}
use agent_machine.Common.Table.{passes}
use agent_machine.Gate.{is_blank, is_nil}
use agent_machine.Gate.Merge.{empty_as_unknown}
use agent_machine.Gate.Cleanup.{terminal_run_status}
use agent_machine.Runs.{RunRecord}
use agent_machine.Candidates.{Issue}
use agent_machine.Reconcile.{
  Lifecycle, PullRequestSummary, Config, Workspace, Reader, Host, Decision, is_some, block,
}
use agent_machine.Reconcile.Identity.{pr_invariant_block_reason}
use agent_machine.Reconcile.Blocks.{
  state_is_runnable, merge_state_block_reason, workspace_locked_or_modified,
  has_unresolved_review_failure, merge_gate_block_reason, can_retry_review_readiness,
  feedback_retry_available,
}

module _ (host : Host) (config : Config) (workspaces : String → Workspace)
    (reader : Option Reader) where
  -- applyTerminalArtifact
  unfoldable pub apply_terminal_artifact : Issue → RunRecord → Decision → Decision
  unfolding feedback_retry_available
  apply_terminal_artifact candidate r d =
      let w = workspaces candidate.identifier in
      let has_pr = r.status == "success" && not (r.pr_url == "") in
      first_return
        ((
          has_pr && feedback_retry_available host config w candidate r none,
          record d {
            lifecycle = Lifecycle.feedback_retry;
            can_run = true;
            should_retry = true;
            next_action = "retry_with_unresolved_pr_feedback";
          },
        )
          ∷ (
            has_pr,
            block Lifecycle.handoff_ready "terminal success artifact already has a PR"
                "await_review_or_reconcile_artifact" d,
          )
          ∷ (
            r.status == "needs_info" || r.status == "needs_info_failed",
            block Lifecycle.needs_info "terminal needs-info artifact exists"
                "answer_questions_then_retry" d,
          )
          ∷ (
            r.status == "review_failed",
            block Lifecycle.review_failed "terminal review_failed artifact exists"
                "repair_review_findings_before_handoff" d,
          )
          ∷ (
            r.status == "merged" || r.status == "superseded",
            block Lifecycle.done (concat ("terminal " ∷ r.status ∷ " artifact exists" ∷ []))
                "cleanup_workspace" d,
          )
          ∷ [])
        (block Lifecycle.blocked
          (concat ("terminal " ∷ empty_as_unknown r.status ∷ " artifact exists" ∷ []))
          "operator_repair_or_clear_artifact" d)

  -- applyPRInvariants
  unfoldable pub apply_pr_invariants : Issue → PullRequestSummary → Decision → Decision
  unfolding pr_invariant_block_reason state_is_runnable can_retry_review_readiness
      feedback_retry_available merge_gate_block_reason merge_state_block_reason
      workspace_locked_or_modified
  apply_pr_invariants candidate pr d =
      let w = workspaces candidate.identifier in
      let invariant = pr_invariant_block_reason host config candidate pr in
      let gate = merge_gate_block_reason host config pr in
      let state = merge_state_block_reason d.db_facts w.run_artifact pr.url in
      let (locked, lock_reason) = workspace_locked_or_modified w in
      first_return
        ((
          not (invariant == ""),
          record (block Lifecycle.quarantined invariant "close_or_repair_invalid_pr" d) {
            should_quarantine = true;
          },
        )
          ∷ (
            pr.review_decision == "CHANGES_REQUESTED",
            record d {
              lifecycle = Lifecycle.feedback_retry;
              can_run = state_is_runnable config candidate.state;
              can_merge = false;
              blockers = d.blockers ++ "GitHub review requested changes" ∷ [];
              next_action = "capture_feedback_and_retry";
              should_retry = true;
            },
          )
          ∷ (
            can_retry_review_readiness host config candidate pr d.db_facts,
            record d {
              lifecycle = Lifecycle.running;
              can_run = true;
              can_merge = false;
              next_action = "run_semantic_review_after_checks_ready";
              should_retry = true;
            },
          )
          ∷ (
            passes
                (λ r.
                  r.status == "success"
                  && feedback_retry_available host config w candidate r (some pr))
                d.run_record,
            record d {
              lifecycle = Lifecycle.feedback_retry;
              can_run = true;
              can_merge = false;
              next_action = "retry_with_unresolved_pr_feedback";
              should_retry = true;
            },
          )
          ∷ (
            not (candidate.state == config.handoff_state),
            block Lifecycle.blocked
                (concat ("PR exists while Linear state is " ∷ host.quote candidate.state ∷ []))
                "reconcile_linear_state" d,
          )
          ∷ (
            not (pr.review_decision == "APPROVED"),
            block Lifecycle.handoff_ready
                (concat (
                  "waiting for approval; reviewDecision="
                  ∷ empty_as_unknown pr.review_decision
                  ∷ []))
                "await_human_approval" d,
          )
          ∷ (not (gate == ""), block Lifecycle.handoff_ready gate "wait_for_green_mergeable_pr" d)
          ∷ (
            not (state == ""),
            record (block Lifecycle.quarantined state "repair_run_artifact_before_merge" d) {
              should_quarantine = true;
            },
          )
          ∷ (locked, block Lifecycle.blocked lock_reason "clear_workspace_lock_or_changes" d)
          ∷ [])
        (record d {
          lifecycle = Lifecycle.merge_ready;
          can_merge = true;
          next_action = "merge_approved_pr";
        })

  -- the part of the body after the tests of the issue's state, with a pull request and without
  unfoldable pub settle_pr : Issue → PullRequestSummary → Decision → Decision
  unfolding apply_pr_invariants
  settle_pr candidate pr d =
      let needed =
        d.reconciliation_needed
        || passes (λ f. not (f.pr_url == "") && not (f.pr_url == pr.url)) d.db_facts in
      first_return
        ((
          passes (λ f. is_blank f.status) d.db_facts,
          block Lifecycle.blocked "SQLite attempt status is missing for current PR"
              "repair_sqlite_state_store" (record d { reconciliation_needed = true }),
        )
          ∷ [])
        (apply_pr_invariants candidate pr (record d { reconciliation_needed = needed }))

  -- the last test of the body
  abbrev pub run_if_free : Issue → Decision → Decision
  run_if_free candidate d =
      if is_nil d.blockers && state_is_runnable config candidate.state
      then record d { can_run = true }
      else d

  abbrev pub apply_final_record : Issue → Option RunRecord → Decision → Decision
  apply_final_record candidate none d = d
  apply_final_record candidate (some r) d =
      if terminal_run_status r.status then apply_terminal_artifact candidate r d else d

  unfoldable pub settle_without_pr : Issue → Decision → Decision
  unfolding apply_terminal_artifact state_is_runnable terminal_run_status
  settle_without_pr candidate d =
      let w = workspaces candidate.identifier in
      let state_backed = is_some reader in
      first_return
        ((
          passes (λ f. not (f.pr_url == "")) d.db_facts,
          block Lifecycle.blocked "SQLite PR mapping has no current open PR"
              "reconcile_missing_or_closed_pr_mapping" d,
        )
          ∷ (
            state_backed && passes (λ f. f.status == "review_failed") d.db_facts,
            block Lifecycle.review_failed "SQLite review-failed attempt is unresolved"
                "repair_review_findings_before_retry" d,
          )
          ∷ (
            not state_backed && has_unresolved_review_failure w.stored_record,
            block Lifecycle.review_failed "prior review-failure findings are unresolved"
                "repair_review_findings_before_retry" d,
          )
          ∷ [])
        (run_if_free candidate (apply_final_record candidate d.run_record d))

  abbrev pub settle : Issue → Option PullRequestSummary → Decision → Decision
  settle candidate none d = settle_without_pr candidate d
  settle candidate (some pr) d = settle_pr candidate pr d
