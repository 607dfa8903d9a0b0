-- ===== src/Reconcile/Blocks.antt =====
-- The tests of a reconciliation: the block reasons of reconciler.go and merge.go, the repair of
-- feedback.go, and feedbackRetryAvailable of candidate_selection.go.
use agent_machine.Common.{
  String, Bool, true, false, not, ◌&&◌, ◌||◌, Option, none, some, [], ◌∷◌, ◌==◌, any, trim_space,
  concat, if◌then◌else◌,
}
use agent_machine.Common.Table.{passes}
use agent_machine.Gate.{is_blank, reason}
use agent_machine.Gate.Merge.{PullRequest, evaluate_pull_request, checks_status, empty_as_unknown}
use agent_machine.Gate.Cleanup.{first_non_empty}
use agent_machine.Runs.{RunRecord, missing_evidence_only, behavior_spec_blocker}
use agent_machine.Candidates.{Issue}
use agent_machine.Reconcile.{PullRequestSummary, Facts, Evaluation, Config, Workspace, Host}
use agent_machine.Reconcile.Identity.{pr_invariant_block_reason}

unfoldable pub state_is_runnable : Config → String → Bool
state_is_runnable config state =
    state == ""
    || state == config.ready_state
    || state == config.running_state
    || any (λ active. state == active) config.active_states

-- both are there, and differ
abbrev pub are_different : String → String → Bool
are_different s t = not (is_blank s) && not (is_blank t) && not (trim_space s == trim_space t)

unfoldable pub sqlite_merge_block_reason : Facts → String → String
sqlite_merge_block_reason facts url =
    if are_different facts.pr_url url
    then concat ("SQLite PR URL " ∷ facts.pr_url ∷ " does not match candidate PR " ∷ url ∷ [])
    else if not (facts.status == "success")
    then concat ("run status is " ∷ empty_as_unknown facts.status ∷ [])
    else if facts.review_status == "passed"
    then ""
    else if facts.review_status == "failed" && facts.review_classification == missing_evidence_only
    then ""
    else concat ("review status is " ∷ empty_as_unknown facts.review_status ∷ [])

unfoldable pub has_human_approved_missing_evidence : RunRecord → Bool
has_human_approved_missing_evidence r =
    r.status == "success"
    && r.review_status == "failed"
    && r.review_classification == missing_evidence_only

unfoldable pub run_artifact_merge_block_reason : Option RunRecord → String → String
run_artifact_merge_block_reason none url = "missing run artifact for approved Agent Machine PR"
run_artifact_merge_block_reason (some r) url =
    if are_different r.pr_url url
    then concat ("run artifact PR URL " ∷ r.pr_url ∷ " does not match candidate PR " ∷ url ∷ [])
    else if not (r.status == "success")
    then concat ("run status is " ∷ empty_as_unknown r.status ∷ [])
    else if has_human_approved_missing_evidence r
    then ""
    else if not (r.review_status == "passed")
    then concat ("review status is " ∷ empty_as_unknown r.review_status ∷ [])
    else ""

-- mergeStateBlockReason
unfoldable pub merge_state_block_reason : Option Facts → Option RunRecord → String → String
merge_state_block_reason none artifact url = run_artifact_merge_block_reason artifact url
merge_state_block_reason (some facts) artifact url = sqlite_merge_block_reason facts url

unfoldable pub workspace_locked_or_modified : Workspace → Bool × String
workspace_locked_or_modified w =
    if not w.is_present
    then (false, "")
    else if w.index_lock || w.am_lock
    then (true, concat ("workspace " ∷ w.path ∷ " is locked" ∷ []))
    else elim w.has_changes [
      | none ↦ (true, concat ("workspace " ∷ w.path ∷ " status could not be checked" ∷ []))
      | some changed ↦
          if changed
          then (true, concat ("workspace " ∷ w.path ∷ " has uncommitted changes" ∷ []))
          else (false, "")
    ]

-- evaluatePullRequestMergeGate: what it gives the gate
abbrev pub gate_input : PullRequestSummary → PullRequest
gate_input pr = record {
  subject = first_non_empty (pr.url ∷ pr.head_ref_name ∷ []);
  head_ref_name = pr.head_ref_name;
  mergeable = pr.mergeable;
  merge_state_status = pr.merge_state_status;
  status_checks = pr.status_checks;
}

abbrev pub has_unresolved_review_failure : Option RunRecord → Bool
has_unresolved_review_failure stored =
    passes (λ r. r.status == "review_failed" && not (r.pr_url == "")) stored

abbrev pub has_review_not_ready : Option Facts → String → Bool
has_review_not_ready facts url =
    passes
      (λ f.
        not (f.status == "")
        && f.status == "review_not_ready"
        && (is_blank f.pr_url || f.pr_url == url))
      facts

abbrev pub repair_next_action : String
repair_next_action = "repair_review_findings_before_handoff"

module _ (host : Host) (config : Config) where
  unfoldable pub merge_gate_block_reason : PullRequestSummary → String
  merge_gate_block_reason pr = reason (evaluate_pull_request host.quote (gate_input pr)).result

  unfoldable pub can_retry_review_readiness : Issue → PullRequestSummary → Option Facts → Bool
  unfolding state_is_runnable checks_status
  can_retry_review_readiness candidate pr facts =
      state_is_runnable config candidate.state
      && (checks_status host.quote pr.status_checks).0 == "success"
      && has_review_not_ready facts pr.url

  -- the rest of repairableReviewFailedPR, on the facts of the store or on the two artifacts
  unfoldable pub facts_are_repairable : Facts → String → Bool
  facts_are_repairable f url =
      f.status == "review_failed"
      && (is_blank f.pr_url || f.pr_url == url)
      && not (f.review_status == "passed")
      && f.review_classification == behavior_spec_blocker

  unfoldable pub record_is_repairable : RunRecord → String → Bool
  record_is_repairable r url =
      r.status == "review_failed"
      && not (r.review_status == "passed")
      && r.review_classification == behavior_spec_blocker
      && (is_blank r.pr_url || r.pr_url == url)

  unfoldable pub evaluation_is_repairable : Evaluation → String → Bool
  evaluation_is_repairable e url =
      e.outcome == "review_failed"
      && e.should_retry
      && e.next_action == repair_next_action
      && (e.review_classification == "" || e.review_classification == behavior_spec_blocker)
      && (is_blank e.pr_url || e.pr_url == url)

  abbrev pub evidence_is_repairable : Option Facts → Workspace → String → Bool
  evidence_is_repairable (some f) w url = facts_are_repairable f url
  evidence_is_repairable none w url =
      passes (λ r. record_is_repairable r url) w.run_artifact
      && passes (λ e. evaluation_is_repairable e url) w.evaluation

  unfoldable pub repairable_review_failed_pr :
      Workspace → Issue → Option PullRequestSummary → String → Bool → Option Facts → Bool
  unfolding state_is_runnable pr_invariant_block_reason facts_are_repairable record_is_repairable
      evaluation_is_repairable
  repairable_review_failed_pr w candidate none next_action needed facts = false
  repairable_review_failed_pr w candidate (some pr) next_action needed facts =
      state_is_runnable config candidate.state
      && (next_action == "reconcile_linear_state" || next_action == repair_next_action)
      && not needed
      && pr_invariant_block_reason host config candidate pr == ""
      && evidence_is_repairable facts w pr.url

  unfoldable pub feedback_retry_available :
      Workspace → Issue → RunRecord → Option PullRequestSummary → Bool
  unfolding repairable_review_failed_pr
  feedback_retry_available w candidate r pr =
      if not (candidate.state == config.ready_state) || r.pr_url == ""
      then false
      else if r.status == "review_failed"
      then repairable_review_failed_pr w candidate pr repair_next_action false none
      else r.status == "success" && passes (λ text. not (is_blank text)) w.feedback
