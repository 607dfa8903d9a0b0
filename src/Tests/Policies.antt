-- ===== src/Tests/Policies.antt =====
-- The policies on concrete inputs.
use mathlib.Core.List.{Perm}
use agent_machine.Common.{
  ◌-◌, String, ◌≡◌, refl, arith, true, false, not, ◌||◌, ◌&&◌, ◌||◌, none, some, List, [], ◌∷◌,
  ◌==◌, concat, trim_space, lower_contains, if◌then◌else◌,
}
use agent_machine.Common.Distinct.{IsDistinct}
use agent_machine.Common.Sort.{IsSorted}
use agent_machine.State.{Db, raw}
use agent_machine.State.Holds.{Holds}
use agent_machine.State.Tasks.Claims.{never}
use agent_machine.Gate.{passed}
use agent_machine.Gate.Merge
use agent_machine.Gate.Merge.{
  PullRequest, StatusCheck, evaluate_pull_request, evaluate_run_record, checks_status,
  checks_passed,
}
use agent_machine.Gate.Merge.Laws.{is_ready, evaluate_pull_request_lem}
use agent_machine.Gate.Cleanup.{
  Decision, gate_result, gate_code, category_for_terminal_status, gate_result_lem,
}
use agent_machine.Runs.{RunRecord, missing_evidence_only}
use agent_machine.Runs.Classification
use agent_machine.Runs.Classification.{
  classify, classify_friction_signals, classify_blocked_by, is_merge_eligible,
  is_operational_failure, status_review_not_ready,
}
use agent_machine.Runs.Classification.Laws.{
  classify-merge_eligible, classify-should_retry, classify-operator_attention,
}
use agent_machine.Runs.Classification.Signals.{classify-IsDistinct}
use agent_machine.Runs.Attempt.{lifecycle_status, decide, review_status_of}
use agent_machine.Runs.Attempt
use agent_machine.Runs.Attempt.Laws.{decide-success}
use agent_machine.Candidates.{Issue, order_candidates, second, retry_backoff_duration}
use agent_machine.Candidates.Order.{outranks, order_candidates_lem}
use agent_machine.Candidates.Backoff.{doubled, smaller, retry_backoff_duration_lem}
use agent_machine.Common.Table.{passes}
use agent_machine.Candidates.Retry.{
  RetryFacts, retry_backoff_decision, is_elapsed, retry_backoff_decision-runnable,
}
use agent_machine.Workers.{available_at_after_latest_failure}
use agent_machine.Workers.Laws.{IsDueAfter, available_at_after_latest_failure_lem}
use agent_machine.Tests.Data.{platform, store, text_before, text_before-IsOrder}

abbrev quoted : String → String
quoted s = concat ("\"" ∷ s ∷ "\"" ∷ [])

abbrev green_check : StatusCheck
green_check = record {
  typename = "CheckRun";
  status = "COMPLETED";
  conclusion = "Success";
  state = "";
  name = "ci";
  context = "";
}

abbrev pull_request : PullRequest
pull_request = record {
  subject = "AM-1";
  head_ref_name = "am/AM-1";
  mergeable = "MERGEABLE";
  merge_state_status = "CLEAN";
  status_checks = green_check ∷ record green_check { conclusion = "FAILURE" } ∷ [];
}

evaluate_pull_request_lem_example :
    ((evaluate_pull_request quoted pull_request).eligible ≡ is_ready pull_request)
    × (passed (evaluate_pull_request quoted pull_request).result ≡ is_ready pull_request)
evaluate_pull_request_lem_example = evaluate_pull_request_lem quoted pull_request

abbrev kept_workspace : Decision
kept_workspace = record {
  delete = false;
  reason = "a run is open";
  category = category_for_terminal_status "review_failed";
  issue_identifier = "AM-1";
  artifact_ref = "";
  workspace_path = "/w/AM-1";
}

gate_result_lem_example :
    let r = gate_result kept_workspace in
    (passed r ≡ false)
    × (r.next_action ≡ (
        if false
        then "delete_workspace"
        else if kept_workspace.category == "reconciliation-needed"
        then "repair_or_reconcile_cleanup_state"
        else "keep_workspace"))
    × (r.status ≡ (
        if false
        then "passed"
        else if kept_workspace.category == "reconciliation-needed"
        then "reconciliation_needed"
        else "blocked"))
    × (r.blockers ≡ (
        if false
        then []
        else record { code = gate_code kept_workspace.category; reason = "a run is open" } ∷ []))
gate_result_lem_example = gate_result_lem kept_workspace

abbrev run_of : String → String → RunRecord
run_of status review = record {
  status = status;
  pr_url = "https://host/pr/1";
  error = "";
  review_status = review;
  review_classification = "";
  review_findings = "";
  duration_ms = 1000;
}

abbrev input_of : RunRecord → Classification.Input
input_of run = record {
  run = run;
  feedback_retry_count = 1;
  needs_info_used = false;
  merge_block_reason = "";
  total_tokens = 1000;
}

classify-should_retry_example : (classify (input_of (run_of "timeout" ""))).should_retry ≡ (
    not false
    && not (is_merge_eligible (run_of "timeout" ""))
    && not ("" == missing_evidence_only)
    && ("timeout" == status_review_not_ready
        || "timeout" == "review_failed"
        || is_operational_failure "timeout"))
classify-should_retry_example = classify-should_retry (input_of (run_of "timeout" ""))

classify-operator_attention_example :
    (classify (input_of (run_of "failed" ""))).operator_attention_required ≡ (
      not ("failed" == status_review_not_ready)
      && (not ("" == "")
          || is_operational_failure "failed"
          || lower_contains "" "out-of-scope"
          || lower_contains "" "scope drift"
          || ("failed" == "success" && not ("" == "passed"))))
classify-operator_attention_example = classify-operator_attention (input_of (run_of "failed" ""))

classify-merge_eligible_example :
    let c = classify (input_of (run_of "success" "passed")) in
    (c.outcome ≡ "handoff_ready")
    × (c.next_action ≡ "await_approval_and_green_checks")
    × (c.should_retry ≡ false)
    × (c.blocked_by ≡ (if "" == "" then [] else "merge_blocked" ∷ []))
classify-merge_eligible_example =
    classify-merge_eligible (input_of (run_of "success" "passed"))
      (unfold classify is_merge_eligible in refl)

classify-IsDistinct_example :
    IsDistinct (classify_friction_signals (input_of (run_of "timeout" "failed")))
    × IsDistinct (classify_blocked_by (input_of (run_of "timeout" "failed")))
classify-IsDistinct_example = classify-IsDistinct (input_of (run_of "timeout" "failed"))

abbrev attempt : Attempt.Input
attempt = record {
  phase = "review";
  pr_url = "https://host/pr/1";
  review = some (record { status = "failed"; classification = missing_evidence_only });
  scope_result = record { violations = [] };
  scope_error = "";
  runtime_outcome = "";
  runtime_error_kind = "";
  error = "";
  budget_exceeded = "";
  needs_info_questions = [];
  review_not_ready = false;
}

decide-success_example :
    ((decide attempt).pr_required ≡ true)
    × ((decide attempt).can_resume_review ≡ false)
    × ((decide attempt).operator_attention_required
        ≡ not (review_status_of attempt.review == "passed"))
decide-success_example = decide-success attempt (unfold decide trim_space in refl)

abbrev issue : String → String → Issue
issue name state = record {
  id = name;
  identifier = name;
  priority = 2;
  created_at = "";
  state = state;
  labels = "Harness" ∷ [];
}

abbrev issues : List Issue
issues = issue "AM-2" "Backlog" ∷ issue "AM-1" "Ready" ∷ []

order_candidates_lem_example :
    Perm (order_candidates (λ s. none) text_before "Ready" issues) issues
    × IsSorted
        (outranks (λ s. none) text_before "Ready")
        (order_candidates (λ s. none) text_before "Ready" issues)
order_candidates_lem_example =
    order_candidates_lem (λ s. none) text_before "Ready" issues text_before-IsOrder

retry_backoff_duration_lem_example :
    retry_backoff_duration 4 60000000000 ≡ smaller (doubled (4 - 1) second) 60000000000
retry_backoff_duration_lem_example =
    retry_backoff_duration_lem 4 60000000000 (omega arith) (omega arith)

-- the task "a" failed at 5
abbrev after_failure : Db
after_failure = record store {
  results =
      record {
        task_key = "a";
        role = "work";
        lane_name = "work";
        issue_key = "AM-1";
        issue_id = "1";
        attempt = 1;
        status = "failed";
        did_work = false;
        reason = "worker_error";
        error = "error";
        payload = raw "{}";
        started_at = 4;
        finished_at = 5;
        updated_at = 5;
      }
      ∷ [];
}

available_at_after_latest_failure_lem_example :
    Holds
      (IsDueAfter "a" "work" 9 after_failure)
      (available_at_after_latest_failure platform never 9 "a" "work" 9)
      after_failure
available_at_after_latest_failure_lem_example =
    available_at_after_latest_failure_lem platform never 9 "a" "work" 9 after_failure (tt, tt)

abbrev retry_facts : RetryFacts
retry_facts = record {
  retry_next_state = "retry_after_backoff";
  retry_count = 2;
  retry_decided_at = 1000;
}

retry_backoff_decision-runnable_example :
    (retry_backoff_decision
      (λ t. "")
      "Needs Info"
      "Done"
      60000000000
      2000001000
      true
      "Ready"
      (some retry_facts)).0.runnable
    ≡ (true
        && (not ("Ready" == "Needs Info" || "Ready" == "Done")
            && passes
                (λ f.
                  f.retry_next_state == "retry_after_backoff"
                  && is_elapsed (λ t. "") "Needs Info" "Done" 60000000000 2000001000 f)
                (some retry_facts)))
retry_backoff_decision-runnable_example =
    retry_backoff_decision-runnable (λ t. "") "Needs Info" "Done" 60000000000 2000001000 true
      "Ready" (some retry_facts) (omega arith)

abbrev merge_record : Merge.RunRecord
merge_record = record { subject = "AM-1"; status = "success"; error = "2 Checks failed" }
