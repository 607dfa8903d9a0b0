-- ===== src/Runs/Classification.antt =====
-- What a run's record amounts to, internal/runclassification/classification.go.
-- The evidence of the behaviour contract and of the ticket contract, two fields of the source's
-- Classification that no other field depends on, is left out.
pub mod Laws
pub mod Signals
use agent_machine.Common.{
  ℕ, String, Bool, true, false, not, ◌&&◌, ◌||◌, List, [], ◌∷◌, ◌++◌, ◌==◌, ltb, leb, trim_space,
  lower_contains, has_suffix, concat, if◌then◌else◌,
}
use agent_machine.Common.Distinct.{contains, add_unique, unique_strings, unique_from}
use agent_machine.Runs.{RunRecord, missing_evidence_only}

pub record Classification : Type 0 where
  pub outcome : String
  pub merge_eligible : Bool
  pub blocked_by : List String
  pub root_cause : String
  pub next_action : String
  pub should_retry : Bool
  pub operator_attention_required : Bool
  pub friction_signals : List String
  pub candidate_harness_improvements : List String

pub record Input : Type 0 where
  pub run : RunRecord
  pub feedback_retry_count : ℕ
  pub needs_info_used : Bool
  pub merge_block_reason : String
  pub total_tokens : ℕ

abbrev pub status_review_not_ready : String
status_review_not_ready = "review_not_ready"

-- `timeout` and `budget_exceeded`, which the policies treat alike
unfoldable pub is_cut_off : String → Bool
is_cut_off status = status == "timeout" || status == "budget_exceeded"

unfoldable pub is_operational_failure : String → Bool
unfolding is_cut_off
is_operational_failure status =
    status == "failed" || is_cut_off status || has_suffix status "_failed"

unfoldable pub is_rejected : RunRecord → Bool
is_rejected run = run.status == "review_failed" || run.review_status == "failed"

-- the calls of the closure `add`, each under its test
unfoldable pub add_signals : List String → List (Bool × String) → List String
add_signals signals [] = signals
add_signals signals ((holds, signal) ∷ tests) =
    add_signals (if holds then add_unique signals signal else signals) tests

-- the findings and the error, joined by a line break
abbrev pub findings : RunRecord → String
findings run = concat (run.review_findings ∷ "\n" ∷ run.error ∷ [])

abbrev pub signal_tests : Input → List (Bool × String)
signal_tests input =
    let run = input.run in
    let lists = lower_contains run.review_findings in
    let fails = lower_contains run.error in
    let finds = lower_contains (findings run) in
    (run.status == "review_failed", "review_failed")
    ∷ (run.review_classification == missing_evidence_only, "missing_behavior_contract_evidence")
    ∷ (ltb 0 input.feedback_retry_count, "changes_requested")
    ∷ (input.needs_info_used, "needs_info")
    ∷ (run.pr_url == "" && not input.needs_info_used, "missing_pr_url")
    ∷ (is_operational_failure run.status, "operational_failure")
    ∷ (is_cut_off run.status, run.status)
    ∷ (fails "validation", "validation_failure")
    ∷ (fails "check", "check_failure_or_pending")
    ∷ (leb 200000 input.total_tokens || leb 2700000 run.duration_ms, "high_token_or_time_use")
    ∷ (lists "out-of-scope" || lists "scope drift", "out_of_scope_diff_findings")
    ∷ (
      finds "must" || finds "acceptance criteria" || finds "go-github" || finds "bespoke net/http",
      "ticket_contract_findings",
    )
    ∷ []

unfoldable pub classify_friction_signals : Input → List String
unfolding add_signals
classify_friction_signals input = add_signals [] (signal_tests input)

unfoldable pub improvement : String → String
improvement signal =
    if signal == "review_failed"
    then "tighten implementation prompt or pre-handoff self-review checks"
    else if signal == "changes_requested"
    then "surface captured PR feedback prominently on retry"
    else if signal == "needs_info"
    then "clarify issue requirements before agent pickup"
    else if signal == "missing_pr_url"
    then "make PR URL extraction or creation failure more deterministic"
    else if signal == "validation_failure"
    then "promote validation command failures into the handoff summary"
    else if signal == "check_failure_or_pending"
    then "summarize blocking checks before merge attempts"
    else if signal == "high_token_or_time_use"
    then "consider smaller issue slices or higher-signal prompts"
    else if signal == "out_of_scope_diff_findings"
    then "add stronger scoped-diff guardrails"
    else if signal == "operational_failure"
    then "inspect runner logs and external service availability"
    else if signal == "ticket_contract_findings"
    then "clarify or enforce the five-section ticket contract before retry"
    else ""

unfoldable pub harness_improvements : List String → List String
unfolding improvement
harness_improvements [] = []
harness_improvements (signal ∷ signals) =
    let rest = harness_improvements signals in
    if improvement signal == "" then rest else improvement signal ∷ rest

unfoldable pub classify_outcome : Input → String
unfolding is_cut_off is_rejected
classify_outcome input =
    let run = input.run in
    if run.status == "success" && run.review_status == "passed"
    then "handoff_ready"
    else if run.status == status_review_not_ready
    then "waiting_for_checks"
    else if input.needs_info_used
    then "needs_info"
    else if run.review_status == "failed" && run.review_classification == missing_evidence_only
    then "human_review"
    else if is_rejected run
    then "review_failed"
    else if is_cut_off run.status
    then run.status
    else if not (trim_space run.error == "")
        || has_suffix run.status "_failed"
        || run.status == "failed"
    then "operational_failure"
    else run.status

unfoldable pub is_merge_eligible : RunRecord → Bool
is_merge_eligible run =
    run.status == "success" && run.review_status == "passed" && not (run.pr_url == "")

abbrev pub append_if : Bool → String → List String → List String
append_if holds s ss = if holds then ss ++ s ∷ [] else ss

unfoldable pub blockers : Input → List String
blockers input =
    let run = input.run in
    let waiting = run.status == status_review_not_ready in
    let b1 = append_if (run.pr_url == "" && not input.needs_info_used) "missing_pr_url" [] in
    let b2 =
      append_if (not (run.status == "success"))
        (if waiting then "waiting_for_checks" else run.status) b1 in
    let b3 =
      append_if (not (run.review_status == "") && not (run.review_status == "passed"))
        (concat ("review_" ∷ run.review_status ∷ [])) b2 in
    append_if (not (input.merge_block_reason == "") && not waiting) "merge_blocked" b3

unfoldable pub classify_blocked_by : Input → List String
unfolding unique_from blockers
classify_blocked_by input = unique_strings (blockers input)

unfoldable pub classify_root_cause : Input → List String → String
unfolding is_cut_off is_rejected contains
classify_root_cause input signals =
    let run = input.run in
    if contains signals "out_of_scope_diff_findings"
    then "out_of_scope_diff"
    else if is_rejected run
    then (if run.review_classification == missing_evidence_only
        then "missing_behavior_contract_evidence"
        else "pre_handoff_review_failed")
    else if is_cut_off run.status
    then run.status
    else if run.status == status_review_not_ready
    then "waiting_for_checks"
    else if contains signals "operational_failure"
    then "runner_operational_failure"
    else if not (input.merge_block_reason == "")
    then "merge_gate_blocked"
    else ""

unfoldable pub classify_next_action : Input → Bool → String
unfolding is_cut_off is_rejected
classify_next_action input merge_eligible =
    let run = input.run in
    if merge_eligible
    then "await_approval_and_green_checks"
    else if input.needs_info_used
    then "answer_needs_info_questions"
    else if is_rejected run
    then (if run.review_classification == missing_evidence_only
        then "await_human_review_for_behavior_contract_evidence"
        else "repair_review_findings_before_handoff")
    else if is_cut_off run.status
    then "split_or_reduce_issue_scope_then_retry"
    else if run.status == status_review_not_ready
    then "wait_for_github_checks_then_retry"
    else if run.pr_url == ""
    then "inspect_run_log_and_create_or_repair_pr"
    else if not (input.merge_block_reason == "")
    then "resolve_merge_gate_blocker"
    else "inspect_run_artifact"

unfoldable pub classify_should_retry : Input → Bool → List String → Bool
unfolding is_cut_off contains
classify_should_retry input merge_eligible signals =
    let run = input.run in
    if input.needs_info_used || merge_eligible
    then false
    else if run.review_classification == missing_evidence_only
    then false
    else if run.status == status_review_not_ready
    then true
    else run.status == "review_failed"
      || is_cut_off run.status
      || contains signals "operational_failure"

unfoldable pub classify_operator_attention : Input → List String → Bool
unfolding contains
classify_operator_attention input signals =
    let run = input.run in
    if run.status == status_review_not_ready
    then false
    else not (input.merge_block_reason == "")
      || contains signals "operational_failure"
      || contains signals "out_of_scope_diff_findings"
      || (run.status == "success" && not (run.review_status == "passed"))

unfoldable pub classify : Input → Classification
unfolding classify_friction_signals harness_improvements classify_outcome is_merge_eligible
    classify_blocked_by classify_root_cause classify_next_action classify_should_retry
    classify_operator_attention
classify input =
    let signals = classify_friction_signals input in
    let eligible = is_merge_eligible input.run in
    record {
      friction_signals = signals;
      candidate_harness_improvements = harness_improvements signals;
      outcome = classify_outcome input;
      merge_eligible = eligible;
      blocked_by = classify_blocked_by input;
      root_cause = classify_root_cause input signals;
      next_action = classify_next_action input eligible;
      should_retry = classify_should_retry input eligible signals;
      operator_attention_required = classify_operator_attention input signals;
    }
