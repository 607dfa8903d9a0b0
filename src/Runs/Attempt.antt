-- ===== src/Runs/Attempt.antt =====
-- The status of an attempt and what follows, internal/attemptlifecycle/attempt_lifecycle.go.
pub mod Laws
use agent_machine.Common.{
  String, Bool, true, false, not, ◌&&◌, ◌||◌, Option, none, some, List, [], ◌∷◌, ◌==◌, trim_space,
  join, if◌then◌else◌,
}
use agent_machine.Gate.{is_nil, is_blank}
use agent_machine.Runs.{
  RunRecord, ReviewResult, ScopeResult, blocks, missing_evidence_only, behavior_spec_blocker,
}
use agent_machine.Runs.Classification.{classify}

-- A phase is its text. A review that is absent is `none`.
pub record Input : Type 0 where
  pub phase : String
  pub pr_url : String
  pub review : Option ReviewResult
  pub scope_result : ScopeResult
  pub scope_error : String
  pub runtime_outcome : String
  pub runtime_error_kind : String
  pub error : String
  pub budget_exceeded : String
  pub needs_info_questions : List String
  pub review_not_ready : Bool

pub record Decision : Type 0 where
  pub status : String
  pub terminal_outcome_intent : String
  pub next_action : String
  pub pr_required : Bool
  pub can_resume_review : Bool
  pub operator_attention_required : Bool
  pub review_status : String
  pub review_classification : String

unfoldable pub review_failure_routes_to_human_handoff : Option ReviewResult → String → Bool
review_failure_routes_to_human_handoff none pr_url = false
review_failure_routes_to_human_handoff (some review) pr_url =
    review.status == "failed"
    && review.classification == missing_evidence_only
    && not (is_blank pr_url)

-- input.Review != nil && input.Review.Status != "" && input.Review.Status != "passed"
unfoldable pub review_did_not_pass : Option ReviewResult → Bool
review_did_not_pass none = false
review_did_not_pass (some review) = not (review.status == "") && not (review.status == "passed")

-- the tests of lifecycleStatus, in their order
unfoldable pub is_over_budget : Input → Bool
is_over_budget input =
    not (input.budget_exceeded == "") || input.runtime_outcome == "budget_exceeded"

unfoldable pub is_timed_out : Input → Bool
is_timed_out input = input.runtime_outcome == "timeout" || input.runtime_error_kind == "timeout"

unfoldable pub is_not_ready : Input → Bool
is_not_ready input = input.review_not_ready || input.phase == "review_readiness"

unfoldable pub has_questions : Input → Bool
has_questions input = not (is_nil input.needs_info_questions) || input.phase == "needs_info"

unfoldable pub fails_by_phase : Input → Bool
fails_by_phase input =
    input.phase == "handoff"
    || input.phase == "preflight"
    || input.phase == "validation"
    || input.phase == "implementation"
    || input.runtime_outcome == "failed"

unfoldable pub lifecycle_status : Input → String
unfolding is_over_budget is_timed_out is_not_ready has_questions fails_by_phase review_did_not_pass
    review_failure_routes_to_human_handoff
lifecycle_status input =
    if is_over_budget input
    then "budget_exceeded"
    else if is_timed_out input
    then "timeout"
    else if is_not_ready input
    then "review_not_ready"
    else if input.runtime_outcome == "needs_info_failed"
    then "needs_info_failed"
    else if has_questions input
    then "needs_info"
    else if blocks input.scope_result
    then "review_failed"
    else if not (input.scope_error == "")
    then "failed"
    else if review_did_not_pass input.review
    then (if review_failure_routes_to_human_handoff input.review input.pr_url
        then "success"
        else "review_failed")
    else if input.phase == "success" && not (is_blank input.pr_url)
    then "success"
    else if fails_by_phase input
    then "failed"
    else if is_blank input.pr_url
    then "failed"
    else "success"

unfoldable pub lifecycle_error : Input → String
unfolding review_did_not_pass review_failure_routes_to_human_handoff
lifecycle_error input =
    if not (input.error == "")
    then input.error
    else if not (input.budget_exceeded == "")
    then input.budget_exceeded
    else if not (input.scope_error == "")
    then input.scope_error
    else if not (is_nil input.needs_info_questions)
    then join "\n" input.needs_info_questions
    else if input.review_not_ready
    then "review not ready"
    else if blocks input.scope_result
    then "scope guard failed"
    else if review_did_not_pass input.review
        && not (review_failure_routes_to_human_handoff input.review input.pr_url)
    then "review did not pass"
    else if input.phase == "handoff" && is_blank input.pr_url
    then "missing PR URL"
    else ""

unfoldable pub lifecycle_pr_required : Input → String → Bool
lifecycle_pr_required input status =
    if status == "needs_info" || status == "needs_info_failed"
    then false
    else input.phase == "handoff"
      || input.phase == "review_readiness"
      || input.phase == "review"
      || input.phase == "success"
      || not (is_blank input.pr_url)

abbrev pub review_status_of : Option ReviewResult → String
review_status_of none = ""
review_status_of (some review) = review.status

abbrev pub review_classification_of : Option ReviewResult → String
review_classification_of none = ""
review_classification_of (some review) = review.classification

abbrev pub run_record : Input → RunRecord
run_record input = record {
  status = lifecycle_status input;
  pr_url = trim_space input.pr_url;
  error = lifecycle_error input;
  review_status = review_status_of input.review;
  review_classification = review_classification_of input.review;
  review_findings = "";
  duration_ms = 0;
}

abbrev pub needs_info_used : Input → Bool
needs_info_used input =
    lifecycle_status input == "needs_info"
    || lifecycle_status input == "needs_info_failed"
    || not (is_nil input.needs_info_questions)

abbrev pub decided : Input → Decision
decided input =
    let run = run_record input in
    let c = classify (record {
      run = run;
      feedback_retry_count = 0;
      needs_info_used = needs_info_used input;
      merge_block_reason = "";
      total_tokens = 0;
    }) in
    record {
      status = run.status;
      terminal_outcome_intent = c.outcome;
      next_action = c.next_action;
      pr_required = lifecycle_pr_required input run.status;
      can_resume_review = run.status == "review_not_ready";
      operator_attention_required = c.operator_attention_required;
      review_status = run.review_status;
      review_classification = run.review_classification;
    }

abbrev pub on_preflight : Input → Decision → Decision
on_preflight input d = record d {
  next_action =
      if input.phase == "preflight"
      then "fix_runtime_configuration_before_retry"
      else d.next_action;
}

abbrev pub on_scope : Input → Decision → Decision
on_scope input d =
    let repairs = lifecycle_status input == "review_failed" && blocks input.scope_result in
    record d {
      next_action = if repairs then "repair_scope_guard_findings_before_handoff" else d.next_action;
      review_status = if repairs then "failed" else d.review_status;
      review_classification = if repairs then behavior_spec_blocker else d.review_classification;
    }

abbrev pub on_handoff : Input → Decision → Decision
on_handoff input d =
    let failed = input.phase == "handoff" && lifecycle_status input == "failed" in
    record d {
      next_action = if failed then "inspect_run_log_and_create_or_repair_pr" else d.next_action;
    }

unfoldable pub decide : Input → Decision
unfolding lifecycle_status lifecycle_error lifecycle_pr_required classify
decide input = on_handoff input (on_scope input (on_preflight input (decided input)))
