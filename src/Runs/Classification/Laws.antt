-- ===== src/Runs/Classification/Laws.antt =====
-- What the fields of a classification say of each other.
use agent_machine.Common.{
  ◌≡◌, refl, arith, Bool, true, false, not, ◌&&◌, ◌||◌, [], ◌∷◌, ◌==◌, ==→≡, if◌then◌else◌,
  lower_contains,
}
use agent_machine.Common.Distinct.{contains, unique_from}
use agent_machine.Runs.{RunRecord, missing_evidence_only}
use agent_machine.Runs.Classification.{
  Input, is_operational_failure, is_merge_eligible, classify, status_review_not_ready,
  classify_should_retry, classify_operator_attention, classify_outcome, classify_next_action,
  classify_blocked_by, blockers,
}
use agent_machine.Runs.Classification.Signals.{classify_friction_signals_lem}

-- A run is retried exactly if it neither needs information nor may be merged, its review asked for more
-- than evidence, and it waits for checks, failed its review or failed operationally.
pub classify-should_retry :
    (input : Input)
    → let run = input.run in
      (classify input).should_retry ≡ (
        not input.needs_info_used
        && not (is_merge_eligible run)
        && not (run.review_classification == missing_evidence_only)
        && (run.status == status_review_not_ready
            || run.status == "review_failed"
            || is_operational_failure run.status))
unfolding classify classify_should_retry is_operational_failure
classify-should_retry input =
    let run = input.run in
    let failed = (classify_friction_signals_lem input).0 in
    rw failed (unfold is_operational_failure in ground arith)

-- An operator must attend to a run exactly if it does not wait for checks and a merge gate blocks it, it
-- failed operationally, its review found changes out of scope, or it succeeded without a passed review.
pub classify-operator_attention :
    (input : Input)
    → let run = input.run in
      (classify input).operator_attention_required ≡ (
        not (run.status == status_review_not_ready)
        && (not (input.merge_block_reason == "")
            || is_operational_failure run.status
            || lower_contains run.review_findings "out-of-scope"
            || lower_contains run.review_findings "scope drift"
            || (run.status == "success" && not (run.review_status == "passed"))))
unfolding classify classify_operator_attention
classify-operator_attention input =
    let facts = classify_friction_signals_lem input in rw (facts.0, facts.1) (ground arith)

eligible_parts :
    (run : RunRecord)
    → is_merge_eligible run ≡ true
    → ((run.status == "success") ≡ true)
      × ((run.review_status == "passed") ≡ true)
      × ((run.pr_url == "") ≡ false)
unfolding is_merge_eligible
eligible_parts run h = (ground (arith, h), ground (arith, h), ground (arith, h))

only_gate :
    (clear : Bool)
    → unique_from [] (if not clear && true then "merge_blocked" ∷ [] else [])
      ≡ (if clear then [] else "merge_blocked" ∷ [])
unfolding unique_from contains
only_gate true = refl
only_gate false = refl

-- A run that may be merged is ready for the handoff, waits for an approval and for green checks, is not
-- retried, and is blocked by nothing but a merge gate that blocks it.
pub classify-merge_eligible :
    (input : Input)
    → (classify input).merge_eligible ≡ true
    → ((classify input).outcome ≡ "handoff_ready")
      × ((classify input).next_action ≡ "await_approval_and_green_checks")
      × ((classify input).should_retry ≡ false)
      × ((classify input).blocked_by
          ≡ (if input.merge_block_reason == "" then [] else "merge_blocked" ∷ []))
unfolding classify classify_outcome classify_next_action classify_should_retry classify_blocked_by
    blockers unique_from contains
classify-merge_eligible input h =
    let run = input.run in
    let parts = eligible_parts run h in
    (
      rw (parts.0, parts.1) refl,
      rw h refl,
      rw h (ground arith),
      rw (==→≡ run.status "success" parts.0, ==→≡ run.review_status "passed" parts.1, parts.2)
          (only_gate (input.merge_block_reason == "")),
    )
