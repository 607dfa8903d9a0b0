-- ===== src/Runs/Attempt/Laws.antt =====
-- When an attempt is a success, and what its decision says then.
use agent_machine.Common.{
  String, ◌≡◌, refl, sym, ◌∙◌, arith, Bool, true, false, not, ◌&&◌, ◌||◌, Option, none, some, ◌==◌,
  lower_contains, has_suffix, if◌then◌else◌,
}
use agent_machine.Gate.{is_blank}
use agent_machine.Runs.{RunRecord, ReviewResult, blocks}
use agent_machine.Runs.Classification.{classify, is_operational_failure, is_cut_off}
use agent_machine.Runs.Classification.Laws.{classify-operator_attention}
use agent_machine.Runs.Attempt.{
  Input, lifecycle_status, lifecycle_pr_required, decide, run_record, review_status_of,
  needs_info_used, is_over_budget, is_timed_out, is_not_ready, has_questions, fails_by_phase,
  review_did_not_pass, review_failure_routes_to_human_handoff,
}

-- the review passed or is none, or its failure goes to a human
abbrev pub is_reviewed : Input → Bool
is_reviewed input =
    if review_did_not_pass input.review
    then review_failure_routes_to_human_handoff input.review input.pr_url
    else input.phase == "success" || not (fails_by_phase input)

-- nothing stopped the attempt before its review, and it was reviewed and has a pull request
abbrev pub is_successful : Input → Bool
is_successful input =
    not (is_over_budget input)
    && (not (is_timed_out input)
        && (not (is_not_ready input)
            && (not (input.runtime_outcome == "needs_info_failed")
                && (not (has_questions input)
                    && (not (blocks input.scope_result)
                        && (not (not (input.scope_error == ""))
                            && (is_reviewed input && not (is_blank input.pr_url))))))))

stops :
    (b : Bool) (w x : String) (rest : Bool)
    → (w == "success") ≡ false
    → (x == "success") ≡ rest
    → ((if b then w else x) == "success") ≡ (not b && rest)
stops true w x rest p q = p
stops false w x rest p q = q

routes_with_url :
    (review : Option ReviewResult) (pr_url : String)
    → (review_failure_routes_to_human_handoff review pr_url && not (is_blank pr_url))
      ≡ review_failure_routes_to_human_handoff review pr_url
unfolding review_failure_routes_to_human_handoff
routes_with_url none pr_url = refl
routes_with_url (some review) pr_url = ground arith

reviewed_lem :
    (failed routed success_phase fails blank : Bool)
    → (routed && not blank) ≡ routed
    → ((if failed
          then (if routed then "success" else "review_failed")
          else if success_phase && not blank
          then "success"
          else if fails
          then "failed"
          else if blank
          then "failed"
          else "success")
        == "success")
      ≡ ((if failed then routed else success_phase || not fails) && not blank)
reviewed_lem true true s f true e = cc
reviewed_lem true true s f false e = refl
reviewed_lem true false s f b e = refl
reviewed_lem false r true true true e = refl
reviewed_lem false r true false true e = refl
reviewed_lem false r true f false e = refl
reviewed_lem false r false true b e = refl
reviewed_lem false r false false true e = refl
reviewed_lem false r false false false e = refl

-- An attempt succeeds exactly if it has a pull request, no budget, time-out, question or scope guard
-- stopped it, and its review passed or failed only for evidence that a human is to judge.
pub lifecycle_status_lem :
    (input : Input) → (lifecycle_status input == "success") ≡ is_successful input
unfolding lifecycle_status
lifecycle_status_lem input = stops (is_over_budget input) _ _ _ refl (
    stops (is_timed_out input) _ _ _ refl (
      stops (is_not_ready input) _ _ _ refl (
        stops (input.runtime_outcome == "needs_info_failed") _ _ _ refl (
          stops (has_questions input) _ _ _ refl (
            stops (blocks input.scope_result) _ _ _ refl (
              stops (not (input.scope_error == "")) _ _ _ refl (
                reviewed_lem (review_did_not_pass input.review)
                  (review_failure_routes_to_human_handoff input.review input.pr_url)
                  (input.phase == "success") (fails_by_phase input) (is_blank input.pr_url)
                  (routes_with_url input.review input.pr_url))))))))

last_of_all :
    (a b c d e f g r u : Bool)
    → (a && (b && (c && (d && (e && (f && (g && (r && not u)))))))) ≡ true
    → u ≡ false
last_of_all a b c d e f g r u h = ground (arith, h)

url_of_success :
    (input : Input) → lifecycle_status input ≡ "success" → is_blank input.pr_url ≡ false
url_of_success input h =
    let status : (lifecycle_status input == "success") ≡ true = rw h refl in
    last_of_all (not (is_over_budget input)) (not (is_timed_out input)) (not (is_not_ready input))
      (not (input.runtime_outcome == "needs_info_failed")) (not (has_questions input))
      (not (blocks input.scope_result)) (not (not (input.scope_error == ""))) (is_reviewed input)
      (is_blank input.pr_url) (sym (lifecycle_status_lem input) ∙ status)

required_with_url :
    (input : Input) → is_blank input.pr_url ≡ false → lifecycle_pr_required input "success" ≡ true
unfolding lifecycle_pr_required
required_with_url input h = ground (arith, h)

attention_of_success :
    (run : RunRecord) (used : Bool)
    → run.status ≡ "success"
    → run.review_findings ≡ ""
    → (classify (record {
      run = run;
      feedback_retry_count = 0;
      needs_info_used = used;
      merge_block_reason = "";
      total_tokens = 0;
    })).operator_attention_required
      ≡ not (run.review_status == "passed")
attention_of_success run used h f =
    rw
      (
        classify-operator_attention (record {
          run = run;
          feedback_retry_count = 0;
          needs_info_used = used;
          merge_block_reason = "";
          total_tokens = 0;
        }),
        h,
        f,
      )
      (unfold is_operational_failure is_cut_off lower_contains has_suffix in refl)

-- The decision of an attempt that succeeded requires a pull request and no resumed review, and asks for an
-- operator exactly if its review did not pass.
pub decide-success :
    (input : Input)
    → (decide input).status ≡ "success"
    → ((decide input).pr_required ≡ true)
      × ((decide input).can_resume_review ≡ false)
      × ((decide input).operator_attention_required
          ≡ not (review_status_of input.review == "passed"))
unfolding decide
decide-success input h =
    let status : lifecycle_status input ≡ "success" = h in
    (
      rw status
          (unfold lifecycle_pr_required in required_with_url input (url_of_success input status)),
      rw status refl,
      attention_of_success (run_record input) (needs_info_used input) status refl,
    )
