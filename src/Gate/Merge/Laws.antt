-- ===== src/Gate/Merge/Laws.antt =====
-- When a pull request may be merged.
use agent_machine.Common.{
  String, ◌≡◌, refl, Bool, true, false, not, ◌&&◌, ◌||◌, List, [], ◌∷◌, ◌==◌, inl, inr, Bool-cases,
  if_differs, equal_fold, lower_contains, append_nonempty, if◌then◌else◌,
}
use agent_machine.Gate.{passed, is_nil}
use agent_machine.Gate.Merge.{
  evaluate_run_record, RunRecord, StatusCheck, PullRequest, Decision, is_conflicting,
  conflict_reason, is_check_run, is_status_context, run_failed, context_failed, blocked_status,
  first_block_reason, checks_block_reason, checks_passed, checks_status, evaluate_pull_request,
  new_decision, block_merge, unfinished_status,
}

-- A check that GitHub reports as a success: a completed check run or a status context.
unfoldable pub is_green : StatusCheck → Bool
unfolding is_check_run is_status_context run_failed context_failed
is_green check =
    (is_check_run check && not (run_failed check))
    || (not (is_check_run check) && is_status_context check && not (context_failed check))

abbrev pub all_green : List StatusCheck → Bool
all_green [] = true
all_green (check ∷ checks) = is_green check && all_green checks

-- no conflict, mergeable, and at least one check, all of them green
abbrev pub is_ready : PullRequest → Bool
is_ready pr =
    not (is_conflicting pr)
    && equal_fold pr.mergeable "MERGEABLE"
    && not (is_nil pr.status_checks)
    && all_green pr.status_checks

conflict_reason_lem : (pr : PullRequest) → (conflict_reason pr == "") ≡ not (is_conflicting pr)
unfolding conflict_reason
conflict_reason_lem pr = elim (Bool-cases (is_conflicting pr)) [
  | inl e ↦ rw e (append_nonempty "GitHub reports mergeable=" _ refl)
  | inr e ↦ rw e refl
]

unfinished_not_success : (check : StatusCheck) → (unfinished_status check == "success") ≡ false
unfolding unfinished_status
unfinished_not_success check =
    if_differs "success"
      (check.typename == "CheckRun"
        && (equal_fold check.status "UNKNOWN" || equal_fold check.conclusion "UNKNOWN"))
      _ _ refl
      (if_differs "success" (check.typename == "StatusContext" && equal_fold check.state "UNKNOWN")
        _ _ refl
        (if_differs "success"
          (check.typename == "CheckRun" && not (equal_fold check.status "COMPLETED")) _ _ refl
          (if_differs "success"
            (check.typename == "StatusContext" && equal_fold check.state "PENDING") _ _ refl refl)))

blocked_not_success : (checks : List StatusCheck) → (blocked_status checks == "success") ≡ false
unfolding blocked_status
blocked_not_success [] = refl
blocked_not_success (check ∷ checks) = elim (Bool-cases (unfinished_status check == "")) [
  | inl e ↦ rw e (blocked_not_success checks)
  | inr e ↦ rw e (unfinished_not_success check)
]

module _ (quote : String → String) where
  first_block_reason_lem :
      (checks : List StatusCheck) → (first_block_reason quote checks == "") ≡ all_green checks
  unfolding first_block_reason is_green
  first_block_reason_lem [] = refl
  first_block_reason_lem (check ∷ checks) = elim (Bool-cases (is_check_run check)) [
    | inl e ↦ elim (Bool-cases (run_failed check)) [
      | inl f ↦ rw (e, f) (append_nonempty "check run " _ refl)
      | inr f ↦ rw (e, f) (first_block_reason_lem checks)
    ]
    | inr e ↦ elim (Bool-cases (is_status_context check)) [
      | inl c ↦ elim (Bool-cases (context_failed check)) [
        | inl f ↦ rw (e, c, f) (append_nonempty "status context " _ refl)
        | inr f ↦ rw (e, c, f) (first_block_reason_lem checks)
      ]
      | inr c ↦ rw (e, c) (append_nonempty "unknown status check shape " _ refl)
    ]
  ]

  no_reason_lem :
      (checks : List StatusCheck)
      → (checks_block_reason quote checks == "") ≡ (not (is_nil checks) && all_green checks)
  unfolding checks_block_reason
  no_reason_lem [] = refl
  no_reason_lem (check ∷ checks) = first_block_reason_lem (check ∷ checks)

  ready :
      (ok : Bool) (reason : String) (d : Decision)
      → d.eligible ≡ true
      → passed d.result ≡ true
      → let out = if not ok then block_merge "status_checks" reason d else d in
        (out.eligible ≡ ok) × (passed out.result ≡ ok)
  unfolding passed
  ready true reason d e p = (e, p)
  ready false reason d e p = (refl, refl)

  -- The checks pass exactly when there is one, and each is a completed check run that succeeded or a
  -- status context in the state of success.
  pub checks_passed_lem :
      (checks : List StatusCheck)
      → checks_passed quote checks ≡ (not (is_nil checks) && all_green checks)
  unfolding checks_passed
  checks_passed_lem checks = no_reason_lem checks

  -- A pull request is eligible for merging exactly when it is ready: GitHub reports no conflict and that
  -- it is mergeable, and it has checks and all of them are green. The gate's result passes exactly then.
  pub evaluate_pull_request_lem :
      (pr : PullRequest)
      → ((evaluate_pull_request quote pr).eligible ≡ is_ready pr)
        × (passed (evaluate_pull_request quote pr).result ≡ is_ready pr)
  unfolding evaluate_pull_request passed
  evaluate_pull_request_lem pr = elim (Bool-cases (is_conflicting pr)) [
    | inl e ↦ rw (conflict_reason_lem pr, e) (refl, refl)
    | inr e ↦ elim (Bool-cases (equal_fold pr.mergeable "MERGEABLE")) [
      | inl m ↦
          rw (conflict_reason_lem pr, e, m, no_reason_lem pr.status_checks)
            (ready (not (is_nil pr.status_checks) && all_green pr.status_checks) _
              (new_decision pr.subject) refl refl)
      | inr m ↦ rw (conflict_reason_lem pr, e, m) (refl, refl)
    ]
  ]

  -- The summary status of the checks is success exactly when they pass.
  pub checks_status_lem :
      (checks : List StatusCheck)
      → ((checks_status quote checks).0 == "success") ≡ checks_passed quote checks
  unfolding checks_status checks_passed checks_block_reason
  checks_status_lem [] = refl
  checks_status_lem (check ∷ checks) =
      elim (Bool-cases (first_block_reason quote (check ∷ checks) == "")) [
        | inl e ↦ rw e refl
        | inr e ↦ rw e (blocked_not_success (check ∷ checks))
      ]

-- A run's record is eligible for merging, and its gate passes, exactly when its review did not fail and
-- its error names no check, in upper or lower case.
pub evaluate_run_record_lem :
    (r : RunRecord)
    → let clear = not (r.status == "review_failed") && not (lower_contains r.error "check") in
      ((evaluate_run_record r).eligible ≡ clear) × (passed (evaluate_run_record r).result ≡ clear)
unfolding evaluate_run_record passed
evaluate_run_record_lem r = elim (Bool-cases (r.status == "review_failed")) [
  | inl e ↦ rw e (refl, refl)
  | inr e ↦ elim (Bool-cases (lower_contains r.error "check")) [
    | inl c ↦ rw (e, c) (refl, refl)
    | inr c ↦ rw (e, c) (refl, refl)
  ]
]
