-- ===== src/Gate/Cleanup.antt =====
-- Whether a workspace may be deleted, internal/cleanup/policy.go.
use Prim.Native.Char.{code}
use agent_machine.Common.{
  String, ◌≡◌, refl, Bool, false, not, ◌||◌, List, [], ◌∷◌, ◌++◌, ◌==◌, inl, inr, Bool-cases,
  if_differs, trim_space, eqb, concat, if◌then◌else◌,
}
use agent_machine.Gate.{
  Result, new_result, block, reconciliation_needed, is_blank, passed, status_passed, status_blocked,
}

pub record Decision : Type 0 where
  pub delete : Bool
  pub reason : String
  pub category : String
  pub issue_identifier : String
  pub artifact_ref : String
  pub workspace_path : String

abbrev pub first_non_empty : List String → String
first_non_empty [] = ""
first_non_empty (v ∷ vs) = let rest = first_non_empty vs in if not (is_blank v) then v else rest

-- strings.ReplaceAll(s, "-", "_")
unfoldable pub underscored : String → String
underscored String.[] = String.[]
underscored (String.◌∷◌ c s) = String.◌∷◌ (if eqb (code c) 45 then "_" else c) (underscored s)

unfoldable pub gate_code : String → String
unfolding underscored
gate_code category =
    let trimmed = trim_space category in
    if trimmed == "" then "cleanup_blocked" else concat ("cleanup_" ∷ underscored trimmed ∷ [])

abbrev pub entry : String → String → List (String × String)
entry key value = if not (value == "") then (key, value) ∷ [] else []

abbrev pub described : Decision → Result
described d =
    record (new_result "cleanup" (first_non_empty (d.issue_identifier ∷ d.workspace_path ∷ []))) {
      reason_text = d.reason;
      metadata =
          entry "category" d.category
          ++ (entry "artifact_ref" d.artifact_ref ++ entry "workspace_path" d.workspace_path);
    }

unfoldable pub gate_result : Decision → Result
unfolding gate_code
gate_result d =
    let result = described d in
    let code = gate_code d.category in
    if d.delete
    then record result { next_action = "delete_workspace" }
    else if d.category == "reconciliation-needed"
    then reconciliation_needed code d.reason "repair_or_reconcile_cleanup_state" result
    else record (block code d.reason result) { next_action = "keep_workspace" }

unfoldable pub deletion_result : Decision → String → String
deletion_result d fallback =
    if d.category == "reconciliation-needed" then "reconciliation_needed" else fallback

unfoldable pub category_for_terminal_status : String → String
category_for_terminal_status status =
    if status == "success"
    then "completed"
    else if status == "canceled" || status == "cancelled"
    then "canceled"
    else if status == "review_failed"
    then "failed-review"
    else if status == "needs_info" || status == "needs_info_failed"
    then "needs-info"
    else if status == "timeout"
    then "timeout"
    else if status == "budget_exceeded"
    then "budget-exceeded"
    else if status == "merged"
    then "merged"
    else if status == "superseded"
    then "superseded"
    else if status == "manual_repair"
    then "manual-repair"
    else "failed"

unfoldable pub terminal_run_status : String → Bool
terminal_run_status status =
    status == "success"
    || status == "review_failed"
    || status == "failed"
    || status == "github_app_error"
    || status == "canceled"
    || status == "cancelled"
    || status == "needs_info"
    || status == "needs_info_failed"
    || status == "timeout"
    || status == "budget_exceeded"
    || status == "merged"
    || status == "superseded"
    || status == "manual_repair"

-- The gate passes exactly for a workspace to delete, and the next action is then to delete it. Any other
-- workspace is kept or, in the category reconciliation-needed, left to an operator: the next action says
-- which, the status is blocked or reconciliation-needed, and the gate has one blocker, with the code of the
-- category and the reason of the decision.
pub gate_result_lem :
    (d : Decision)
    → let r = gate_result d in
      (passed r ≡ d.delete)
      × (r.next_action ≡ (
          if d.delete
          then "delete_workspace"
          else if d.category == "reconciliation-needed"
          then "repair_or_reconcile_cleanup_state"
          else "keep_workspace"))
      × (r.status ≡ (
          if d.delete
          then "passed"
          else if d.category == "reconciliation-needed"
          then "reconciliation_needed"
          else "blocked"))
      × (r.blockers ≡ (
          if d.delete then [] else record { code = gate_code d.category; reason = d.reason } ∷ []))
unfolding gate_result passed
gate_result_lem d = elim (Bool-cases d.delete) [
  | inl e ↦ rw e (refl, refl, refl, refl)
  | inr e ↦ elim (Bool-cases (d.category == "reconciliation-needed")) [
    | inl c ↦ rw (e, c) (refl, refl, refl, refl)
    | inr c ↦ rw (e, c) (refl, refl, refl, refl)
  ]
]

known_category :
    (status : String) → (category_for_terminal_status status == "reconciliation-needed") ≡ false
unfolding category_for_terminal_status
known_category status =
    let other = if_differs "reconciliation-needed" in
    other (status == "success") _ _ refl (
      other (status == "canceled" || status == "cancelled") _ _ refl (
        other (status == "review_failed") _ _ refl (
          other (status == "needs_info" || status == "needs_info_failed") _ _ refl (
            other (status == "timeout") _ _ refl (
              other (status == "budget_exceeded") _ _ refl (
                other (status == "merged") _ _ refl (
                  other (status == "superseded") _ _ refl
                    (other (status == "manual_repair") _ _ refl refl))))))))

-- No status of a run has the category reconciliation-needed: a workspace in the category of a run's
-- status is deleted with the fallback as its result, or it is kept and the gate says blocked.
pub category_for_terminal_status_lem :
    (status fallback : String) (d : Decision)
    → d.category ≡ category_for_terminal_status status
    → (deletion_result d fallback ≡ fallback)
      × ((gate_result d).status ≡ (if d.delete then status_passed else status_blocked))
unfolding deletion_result gate_result
category_for_terminal_status_lem status fallback d e =
    let other : (d.category == "reconciliation-needed") ≡ false = rw e (known_category status) in
    (rw other refl, elim (Bool-cases d.delete) [ inl y ↦ rw y refl | inr n ↦ rw (n, other) refl ])
