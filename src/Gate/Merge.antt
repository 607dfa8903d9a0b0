-- ===== src/Gate/Merge.antt =====
-- Whether a pull request may be merged, internal/mergegate/mergegate.go.
-- `quote` is the verb %q of Go's package fmt.
pub mod Laws
pub mod Reasons
use agent_machine.Common.{
  String, Bool, true, false, not, ◌&&◌, ◌||◌, List, [], ◌∷◌, ◌==◌, map, any, trim_space, equal_fold,
  lower_contains, concat, join, if◌then◌else◌,
}
use agent_machine.Gate.{Result, new_result, block, is_blank, is_nil}

pub record StatusCheck : Type 0 where
  pub typename : String
  pub status : String
  pub conclusion : String
  pub state : String
  pub name : String
  pub context : String

pub record PullRequest : Type 0 where
  pub subject : String
  pub head_ref_name : String
  pub mergeable : String
  pub merge_state_status : String
  pub status_checks : List StatusCheck

pub record RunRecord : Type 0 where
  pub subject : String
  pub status : String
  pub error : String

-- The embedded gate.Result is the field `result`.
pub record Decision : Type 0 where
  pub eligible : Bool
  pub result : Result

abbrev pub new_decision : String → Decision
new_decision subject = record { eligible = true; result = new_result "merge" subject }

abbrev pub block_merge : String → String → Decision → Decision
block_merge code reason d = record { eligible = false; result = block code reason d.result }

abbrev pub empty_as_unknown : String → String
empty_as_unknown value = if is_blank value then "UNKNOWN" else value

abbrev pub check_label : StatusCheck → String
check_label check =
    if not (is_blank check.name)
    then check.name
    else if not (is_blank check.context)
    then check.context
    else "unnamed"

unfoldable pub is_conflicting : PullRequest → Bool
is_conflicting pr =
    equal_fold pr.mergeable "CONFLICTING" || equal_fold pr.merge_state_status "DIRTY"

unfoldable pub conflict_reason : PullRequest → String
conflict_reason pr =
    if is_conflicting pr
    then concat (
        "GitHub reports mergeable="
        ∷ empty_as_unknown pr.mergeable
        ∷ " mergeStateStatus="
        ∷ empty_as_unknown pr.merge_state_status
        ∷ "; branch "
        ∷ pr.head_ref_name
        ∷ " has conflicts with the base branch."
        ∷ [])
    else ""

-- Typename == "CheckRun" and a status or a conclusion that is not good enough
unfoldable pub is_check_run : StatusCheck → Bool
is_check_run check = check.typename == "CheckRun"

unfoldable pub is_status_context : StatusCheck → Bool
is_status_context check = check.typename == "StatusContext"

unfoldable pub run_failed : StatusCheck → Bool
run_failed check =
    not (equal_fold check.status "COMPLETED") || not (equal_fold check.conclusion "SUCCESS")

unfoldable pub context_failed : StatusCheck → Bool
context_failed check = not (equal_fold check.state "SUCCESS")

abbrev pub summarize_status_check : StatusCheck → String
summarize_status_check check =
    if check.typename == "CheckRun"
    then concat (
        check_label check
        ∷ "="
        ∷ empty_as_unknown check.status
        ∷ "/"
        ∷ empty_as_unknown check.conclusion
        ∷ [])
    else if check.typename == "StatusContext"
    then concat (check_label check ∷ "=" ∷ empty_as_unknown check.state ∷ [])
    else concat (check_label check ∷ "=" ∷ empty_as_unknown check.typename ∷ [])

abbrev pub summarize_status_checks : List StatusCheck → String
summarize_status_checks checks = join "; " (map summarize_status_check checks)

-- one round of the loop of ChecksStatus: the status that it returns, if it returns
unfoldable pub unfinished_status : StatusCheck → String
unfinished_status check =
    if check.typename == "CheckRun"
      && (equal_fold check.status "UNKNOWN" || equal_fold check.conclusion "UNKNOWN")
    then "unavailable"
    else if check.typename == "StatusContext" && equal_fold check.state "UNKNOWN"
    then "unavailable"
    else if check.typename == "CheckRun" && not (equal_fold check.status "COMPLETED")
    then "pending"
    else if check.typename == "StatusContext" && equal_fold check.state "PENDING"
    then "pending"
    else ""

unfoldable pub blocked_status : List StatusCheck → String
unfolding unfinished_status
blocked_status [] = "failed"
blocked_status (check ∷ checks) =
    let rest = blocked_status checks in
    let status = unfinished_status check in if status == "" then rest else status

module _ (quote : String → String) where
  abbrev pub run_reason : StatusCheck → String
  run_reason check = concat (
      "check run "
      ∷ quote (check_label check)
      ∷ " is status="
      ∷ empty_as_unknown check.status
      ∷ " conclusion="
      ∷ empty_as_unknown check.conclusion
      ∷ [])

  abbrev pub context_reason : StatusCheck → String
  context_reason check = concat (
      "status context "
      ∷ quote (check_label check)
      ∷ " is state="
      ∷ empty_as_unknown check.state
      ∷ [])

  abbrev pub shape_reason : StatusCheck → String
  shape_reason check = concat (
      "unknown status check shape "
      ∷ quote (empty_as_unknown check.typename)
      ∷ " for "
      ∷ quote (check_label check)
      ∷ [])

  -- the loop of ChecksBlockReason
  unfoldable pub first_block_reason : List StatusCheck → String
  unfolding is_check_run is_status_context run_failed context_failed
  first_block_reason [] = ""
  first_block_reason (check ∷ checks) =
      let rest = first_block_reason checks in
      if is_check_run check
      then (if run_failed check then run_reason check else rest)
      else if is_status_context check
      then (if context_failed check then context_reason check else rest)
      else shape_reason check

  unfoldable pub checks_block_reason : List StatusCheck → String
  unfolding first_block_reason
  checks_block_reason checks =
      if is_nil checks
      then "no status checks were reported by GitHub"
      else first_block_reason checks

  unfoldable pub checks_passed : List StatusCheck → Bool
  unfolding checks_block_reason
  checks_passed checks = checks_block_reason checks == ""

  unfoldable pub checks_status : List StatusCheck → String × String
  unfolding checks_block_reason blocked_status
  checks_status checks =
      if is_nil checks
      then ("unavailable", "no status checks were reported by the code host")
      else if checks_block_reason checks == ""
      then ("success", summarize_status_checks checks)
      else (blocked_status checks, checks_block_reason checks)

  unfoldable pub evaluate_pull_request : PullRequest → Decision
  unfolding conflict_reason checks_block_reason
  evaluate_pull_request pr =
      let decision = new_decision pr.subject in
      if not (conflict_reason pr == "")
      then block_merge "merge_conflict" (conflict_reason pr) decision
      else if not (equal_fold pr.mergeable "MERGEABLE")
      then block_merge "mergeable_unknown"
          (concat (
            "GitHub reports mergeable="
            ∷ empty_as_unknown pr.mergeable
            ∷ "; waiting for a fresh mergeable result before merging "
            ∷ pr.head_ref_name
            ∷ "."
            ∷ []))
          decision
      else if not (checks_block_reason pr.status_checks == "")
      then block_merge "status_checks" (checks_block_reason pr.status_checks) decision
      else decision

unfoldable pub evaluate_run_record : RunRecord → Decision
evaluate_run_record r =
    let decision = new_decision r.subject in
    if r.status == "review_failed"
    then block_merge "review_decision" "review did not pass" decision
    else if lower_contains r.error "check"
    then block_merge "status_checks" r.error decision
    else decision
