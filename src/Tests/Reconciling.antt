-- ===== src/Tests/Reconciling.antt =====
-- The reconciliation and the lanes on concrete inputs.
use agent_machine.Common.{
  ℕ, ◌+◌, String, ◌≡◌, refl, arith, Bool, true, false, ◌&&◌, Option, none, some, [], ◌∷◌, ◌==◌, All,
  ◌||◌, trim_space, concat, ltb, equal_fold, if◌then◌else◌,
}
use agent_machine.Common.Returns.{first_return}
use agent_machine.Gate.{reason}
use agent_machine.Reconcile.Settle.{settle_pr}
use agent_machine.Gate.Merge.{StatusCheck, is_conflicting, evaluate_pull_request}
use agent_machine.Gate.Merge.Reasons.{evaluate_pull_request-reason}
use agent_machine.Candidates.{Issue}
use agent_machine.Reconcile.{
  PullRequestSummary, Facts, ArtifactSummary, Config, Workspace, missing, found, Reader, Host,
}
use agent_machine.Reconcile.Identity.{
  has_wrong_base, has_wrong_head, has_wrong_author, commit_reason, expected_base, allows_pr_author,
  ownership, code_host_provider, pr_invariant_block_reason,
}
use agent_machine.Reconcile.Blocks.{gate_input, sqlite_merge_block_reason}
use agent_machine.Reconcile.Decide.{reconcile_issue, reconcile_candidate, scan_decisions}
use agent_machine.Reconcile.Consistent.{IsConsistent}
use agent_machine.Reconcile.Consistent.Scan.{scan_decisions-IsConsistent}
use agent_machine.Reconcile.Reasons.{all_by_app, app_identity, pr_invariant_block_reason_lem}
use agent_machine.Reconcile.Mergeable.Issues.{MayMergeIssue, reconcile_issue-MayMerge}
use agent_machine.Reconcile.Busy.{reconcile_candidate-busy}
use agent_machine.Lanes.{Lane, run_continuous_lane}
use agent_machine.Lanes.Laws.{IsBounded, run_continuous_lane-IsBounded}

abbrev pub host : Host
host = record {
  quote = λ s. concat ("\"" ∷ s ∷ "\"" ∷ []);
  github_app_slug = "";
  gitlab_pr_author_override = "";
}

abbrev pub config : Config
config = record {
  remote_provider = "";
  repository_provider = "GitHub";
  handoff_state = "Human Review";
  done_state = "Done";
  needs_info_state = "Needs Info";
  ready_state = "Ready";
  running_state = "Running";
  active_states = "Ready" ∷ "Running" ∷ [];
  base_branch = "main";
  review_command = "review";
  github_app_slug = "am-bot";
  github_pr_author_override = "";
  gitlab_pr_author_override = "";
}

abbrev clean : Workspace
clean = record {
  path = "/work/CAG-1";
  is_present = true;
  run_lock = false;
  index_lock = false;
  am_lock = false;
  has_changes = some false;
  run_artifact = none;
  stored_record = none;
  evaluation = none;
  feedback = none;
}

abbrev pub workspaces : String → Workspace
workspaces key = if key == "CAG-2" then record clean { run_lock = true } else clean

abbrev passed_facts : Facts
passed_facts = record {
  attempt = 1;
  status = "success";
  pr_url = "https://example.com/pull/7";
  review_status = "passed";
  review_classification = "";
  retry_next_state = "";
  retry_count = 0;
  retry_decided_at = 0;
  terminal_outcome = "";
}

abbrev pub reader : Reader
reader = record {
  reconciliation_facts = λ key. if key == "CAG-1" then found passed_facts else missing;
  lease = λ name. missing;
}

abbrev pub approved_issue : Issue
approved_issue = record {
  id = "CAG-1";
  identifier = "CAG-1";
  priority = 2;
  created_at = "";
  state = "Human Review";
  labels = "docs" ∷ [];
}

abbrev pub locked_issue : Issue
locked_issue = record approved_issue { identifier = "CAG-2"; state = "Ready" }

abbrev check : StatusCheck
check = record {
  typename = "CheckRun";
  status = "COMPLETED";
  conclusion = "SUCCESS";
  state = "";
  name = "ci";
  context = "";
}

abbrev approved_pr : PullRequestSummary
approved_pr = record {
  number = 7;
  url = "https://example.com/pull/7";
  base_ref_name = "Main";
  head_ref_name = "am/CAG-1-workspace";
  author = "am-bot[bot]";
  commits =
      record {
        oid = "abc";
        author_name = "am-bot[bot]";
        author_email = "am-bot[bot]@users.noreply.github.com";
      }
      ∷ [];
  mergeable = "MERGEABLE";
  merge_state_status = "CLEAN";
  review_decision = "APPROVED";
  status_checks = check ∷ [];
}

abbrev prs : String → Option PullRequestSummary
prs key = if key == "CAG-1" then some approved_pr else none

abbrev no_artifacts : String → Option ArtifactSummary
no_artifacts key = none

scan_decisions-IsConsistent_example : All IsConsistent (
    scan_decisions host config workspaces
      (some reader)
      100
      none
      prs
      no_artifacts
      (approved_issue ∷ locked_issue ∷ []))
scan_decisions-IsConsistent_example =
    scan_decisions-IsConsistent host config workspaces (some reader) 100 none prs no_artifacts
      (approved_issue ∷ locked_issue ∷ [])

is_merged :
    (reconcile_issue host config workspaces
      (some reader)
      100
      none
      approved_issue
      (some approved_pr)
      none).can_merge
    ≡ true
unfolding reconcile_issue first_return settle_pr has_wrong_base equal_fold has_wrong_head
    has_wrong_author commit_reason reason evaluate_pull_request is_conflicting
    sqlite_merge_block_reason
is_merged = refl

reconcile_issue-MayMerge_example :
    MayMergeIssue host config workspaces (some reader) 100 approved_issue approved_pr
reconcile_issue-MayMerge_example =
    reconcile_issue-MayMerge host config workspaces (some reader) 100 none approved_issue
      (some approved_pr) none is_merged

reconcile_candidate-busy_example :
    let d = reconcile_candidate host config workspaces (some reader) 100 none locked_issue none in
    (d.can_run ≡ false) × (d.can_merge ≡ false)
reconcile_candidate-busy_example =
    reconcile_candidate-busy host config workspaces (some reader) 100 none locked_issue none refl

pr_invariant_block_reason_lem_example :
    (pr_invariant_block_reason host config approved_issue approved_pr == "") ≡ (
      (approved_pr.base_ref_name == ""
        || equal_fold approved_pr.base_ref_name (expected_base config))
      && (approved_pr.head_ref_name
            == concat ("am/" ∷ trim_space approved_issue.identifier ∷ "-workspace" ∷ [])
          && (allows_pr_author (ownership host config) (trim_space approved_pr.author)
              && (code_host_provider config == "gitlab"
                  || all_by_app
                      (app_identity host config approved_issue approved_pr)
                      approved_pr.commits))))
pr_invariant_block_reason_lem_example =
    pr_invariant_block_reason_lem host config approved_issue approved_pr

evaluate_pull_request-reason_example :
    (reason (evaluate_pull_request host.quote (gate_input approved_pr)).result == "")
    ≡ (evaluate_pull_request host.quote (gate_input approved_pr)).eligible
evaluate_pull_request-reason_example =
    evaluate_pull_request-reason host.quote (gate_input approved_pr)

abbrev lane : Lane
lane = record { name = "merge"; idle_delay = 30; continuous = true }

-- a lane that fails in its third round, where the world is the number of the rounds
abbrev work : ℕ → (Bool × Option String) × ℕ
work n = ((true, if ltb n 2 then none else some "boom"), n + 1)

run_continuous_lane-IsBounded_example :
    IsBounded 5 0 (run_continuous_lane lane 5 work (λ n. (false, n)) (λ t n. (false, n)) 5 0 0)
run_continuous_lane-IsBounded_example =
    run_continuous_lane-IsBounded lane 5 work (λ n. (false, n)) (λ t n. (false, n)) 5 0
      (ground (arith)) (ground (arith))
