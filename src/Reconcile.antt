-- ===== src/Reconcile.antt =====
-- What the reconciliation of an issue reads and decides: the types of reconciler.go, of
-- internal/codehost/types.go and of internal/domain/types.go, and the reads of a workspace.
pub mod Identity
pub mod Blocks
pub mod Evidence
pub mod Settle
pub mod Decide
pub mod Consistent
pub mod Reasons
pub mod Mergeable
pub mod Busy
use agent_machine.Common.{
  ℕ, String, Bool, true, false, not, ◌&&◌, ◌||◌, Option, none, some, List, [], ◌∷◌, ◌++◌, ◌==◌,
  concat,
}
use agent_machine.State.{Time, Lease}
use agent_machine.Gate.Merge.{StatusCheck}
use agent_machine.Runs.{RunRecord}

pub data Lifecycle : Type 0 where
  ready running needs_info review_failed handoff_ready : Lifecycle
  feedback_retry merge_ready done blocked quarantined : Lifecycle

-- the tests of a lifecycle against a constant
abbrev pub is_blocked : Lifecycle → Bool
is_blocked Lifecycle.blocked = true
is_blocked _ = false

abbrev pub is_feedback_retry : Lifecycle → Bool
is_feedback_retry Lifecycle.feedback_retry = true
is_feedback_retry _ = false

-- the text of a lifecycle
abbrev pub lifecycle_name : Lifecycle → String
lifecycle_name Lifecycle.ready = "Ready"
lifecycle_name Lifecycle.running = "Running"
lifecycle_name Lifecycle.needs_info = "Needs Info"
lifecycle_name Lifecycle.review_failed = "Review Failed"
lifecycle_name Lifecycle.handoff_ready = "Handoff Ready"
lifecycle_name Lifecycle.feedback_retry = "Feedback Retry"
lifecycle_name Lifecycle.merge_ready = "Merge Ready"
lifecycle_name Lifecycle.done = "Done"
lifecycle_name Lifecycle.blocked = "Blocked"
lifecycle_name Lifecycle.quarantined = "Quarantined"

pub record Commit : Type 0 where
  pub oid : String
  pub author_name : String
  pub author_email : String

pub record PullRequestSummary : Type 0 where
  pub number : ℕ
  pub url : String
  pub base_ref_name : String
  pub head_ref_name : String
  pub author : String
  pub commits : List Commit
  pub mergeable : String
  pub merge_state_status : String
  pub review_decision : String
  pub status_checks : List StatusCheck

-- The fields of state.ReconciliationFacts that the decisions read.
pub record Facts : Type 0 where
  pub attempt : ℕ
  pub status : String
  pub pr_url : String
  pub review_status : String
  pub review_classification : String
  pub retry_next_state : String
  pub retry_count : ℕ
  pub retry_decided_at : Time
  pub terminal_outcome : String

-- The fields of statusreport.ArtifactSummary that the decisions read.
pub record ArtifactSummary : Type 0 where
  pub status : String
  pub review : String
  pub pr_url : String
  pub outcome : String
  pub has_artifact : Bool

pub record Evaluation : Type 0 where
  pub outcome : String
  pub should_retry : Bool
  pub next_action : String
  pub review_classification : String
  pub pr_url : String

-- The fields of domain.RunnerConfig that the decisions read. `remote_provider` is the provider that
-- codehost.ParseRepository reads from the remote, and empty if it reads none.
pub record Config : Type 0 where
  pub remote_provider : String
  pub repository_provider : String
  pub handoff_state : String
  pub done_state : String
  pub needs_info_state : String
  pub ready_state : String
  pub running_state : String
  pub active_states : List String
  pub base_branch : String
  pub review_command : String
  pub github_app_slug : String
  pub github_pr_author_override : String
  pub gitlab_pr_author_override : String

-- What the files of an issue's workspace say. A read that fails is `none`.
pub record Workspace : Type 0 where
  pub path : String
  pub is_present : Bool
  -- hasRunLock
  pub run_lock : Bool
  -- .git/index.lock and .am.lock
  pub index_lock : Bool
  pub am_lock : Bool
  -- workspaceHasChanges
  pub has_changes : Option Bool
  -- readRunArtifact, which checks the schema, and the record of .am-run.json without that check
  pub run_artifact : Option RunRecord
  pub stored_record : Option RunRecord
  -- readEvaluationArtifact
  pub evaluation : Option Evaluation
  -- readPRFeedback
  pub feedback : Option String

-- What a read of the store returns: an error, nothing or a value.
pub data Read (A : Type 0) : Type 0 where
  unavailable : String → Read A
  missing : Read A
  found : A → Read A

pub record Reader : Type 0 where
  pub reconciliation_facts : String → Read Facts
  pub lease : String → Read Lease

-- The verb %q of fmt and two variables of the environment.
pub record Host : Type 0 where
  pub quote : String → String
  pub github_app_slug : String
  pub gitlab_pr_author_override : String

pub record Decision : Type 0 where
  pub issue_identifier : String
  pub state_name : String
  pub lifecycle : Lifecycle
  pub can_run : Bool
  pub can_merge : Bool
  pub should_retry : Bool
  pub should_quarantine : Bool
  pub next_action : String
  pub blockers : List String
  pub run_record : Option RunRecord
  pub pr : Option PullRequestSummary
  pub artifact : Option ArtifactSummary
  pub db_facts : Option Facts
  pub state_store_error : Option String
  pub reconciliation_needed : Bool

abbrev pub is_some : {A : Type 0} → Option A → Bool
is_some none = false
is_some (some a) = true

abbrev pub block : Lifecycle → String → String → Decision → Decision
block state reason next d = record d {
  lifecycle = state;
  can_run = false;
  can_merge = false;
  blockers = d.blockers ++ reason ∷ [];
  next_action = next;
}
