-- ===== src/Runs.antt =====
-- The records of the runs and the review of one: the parts of internal/domain/types.go and
-- internal/scopeguard/scopeguard.go that the policies read, and the names of internal/reviewpolicy.
pub mod Classification
pub mod Attempt
use agent_machine.Common.{ℕ, String, Bool, not, List, ◌==◌}
use agent_machine.Gate.{is_nil}

-- `duration_ms` and the tokens are never negative. The token count is a whole number of tokens.
pub record RunRecord : Type 0 where
  pub status : String
  pub pr_url : String
  pub error : String
  pub review_status : String
  pub review_classification : String
  pub review_findings : String
  pub duration_ms : ℕ

pub record ReviewResult : Type 0 where
  pub status : String
  pub classification : String

abbrev pub missing_evidence_only : String
missing_evidence_only = "missing_evidence_only"

abbrev pub behavior_spec_blocker : String
behavior_spec_blocker = "behavior_spec_blocker"

pub record ScopeResult : Type 0 where
  pub violations : List String

abbrev pub blocks : ScopeResult → Bool
blocks r = not (is_nil r.violations)
