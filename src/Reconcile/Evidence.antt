-- ===== src/Reconcile/Evidence.antt =====
-- The evidence on an issue: what ReconcileIssueWithArtifactContext of reconciler.go reads before it decides.
use agent_machine.Common.{
  String, Bool, true, false, not, ◌&&◌, ◌||◌, Option, none, some, [], ◌∷◌, ◌==◌, ltb, concat,
  if◌then◌else◌,
}
use agent_machine.State.{Time, is_zero, Lease}
use agent_machine.Gate.Cleanup.{terminal_run_status}
use agent_machine.Runs.{RunRecord}
use agent_machine.Candidates.{Issue}
use agent_machine.Reconcile.{
  Lifecycle, PullRequestSummary, Facts, ArtifactSummary, Workspace, Read, unavailable, missing,
  found, Reader, Decision, is_some,
}

-- runRecord{Status: …, PRURL: …, ReviewStatus: …}
abbrev pub record_of : String → String → String → RunRecord
record_of status url review = record {
  status = status;
  pr_url = url;
  error = "";
  review_status = review;
  review_classification = "";
  review_findings = "";
  duration_ms = 0;
}

abbrev pub start : Issue → Decision
start candidate = record {
  issue_identifier = candidate.identifier;
  state_name = candidate.state;
  lifecycle = Lifecycle.ready;
  can_run = false;
  can_merge = false;
  should_retry = false;
  should_quarantine = false;
  next_action = "run_agent";
  blockers = [];
  run_record = none;
  pr = none;
  artifact = none;
  db_facts = none;
  state_store_error = none;
  reconciliation_needed = false;
}

-- A decision on the evidence, and the three flags that the body keeps beside it.
pub record Evidence : Type 0 where
  pub decision : Decision
  pub artifact_only : Bool
  pub artifact_conflict : Bool
  pub missing_facts : Bool

-- the record of a run that an artifact or the store gives, if its status is final
abbrev pub final_record : String → String → String → Option RunRecord
final_record status url review =
    if terminal_run_status status then some (record_of status url review) else none

abbrev pub or_else : {A : Type 0} → Option A → Option A → Option A
or_else (some a) other = some a
or_else none other = other

abbrev pub artifact_record : Bool → Option ArtifactSummary → Option RunRecord
artifact_record state_backed none = none
artifact_record state_backed (some a) =
    if not state_backed && a.has_artifact then final_record a.status a.pr_url a.review else none

abbrev pub with_facts : Bool → Option PullRequestSummary → Decision → Read Facts → Decision × Bool
with_facts state_backed pr d (unavailable e) =
    (record d { state_store_error = some e; reconciliation_needed = true }, false)
with_facts state_backed pr d (found facts) = (
  record d {
    db_facts = some facts;
    run_record =
        or_else d.run_record
          (if facts.status == "" then none else final_record facts.status facts.pr_url "");
    reconciliation_needed =
        d.reconciliation_needed || (not (facts.pr_url == "") && not (is_some pr));
  },
  false,
)
with_facts state_backed pr d missing =
    let absent = state_backed && is_some pr in
    (record d { reconciliation_needed = d.reconciliation_needed || absent }, absent)

-- facts.Status, and the empty text where there are no facts
abbrev pub status_of : Option Facts → String
status_of none = ""
status_of (some facts) = facts.status

abbrev pub compare_artifact : Bool → Option ArtifactSummary → Bool → Decision → Evidence
compare_artifact state_backed none missing_facts d = record {
  decision = d;
  artifact_only = false;
  artifact_conflict = false;
  missing_facts = missing_facts;
}
compare_artifact state_backed (some a) missing_facts d =
    let status = status_of d.db_facts in
    let seen = state_backed && a.has_artifact in
    let only = seen && status == "" in
    let conflict = seen && not (status == "") && not (a.status == "") && not (a.status == status) in
    record {
      decision = record d { reconciliation_needed = d.reconciliation_needed || only || conflict };
      artifact_only = only;
      artifact_conflict = conflict;
      missing_facts = missing_facts;
    }

-- what readRunArtifact finds, where there is no store
abbrev pub own_record : Bool → Option RunRecord → Evidence → Evidence
own_record true artifact ev = ev
own_record false artifact ev = record ev {
  decision = record ev.decision { run_record = or_else artifact ev.decision.run_record };
}

abbrev pub error_text : Option String → String
error_text none = ""
error_text (some e) = e

-- lease.ReleasedAt.IsZero() && lease.ExpiresAt.After(now)
unfoldable pub is_running : Time → Lease → Bool
is_running now lease = is_zero lease.released_at && ltb now lease.expires_at

-- the error and the answer of activeRunLease
abbrev pub lease_outcome : Time → Read Lease → Option String × Bool
lease_outcome now (unavailable e) = (some e, false)
lease_outcome now missing = (none, false)
lease_outcome now (found lease) = (none, is_running now lease)

module _ (workspaces : String → Workspace) (reader : Option Reader) where
  -- reconciliationFacts and activeRunLease
  unfoldable pub reconciliation_facts : String → Read Facts
  reconciliation_facts key = elim reader [ none ↦ missing | some r ↦ r.reconciliation_facts key ]

  unfoldable pub active_run_lease : Time → String → Option String × Bool
  unfolding is_running
  active_run_lease now key = elim reader [
    | none ↦ (none, false)
    | some r ↦ lease_outcome now (r.lease (concat ("run:" ∷ key ∷ [])))
  ]

  unfoldable pub gather : Issue → Option PullRequestSummary → Option ArtifactSummary → Evidence
  unfolding reconciliation_facts terminal_run_status
  gather candidate pr artifact =
      let state_backed = is_some reader in
      let w = workspaces candidate.identifier in
      let begun = record (start candidate) {
        pr = pr;
        artifact = artifact;
        run_record = artifact_record state_backed artifact;
      } in
      let (d, missing_facts) =
        with_facts state_backed pr begun (reconciliation_facts candidate.identifier) in
      own_record state_backed w.run_artifact
        (compare_artifact state_backed artifact missing_facts d)
