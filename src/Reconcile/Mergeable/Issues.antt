-- ===== src/Reconcile/Mergeable/Issues.antt =====
-- What is known of an issue whose decision lets its pull request be merged.
use agent_machine.Common.{String, ◌≡◌, refl, Bool, true, false, Option, none, some}
use agent_machine.Common.Returns.{returns_or, returns_last}
use agent_machine.State.{Time}
use agent_machine.Runs.{RunRecord}
use agent_machine.Candidates.{Issue, is_blocked_candidate}
use agent_machine.Reconcile.{
  PullRequestSummary, Facts, ArtifactSummary, Config, Workspace, Read, unavailable, missing, found,
  Reader, Host, Decision, is_some,
}
use agent_machine.Reconcile.Evidence.{
  Evidence, start, gather, with_facts, compare_artifact, own_record, artifact_record,
  reconciliation_facts, active_run_lease,
}
use agent_machine.Reconcile.Settle.{settle}
use agent_machine.Reconcile.Decide.{guards, reconcile_active, reconcile_issue}
use agent_machine.Reconcile.Consistent.{gather-IsOpen}
use agent_machine.Reconcile.Mergeable.{
  facts_of, MayMerge, MergesOnly, stops, pr-MergesOnly, without_pr,
}

with_facts-db_facts :
    (state_backed : Bool) (pr : Option PullRequestSummary) (d : Decision) (r : Read Facts)
    → d.db_facts ≡ none
    → (with_facts state_backed pr d r).0.db_facts ≡ facts_of r
with_facts-db_facts b pr d (unavailable e) h = h
with_facts-db_facts b pr d missing h = h
with_facts-db_facts b pr d (found facts) h = refl

compare_artifact-db_facts :
    (state_backed : Bool) (a : Option ArtifactSummary) (m : Bool) (d : Decision)
    → (compare_artifact state_backed a m d).decision.db_facts ≡ d.db_facts
compare_artifact-db_facts b none m d = refl
compare_artifact-db_facts b (some a) m d = refl

own_record-db_facts :
    (state_backed : Bool) (o : Option RunRecord) (ev : Evidence)
    → (own_record state_backed o ev).decision.db_facts ≡ ev.decision.db_facts
own_record-db_facts true o ev = refl
own_record-db_facts false o ev = refl

module _ (workspaces : String → Workspace) (reader : Option Reader) where
  gather-db_facts :
      (c : Issue) (pr : Option PullRequestSummary) (a : Option ArtifactSummary)
      → (gather workspaces reader c pr a).decision.db_facts
        ≡ facts_of (reconciliation_facts workspaces reader c.identifier)
  unfolding gather
  gather-db_facts c pr a =
      let begun = record (start c) {
        pr = pr;
        artifact = a;
        run_record = artifact_record (is_some reader) a;
      } in
      let facts = reconciliation_facts workspaces reader c.identifier in
      let step = with_facts (is_some reader) pr begun facts in
      rw
        (
          own_record-db_facts (is_some reader) (workspaces c.identifier).run_artifact
              (compare_artifact (is_some reader) a step.1 step.0),
          compare_artifact-db_facts (is_some reader) a step.1 step.0,
        )
        (with_facts-db_facts (is_some reader) pr begun facts refl)

-- What the merge of an issue's pull request asks: no label that blocks the issue, no lock and no lease of
-- a run, and what the merge asks of the pull request and of the run.
pub record MayMergeIssue (host : Host) (config : Config) (workspaces : String → Workspace)
    (reader : Option Reader) (now : Time) (candidate : Issue) (pr : PullRequestSummary)
    : Type 0 where
  pub unblocked : is_blocked_candidate candidate ≡ false
  pub unlocked : (workspaces candidate.identifier).run_lock ≡ false
  pub unleased : (active_run_lease workspaces reader now candidate.identifier).1 ≡ false
  pub may_merge :
      MayMerge host config
        (workspaces candidate.identifier)
        (facts_of (reconciliation_facts workspaces reader candidate.identifier))
        candidate
        pr

-- an issue without a pull request is not merged
abbrev pub MayMergeSome : (PullRequestSummary → Type 0) → Option PullRequestSummary → Type 0
MayMergeSome P none = ⊥
MayMergeSome P (some pr) = P pr

module _ (host : Host) (config : Config) (workspaces : String → Workspace) (reader : Option Reader)
    (now : Time) (canceled : Option String) where
  settle-MergesOnly :
      (c : Issue) (pr : Option PullRequestSummary) (a : Option ArtifactSummary)
      → is_blocked_candidate c ≡ false
      → (workspaces c.identifier).run_lock ≡ false
      → (active_run_lease workspaces reader now c.identifier).1 ≡ false
      → MergesOnly
          (MayMergeSome (λ p. MayMergeIssue host config workspaces reader now c p) pr)
          (settle host config workspaces reader c pr (gather workspaces reader c pr a).decision)
  settle-MergesOnly c none a u l f =
      stops _ _
        (without_pr host config workspaces reader c _ (gather-IsOpen workspaces reader c none a))
  settle-MergesOnly c (some pr) a u l f = record {
    at = λ e. record {
      unblocked = u;
      unlocked = l;
      unleased = f;
      may_merge = rw (← gather-db_facts workspaces reader c (some pr) a) (
          (pr-MergesOnly host config workspaces reader c pr
              (gather workspaces reader c (some pr) a).decision).at
            e);
    };
  }

  active-MergesOnly :
      (c : Issue) (pr : Option PullRequestSummary) (a : Option ArtifactSummary)
      → MergesOnly
          (MayMergeSome (λ p. MayMergeIssue host config workspaces reader now c p) pr)
          (reconcile_active host config workspaces reader now canceled c pr a)
  unfolding reconcile_active guards
  active-MergesOnly c pr a =
      let P =
        MergesOnly (MayMergeSome (λ p. MayMergeIssue host config workspaces reader now c p) pr) in
      returns_or P _ _ _ _ (λ _. stops _ _ refl)
        (λ unblocked.
          returns_or P _ _ _ _ (λ _. stops _ _ refl)
            (λ unlocked.
              returns_or P _ _ _ _ (λ _. stops _ _ refl)
                (λ _.
                  returns_or P _ _ _ _ (λ _. stops _ _ refl)
                    (λ _.
                      returns_or P _ _ _ _ (λ _. stops _ _ refl)
                        (λ _.
                          returns_or P _ _ _ _ (λ _. stops _ _ refl)
                            (λ unleased.
                              returns_or P _ _ _ _ (λ _. stops _ _ refl)
                                (λ _.
                                  returns_or P _ _ _ _ (λ _. stops _ _ refl)
                                    (λ _.
                                      returns_or P _ _ _ _ (λ _. stops _ _ refl)
                                        (λ _.
                                          returns_or P _ _ _ _ (λ _. stops _ _ refl)
                                            (λ _. returns_last P _ (
                                              settle-MergesOnly c pr a unblocked unlocked
                                                unleased)))))))))))

  -- A decision that lets an issue be merged is one on an approved pull request of the program's own, on the
  -- branch of the issue's workspace, by an allowed author, which the merge gate lets through; its issue is in
  -- the hand-off state, without a blocking label, without a lock or a lease of a run, and its run passed.
  pub reconcile_issue-MayMerge :
      (c : Issue) (pr : Option PullRequestSummary) (a : Option ArtifactSummary)
      → (reconcile_issue host config workspaces reader now canceled c pr a).can_merge ≡ true
      → MayMergeSome (λ p. MayMergeIssue host config workspaces reader now c p) pr
  unfolding reconcile_issue
  reconcile_issue-MayMerge c pr a h =
      let C = MayMergeSome (λ p. MayMergeIssue host config workspaces reader now c p) pr in
      let only : MergesOnly C (reconcile_issue host config workspaces reader now canceled c pr a) =
        returns_or (MergesOnly C) _ _ _ _ (λ _. stops C _ refl)
          (λ _. returns_last (MergesOnly C) _ (active-MergesOnly c pr a)) in
      only.at h
