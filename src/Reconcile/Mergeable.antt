-- ===== src/Reconcile/Mergeable.antt =====
-- What is known of a pull request that a decision lets be merged.
pub mod Issues
use agent_machine.Common.{
  String, ◌≡◌, refl, sym, ◌∙◌, arith, Bool, true, false, not, ◌&&◌, ◌||◌, Option, none, some, List,
  [], ◌∷◌, ◌==◌, inl, inr, Bool-cases, ==→≡, if◌then◌else◌,
}
use agent_machine.Common.Returns.{returns_or, returns_last}
use agent_machine.Common.Table.{passes}
use agent_machine.State.{Time}
use agent_machine.Gate.Merge.{evaluate_pull_request}
use agent_machine.Gate.Merge.Reasons.{evaluate_pull_request-reason}
use agent_machine.Runs.{RunRecord}
use agent_machine.Candidates.{Issue, is_blocked_candidate}
use agent_machine.Gate.Cleanup.{terminal_run_status}
use agent_machine.Reconcile.{
  Lifecycle, PullRequestSummary, Facts, ArtifactSummary, Config, Workspace, Read, unavailable,
  missing, found, Reader, Host, Decision, is_some, block,
}
use agent_machine.Reconcile.Identity.{
  has_wrong_base, has_wrong_head, has_wrong_author, commit_reason, pr_invariant_block_reason,
}
use agent_machine.Reconcile.Blocks.{
  gate_input, merge_gate_block_reason, merge_state_block_reason, workspace_locked_or_modified,
}
use agent_machine.Reconcile.Evidence.{
  Evidence, start, gather, with_facts, compare_artifact, own_record, artifact_record,
  reconciliation_facts, active_run_lease,
}
use agent_machine.Reconcile.Settle.{
  apply_terminal_artifact, apply_pr_invariants, settle_pr, settle_without_pr, settle,
}
use agent_machine.Reconcile.Decide.{guards, reconcile_active, reconcile_issue}
use agent_machine.Reconcile.Consistent.{
  IsOpen, IsIdle, final_record-IsIdle, run_if_free-merge, gather-IsOpen,
}
use agent_machine.Reconcile.Reasons.{has_passed, invariant_parts, merge_state_block_reason_lem}

-- the facts that a read of the store gives
abbrev pub facts_of : Read Facts → Option Facts
facts_of (unavailable e) = none
facts_of missing = none
facts_of (found facts) = some facts

-- What the merge of a pull request asks of it, of its issue, and of the issue's run.
pub record MayMerge (host : Host) (config : Config) (w : Workspace) (facts : Option Facts)
    (candidate : Issue) (pr : PullRequestSummary) : Type 0 where
  pub approved : pr.review_decision ≡ "APPROVED"
  pub in_handoff : candidate.state ≡ config.handoff_state
  pub own_base : has_wrong_base config pr ≡ false
  pub own_head : has_wrong_head candidate pr ≡ false
  pub own_author : has_wrong_author host config pr ≡ false
  pub own_commits : commit_reason host config pr ≡ ""
  pub eligible : (evaluate_pull_request host.quote (gate_input pr)).eligible ≡ true
  pub run_passed : has_passed facts w.run_artifact pr.url ≡ true
  pub unlocked : (workspace_locked_or_modified w).0 ≡ false

-- a decision that merges only if `C` holds
pub record MergesOnly (C : Type 0) (d : Decision) : Type 0 where
  pub at : d.can_merge ≡ true → C

pub stops : (C : Type 0) (d : Decision) → d.can_merge ≡ false → MergesOnly C d
stops C d h = record { at = λ e. cc }

unnegated : (b : Bool) → not b ≡ false → b ≡ true
unnegated b h = ground (arith, h)

all_four :
    (a b c d : Bool)
    → (not a && (not b && (not c && d))) ≡ true
    → (a ≡ false) × ((b ≡ false) × ((c ≡ false) × (d ≡ true)))
all_four true b c d h = cc
all_four false true c d h = cc
all_four false false true d h = cc
all_four false false false d h = (refl, (refl, (refl, h)))

module _ (host : Host) (config : Config) (workspaces : String → Workspace)
    (reader : Option Reader) where
  may_merge :
      (c : Issue) (pr : PullRequestSummary) (facts : Option Facts)
      → (pr_invariant_block_reason host config c pr == "") ≡ true
      → (c.state == config.handoff_state) ≡ true
      → (pr.review_decision == "APPROVED") ≡ true
      → (merge_gate_block_reason host config pr == "") ≡ true
      → (merge_state_block_reason facts (workspaces c.identifier).run_artifact pr.url == "") ≡ true
      → (workspace_locked_or_modified (workspaces c.identifier)).0 ≡ false
      → MayMerge host config (workspaces c.identifier) facts c pr
  unfolding merge_gate_block_reason
  may_merge c pr facts own handoff approved gate run unlocked =
      let parts = all_four _ _ _ _ (sym (invariant_parts host config c pr) ∙ own) in
      record {
        approved = ==→≡ pr.review_decision "APPROVED" approved;
        in_handoff = ==→≡ c.state config.handoff_state handoff;
        own_base = parts.0;
        own_head = parts.1.0;
        own_author = parts.1.1.0;
        own_commits = ==→≡ (commit_reason host config pr) "" parts.1.1.1;
        eligible = sym (evaluate_pull_request-reason host.quote (gate_input pr)) ∙ gate;
        run_passed =
            sym (merge_state_block_reason_lem facts (workspaces c.identifier).run_artifact pr.url)
            ∙ run;
        unlocked = unlocked;
      }

  pr_invariants-MergesOnly :
      (c : Issue) (pr : PullRequestSummary) (d : Decision)
      → MergesOnly
          (MayMerge host config (workspaces c.identifier) d.db_facts c pr)
          (apply_pr_invariants host config workspaces reader c pr d)
  unfolding apply_pr_invariants
  pr_invariants-MergesOnly c pr d =
      let C = MayMerge host config (workspaces c.identifier) d.db_facts c pr in
      returns_or (MergesOnly C) _ _ _ _ (λ _. stops C _ refl)
        (λ own.
          returns_or (MergesOnly C) _ _ _ _ (λ _. stops C _ refl)
            (λ _.
              returns_or (MergesOnly C) _ _ _ _ (λ _. stops C _ refl)
                (λ _.
                  returns_or (MergesOnly C) _ _ _ _ (λ _. stops C _ refl)
                    (λ _.
                      returns_or (MergesOnly C) _ _ _ _ (λ _. stops C _ refl)
                        (λ handoff.
                          returns_or (MergesOnly C) _ _ _ _ (λ _. stops C _ refl)
                            (λ approved.
                              returns_or (MergesOnly C) _ _ _ _ (λ _. stops C _ refl)
                                (λ gate.
                                  returns_or (MergesOnly C) _ _ _ _ (λ _. stops C _ refl)
                                    (λ run.
                                      returns_or (MergesOnly C) _ _ _ _ (λ _. stops C _ refl)
                                        (λ unlocked. returns_last (MergesOnly C) _ (record {
                                          at = λ _.
                                              may_merge c pr d.db_facts (unnegated _ own)
                                                (unnegated _ handoff) (unnegated _ approved)
                                                (unnegated _ gate) (unnegated _ run) unlocked;
                                        }))))))))))

  pub pr-MergesOnly :
      (c : Issue) (pr : PullRequestSummary) (d : Decision)
      → MergesOnly
          (MayMerge host config (workspaces c.identifier) d.db_facts c pr)
          (settle_pr host config workspaces reader c pr d)
  unfolding settle_pr
  pr-MergesOnly c pr d =
      let C = MayMerge host config (workspaces c.identifier) d.db_facts c pr in
      returns_or (MergesOnly C) _ _ _ _ (λ _. stops C _ refl)
        (λ _.
          let needed =
            d.reconciliation_needed
            || passes (λ f. not (f.pr_url == "") && not (f.pr_url == pr.url)) d.db_facts in
          returns_last (MergesOnly C) _
            (pr_invariants-MergesOnly c pr (record d { reconciliation_needed = needed })))

  pub without_pr :
      (c : Issue) (d : Decision)
      → IsOpen d
      → (settle_without_pr host config workspaces reader c d).can_merge ≡ false
  unfolding settle_without_pr
  without_pr c d h =
      let P = λ (r : Decision). r.can_merge ≡ false in
      returns_or P _ _ _ _ (λ _. refl)
        (λ _.
          returns_or P _ _ _ _ (λ _. refl)
            (λ _.
              returns_or P _ _ _ _ (λ _. refl)
                (λ _. returns_last P _ (
                  run_if_free-merge host config workspaces reader c _
                    (final_record-IsIdle host config workspaces reader c d.run_record d h).merge))))
