-- ===== src/Reconcile/Consistent/Scan.antt =====
-- No decision of a scan, or on a candidate, says two things at once.
use agent_machine.Common.{
  String, ◌≡◌, refl, arith, Bool, true, false, not, ◌&&◌, Option, none, some, List, ◌==◌, inl, inr,
  Bool-cases, All, All-of_map, All-map, All-every,
}
use agent_machine.Common.Returns.{returns_or, returns_last}
use agent_machine.State.{Time}
use agent_machine.Candidates.{Issue}
use agent_machine.Reconcile.{
  Lifecycle, block, PullRequestSummary, ArtifactSummary, Config, Workspace, Reader, Host, Decision,
  Facts,
}
use agent_machine.Reconcile.Identity.{pr_invariant_block_reason}
use agent_machine.Reconcile.Blocks.{
  state_is_runnable, repairable_review_failed_pr, evidence_is_repairable,
}
use agent_machine.Reconcile.Evidence.{active_run_lease, gather, start}
use agent_machine.Reconcile.Decide.{
  guards, reconcile_active, reconcile_issue, reconcile_issues, with_repair, issue_named,
  repair_named, repair_decision, scan_decisions,
}
use agent_machine.Reconcile.Consistent.{
  IsConsistent, is_repairable_action, block-IsConsistent, gather-IsOpen, settled,
}

-- the second of five tests that are all met
second_met : (a b c d e : Bool) → (a && b && c && d && e) ≡ true → b ≡ true
second_met a b c d e h = ground (arith, h)

stays_out : (a b : Bool) → (a && b) ≡ false → b ≡ true → a ≡ false
stays_out a b h k = ground (arith, h, k)

module _ (host : Host) (config : Config) (workspaces : String → Workspace) (reader : Option Reader)
    (now : Time) (canceled : Option String) where
  active :
      (c : Issue) (pr : Option PullRequestSummary) (a : Option ArtifactSummary)
      → IsConsistent (reconcile_active host config workspaces reader now canceled c pr a)
  unfolding reconcile_active guards
  active c pr a =
      let h = gather-IsOpen workspaces reader c pr a in
      let d = (gather workspaces reader c pr a).decision in
      let stop : (l : Lifecycle) (why next : String) → IsConsistent (block l why next d) =
        λ l why next. block-IsConsistent d l why next h.quarantine in
      returns_or IsConsistent _ _ _ _ (λ _. stop _ _ _)
        (λ _.
          returns_or IsConsistent _ _ _ _ (λ _. stop _ _ _)
            (λ _.
              returns_or IsConsistent _ _ _ _ (λ _. stop _ _ _)
                (λ _.
                  returns_or IsConsistent _ _ _ _ (λ _. stop _ _ _)
                    (λ _.
                      returns_or IsConsistent _ _ _ _
                        (λ _.
                          block-IsConsistent
                            (record d {
                              state_store_error =
                                  (active_run_lease workspaces reader now c.identifier).0;
                              reconciliation_needed = true;
                            })
                            _ _ _ h.quarantine)
                        (λ _.
                          returns_or IsConsistent _ _ _ _ (λ _. stop _ _ _)
                            (λ _.
                              returns_or IsConsistent _ _ _ _ (λ _. stop _ _ _)
                                (λ _.
                                  returns_or IsConsistent _ _ _ _ (λ _. stop _ _ _)
                                    (λ _.
                                      returns_or IsConsistent _ _ _ _ (λ _. stop _ _ _)
                                        (λ _.
                                          returns_or IsConsistent _ _ _ _ (λ _. stop _ _ _)
                                            (λ _. returns_last IsConsistent _ (
                                              settled host config workspaces reader c pr d
                                                h)))))))))))

  -- the decision on one issue
  issue-IsConsistent :
      (c : Issue) (pr : Option PullRequestSummary) (a : Option ArtifactSummary)
      → IsConsistent (reconcile_issue host config workspaces reader now canceled c pr a)
  unfolding reconcile_issue
  issue-IsConsistent c pr a =
      returns_or IsConsistent _ _ _ _
        (λ _.
          block-IsConsistent
            (record (start c) { state_store_error = canceled; reconciliation_needed = true }) _ _ _
            refl)
        (λ _. returns_last IsConsistent _ (active c pr a))

  pub repair_starts :
      (w : Workspace) (c : Issue) (pr : Option PullRequestSummary) (next : String) (needed : Bool)
      (facts : Option Facts)
      → repairable_review_failed_pr host config w c pr next needed facts ≡ true
      → is_repairable_action next ≡ true
  unfolding repairable_review_failed_pr
  repair_starts w c none next needed facts h = cc
  repair_starts w c (some pr) next needed facts h =
      second_met (state_is_runnable config c.state) (is_repairable_action next) (not needed)
        (pr_invariant_block_reason host config c pr == "")
        (evidence_is_repairable host config facts w pr.url) h

  with_repair-IsConsistent :
      (c : Issue) (pr : Option PullRequestSummary) (d : Decision)
      → IsConsistent d
      → IsConsistent (with_repair host config workspaces reader now canceled c pr d)
  unfolding with_repair
  with_repair-IsConsistent c pr d h =
      elim (Bool-cases (
        repairable_review_failed_pr host config (workspaces c.identifier) c pr d.next_action
          d.reconciliation_needed d.db_facts)) [
            | inl e ↦
                let out =
                  stays_out d.should_quarantine (is_repairable_action d.next_action) h.closed (
                    repair_starts (workspaces c.identifier) c pr d.next_action
                      d.reconciliation_needed d.db_facts e) in
                rw e (record {
                  exclusive = refl;
                  unblocked = refl;
                  kept = rw out refl;
                  closed = rw out refl;
                })
            | inr e ↦ rw e h
          ]

  repair_named-IsConsistent :
      (prs : String → Option PullRequestSummary) (d : Decision) (o : Option Issue)
      → IsConsistent d
      → IsConsistent (repair_named host config workspaces reader now canceled prs d o)
  repair_named-IsConsistent prs d none h = h
  repair_named-IsConsistent prs d (some i) h = with_repair-IsConsistent i (prs i.identifier) d h

  -- Whatever the store, the workspaces and the code host say, no decision of a scan both runs and merges
  -- its issue or merges one that it blocks, and one that puts its issue in quarantine neither runs nor
  -- merges it.
  pub scan_decisions-IsConsistent :
      (prs : String → Option PullRequestSummary) (artifacts : String → Option ArtifactSummary)
      (issues : List Issue)
      → All IsConsistent
          (scan_decisions host config workspaces reader now canceled prs artifacts issues)
  unfolding scan_decisions reconcile_issues
  scan_decisions-IsConsistent prs artifacts issues = All-of_map _ IsConsistent _ (
      All-map IsConsistent
        (λ d.
          IsConsistent (repair_decision host config workspaces reader now canceled issues prs d))
        (λ d h. repair_named-IsConsistent prs d (issue_named d.issue_identifier issues) h) _
        (All-of_map _ IsConsistent issues (
          All-every _ (λ i. issue-IsConsistent i (prs i.identifier) (artifacts i.identifier))
            issues)))
