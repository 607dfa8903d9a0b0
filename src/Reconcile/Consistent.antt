-- ===== src/Reconcile/Consistent.antt =====
-- No decision says two things at once.
pub mod Scan
use agent_machine.Common.{
  String, ◌≡◌, refl, arith, Bool, true, false, not, ◌&&◌, ◌||◌, Option, none, some, List, [], ◌∷◌,
  ◌==◌, inl, inr, map, Bool-cases, Option-cases, All, All-of_map, if◌then◌else◌,
}
use agent_machine.Common.Returns.{returns_or, returns_last}
use agent_machine.Gate.{is_nil}
use agent_machine.Common.Table.{passes}
use agent_machine.State.{Time}
use agent_machine.Runs.{RunRecord}
use agent_machine.Candidates.{Issue}
use agent_machine.Gate.Cleanup.{terminal_run_status}
use agent_machine.Reconcile.{
  Lifecycle, PullRequestSummary, Facts, ArtifactSummary, Config, Workspace, Read, unavailable,
  missing, found, Reader, Host, Decision, is_some, block,
}
use agent_machine.Reconcile.Blocks.{
  state_is_runnable, repairable_review_failed_pr, repair_next_action,
}
use agent_machine.Reconcile.Evidence.{
  Evidence, start, gather, with_facts, compare_artifact, own_record, reconciliation_facts,
  artifact_record,
}
use agent_machine.Reconcile.Settle.{
  apply_terminal_artifact, apply_pr_invariants, settle_pr, settle_without_pr, settle, run_if_free,
  apply_final_record,
}
use agent_machine.Reconcile.Decide.{
  guards, reconcile_active, reconcile_issue, reconcile_issues, with_repair, reconcile_candidate,
}

-- the actions from which a repair of a failed review may start
abbrev pub is_repairable_action : String → Bool
is_repairable_action action = action == "reconcile_linear_state" || action == repair_next_action

-- An issue is not both run and merged, nothing that blocks it is merged, and what is in quarantine is
-- neither run nor merged nor open to a repair.
pub record IsConsistent (d : Decision) : Type 0 where
  pub exclusive : (d.can_run && d.can_merge) ≡ false
  pub unblocked : (d.can_merge && not (is_nil d.blockers)) ≡ false
  pub kept : (d.should_quarantine && (d.can_run || d.can_merge)) ≡ false
  pub closed : (d.should_quarantine && is_repairable_action d.next_action) ≡ false

-- what the evidence leaves undecided
pub record IsOpen (d : Decision) : Type 0 where
  pub run : d.can_run ≡ false
  pub merge : d.can_merge ≡ false
  pub quarantine : d.should_quarantine ≡ false
  pub free : d.blockers ≡ []

-- what is not merged and not in quarantine
pub record IsIdle (d : Decision) : Type 0 where
  pub merge : d.can_merge ≡ false
  pub quarantine : d.should_quarantine ≡ false

pub block-IsConsistent :
    (d : Decision) (l : Lifecycle) (why next : String)
    → d.should_quarantine ≡ false
    → IsConsistent (block l why next d)
block-IsConsistent d l why next h = record {
  exclusive = refl;
  unblocked = refl;
  kept = rw h refl;
  closed = rw h refl;
}

quarantine-IsConsistent :
    (d : Decision) (why next : String)
    → is_repairable_action next ≡ false
    → IsConsistent (record (block Lifecycle.quarantined why next d) { should_quarantine = true })
quarantine-IsConsistent d why next h = record {
  exclusive = refl;
  unblocked = refl;
  kept = refl;
  closed = h;
}

idle-IsConsistent : (d : Decision) → IsIdle d → IsConsistent d
idle-IsConsistent d h = record {
  exclusive = rw h.merge (ground (arith));
  unblocked = rw h.merge refl;
  kept = rw h.quarantine refl;
  closed = rw h.quarantine refl;
}

merge-IsConsistent :
    (d : Decision)
    → d.can_run ≡ false
    → d.blockers ≡ []
    → d.should_quarantine ≡ false
    → IsConsistent d
merge-IsConsistent d r b q = record {
  exclusive = rw r refl;
  unblocked = rw b (ground (arith));
  kept = rw q refl;
  closed = rw q refl;
}

module _ (host : Host) (config : Config) (workspaces : String → Workspace)
    (reader : Option Reader) where
  terminal_artifact :
      (c : Issue) (r : RunRecord) (d : Decision)
      → IsOpen d
      → IsIdle (apply_terminal_artifact host config workspaces reader c r d)
  unfolding apply_terminal_artifact
  terminal_artifact c r d h =
      returns_or IsIdle _ _ _ _ (λ _. record { merge = h.merge; quarantine = h.quarantine })
        (λ _.
          returns_or IsIdle _ _ _ _ (λ _. record { merge = refl; quarantine = h.quarantine })
            (λ _.
              returns_or IsIdle _ _ _ _ (λ _. record { merge = refl; quarantine = h.quarantine })
                (λ _.
                  returns_or IsIdle _ _ _ _
                    (λ _. record { merge = refl; quarantine = h.quarantine })
                    (λ _.
                      returns_or IsIdle _ _ _ _
                        (λ _. record { merge = refl; quarantine = h.quarantine })
                        (λ _.
                          returns_last IsIdle _
                            (record { merge = refl; quarantine = h.quarantine }))))))

  pr_invariants :
      (c : Issue) (pr : PullRequestSummary) (d : Decision)
      → IsOpen d
      → IsConsistent (apply_pr_invariants host config workspaces reader c pr d)
  unfolding apply_pr_invariants
  pr_invariants c pr d h =
      let blocked : (l : Lifecycle) (why next : String) → IsConsistent (block l why next d) =
        λ l why next. block-IsConsistent d l why next h.quarantine in
      returns_or IsConsistent _ _ _ _ (λ _. quarantine-IsConsistent d _ _ refl)
        (λ _.
          returns_or IsConsistent _ _ _ _
            (λ _. idle-IsConsistent _ (record { merge = refl; quarantine = h.quarantine }))
            (λ _.
              returns_or IsConsistent _ _ _ _
                (λ _. idle-IsConsistent _ (record { merge = refl; quarantine = h.quarantine }))
                (λ _.
                  returns_or IsConsistent _ _ _ _
                    (λ _. idle-IsConsistent _ (record { merge = refl; quarantine = h.quarantine }))
                    (λ _.
                      returns_or IsConsistent _ _ _ _ (λ _. blocked _ _ _)
                        (λ _.
                          returns_or IsConsistent _ _ _ _ (λ _. blocked _ _ _)
                            (λ _.
                              returns_or IsConsistent _ _ _ _ (λ _. blocked _ _ _)
                                (λ _.
                                  returns_or IsConsistent _ _ _ _
                                    (λ _. quarantine-IsConsistent d _ _ refl)
                                    (λ _.
                                      returns_or IsConsistent _ _ _ _ (λ _. blocked _ _ _)
                                        (λ _.
                                          returns_last IsConsistent _ (
                                            merge-IsConsistent _ h.run h.free h.quarantine))))))))))

  pub run_if_free-merge :
      (c : Issue) (d : Decision)
      → d.can_merge ≡ false
      → (run_if_free host config workspaces reader c d).can_merge ≡ false
  run_if_free-merge c d h =
      elim (Bool-cases (is_nil d.blockers && state_is_runnable config c.state)) [
        | inl e ↦ rw e h
        | inr e ↦ rw e h
      ]

  -- the last test of the body
  run_free :
      (c : Issue) (d : Decision)
      → IsIdle d
      → IsConsistent (run_if_free host config workspaces reader c d)
  run_free c d h = elim (Bool-cases (is_nil d.blockers && state_is_runnable config c.state)) [
    | inl e ↦ rw e (idle-IsConsistent _ (record { merge = h.merge; quarantine = h.quarantine }))
    | inr e ↦ rw e (idle-IsConsistent d h)
  ]

  settled_pr :
      (c : Issue) (pr : PullRequestSummary) (d : Decision)
      → IsOpen d
      → IsConsistent (settle_pr host config workspaces reader c pr d)
  unfolding settle_pr
  settled_pr c pr d h =
      returns_or IsConsistent _ _ _ _
        (λ _. block-IsConsistent (record d { reconciliation_needed = true }) _ _ _ h.quarantine)
        (λ _.
          let needed =
            d.reconciliation_needed
            || passes (λ f. not (f.pr_url == "") && not (f.pr_url == pr.url)) d.db_facts in
          returns_last IsConsistent _ (
            pr_invariants c pr (record d { reconciliation_needed = needed })
              (record { run = h.run; merge = h.merge; quarantine = h.quarantine; free = h.free })))

  pub final_record-IsIdle :
      (c : Issue) (o : Option RunRecord) (d : Decision)
      → IsOpen d
      → IsIdle (apply_final_record host config workspaces reader c o d)
  final_record-IsIdle c none d h = record { merge = h.merge; quarantine = h.quarantine }
  final_record-IsIdle c (some r) d h = elim (Bool-cases (terminal_run_status r.status)) [
    | inl e ↦ rw e (terminal_artifact c r d h)
    | inr e ↦ rw e (record { merge = h.merge; quarantine = h.quarantine })
  ]

  settled_without_pr :
      (c : Issue) (d : Decision)
      → IsOpen d
      → IsConsistent (settle_without_pr host config workspaces reader c d)
  unfolding settle_without_pr
  settled_without_pr c d h =
      let blocked : (l : Lifecycle) (why next : String) → IsConsistent (block l why next d) =
        λ l why next. block-IsConsistent d l why next h.quarantine in
      returns_or IsConsistent _ _ _ _ (λ _. blocked _ _ _)
        (λ _.
          returns_or IsConsistent _ _ _ _ (λ _. blocked _ _ _)
            (λ _.
              returns_or IsConsistent _ _ _ _ (λ _. blocked _ _ _)
                (λ _.
                  returns_last IsConsistent _
                    (run_free c _ (final_record-IsIdle c d.run_record d h)))))

  pub settled :
      (c : Issue) (pr : Option PullRequestSummary) (d : Decision)
      → IsOpen d
      → IsConsistent (settle host config workspaces reader c pr d)
  settled c none d h = settled_without_pr c d h
  settled c (some pr) d h = settled_pr c pr d h

with_facts-IsOpen :
    (state_backed : Bool) (pr : Option PullRequestSummary) (d : Decision) (r : Read Facts)
    → IsOpen d
    → IsOpen (with_facts state_backed pr d r).0
with_facts-IsOpen b pr d (unavailable e) h = record {
  run = h.run;
  merge = h.merge;
  quarantine = h.quarantine;
  free = h.free;
}
with_facts-IsOpen b pr d (found facts) h = record {
  run = h.run;
  merge = h.merge;
  quarantine = h.quarantine;
  free = h.free;
}
with_facts-IsOpen b pr d missing h = record {
  run = h.run;
  merge = h.merge;
  quarantine = h.quarantine;
  free = h.free;
}

compare_artifact-IsOpen :
    (state_backed : Bool) (a : Option ArtifactSummary) (m : Bool) (d : Decision)
    → IsOpen d
    → IsOpen (compare_artifact state_backed a m d).decision
compare_artifact-IsOpen b none m d h = h
compare_artifact-IsOpen b (some a) m d h = record {
  run = h.run;
  merge = h.merge;
  quarantine = h.quarantine;
  free = h.free;
}

own_record-IsOpen :
    (state_backed : Bool) (o : Option RunRecord) (ev : Evidence)
    → IsOpen ev.decision
    → IsOpen (own_record state_backed o ev).decision
own_record-IsOpen true o ev h = h
own_record-IsOpen false o ev h = record {
  run = h.run;
  merge = h.merge;
  quarantine = h.quarantine;
  free = h.free;
}

module _ (workspaces : String → Workspace) (reader : Option Reader) where
  pub gather-IsOpen :
      (c : Issue) (pr : Option PullRequestSummary) (a : Option ArtifactSummary)
      → IsOpen (gather workspaces reader c pr a).decision
  unfolding gather
  gather-IsOpen c pr a =
      let begun = record (start c) {
        pr = pr;
        artifact = a;
        run_record = artifact_record (is_some reader) a;
      } in
      let facts = reconciliation_facts workspaces reader c.identifier in
      own_record-IsOpen (is_some reader) _ _ (
        compare_artifact-IsOpen (is_some reader) a (with_facts (is_some reader) pr begun facts).1 _
          (with_facts-IsOpen (is_some reader) pr begun facts
            (record { run = refl; merge = refl; quarantine = refl; free = refl })))
