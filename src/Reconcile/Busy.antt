-- ===== src/Reconcile/Busy.antt =====
-- An issue that is being worked on is left alone.
use agent_machine.Common.{
  String, ◌≡◌, refl, arith, Bool, true, false, ◌||◌, ◌==◌, Option, none, inl, inr, Bool-cases,
}
use agent_machine.Common.Returns.{returns_or, returns_last}
use agent_machine.State.{Time}
use agent_machine.Candidates.{Issue}
use agent_machine.Reconcile.{
  PullRequestSummary, ArtifactSummary, Config, Workspace, Reader, Host, Decision,
}
use agent_machine.Reconcile.Blocks.{repairable_review_failed_pr}
use agent_machine.Reconcile.Evidence.{active_run_lease}
use agent_machine.Reconcile.Decide.{
  guards, reconcile_active, reconcile_issue, with_repair, reconcile_candidate,
}
use agent_machine.Reconcile.Consistent.{is_repairable_action}
use agent_machine.Reconcile.Consistent.Scan.{repair_starts}

-- neither run nor merged, and not open to a repair
record IsHalted (d : Decision) : Type 0 where
  run : d.can_run ≡ false
  merge : d.can_merge ≡ false
  action : is_repairable_action d.next_action ≡ false
  cleared : (d.next_action == "operator_repair_or_clear_artifact") ≡ false

halted :
    {d : Decision}
    → d.can_run ≡ false
    → d.can_merge ≡ false
    → is_repairable_action d.next_action ≡ false
    → (d.next_action == "operator_repair_or_clear_artifact") ≡ false
    → IsHalted d
halted r m a c = record { run = r; merge = m; action = a; cleared = c }

both_false : (a b : Bool) → (a || b) ≡ true → a ≡ false → b ≡ false → ⊥
both_false a b h p q = ground (arith, h, p, q)

module _ (host : Host) (config : Config) (workspaces : String → Workspace) (reader : Option Reader)
    (now : Time) (canceled : Option String) where
  -- a run holds its lock in the workspace or its lease in the store
  abbrev pub is_busy : Issue → Bool
  is_busy c =
      (workspaces c.identifier).run_lock || (active_run_lease workspaces reader now c.identifier).1

  active-IsHalted :
      (c : Issue) (pr : Option PullRequestSummary) (a : Option ArtifactSummary)
      → is_busy c ≡ true
      → IsHalted (reconcile_active host config workspaces reader now canceled c pr a)
  unfolding reconcile_active guards
  active-IsHalted c pr a busy =
      returns_or IsHalted _ _ _ _ (λ _. halted refl refl refl refl)
        (λ _.
          returns_or IsHalted _ _ _ _ (λ _. halted refl refl refl refl)
            (λ unlocked.
              returns_or IsHalted _ _ _ _ (λ _. halted refl refl refl refl)
                (λ _.
                  returns_or IsHalted _ _ _ _ (λ _. halted refl refl refl refl)
                    (λ _.
                      returns_or IsHalted _ _ _ _ (λ _. halted refl refl refl refl)
                        (λ _.
                          returns_or IsHalted _ _ _ _ (λ _. halted refl refl refl refl)
                            (λ unleased. absurd (both_false _ _ busy unlocked unleased)))))))

  issue-IsHalted :
      (c : Issue) (pr : Option PullRequestSummary) (a : Option ArtifactSummary)
      → is_busy c ≡ true
      → IsHalted (reconcile_issue host config workspaces reader now canceled c pr a)
  unfolding reconcile_issue
  issue-IsHalted c pr a busy =
      returns_or IsHalted _ _ _ _ (λ _. halted refl refl refl refl)
        (λ _. returns_last IsHalted _ (active-IsHalted c pr a busy))

  with_repair-IsHalted :
      (c : Issue) (pr : Option PullRequestSummary) (d : Decision)
      → IsHalted d
      → IsHalted (with_repair host config workspaces reader now canceled c pr d)
  unfolding with_repair
  with_repair-IsHalted c pr d h =
      elim (Bool-cases (
        repairable_review_failed_pr host config (workspaces c.identifier) c pr d.next_action
          d.reconciliation_needed d.db_facts)) [
            | inl e ↦
                let starts =
                  repair_starts host config workspaces reader now canceled (workspaces c.identifier)
                    c pr d.next_action d.reconciliation_needed d.db_facts e in
                absurd (both_false _ false (ground (arith, starts)) h.action refl)
            | inr e ↦ rw e h
          ]

  -- the override of a terminal block does not reach it either
  pub reconcile_candidate-cleared :
      (c : Issue) (pr : Option PullRequestSummary)
      → is_busy c ≡ true
      → ((reconcile_candidate host config workspaces reader now canceled c pr).next_action
          == "operator_repair_or_clear_artifact")
        ≡ false
  unfolding reconcile_candidate
  reconcile_candidate-cleared c pr busy =
      (with_repair-IsHalted c pr _ (issue-IsHalted c pr none busy)).cleared

  -- While a run holds its lock or its lease, its issue is neither run nor merged, whatever else the store,
  -- the workspace and the code host say.
  pub reconcile_candidate-busy :
      (c : Issue) (pr : Option PullRequestSummary)
      → is_busy c ≡ true
      → let d = reconcile_candidate host config workspaces reader now canceled c pr in
        (d.can_run ≡ false) × (d.can_merge ≡ false)
  unfolding reconcile_candidate
  reconcile_candidate-busy c pr busy =
      let h = with_repair-IsHalted c pr _ (issue-IsHalted c pr none busy) in (h.run, h.merge)
