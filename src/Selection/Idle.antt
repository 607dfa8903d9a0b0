-- ===== src/Selection/Idle.antt =====
-- No issue is chosen that is being worked on.
use agent_machine.Common.{
  ◌≡◌, refl, ap, sym, ◌∙◌, arith, Bool, true, false, not, ◌&&◌, ◌||◌, Option, none, some, List, [],
  ◌∷◌, ◌==◌, any, inl, inr, Bool-cases, Option-cases, if◌then◌else◌,
}
use agent_machine.Gate.{is_blank}
use agent_machine.Workers.{blocks_dispatch}
use agent_machine.State.{Platform, WorkerTask, Db, ok, Call}
use agent_machine.Candidates.{Issue, order_candidates}
use agent_machine.Candidates.Retry.{RetryDecision}
use agent_machine.Reconcile.{PullRequestSummary, Decision, is_blocked, is_some}
use agent_machine.Reconcile.Busy.{is_busy, reconcile_candidate-busy, reconcile_candidate-cleared}
use agent_machine.Selection.{
  Scene, Choice, is_left_to_review, is_held_back, is_runnable, is_ready, decision_on, retry_on,
  has_blocked_label, retryable_run_status, status_of_record, retry_backoff_overrides_terminal_block,
  next_runnable_candidate,
}
use agent_machine.Selection.Rounds.{is_taken, is_free, is_free_ready, is_open}
use agent_machine.Selection.Chosen.{first, preferred, choice_of, next_runnable_candidate-Returns}

first-passes : {A : Type 0} (p : A → Bool) (xs : List A) (x : A) → first p xs ≡ some x → p x ≡ true
first-passes p [] x h = cc
first-passes p (y ∷ ys) x h = elim (Bool-cases (p y)) [
  | inl e ↦ let same : y ≡ x = let h' = rw e at h in cc in rw (← same) e
  | inr e ↦ first-passes p ys x (rw e at h)
]

no_override :
    (a b c : Bool) → (if a then false else if not b || not false then false else c) ≡ false
no_override true b c = refl
no_override false true c = refl
no_override false false c = refl

-- a block whose next action is another one is not overridden
overrides-cleared :
    (d : Decision) (r : RetryDecision × Bool)
    → (d.next_action == "operator_repair_or_clear_artifact") ≡ false
    → retry_backoff_overrides_terminal_block d r ≡ false
unfolding retry_backoff_overrides_terminal_block
overrides-cleared d (r, there) h = rw h (
    no_override (not there || not r.runnable || is_some d.pr || not (is_some d.run_record))
      (is_blocked d.lifecycle) (retryable_run_status (status_of_record d.run_record)))

free_parts :
    (l t h b r : Bool)
    → (not l && (not t && (not h && (not b && r)))) ≡ true
    → (t ≡ false) × (r ≡ true)
free_parts l t h b r e = (ground (arith, e), ground (arith, e))

ready_parts :
    (l t a h b r : Bool)
    → (not l && (not t && (a && (not h && (not b && r))))) ≡ true
    → (t ≡ false) × (r ≡ true)
ready_parts l t a h b r e = (ground (arith, e), ground (arith, e))

either : (a b : Bool) → (a || b) ≡ true → a ≡ false → b ≡ false → ⊥
either a b h p q = ground (arith, h, p, q)

module _ (sys : Platform) (scene : Scene) where
  -- a run holds its lock or its lease
  abbrev pub is_locked : Issue → Bool
  is_locked c =
      is_busy scene.host scene.config scene.workspaces scene.reader scene.now scene.canceled c

  runnable-unlocked : (c : Issue) → is_runnable sys scene c ≡ true → is_locked c ≡ false
  unfolding is_runnable
  runnable-unlocked c h = elim (Bool-cases (is_locked c)) [
    | inl busy ↦
        let (run, _) =
          reconcile_candidate-busy scene.host scene.config scene.workspaces scene.reader scene.now
            scene.canceled c (scene.prs c.identifier) busy in
        let cleared =
          reconcile_candidate-cleared scene.host scene.config scene.workspaces scene.reader
            scene.now scene.canceled c (scene.prs c.identifier) busy in
        absurd (
          either _ _ h run
            (overrides-cleared (decision_on sys scene c) (retry_on sys scene c) cleared))
    | inr idle ↦ idle
  ]

  -- what an open issue is
  preferred-parts :
      (tasks : List WorkerTask) (cs : List Issue) (c : Issue)
      → preferred sys scene tasks cs ≡ some c
      → (is_taken sys scene tasks c ≡ false) × (is_runnable sys scene c ≡ true)
  preferred-parts tasks cs c h =
      elim (Option-cases (first (is_open sys scene tasks (is_free_ready sys scene)) cs)) [
        | inl n ↦
            free_parts (is_left_to_review sys scene c) (is_taken sys scene tasks c)
              (is_held_back sys scene c) (has_blocked_label (decision_on sys scene c))
              (is_runnable sys scene c)
              (first-passes (is_open sys scene tasks (is_free sys scene)) cs c (rw n at h))
        | inr (x, e) ↦
            let same : x ≡ c = let h' = rw e at h in cc in
            ready_parts (is_left_to_review sys scene c) (is_taken sys scene tasks c)
              (is_ready sys scene c) (is_held_back sys scene c)
              (has_blocked_label (decision_on sys scene c)) (is_runnable sys scene c)
              (rw (← same)
                (first-passes (is_open sys scene tasks (is_free_ready sys scene)) cs x e))
      ]

  chosen :
      (o : Option Issue) (c : Issue) (pr : Option PullRequestSummary)
      → choice_of sys scene o ≡ some (c, pr)
      → (o ≡ some c) × (pr ≡ scene.prs c.identifier)
  chosen none c pr h = cc
  chosen (some x) c pr h =
      let same : (x, scene.prs x.identifier) ≡ (c, pr) = cc in
      (
        ap (λ (p : Choice). some p.0) same,
        sym (ap (λ (p : Choice). p.1) same) ∙ ap (λ (p : Choice). scene.prs p.0.identifier) same,
      )

  -- An issue that is chosen has no lock and no lease of a run. Where there is a store and the issue has an
  -- identifier, the store has no task of the role implementation for it that waits, is claimed or needs an
  -- operator; tasks of other roles do not count. Its pull request is the one that the code host gives for it.
  -- The reads of the queue work.
  pub next_runnable_candidate-idle :
      (listing noting : Call → Bool)
      → listing Call.select ≡ false
      → (candidates : List Issue) (db : Db) (c : Issue) (pr : Option PullRequestSummary)
      → (next_runnable_candidate sys scene listing noting candidates db).0 ≡ ok (some (c, pr))
      → (is_locked c ≡ false)
        × ((is_some scene.reader
              && not (is_blank c.identifier)
              && any
                  (λ t.
                    t.role == "implementation"
                    && (t.issue_key == c.identifier
                        && (t.status == "queued"
                            || t.status == "claimed"
                            || t.status == "reconciliation_needed")))
                  db.tasks)
            ≡ false)
        × (pr ≡ scene.prs c.identifier)
  unfolding blocks_dispatch
  next_runnable_candidate-idle listing noting works candidates db c pr h =
      let ordered =
        order_candidates scene.parse_time sys.text_lt scene.config.ready_state candidates in
      let value =
        (next_runnable_candidate-Returns sys scene listing noting works candidates db).at in
      let same : choice_of sys scene (preferred sys scene db.tasks ordered) ≡ some (c, pr) =
        let both = sym value.0 ∙ h in cc in
      let (which, whose) = chosen (preferred sys scene db.tasks ordered) c pr same in
      let (free, runs) = preferred-parts db.tasks ordered c which in
      (runnable-unlocked c runs, free, whose)
