-- ===== src/Selection.antt =====
-- Which issue is worked on next: nextRunnableCandidateWithOptionsContext of candidate_selection.go and
-- what it calls. `decimal` is the verb %d of fmt.
pub mod Rounds
pub mod Chosen
pub mod Idle
use agent_machine.Common.{
  ℕ, ◌+◌, String, Bool, true, false, not, ◌&&◌, ◌||◌, Option, none, some, List, [], ◌∷◌, ◌==◌, any,
  map, eqb, join, concat, map_codes, codes_eq, codes_contain, trim_space, lower_contains,
  if◌then◌else◌,
}
use agent_machine.Common.Words.{to_lower}
use agent_machine.State.{
  Time, Platform, WorkerTask, Event, Json, text, Payload, Call, Exec, ◌>>=◌, ◌>>◌, pure, choose,
}
use agent_machine.State.Tasks.{worker_tasks, append_event}
use agent_machine.Gate.{is_blank, is_nil}
use agent_machine.Runs.{RunRecord}
use agent_machine.Workers.{blocks_dispatch}
use agent_machine.Workers.Dispatch.{or_log}
use agent_machine.Candidates.{Issue, CandidateKey, candidate_sort_key, order_candidates}
use agent_machine.Candidates.Retry.{RetryFacts, RetryDecision, retry_backoff_decision}
use agent_machine.Reconcile.{
  Lifecycle, is_blocked, is_feedback_retry, lifecycle_name, PullRequestSummary, Facts, Config,
  Workspace, Read, unavailable, missing, found, Reader, Host, Decision, is_some,
}
use agent_machine.Reconcile.Blocks.{repair_next_action}
use agent_machine.Reconcile.Evidence.{reconciliation_facts}
use agent_machine.Reconcile.Decide.{reconcile_candidate}

-- RetryableRunStatus of internal/stateprojection/projection.go
unfoldable pub retryable_run_status : String → Bool
unfolding to_lower
retryable_run_status status =
    let s = to_lower (trim_space status) in
    s == "failed" || s == "failure" || s == "blocked" || s == "timeout" || s == "budget_exceeded"

-- The decision on a retry, with whether there is one, is a pair.
unfoldable pub retry_gate_allows_repairable_review_failed_pr : Decision → RetryDecision → Bool
retry_gate_allows_repairable_review_failed_pr d r =
    r.next_state == repair_next_action
    && d.can_run
    && d.should_retry
    && d.next_action == repair_next_action
    && not d.reconciliation_needed

unfoldable pub retry_gate_allows_repair : Decision → RetryDecision → Bool
retry_gate_allows_repair d r =
    if retry_gate_allows_repairable_review_failed_pr d r
    then true
    else d.can_run
      && d.should_retry
      && is_feedback_retry d.lifecycle
      && d.next_action == "retry_with_unresolved_pr_feedback"
      && not d.reconciliation_needed

abbrev pub status_of_record : Option RunRecord → String
status_of_record none = ""
status_of_record (some r) = r.status

unfoldable pub retry_backoff_overrides_terminal_block : Decision → RetryDecision × Bool → Bool
retry_backoff_overrides_terminal_block d (r, there) =
    if not there || not r.runnable || is_some d.pr || not (is_some d.run_record)
    then false
    else if not (is_blocked d.lifecycle)
        || not (d.next_action == "operator_repair_or_clear_artifact")
    then false
    else retryable_run_status (status_of_record d.run_record)

-- strings.Contains(strings.Join(decision.Blockers, ","), "blocked label")
unfoldable pub has_blocked_label : Decision → Bool
has_blocked_label d =
    is_blocked d.lifecycle
    && codes_contain (map_codes (λ c. c) "blocked label") (map_codes (λ c. c) (join "," d.blockers))

abbrev pub retry_facts_of : Read Facts → Option RetryFacts
retry_facts_of (found f) = some (record {
  retry_next_state = f.retry_next_state;
  retry_count = f.retry_count;
  retry_decided_at = f.retry_decided_at;
})
retry_facts_of _ = none

unfoldable pub candidate_order_reason : (ℕ → String) → CandidateKey → Issue → String
candidate_order_reason decimal key c = concat (
    "state_rank="
    ∷ decimal key.state_rank
    ∷ " safety_rank="
    ∷ decimal key.safety_rank
    ∷ " priority="
    ∷ (if eqb c.priority 0 then "none" else concat ("P" ∷ decimal c.priority ∷ []))
    ∷ " created_at="
    ∷ c.created_at
    ∷ " labels="
    ∷ (if is_nil c.labels then "none" else join "," c.labels)
    ∷ [])

-- the loop of hasActiveWorkerTask
unfoldable pub is_active : List WorkerTask → String → Bool
is_active tasks key = any (λ t. t.issue_key == key && blocks_dispatch t.status) tasks

-- the issue that a round returns, with its pull request
abbrev pub Choice : Type 0
Choice = Issue × Option PullRequestSummary

-- what was chosen, or else what comes next
abbrev pub or_next : Option Choice → Exec (Option Choice) → Exec (Option Choice)
or_next none next = next
or_next (some choice) next = pure (some choice)

-- What the selection reads but the queue: the answers of the code host, the workspaces, the store's facts
-- and its leases, the configured back-off, the clock, and the option SkipReviewReadyResumes.
pub record Scene : Type 0 where
  pub host : Host
  pub config : Config
  pub workspaces : String → Workspace
  pub reader : Option Reader
  pub now : Time
  pub canceled : Option String
  pub prs : String → Option PullRequestSummary
  pub max_retry_backoff : ℕ
  pub parse_time : String → Option ℕ
  pub decimal : ℕ → String
  pub skip_review_ready_resumes : Bool

module _ (sys : Platform) (scene : Scene) where
  abbrev pub decision_on : Issue → Decision
  decision_on c =
      reconcile_candidate scene.host scene.config scene.workspaces scene.reader scene.now
        scene.canceled c (scene.prs c.identifier)

  abbrev pub retry_on : Issue → RetryDecision × Bool
  retry_on c =
      retry_backoff_decision sys.format_time scene.config.needs_info_state scene.config.done_state
        scene.max_retry_backoff scene.now (is_some scene.reader) c.state
        (retry_facts_of (reconciliation_facts scene.workspaces scene.reader c.identifier))

  -- the test of skipCandidateForSelectionOptionsContext
  unfoldable pub is_left_to_review : Issue → Bool
  is_left_to_review c =
      scene.skip_review_ready_resumes
      && not (is_blank scene.config.review_command)
      && is_some (scene.prs c.identifier)
      && (decision_on c).can_run
      && (decision_on c).next_action == "run_semantic_review_after_checks_ready"

  unfoldable pub is_held_back : Issue → Bool
  is_held_back c =
      is_some scene.reader
      && (retry_on c).1
      && not (retry_on c).0.runnable
      && not (retry_gate_allows_repair (decision_on c) (retry_on c).0)

  unfoldable pub is_runnable : Issue → Bool
  is_runnable c =
      (decision_on c).can_run || retry_backoff_overrides_terminal_block (decision_on c) (retry_on c)

  abbrev pub is_ready : Issue → Bool
  is_ready c = c.state == scene.config.ready_state

  module _ (listing noting : Call → Bool) where
    -- emitCandidateEventContext
    unfoldable pub emit : String → Issue → Payload → Exec (Unit {0})
    emit event_type c payload =
        choose (is_some scene.reader)
          (or_log (
            append_event sys noting scene.now (record {
              occurred_at = scene.now;
              issue_key = c.identifier;
              issue_id = c.id;
              attempt = 1;
              run_id = "";
              source = "runner.candidate_selection";
              event_type = event_type;
              payload = payload;
            })))
          (pure tt)

    abbrev pub skip : Issue → Payload → Exec (Option Choice)
    skip c payload = do _ ← emit "candidate_skipped" c payload; pure none

    abbrev pub select : Issue → Exec (Option Choice)
    select c = do
      _ ← emit "candidate_selected" c (
          ("state", text c.state)
          ∷ (
            "reason",
            text (
                candidate_order_reason scene.decimal
                  (candidate_sort_key scene.parse_time sys.text_lt scene.config.ready_state c) c),
          )
          ∷ [])
      pure (some (c, scene.prs c.identifier))

    -- hasActiveWorkerTask, for the role of the implementation
    unfoldable pub has_active_task : Issue → Exec Bool
    has_active_task c =
        choose (not (is_some scene.reader) || is_blank c.identifier) (pure false) (do
          tasks ← worker_tasks sys listing scene.now "implementation"
          pure (is_active tasks c.identifier))

    abbrev pub decision_payload : String → Issue → Payload
    decision_payload reason c =
        ("reason", text reason)
        ∷ ("lifecycle", text (lifecycle_name (decision_on c).lifecycle))
        ∷ ("blockers", Json.texts (decision_on c).blockers)
        ∷ ("next_action", text (decision_on c).next_action)
        ∷ []

    -- a round of the first loop after the tests of the queue
    unfoldable pub judge_ready : Issue → Exec (Option Choice)
    judge_ready c = choose (is_held_back c) (skip c (("reason", text (retry_on c).0.reason) ∷ [])) (
        choose (has_blocked_label (decision_on c)) (skip c (decision_payload "blocked_label" c)) (
          choose (is_ready c && is_runnable c) (select c) (
            choose (decision_on c).can_run (pure none)
              (skip c (("state", text c.state) ∷ decision_payload "not_runnable" c)))))

    -- a round of the second loop after them
    unfoldable pub judge_any : Issue → Exec (Option Choice)
    judge_any c = choose (is_held_back c) (pure none) (
        choose (has_blocked_label (decision_on c)) (pure none)
          (choose (is_runnable c) (select c) (pure none)))

    -- a round, up to the test of the queue; `busy` is what the loop does with an active task
    unfoldable pub round :
        (Issue → Exec (Option Choice))
        → (Issue → Exec (Option Choice))
        → Issue
        → Exec (Option Choice)
    round busy judge c =
        choose (is_left_to_review c)
          (skip c (
            ("reason", text "review_ready_resume")
            ∷ ("next_action", text "run_review_worker")
            ∷ []))
          (do active ← has_active_task c; choose active (busy c) (judge c))

    unfoldable pub first_choice : (Issue → Exec (Option Choice)) → List Issue → Exec (Option Choice)
    first_choice step [] = pure none
    first_choice step (c ∷ cs) = do choice ← step c; or_next choice (first_choice step cs)

    unfoldable pub next_runnable_candidate : List Issue → Exec (Option Choice)
    next_runnable_candidate candidates = do
      let ordered =
          order_candidates scene.parse_time sys.text_lt scene.config.ready_state candidates
      ready ←
          first_choice
            (round (λ c. skip c (("reason", text "implementation_task_active") ∷ [])) judge_ready)
            ordered
      or_next ready (first_choice (round (λ c. pure none) judge_any) ordered)
