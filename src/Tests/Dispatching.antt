-- ===== src/Tests/Dispatching.antt =====
-- The dispatch of tasks, the selection and the transitions on concrete inputs.
use agent_machine.Common.{
  String, ◌&&◌, ◌==◌, ◌≡◌, refl, Bool, true, false, not, none, some, List, [], ◌∷◌, trim_space,
  trim_left, trim_right, is_space, if◌then◌else◌,
}
use agent_machine.Common.Table.{passes, map_some}
use agent_machine.State.{ok, time_or, Call, ◌>>=◌}
use agent_machine.State.Holds.{Holds}
use agent_machine.State.Rows.{view}
use agent_machine.State.Tasks.{worker_tasks, append_event}
use agent_machine.State.Tasks.Claims.{never}
use agent_machine.State.Tasks.Completed.{completion, is_completed, succeeds}
use agent_machine.Candidates.{Issue, order_candidates}
use agent_machine.Workers.Dispatch.{Stage}
use agent_machine.Workers.Dispatch.Enqueued.{Enqueued}
use agent_machine.Common.Returns.{first_return}
use agent_machine.Candidates.Retry.{retry_backoff_decision}
use agent_machine.Reconcile.Evidence.{reconciliation_facts}
use agent_machine.Reconcile.Settle.{settle_without_pr}
use agent_machine.Reconcile.Decide.{reconcile_candidate}
use agent_machine.Selection.{
  emit, first_choice, round, is_left_to_review, has_active_task, is_active, judge_ready,
  is_held_back, has_blocked_label, is_runnable, retry_backoff_overrides_terminal_block, Scene,
  next_runnable_candidate,
}
use agent_machine.Selection.Rounds.{Returns, is_taken}
use agent_machine.Selection.Chosen.{preferred, choice_of, next_runnable_candidate-Returns}
use agent_machine.Selection.Idle.{is_locked, next_runnable_candidate-idle}
use agent_machine.Linear.{
  TransitionPayload, Client, normalize_transition_payload, execute_transition_task,
}
use agent_machine.Linear.Payload.{normalize_transition_payload_idem}
use agent_machine.Linear.Executed.{is_accepted, execute_transition_task_lem}
use agent_machine.Tests.Data.{platform, store, claimed_task, strokes, store-HasUniqueKeys}
use agent_machine.Tests.Reconciling.{host, config, workspaces, reader, locked_issue, approved_issue}

-- the reads work, the upsert fails
abbrev upsert_fails : Stage → Call → Bool
upsert_fails Stage.queueing Call.insert = true
upsert_fails _ _ = false

abbrev scene : Scene
scene = record {
  host = host;
  config = config;
  workspaces = workspaces;
  reader = some reader;
  now = 100;
  canceled = none;
  prs = λ key. none;
  max_retry_backoff = 60;
  parse_time = λ s. none;
  decimal = strokes;
  skip_review_ready_resumes = true;
}

abbrev ready_issue : Issue
ready_issue = record approved_issue { identifier = "CAG-3"; state = "Ready" }

abbrev candidates : List Issue
candidates = locked_issue ∷ ready_issue ∷ []

next_runnable_candidate-Returns_example :
    Holds
      (Returns store.tasks (
        choice_of platform scene (
          preferred platform scene store.tasks
            (order_candidates scene.parse_time platform.text_lt "Ready" candidates))))
      (next_runnable_candidate platform scene never never candidates)
      store
next_runnable_candidate-Returns_example =
    next_runnable_candidate-Returns platform scene never never refl candidates store

is_chosen :
    (next_runnable_candidate platform scene never never candidates store).0
    ≡ ok (some (ready_issue, none))
unfolding next_runnable_candidate ◌>>=◌ first_choice order_candidates round is_left_to_review
    has_active_task worker_tasks is_active judge_ready is_held_back retry_backoff_decision
    reconciliation_facts has_blocked_label reconcile_candidate first_return is_runnable
    retry_backoff_overrides_terminal_block emit append_event settle_without_pr
is_chosen = refl

next_runnable_candidate-idle_example :
    (is_locked platform scene ready_issue ≡ false)
    × (is_taken platform scene store.tasks ready_issue ≡ false)
    × (none ≡ scene.prs ready_issue.identifier)
next_runnable_candidate-idle_example =
    next_runnable_candidate-idle platform scene never never refl candidates store ready_issue none
      is_chosen

abbrev payload : TransitionPayload
payload = record {
  kind = " ";
  issue_id = " id-1";
  issue_identifier = "CAG-1";
  issue_title = "Title ";
  issue_url = "";
  team_id = "team";
  target_state = "In Review";
}

abbrev normalized : TransitionPayload
normalized = record payload { kind = "transition"; issue_id = "id-1"; issue_title = "Title" }

normalize_transition_payload_idem_example : normalize_transition_payload normalized ≡ ok normalized
normalize_transition_payload_idem_example =
    normalize_transition_payload_idem payload normalized
      (unfold normalize_transition_payload trim_space trim_left trim_right is_space in refl)

abbrev client : Client
client = record {
  workflow_states = λ team. ok (record { id = "s1"; name = "In Review" } ∷ []);
  update_fails = λ issue_id id. false;
  encode = λ p. p.target_state;
  decode = λ s. some payload;
  canceled = false;
  canceled_moving = false;
}

execute_transition_task_lem_example :
    let out = execute_transition_task client platform never 50 claimed_task store in
    let status : String = if out.0.has_failed then "failed" else "completed" in
    (out.0.has_failed ≡ not (passes (is_accepted client) out.0.sent))
    × (succeeds out.0.completion ≡ is_completed never (view store.tasks "b"))
    × ((j : String)
        → view out.1.tasks j ≡ (
            if "b" == j && not (never Call.update)
            then map_some (completion status (time_or 50 50)) (view store.tasks "b")
            else view store.tasks j))
execute_transition_task_lem_example =
    execute_transition_task_lem client platform never 50 claimed_task store store-HasUniqueKeys refl
