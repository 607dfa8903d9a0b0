-- ===== src/Linear.antt =====
-- The worker that moves issues to another state in Linear: internal/linearstatus.
pub mod Payload
pub mod Executed
use agent_machine.Common.{
  ℕ, String, Bool, true, false, not, ◌&&◌, ◌||◌, Option, none, some, List, [], ◌∷◌, ◌++◌, ◌==◌,
  concat, join, trim_space, map_codes, codes_prefix, if◌then◌else◌,
}
use agent_machine.Common.Words.{fields, to_lower}
use agent_machine.State.{
  Time, Platform, WorkerTask, Result, ok, err, Error, required, invalid_payload, Db, Call, Exec,
  ◌>>=◌, ◌>>◌, pure, raise, choose, status_queued, status_failed,
}
use agent_machine.State.Tasks.{
  worker_tasks, upsert_worker_task, claim_worker_task, complete_worker_task,
}
use agent_machine.Workers.{available_at_after_latest_failure}

pub record TransitionPayload : Type 0 where
  pub kind : String
  pub issue_id : String
  pub issue_identifier : String
  pub issue_title : String
  pub issue_url : String
  pub team_id : String
  pub target_state : String

pub record WorkflowState : Type 0 where
  pub id : String
  pub name : String

abbrev pub trimmed : TransitionPayload → TransitionPayload
trimmed p = record {
  kind = let kind = trim_space p.kind in if kind == "" then "transition" else kind;
  issue_id = trim_space p.issue_id;
  issue_identifier = trim_space p.issue_identifier;
  issue_title = trim_space p.issue_title;
  issue_url = trim_space p.issue_url;
  team_id = trim_space p.team_id;
  target_state = trim_space p.target_state;
}

-- the tests of a trimmed payload
unfoldable pub validate : TransitionPayload → Result TransitionPayload
validate p =
    if not (p.kind == "transition")
    then err invalid_payload
    else if p.issue_id == ""
    then err (required "issue_id")
    else if p.issue_identifier == ""
    then err (required "issue_identifier")
    else if p.team_id == ""
    then err (required "team_id")
    else if p.target_state == ""
    then err (required "target_state")
    else ok p

unfoldable pub normalize_transition_payload : TransitionPayload → Result TransitionPayload
unfolding validate
normalize_transition_payload p = validate (trimmed p)

unfoldable pub task_key_token : String → String
unfolding fields to_lower
task_key_token value =
    let words = fields (to_lower (trim_space value)) in
    elim words [ [] ↦ "unknown" | ◌∷◌ w ws ↦ join "-" (w ∷ ws) ]

unfoldable pub transition_task_key : TransitionPayload → String
unfolding task_key_token
transition_task_key p =
    concat
      ("linear-status:" ∷ p.issue_identifier ∷ ":transition:" ∷ task_key_token p.target_state ∷ [])

-- StateID
unfoldable pub state_id : List WorkflowState → String → String
state_id [] name = ""
state_id (s ∷ ss) name = let rest = state_id ss name in if s.name == name then s.id else rest

-- Linear's answers, the encoding of a payload by encoding/json, and whether the
-- context is canceled before the task is executed and before the issue is moved.
pub record Client : Type 0 where
  pub workflow_states : String → Result (List WorkflowState)
  pub update_fails : String → String → Bool
  pub encode : TransitionPayload → String
  pub decode : String → Option TransitionPayload
  pub canceled : Bool
  pub canceled_moving : Bool

-- What a transition did: the issue and the state that it sent to Linear, if it did, whether it failed, and
-- what completing its task returned. Go's errors.Join has the two errors.
pub record Transition : Type 0 where
  pub sent : Option (String × String)
  pub has_failed : Bool
  pub completion : Result (Unit {0})

abbrev pub stopped : Option (String × String) × Bool
stopped = (none, true)

module _ (client : Client) where
  -- DecodeTransitionPayload
  unfoldable pub decode_transition_payload : String → Result TransitionPayload
  unfolding normalize_transition_payload
  decode_transition_payload bytes = elim (client.decode bytes) [
    | none ↦ err invalid_payload
    | some p ↦ normalize_transition_payload p
  ]

  -- MoveToContext: what it sent, and whether the caller goes on with an error. The states' lists are those
  -- of the team.
  unfoldable pub move_to : List WorkflowState → String → String → Option (String × String) × Bool
  move_to states issue_id name =
      let target = trim_space name in
      let id = state_id states target in
      if client.canceled_moving
      then stopped
      else if target == "" || id == ""
      then stopped
      else (some (issue_id, id), client.update_fails issue_id id)

  abbrev pub move_in :
      TransitionPayload → Result (List WorkflowState) → Option (String × String) × Bool
  move_in p (err e) = stopped
  move_in p (ok states) = move_to states p.issue_id p.target_state

  abbrev pub attempt_payload : Result TransitionPayload → Option (String × String) × Bool
  attempt_payload (err e) = stopped
  attempt_payload (ok p) =
      if client.canceled then stopped else move_in p (client.workflow_states p.team_id)

  -- ExecuteTransitionTask up to the completion of the task
  unfoldable pub attempt : WorkerTask → Option (String × String) × Bool
  attempt task = attempt_payload (decode_transition_payload task.payload)

  module _ (sys : Platform) (fails : Call → Bool) (clock : Time) where
    -- CompleteTransitionTask, which a canceled context does not keep from it
    unfoldable pub complete_transition_task : WorkerTask → Bool → Exec (Unit {0})
    complete_transition_task task failed =
        complete_worker_task sys fails clock task.task_key
          (if failed then status_failed else "completed") clock

    unfoldable pub execute_transition_task : WorkerTask → Db → Transition × Db
    execute_transition_task task db =
        let (sent, failed) = attempt task in
        let (completion, db') = complete_transition_task task failed db in
        (record { sent = sent; has_failed = failed; completion = completion }, db')

-- strings.HasPrefix(task.TaskKey, "process:")
abbrev pub is_process_task : WorkerTask → Bool
is_process_task t = codes_prefix (map_codes (λ c. c) "process:") (map_codes (λ c. c) t.task_key)

abbrev pub transition_row : Client → TransitionPayload → ℕ → Time → WorkerTask
transition_row client p priority available_at = record {
  task_key = transition_task_key p;
  role = "linear-status";
  issue_key = p.issue_identifier;
  issue_id = p.issue_id;
  attempt = 0;
  status = status_queued;
  priority = priority;
  available_at = available_at;
  lease_name = concat ("linear-status:" ∷ p.issue_identifier ∷ []);
  payload = client.encode p;
  created_at = 0;
  updated_at = 0;
}

-- a value that was computed before the store was asked
abbrev pub given : {A : Type 0} → Result A → Exec A
given r db = (r, db)

module _ (sys : Platform) (delay queueing listing claiming completion : Call → Bool)
    (clock : Time) where
  unfoldable pub queue_transition_task : Client → TransitionPayload → ℕ → Time → Exec (Unit {0})
  unfolding normalize_transition_payload transition_task_key available_at_after_latest_failure
      upsert_worker_task
  queue_transition_task client payload priority available_at = do
    p ← given (normalize_transition_payload payload)
    at ←
        available_at_after_latest_failure sys delay clock (transition_task_key p) "linear-status"
          available_at
    upsert_worker_task sys queueing clock (transition_row client p priority at)

  -- what a round of the loop leaves to the next
  abbrev pub or_claim : Option WorkerTask → Exec (Option WorkerTask) → Exec (Option WorkerTask)
  or_claim none next = next
  or_claim (some t) next = pure (some t)

  unfoldable pub claim_first : List WorkerTask → Exec (Option WorkerTask)
  unfolding claim_worker_task
  claim_first [] = pure none
  claim_first (t ∷ ts) =
      choose (not (t.status == status_queued) || is_process_task t) (claim_first ts) (do
        claimed ← claim_worker_task sys claiming clock t.task_key clock
        or_claim claimed (claim_first ts))

  unfoldable pub claim_next_transition_task : Exec (Option WorkerTask)
  unfolding claim_first worker_tasks
  claim_next_transition_task = do
    tasks ← worker_tasks sys listing clock "linear-status"
    claim_first tasks

  abbrev pub execute_claimed :
      Client → Result (Option WorkerTask) → Db → Result (Option Transition) × Db
  execute_claimed client (err e) db = (err e, db)
  execute_claimed client (ok none) db = (ok none, db)
  execute_claimed client (ok (some t)) db =
      let (outcome, db') = execute_transition_task client sys completion clock t db in
      (ok (some outcome), db')

  -- RunTransitionTaskContext: the transition, if it claimed a task
  unfoldable pub run_transition_task : Client → Exec (Option Transition)
  unfolding claim_next_transition_task execute_transition_task
  run_transition_task client db =
      let (claimed, db') = claim_next_transition_task db in
      if client.canceled then (err Error.unavailable, db) else execute_claimed client claimed db'
