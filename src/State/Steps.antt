-- ===== src/State/Steps.antt =====
-- The workers' use of the queue: any operations of the store on its tasks, in any order, each with
-- its own clock and its own failures of the database.
pub mod Diagram
pub mod Queued
pub mod Counting
use agent_machine.Common.{ℕ, String, Bool, Option, none, some, List, [], ◌∷◌}
use agent_machine.State.{Time, Platform, WorkerTask, Db, Result, ok, err, Call}
use agent_machine.State.Tasks.{
  upsert_worker_task, claim_worker_task, claim_next_worker_task, complete_worker_task,
  touch_claimed_worker_task, requeue_reconciliation_needed,
}
use agent_machine.State.Recovery.{mark_stale_claimed}

pub data Op : Type 0 where
  upsert_task : WorkerTask → Op
  claim : String → Time → Op
  claim_next : String → Time → Op
  complete : String → String → Time → Op
  touch : String → Time → Op
  requeue : String → String → Time → Op
  recover : Time → ℕ → Op

-- The calls of a round of the recovery fail by the round's key; those of the others by "".
pub record Turn : Type 0 where
  pub op : Op
  pub fails : String → Call → Bool
  pub clock : Time

abbrev pub handed : Result (Option WorkerTask) → Option WorkerTask
handed (ok o) = o
handed (err e) = none

-- the task that the operation hands to its caller for work, and the database after it
unfoldable pub perform_op :
    Platform → Op → (String → Call → Bool) → Time → Db → Option WorkerTask × Db
perform_op sys (upsert_task t) fails clock db =
    (none, (upsert_worker_task sys (fails "") clock t db).1)
perform_op sys (claim k now) fails clock db =
    let (r, db') = claim_worker_task sys (fails "") clock k now db in (handed r, db')
perform_op sys (claim_next role now) fails clock db =
    let (r, db') = claim_next_worker_task sys (fails "") clock role now db in (handed r, db')
perform_op sys (complete k status now) fails clock db =
    (none, (complete_worker_task sys (fails "") clock k status now db).1)
perform_op sys (touch k now) fails clock db =
    (none, (touch_claimed_worker_task sys (fails "") clock k now db).1)
perform_op sys (requeue k reason now) fails clock db =
    (none, (requeue_reconciliation_needed sys (fails "") clock k reason now db).1)
perform_op sys (recover now stale_after) fails clock db =
    (none, (mark_stale_claimed sys fails clock now stale_after db).1)

abbrev pub perform : Platform → Turn → Db → Option WorkerTask × Db
perform sys turn db = perform_op sys turn.op turn.fails turn.clock db

unfoldable pub run : Platform → List Turn → Db → Db
run sys [] db = db
run sys (turn ∷ turns) db = run sys turns (perform sys turn db).1
