-- ===== src/Workers/Dispatch/Enqueued.antt =====
-- What an enqueue leaves, whatever fails.
use agent_machine.Common.{
  ◌≤◌, String, ◌≡◌, refl, Bool, true, false, ◌&&◌, ◌||◌, Option, none, some, ◌==◌, if◌then◌else◌,
}
use agent_machine.Common.Table.{passes}
use agent_machine.State.{Time, Platform, WorkerTask, Db, Result, ok, err, Event, Call, task_key}
use agent_machine.State.Rows.{view}
use agent_machine.State.Holds.{Holds, Holds-check}
use agent_machine.State.Tasks.{append_event, defaulted}
use agent_machine.Workers.{blocks_dispatch}
use agent_machine.Workers.Dispatch.{Errand}

-- a row that keeps the errand out of the queue
abbrev pub is_in_the_way : Errand → WorkerTask → Bool
is_in_the_way e t = (e.role == "" || t.role == e.role) && blocks_dispatch t.status

-- the time at which the row of a key was first written
abbrev pub first_created : WorkerTask → Option WorkerTask → Time
first_created new none = new.created_at
first_created new (some old) = old.created_at

-- The errand waits for a task that is there, and nothing changes; or no task is in its way, and its row is
-- a queued one of the errand, but for the time of its creation, and no other row changes. On an error
-- nothing changes.
abbrev pub Enqueued : Time → Errand → Time → Db → Result (WorkerTask × Bool) × Db → Type 0
Enqueued clock e now before (err why, after) = after ≡ before
Enqueued clock e now before (ok (t, false), after) =
    (after ≡ before) × (view before.tasks e.key ≡ some t) × (blocks_dispatch t.status ≡ true)
Enqueued clock e now before (ok (t, true), after) =
    (t ≡ record {
      task_key = e.key;
      role = e.role;
      issue_key = e.issue_key;
      issue_id = e.issue_id;
      attempt = 1;
      status = "queued";
      priority = e.priority;
      available_at = t.available_at;
      lease_name = e.lease_name;
      payload = e.payload;
      created_at = now;
      updated_at = now;
    })
    × (now ≤ t.available_at)
    × (passes (is_in_the_way e) (view before.tasks e.key) ≡ false)
    × ((j : String)
        → view after.tasks j ≡ (
            if e.key == j
            then some (record (defaulted clock t) {
              status = "queued";
              created_at = first_created (defaulted clock t) (view before.tasks e.key);
            })
            else view before.tasks j))

pub append_event-tasks :
    (sys : Platform) (fails : Call → Bool) (clock : Time) (ev : Event) (db : Db)
    → Holds (λ out. out.1.tasks ≡ db.tasks) (append_event sys fails clock ev) db
unfolding append_event
append_event-tasks sys fails clock ev db =
    Holds-check _ _ db (λ e. refl)
      (Holds-check _ _ db (λ e. refl) (Holds-check _ _ db (λ e. refl) (record { at = refl })))
