-- ===== src/Tests/Queue.antt =====
-- The queue on a small store.
use agent_machine.Common.{
  ◌&&◌, ℕ, ◌+◌, ◌-◌, ◌≤◌, String, ◌≡◌, refl, Bool, true, false, Option, none, some, List, [], ◌∷◌,
  ◌==◌, inl, inr, ◌⊎◌, All, if◌then◌else◌,
}
use agent_machine.Common.Table.{passes, map_some, applied}
use agent_machine.State.{
  day_le, WorkerTask, Db, ok, Result, err, time_or, status_queued, status_claimed,
}
use agent_machine.State.Holds.{Holds}
use agent_machine.State.Rows.{view}
use agent_machine.State.Tasks.{
  is_claimable, is_due, claim_row, claim_worker_task, claim_next_worker_task,
  requeue_reconciliation_needed,
}
use agent_machine.State.Tasks.Claims.{
  never, IsFirst, claim_worker_task_lem, claim_next_worker_task_lem,
}
use agent_machine.State.Tasks.Repair.{Requeued, requeue_reconciliation_needed-Requeued}
use agent_machine.State.Recovery.{recover_key, mark_stale_claimed}
use agent_machine.State.Recovery.Round.{Recovered, recover_key-Recovered}
use agent_machine.State.Recovery.Loop.{Kept, mark_stale_claimed-Kept}
use agent_machine.State.{WorkerResult, raw}
use agent_machine.State.Results.{Stored, upsert_worker_result, upsert_worker_result-Stored}
use agent_machine.State.Steps.{claim, claim_next, complete, requeue, Turn, perform_op}
use agent_machine.State.Steps.Diagram.{Move, perform_op-Move}
use agent_machine.State.Steps.Queued.{queued_in}
use agent_machine.State.Steps.Counting.{times_handed_out, times_enqueued, times_handed_out-bound}
use agent_machine.Tests.Data.{
  platform, text_before-IsOrder, store, store-HasUniqueKeys, claimed_task, broken,
}

abbrev turns : List Turn
turns =
    record { op = claim_next "work" 6; fails = λ k. never; clock = 6 }
    ∷ record { op = claim "a" 7; fails = λ k. broken; clock = 7 }
    ∷ record { op = complete "a" "done" 8; fails = λ k. never; clock = 8 }
    ∷ record { op = requeue "c" "" 8; fails = λ k. never; clock = 8 }
    ∷ record { op = claim_next "work" 9; fails = λ k. never; clock = 9 }
    ∷ []

times_handed_out-bound_example :
    times_handed_out platform "c" turns store
    ≤ queued_in (view store.tasks "c") + times_enqueued "c" turns
times_handed_out-bound_example = times_handed_out-bound platform "c" turns store store-HasUniqueKeys

perform_op-Move_example :
    Move
      (view store.tasks "a")
      (view (perform_op platform (claim_next "work" 6) (λ k. never) 6 store).1.tasks "a")
perform_op-Move_example =
    perform_op-Move platform (claim_next "work" 6) (λ k. never) 6 store store-HasUniqueKeys (λ e. e)
      "a"

claim_worker_task_lem_example :
    let due = λ (t : WorkerTask). t.status == "queued" && day_le platform t.available_at 6 in
    let row = λ (t : WorkerTask). record t { status = "claimed"; updated_at = 6 } in
    let out = claim_worker_task platform never 6 "a" 0 store in
    (out.0
      ≡ ok
          (if passes due (view store.tasks "a") then map_some row (view store.tasks "a") else none))
    × ((j : String)
        → view out.1.tasks j
          ≡ (if "a" == j then applied due row (view store.tasks "a") else view store.tasks j))
claim_worker_task_lem_example =
    claim_worker_task_lem platform 6 "a" 0 store refl store-HasUniqueKeys

claim_next_worker_task_lem_example :
    let out = claim_next_worker_task platform never 6 "work" 0 store in
    ((out.0 ≡ ok none)
      × (out.1 ≡ store)
      × All (λ s. is_due platform "work" 6 s ≡ false) store.tasks)
    ⊎ ((t : WorkerTask) × IsFirst platform "work" 6 store.tasks t
        × (out.0 ≡ ok (some (claim_row 6 t)))
        × ((j : String)
            → view out.1.tasks j
              ≡ (if t.task_key == j then some (claim_row 6 t) else view store.tasks j)))
claim_next_worker_task_lem_example =
    claim_next_worker_task_lem platform 6 "work" 0 store refl text_before-IsOrder
      store-HasUniqueKeys

requeue_reconciliation_needed-Requeued_example :
    Holds
      (Requeued platform "c" "" 6 6 store)
      (requeue_reconciliation_needed platform broken 6 "c" "" 6)
      store
requeue_reconciliation_needed-Requeued_example =
    requeue_reconciliation_needed-Requeued platform broken 6 store store-HasUniqueKeys "c" "" 6

recover_key-Recovered_example :
    Holds (Recovered platform 20 20 5 "b" store) (recover_key platform never 20 20 5 "b") store
recover_key-Recovered_example =
    recover_key-Recovered platform never 20 store store-HasUniqueKeys 20 5 "b"

mark_stale_claimed-Kept_example :
    Kept platform 20 5 store (mark_stale_claimed platform (λ k. never) 20 20 5 store).1
mark_stale_claimed-Kept_example =
    mark_stale_claimed-Kept platform (λ k. never) 20 20 5 store store-HasUniqueKeys

-- The stale claim of "b" is recovered once its lease has run out, and stays while it is held.
recovers :
    (mark_stale_claimed platform (λ k. never) 20 20 5 store).0
    ≡ (record claimed_task { status = "reconciliation_needed"; updated_at = 20 } ∷ [], none)
unfolding mark_stale_claimed agent_machine.State.Recovery.recover_keys
    agent_machine.State.Recovery.stale_keys agent_machine.Common.Sort.sort_by
    agent_machine.Common.Table.select_where agent_machine.State.Recovery.is_stale recover_key
    agent_machine.State.◌>>=◌ agent_machine.State.Tasks.worker_task
    agent_machine.State.Recovery.recover_found view
    agent_machine.State.Recovery.claimed_is_recoverable agent_machine.Common.trim_space
    agent_machine.State.Leases.read_lease agent_machine.State.Recovery.lease_allows
    agent_machine.State.Leases.held agent_machine.State.Recovery.beats_after
    agent_machine.State.Recovery.mark_reconciliation_needed agent_machine.Common.Sort.insert_by
    agent_machine.Common.Table.count_where agent_machine.Common.Table.find
    agent_machine.Common.Table.update_where agent_machine.Common.Table.upsert
    agent_machine.Common.is_space agent_machine.Common.trim_left agent_machine.Common.trim_right
    agent_machine.State.Recovery.recover_row agent_machine.State.Recovery.recovery_event
    agent_machine.State.Recovery.recovery_result agent_machine.State.Recovery.updated_before
    agent_machine.State.Rows.affected agent_machine.State.Rows.has_status
    agent_machine.State.Rows.set_task agent_machine.State.Tasks.append_event
    agent_machine.State.choose agent_machine.State.transact agent_machine.State.◌>>◌
recovers = refl

keeps_held : (mark_stale_claimed platform (λ k. never) 7 7 1 store).0 ≡ ([], none)
unfolding mark_stale_claimed agent_machine.State.Recovery.recover_keys
    agent_machine.State.Recovery.stale_keys agent_machine.Common.Sort.sort_by
    agent_machine.Common.Table.select_where agent_machine.State.Recovery.is_stale recover_key
    agent_machine.State.◌>>=◌ agent_machine.State.Tasks.worker_task
    agent_machine.State.Recovery.recover_found view
    agent_machine.State.Recovery.claimed_is_recoverable agent_machine.Common.trim_space
    agent_machine.State.Leases.read_lease agent_machine.State.Recovery.lease_allows
    agent_machine.State.Leases.held agent_machine.State.Recovery.beats_after
keeps_held = refl

abbrev failed_result : WorkerResult
failed_result = record {
  task_key = "a";
  role = "work";
  lane_name = "work";
  issue_key = "AM-1";
  issue_id = "1";
  attempt = 1;
  status = "failed";
  did_work = true;
  reason = "";
  error = "timeout";
  payload = raw "";
  started_at = 5;
  finished_at = 0;
  updated_at = 0;
}

upsert_worker_result-Stored_example :
    Holds (Stored 9 failed_result store) (upsert_worker_result platform never 9 failed_result) store
upsert_worker_result-Stored_example =
    upsert_worker_result-Stored platform never 9 failed_result store tt
