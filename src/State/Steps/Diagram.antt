-- ===== src/State/Steps/Diagram.antt =====
-- The states of a task: which row may follow which.
use agent_machine.Common.{String, ◌≡◌, arith, Bool, true, Option, some, List, inl, inr, ==→≡}
use agent_machine.State.{
  Time, Platform, WorkerTask, Db, Call, task_key, time_or, status_queued, status_claimed,
  status_reconciliation_needed,
}
use agent_machine.State.Rows.{has_status, view, HasUniqueKeys, set_task-IsSetOrKept}
use agent_machine.State.Tasks.{
  is_claimable, claim_row, complete_row, touch_row, requeue_row, claim_next_worker_task,
  claim_worker_task,
}
use agent_machine.State.Tasks.Outcomes.{
  Changed, Claimed, claim_worker_task-Claimed, claim_next_worker_task-Claimed,
  complete_worker_task-Changed, touch_claimed_worker_task-Changed, task_key-claim_row,
  task_key-complete_row, task_key-touch_row, task_key-requeue_row,
}
use agent_machine.State.Recovery.{recover_row, is_stale}
use agent_machine.State.Recovery.Loop.{mark_stale_claimed-Kept}
use agent_machine.State.Tasks.Repair.{Requeued-Changed}
use agent_machine.State.Steps.{
  Op, upsert_task, claim, claim_next, complete, touch, requeue, recover, perform_op,
}

-- One step of a task's life, other than being written anew by UpsertWorkerTask.
pub data Move (old new : Option WorkerTask) : Type 0 where
  stay : new ≡ old → Move old new
  taken :
      (t : WorkerTask) (at : Time)
      → old ≡ some t
      → t.status ≡ "queued"
      → new ≡ some (record t { status = "claimed"; updated_at = at })
      → Move old new
  finished :
      (t : WorkerTask) (status : String) (at : Time)
      → old ≡ some t
      → t.status ≡ "claimed"
      → new ≡ some (record t { status = status; updated_at = at })
      → Move old new
  touched :
      (t : WorkerTask) (at : Time)
      → old ≡ some t
      → t.status ≡ "claimed"
      → new ≡ some (record t { updated_at = at })
      → Move old new
  lost :
      (t : WorkerTask) (at : Time)
      → old ≡ some t
      → t.status ≡ "claimed"
      → new ≡ some (record t { status = "reconciliation_needed"; updated_at = at })
      → Move old new
  repaired :
      (t : WorkerTask) (at : Time)
      → old ≡ some t
      → t.status ≡ "reconciliation_needed"
      → new ≡ some (record t { status = "queued"; available_at = at; updated_at = at })
      → Move old new

abbrev pub IsUpsert : Op → Type 0
IsUpsert (upsert_task t) = Unit
IsUpsert _ = ⊥

status_of : (s : String) (t : WorkerTask) → has_status s t ≡ true → t.status ≡ s
unfolding has_status
status_of s t h = ==→≡ t.status s h

status_of_claimable :
    (sys : Platform) (at : Time) (t : WorkerTask)
    → is_claimable sys at t ≡ true
    → t.status ≡ status_queued
unfolding is_claimable
status_of_claimable sys at t h = ==→≡ t.status status_queued (ground arith)

status_of_stale :
    (sys : Platform) (cutoff : Time) (t : WorkerTask)
    → is_stale sys cutoff t ≡ true
    → t.status ≡ status_claimed
unfolding is_stale
status_of_stale sys cutoff t h = ==→≡ t.status status_claimed (ground arith)

module _ (k : String) (p : WorkerTask → Bool) (f : WorkerTask → WorkerTask)
    (same : (t : WorkerTask) → task_key (f t) ≡ task_key t) where
  Changed-Move :
      (before after : List WorkerTask)
      → ((t : WorkerTask) (old new : Option WorkerTask)
          → old ≡ some t
          → p t ≡ true
          → new ≡ some (f t)
          → Move old new)
      → Changed k p f before after
      → (j : String) → Move (view before j) (view after j)
  Changed-Move before after step (inl e) j = stay (rw e)
  Changed-Move before after step (inr (t, h, q, e)) j =
      rw e (elim (set_task-IsSetOrKept k p before f same j) [
        | inl kept ↦ stay kept
        | inr (r, g, pr, set) ↦ step r _ _ g pr set
      ])

pub Claimed-Changed :
    (k : String) (p : WorkerTask → Bool) (at : Time) (before : List WorkerTask) (out : _)
    → Claimed k p at before out
    → Changed k p (claim_row at) before out.1.tasks
Claimed-Changed k p at before out (inl (quiet, e)) = inl e
Claimed-Changed k p at before out (inr (t, h, q, e, hands)) = inr (t, h, q, e)

-- Whatever call of the database fails, every operation but UpsertWorkerTask moves the row of every
-- key along the diagram: queued to claimed; claimed to the status of its completion, to itself when
-- touched, or to reconciliation_needed; reconciliation_needed to queued and due at the time of the repair.
-- Nothing else of a row changes but the time of its last write.
-- The tasks of the store have different keys.
pub perform_op-Move :
    (sys : Platform) (op : Op) (fails : String → Call → Bool) (clock : Time) (db : Db)
    → HasUniqueKeys db.tasks
    → (IsUpsert op → ⊥)
    → (j : String) → Move (view db.tasks j) (view (perform_op sys op fails clock db).1.tasks j)
unfolding perform_op claim_row complete_row touch_row recover_row requeue_row
perform_op-Move sys (upsert_task t) fails clock db u other j = absurd (other tt)
perform_op-Move sys (claim k now) fails clock db u other j =
    let at : Time = time_or clock now in
    Changed-Move k (is_claimable sys at) (claim_row at) (task_key-claim_row at) db.tasks _
      (λ t old new h q e. taken t at h (status_of_claimable sys at t q) e)
      (Claimed-Changed k _ at db.tasks (claim_worker_task sys (fails "") clock k now db)
        (claim_worker_task-Claimed sys (fails "") clock db u k now).at)
      j
perform_op-Move sys (claim_next role now) fails clock db u other j =
    let at : Time = time_or clock now in
    let h = claim_next_worker_task-Claimed sys (fails "") clock db u role now in
    let k = h.at.0 in
    let c = h.at.1 in
    Changed-Move k (has_status status_queued) (claim_row at) (task_key-claim_row at) db.tasks _
      (λ t old new h q e. taken t at h (status_of status_queued t q) e)
      (Claimed-Changed k _ at db.tasks (claim_next_worker_task sys (fails "") clock role now db) c)
      j
perform_op-Move sys (complete k status now) fails clock db u other j =
    let at : Time = time_or clock now in
    Changed-Move k (has_status status_claimed) (complete_row status at)
      (task_key-complete_row status at) db.tasks _
      (λ t old new h q e. finished t status at h (status_of status_claimed t q) e)
      (complete_worker_task-Changed sys (fails "") clock db u k now status).at j
perform_op-Move sys (touch k now) fails clock db u other j =
    let at : Time = time_or clock now in
    Changed-Move k (has_status status_claimed) (touch_row at) (task_key-touch_row at) db.tasks _
      (λ t old new h q e. touched t at h (status_of status_claimed t q) e)
      (touch_claimed_worker_task-Changed sys (fails "") clock db u k now).at j
perform_op-Move sys (requeue k reason now) fails clock db u other j =
    let at : Time = time_or clock now in
    Changed-Move k (has_status status_reconciliation_needed) (requeue_row at)
      (task_key-requeue_row at) db.tasks _
      (λ t old new h q e. repaired t at h (status_of status_reconciliation_needed t q) e)
      (Requeued-Changed sys (fails "") clock db u k reason now) j
perform_op-Move sys (recover now stale_after) fails clock db u other j =
    elim ((mark_stale_claimed-Kept sys fails clock now stale_after db u).rows j) [
      | inl e ↦ stay e
      | inr (t, h, s, free, e) ↦ lost t _ h (status_of_stale sys _ t s) e
    ]
