-- ===== src/State/Steps/Counting.antt =====
-- How often the queue hands out one task.
use agent_machine.Common.{
  ℕ, ◌+◌, ◌≤◌, String, ◌≡◌, refl, arith, Bool, some, List, [], ◌∷◌, inl, inr, ◌==◌, if◌then◌else◌,
  ◌&&◌,
}
use agent_machine.Common.Table.{IsUnique-upsert}
use agent_machine.State.{Time, Platform, WorkerTask, Db, Call, task_key, time_or, status_queued}
use agent_machine.State.Rows.{view, HasUniqueKeys, HasUniqueKeys-set_task}
use agent_machine.State.Tasks.{
  touch_row, requeue_row, task_conflict, defaulted, claim_worker_task, claim_next_worker_task,
}
use agent_machine.State.Tasks.Outcomes.{
  Changed, claim_worker_task-Claimed, claim_next_worker_task-Claimed, complete_worker_task-Changed,
  touch_claimed_worker_task-Changed, task_key-claim_row, task_key-complete_row, task_key-touch_row,
  task_key-requeue_row,
}
use agent_machine.State.Recovery.{recover_row}
use agent_machine.State.Recovery.Loop.{mark_stale_claimed-Kept}
use agent_machine.State.Steps.Diagram.{Claimed-Changed}
use agent_machine.State.Tasks.Repair.{Requeued-Changed}
use agent_machine.State.Steps.{
  Op, upsert_task, claim, claim_next, complete, touch, requeue, recover, Turn, perform_op, perform,
}
use agent_machine.State.Steps.Queued.{
  queued_in, hands_out, enqueues, queued-Changed, queued_none, queued-Claimed, queued_of_claimable,
  complete_row_queued, touched_not_queued, recovered_not_queued, queued_at_most, no_hand,
  upsert_worker_task-Upserted, queued-upsert,
}

-- how often a run hands out the task `k`, and how often it may queue it
unfoldable pub times_handed_out : Platform → String → List Turn → Db → ℕ
unfolding hands_out
times_handed_out sys k [] db = 0
times_handed_out sys k (turn ∷ turns) db =
    hands_out k (perform sys turn db).0 + times_handed_out sys k turns (perform sys turn db).1

unfoldable pub times_enqueued : String → List Turn → ℕ
unfolding enqueues
times_enqueued k [] = 0
times_enqueued k (turn ∷ turns) = enqueues k turn.op + times_enqueued k turns

module _ (sys : Platform) (k : String) where
  abbrev Step : Op → (String → Call → Bool) → Time → Db → Type 0
  Step op fails clock db =
      let out = perform_op sys op fails clock db in
      HasUniqueKeys out.1.tasks
      × (hands_out k out.0 + queued_in (view out.1.tasks k)
          ≤ queued_in (view db.tasks k) + enqueues k op)

  Changed-unique :
      (key : String) (p : WorkerTask → Bool) (f : WorkerTask → WorkerTask)
      (before after : List WorkerTask)
      → ((t : WorkerTask) → task_key (f t) ≡ task_key t)
      → HasUniqueKeys before
      → Changed key p f before after
      → HasUniqueKeys after
  Changed-unique key p f before after same u (inl e) = rw e u
  Changed-unique key p f before after same u (inr (t, g, q, e)) =
      rw e (HasUniqueKeys-set_task key p before f same u)

  perform_op-Step :
      (op : Op) (fails : String → Call → Bool) (clock : Time) (db : Db)
      → HasUniqueKeys db.tasks
      → Step op fails clock db
  unfolding perform_op enqueues
  perform_op-Step (upsert_task t) fails clock db u =
      let h = upsert_worker_task-Upserted sys (fails "") clock t db in
      (
        elim h.at [
          | inl e ↦ rw e u
          | inr e ↦
              rw e
                (IsUnique-upsert task_key task_conflict (defaulted clock t) (λ r. refl) db.tasks u)
        ],
        ground (arith, no_hand k, queued-upsert k clock t db.tasks _ h.at),
      )
  perform_op-Step (claim key now) fails clock db u =
      let at : Time = time_or clock now in
      let out = claim_worker_task sys (fails "") clock key now db in
      let h = (claim_worker_task-Claimed sys (fails "") clock db u key now).at in
      (
        Changed-unique key _ _ db.tasks _ (task_key-claim_row at) u
            (Claimed-Changed key _ at db.tasks out h),
        ground (arith, queued-Claimed k key _ at db.tasks out (queued_of_claimable sys at) h),
      )
  perform_op-Step (claim_next role now) fails clock db u =
      let at : Time = time_or clock now in
      let out = claim_next_worker_task sys (fails "") clock role now db in
      let h = (claim_next_worker_task-Claimed sys (fails "") clock db u role now).at in
      (
        Changed-unique h.0 _ _ db.tasks _ (task_key-claim_row at) u
            (Claimed-Changed h.0 _ at db.tasks out h.1),
        ground (arith, queued-Claimed k h.0 _ at db.tasks out (λ t q. q) h.1),
      )
  perform_op-Step (complete key status now) fails clock db u =
      let at : Time = time_or clock now in
      let h = (complete_worker_task-Changed sys (fails "") clock db u key now status).at in
      (
        Changed-unique key _ _ db.tasks _ (task_key-complete_row status at) u h,
        ground (
          arith,
          no_hand k,
          queued-Changed k db.tasks key _ _ (task_key-complete_row status at)
              (if key == k && status == status_queued then 1 else 0) _ h
              (λ t q y. rw (complete_row_queued status at t, y) (ground arith)),
        ),
      )
  perform_op-Step (touch key now) fails clock db u =
      let at : Time = time_or clock now in
      let h = (touch_claimed_worker_task-Changed sys (fails "") clock db u key now).at in
      (
        Changed-unique key _ _ db.tasks _ (task_key-touch_row at) u h,
        ground (
          arith,
          no_hand k,
          queued-Changed k db.tasks key _ _ (task_key-touch_row at) 0 _ h (λ t q y.
              rw (queued_none (touch_row at t) (touched_not_queued at t q)) (ground arith)),
        ),
      )
  perform_op-Step (requeue key reason now) fails clock db u =
      let at : Time = time_or clock now in
      let h = Requeued-Changed sys (fails "") clock db u key reason now in
      (
        Changed-unique key _ _ db.tasks _ (task_key-requeue_row at) u h,
        ground (
          arith,
          no_hand k,
          queued-Changed k db.tasks key _ _ (task_key-requeue_row at) (if key == k then 1 else 0) _
              h (λ t q y. rw y (queued_at_most (some (requeue_row at t)))),
        ),
      )
  perform_op-Step (recover now stale_after) fails clock db u =
      let kept = mark_stale_claimed-Kept sys fails clock now stale_after db u in
      (
        kept.unique,
        elim (kept.rows k) [
          | inl e ↦ rw (e, no_hand k) (ground arith)
          | inr (t, h, s, free, e) ↦
              rw
                (
                  e,
                  no_hand k,
                  queued_none (recover_row (time_or clock now) t)
                      (recovered_not_queued (time_or clock now) t),
                )
                (ground arith)
        ],
      )

  -- Whatever calls of the database fail, over any sequence of operations a task is handed out at most
  -- as often as it was put in the queue: once if it was queued at the start, and once for each write of
  -- it, repair of it, or completion of it with the status queued.
  -- At the start the tasks of the store have different keys.
  pub times_handed_out-bound :
      (turns : List Turn) (db : Db)
      → HasUniqueKeys db.tasks
      → times_handed_out sys k turns db ≤ queued_in (view db.tasks k) + times_enqueued k turns
  unfolding times_handed_out times_enqueued
  times_handed_out-bound [] db u = ground arith
  times_handed_out-bound (turn ∷ turns) db u =
      let (u', step) = perform_op-Step turn.op turn.fails turn.clock db u in
      let rest = times_handed_out-bound turns (perform sys turn db).1 u' in
      ground (arith, step, rest)
