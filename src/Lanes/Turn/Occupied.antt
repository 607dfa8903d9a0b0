-- ===== src/Lanes/Turn/Occupied.antt =====
-- A turn at a task that another worker has, or that needs an operator.
use agent_machine.Common.{ℕ, String, ◌≡◌, refl, Bool, true, false, Option, inl, inr}
use agent_machine.Common.Table.{passes}
use agent_machine.State.{
  Time, Platform, WorkerTask, Payload, Result, ok, err, Error, Db, Call, time_or,
}
use agent_machine.State.Holds.{Holds, Then-cases, Holds-check, Holds-choose, Holds-bind}
use agent_machine.State.Rows.{view, HasUniqueKeys}
use agent_machine.State.Tasks.{worker_task}
use agent_machine.State.Recovery.{recover_row, mark_stale_claimed}
use agent_machine.State.Recovery.Loop.{RowOutcome, mark_stale_claimed-Kept}
use agent_machine.Lanes.Turn.{
  LaneTask, Phase, Activity, Turn, Start, is_occupied, recovery_outcome, stale_worker_task_after,
}
use agent_machine.Lanes.Turn.Steps.{
  recover_stale, begin_turn, continue_turn, run_continuous_worker_task,
}

-- a start that does no work, and leaves this store
abbrev pub IsIdle : Db → Result Start × Db → Type 0
IsIdle db (err e, after) = after ≡ db
IsIdle db (ok (Start.stop recovered), after) = after ≡ db
IsIdle db (ok (Start.go t), after) = ⊥

recover_row-occupied : (at : Time) (t : WorkerTask) → is_occupied (recover_row at t) ≡ true
unfolding recover_row
recover_row-occupied at t = refl

module _ (sys : Platform) (at : Time) (stale_after : ℕ) (before : Db) (k : String) where
  still_occupied :
      (o : Option WorkerTask)
      → passes is_occupied (view before.tasks k) ≡ true
      → RowOutcome sys at stale_after before k o
      → passes is_occupied o ≡ true
  still_occupied o h (inl same) = rw same h
  still_occupied o h (inr (t, g, s, free, after)) = rw after (recover_row-occupied at t)

module _ (sys : Platform) (fails : Phase → Call → Bool) (recovering : String → Call → Bool)
    (clock : Time) (encode : Payload → String) (describe : Error → String) (process : String)
    (now started finished : Time) (task : LaneTask) where
  absurd_free : {P : Type 0} (b : Bool) → b ≡ true → b ≡ false → P
  absurd_free b h f = cc

  abbrev begin : Db → Result Start × Db
  begin = begin_turn sys fails recovering clock encode describe process now started finished task

  abbrev recovered_store : Db → Db
  recovered_store db = (mark_stale_claimed sys recovering clock now stale_worker_task_after db).1

  begin_turn-IsIdle :
      (db : Db)
      → HasUniqueKeys db.tasks
      → passes is_occupied (view db.tasks task.key) ≡ true
      → Holds (IsIdle (recovered_store db)) begin db
  unfolding begin_turn recover_stale worker_task
  begin_turn-IsIdle db u h =
      let out = mark_stale_claimed sys recovering clock now stale_worker_task_after db in
      let db' = recovered_store db in
      let kept = mark_stale_claimed-Kept sys recovering clock now stale_worker_task_after db u in
      let occupied : passes is_occupied (view db'.tasks task.key) ≡ true =
        still_occupied sys (time_or clock now) stale_worker_task_after db task.key
          (view db'.tasks task.key) h (kept.rows task.key) in
      Holds-bind (IsIdle db') _ _ db (record {
        at =
            Then-cases (IsIdle db') _ (recovery_outcome out.0) db' (λ e. refl)
              (λ recovered.
                Holds-choose recovered _ _ db' (λ _. record { at = refl })
                  (λ _. Holds-bind (IsIdle db') _ _ db' (
                    Holds-check _ _ db' (λ e. refl)
                      (record {
                        at =
                            Holds-choose _ _ _ db' (λ _. record { at = refl })
                              (λ free. absurd_free _ occupied free);
                      }))));
      })

  abbrev turn : (WorkerTask → Activity) → Db → Turn × Db
  turn =
      run_continuous_worker_task sys fails recovering clock encode describe process now started
        finished task

  abbrev go_on : (WorkerTask → Activity) → Result Start → Db → Turn × Db
  go_on = continue_turn sys fails recovering clock encode describe process now started finished task

  idle_turn :
      (run run' : WorkerTask → Activity) (s : Result Start) (db db' : Db)
      → IsIdle db (s, db')
      → (go_on run s db' ≡ go_on run' s db') × ((go_on run s db').1 ≡ db)
  idle_turn run run' (err e) db db' h = (refl, h)
  idle_turn run run' (ok (Start.stop recovered)) db db' h = (refl, h)
  idle_turn run run' (ok (Start.go t)) db db' h = absurd h

  -- A turn at a task that is claimed or in need of an operator does not do its work: it returns and leaves
  -- the same whatever the work is, and what it leaves is what the recovery of stale claims left, whatever
  -- fails. The tasks of the store have different keys.
  pub run_continuous_worker_task-occupied :
      (run run' : WorkerTask → Activity) (db : Db)
      → HasUniqueKeys db.tasks
      → passes is_occupied (view db.tasks task.key) ≡ true
      → (turn run db ≡ turn run' db) × ((turn run db).1 ≡ recovered_store db)
  unfolding run_continuous_worker_task
  run_continuous_worker_task-occupied run run' db u h =
      let (s, db') = begin db in
      idle_turn run run' s (recovered_store db) db' (begin_turn-IsIdle db u h).at
