-- ===== src/State/Tasks/Repair.antt =====
-- The requeue of a task in need of reconciliation is all or nothing.
use mathlib.Core.Path.{subst}
use agent_machine.Common.{String, ◌≡◌, arith, refl, Bool, true, some, inl, inr, ◌⊎◌, Option-cases}
use agent_machine.State.{
  Time, Platform, WorkerTask, Db, Error, Result, ok, err, Call, time_or,
  status_reconciliation_needed,
}
use agent_machine.State.Holds.{Holds, Holds-check, Holds-test, Holds-transact, Holds-bind}
use agent_machine.State.Rows.{has_status, view, set_task, HasUniqueKeys, updated}
use agent_machine.State.Tasks.{
  requeue_row, requeue_reconciliation_needed, insert_event, normalize_event, repaired_event,
  repair_reason,
}
use agent_machine.State.Tasks.Outcomes.{Changed, task_key-requeue_row}

-- The repair took place, with its event, or nothing did.
abbrev pub Requeued :
    Platform → String → String → Time → Time → Db → Result WorkerTask × Db → Type 0
Requeued sys key reason clock at before out =
    ((e : Error) × (out.0 ≡ err e) × (out.1 ≡ before))
    ⊎ ((t : WorkerTask) × (view before.tasks key ≡ some t)
        × (has_status status_reconciliation_needed t ≡ true)
        × (out.0 ≡ ok (requeue_row at t))
        × (out.1 ≡ record before {
          tasks =
              set_task key (has_status status_reconciliation_needed) (requeue_row at) before.tasks;
          events =
              insert_event sys (normalize_event clock (repaired_event t (repair_reason reason) at))
                before.events;
        }))

module _ (sys : Platform) (fails : Call → Bool) (clock : Time) (db : Db)
    (u : HasUniqueKeys db.tasks) where
  -- Whatever call of the database fails, a requeue that returns an error has changed nothing, and one
  -- that succeeds found the task in need of reconciliation, made it queued and due, and recorded the
  -- repair as an event.
  -- The tasks of the store have different keys.
  pub requeue_reconciliation_needed-Requeued :
      (key reason : String) (now : Time)
      → Holds
          (Requeued sys key reason clock (time_or clock now) db)
          (requeue_reconciliation_needed sys fails clock key reason now)
          db
  unfolding requeue_reconciliation_needed
  requeue_reconciliation_needed-Requeued key reason now =
      let at : Time = time_or clock now in
      let p = has_status status_reconciliation_needed in
      Holds-check _ _ db (λ e. inl (e, refl, refl))
        (Holds-bind _ _ _ db (
          Holds-check _ _ db (λ e. inl (e, refl, refl))
            (record {
              at = (elim (Option-cases (view db.tasks key)) [
                | inl n ↦ rw n (record { at = inl (_, refl, refl) })
                | inr (t, h) ↦ rw h (
                    Holds-check _ _ db (λ e. inl (e, refl, refl))
                      (Holds-transact _ _ _ db (inl (_, refl, refl)) (
                        Holds-check _ _ db (λ e. inl (e, refl, refl))
                          (Holds-bind _ _ _ db
                            (elim (updated key p db.tasks (requeue_row at) (task_key-requeue_row at)
                              u) [
                                | inl (z, same) ↦ record {
                                  at =
                                      Holds-check _ _ _ (λ e. inl (e, refl, refl))
                                        (Holds-test _ _ _ (λ e. inl (e, refl, refl))
                                          (λ e. absurd (ground (arith, z))));
                                }
                                | inr (r, g, q, z, after) ↦ record {
                                  at =
                                      Holds-check _ _ _ (λ e. inl (e, refl, refl))
                                        (Holds-check _ _ _ (λ e. inl (e, refl, refl))
                                          (Holds-bind _ _ _ _ (
                                            Holds-check _ _ _ (λ e. inl (e, refl, refl))
                                              (Holds-check _ _ _ (λ e. inl (e, refl, refl))
                                                (Holds-check _ _ _ (λ e. inl (e, refl, refl))
                                                  (record {
                                                    at =
                                                        Holds-check _ _ _ (λ e. inl (e, refl, refl))
                                                          (record {
                                                            at = inr (
                                                            t,
                                                            h,
                                                            subst (λ x. p x ≡ true) (cc) q,
                                                            refl,
                                                            refl,
                                                            );
                                                          });
                                                  }))))));
                                }
                              ])))))
              ]);
            })))

  pub Requeued-Changed :
      (key reason : String) (now : Time)
      → Changed key
          (has_status status_reconciliation_needed)
          (requeue_row (time_or clock now))
          db.tasks
          (requeue_reconciliation_needed sys fails clock key reason now db).1.tasks
  Requeued-Changed key reason now =
      elim (requeue_reconciliation_needed-Requeued key reason now).at [
        | inl (e, failed, same) ↦ inl (rw same)
        | inr (t, h, q, done, after) ↦ inr (t, h, q, rw after)
      ]
