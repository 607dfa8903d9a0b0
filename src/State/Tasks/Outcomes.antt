-- ===== src/State/Tasks/Outcomes.antt =====
-- What an operation of the queue leaves, whatever call of the database fails on the way.
use agent_machine.Common.{
  String, ◌≡◌, refl, Bool, true, Option, none, some, List, inl, inr, ◌⊎◌, Option-cases,
}
use agent_machine.State.{
  Time, Platform, WorkerTask, Db, Result, ok, Call, time_or, status_queued, status_claimed,
}
use agent_machine.State.Holds.{Holds, Holds-check, Holds-choose, Holds-transact, Holds-bind}
use agent_machine.State.Rows.{has_status, view, set_task, HasUniqueKeys, updated}
use agent_machine.State.Tasks.{
  is_claimable, claim_row, complete_row, touch_row, requeue_row, first_due, claim_worker_task,
  claim_selected, claim_next_worker_task, complete_worker_task, touch_claimed_worker_task,
}

-- Nothing changed, or the one row of the key `k`, which passed the test `p`.
abbrev pub Changed :
    String
    → (WorkerTask → Bool)
    → (WorkerTask → WorkerTask)
    → List WorkerTask
    → List WorkerTask
    → Type 0
Changed k p f before after =
    (after ≡ before)
    ⊎ ((t : WorkerTask) × (view before k ≡ some t) × (p t ≡ true) × (after ≡ set_task k p f before))

-- no task is handed out
abbrev pub IsQuiet : Result (Option WorkerTask) → Type 0
IsQuiet (ok (some t)) = ⊥
IsQuiet _ = Unit

-- no task but `t` is handed out
abbrev pub Hands : WorkerTask → Result (Option WorkerTask) → Type 0
Hands t (ok (some t')) = t' ≡ t
Hands t _ = Unit

abbrev pub Claimed :
    String → (WorkerTask → Bool) → Time → List WorkerTask → Result (Option WorkerTask) × Db → Type 0
Claimed k p at before out =
    (IsQuiet out.0 × (out.1.tasks ≡ before))
    ⊎ ((t : WorkerTask) × (view before k ≡ some t)
        × (p t ≡ true)
        × (out.1.tasks ≡ set_task k p (claim_row at) before)
        × Hands (claim_row at t) out.0)

pub task_key-claim_row : (at : Time) (t : WorkerTask) → (claim_row at t).task_key ≡ t.task_key
unfolding claim_row
task_key-claim_row at t = refl

pub task_key-complete_row :
    (s : String) (at : Time) (t : WorkerTask) → (complete_row s at t).task_key ≡ t.task_key
unfolding complete_row
task_key-complete_row s at t = refl

pub task_key-touch_row : (at : Time) (t : WorkerTask) → (touch_row at t).task_key ≡ t.task_key
unfolding touch_row
task_key-touch_row at t = refl

pub task_key-requeue_row : (at : Time) (t : WorkerTask) → (requeue_row at t).task_key ≡ t.task_key
unfolding requeue_row
task_key-requeue_row at t = refl

module _ (sys : Platform) (fails : Call → Bool) (clock : Time) (db : Db)
    (u : HasUniqueKeys db.tasks) where
  Hands-view :
      (at : Time) (o : Option WorkerTask) (t : WorkerTask)
      → o ≡ some (claim_row at t)
      → Hands (claim_row at t) (ok o)
  Hands-view at none t h = tt
  Hands-view at (some t') t h = cc

  pub claim_worker_task-Claimed :
      (key : String) (now : Time)
      → let at = time_or clock now in
        Holds
          (Claimed key (is_claimable sys at) at db.tasks)
          (claim_worker_task sys fails clock key now)
          db
  unfolding claim_worker_task
  claim_worker_task-Claimed key now =
      let at : Time = time_or clock now in
      let p = is_claimable sys at in
      Holds-check _ _ db (λ e. inl (tt, refl))
        (Holds-check _ _ db (λ e. inl (tt, refl))
          (Holds-bind _ _ _ db
            (elim (updated key p db.tasks (claim_row at) (task_key-claim_row at) u) [
              | inl (z, same) ↦ record {
                at =
                    Holds-check _ _ _ (λ e. inl (tt, same))
                      (Holds-choose _ _ _ _ (λ e. record { at = inl (tt, same) }) (λ e. cc));
              }
              | inr (t, h, q, z, after) ↦ record {
                at =
                    Holds-check _ _ _ (λ e. inr (t, h, q, refl, tt))
                      (Holds-choose _ _ _ _ (λ e. cc)
                        (λ e.
                          Holds-check _ _ _ (λ e. inr (t, h, q, refl, tt))
                            (record { at = inr (t, h, q, refl, Hands-view at _ t after) })));
              }
            ])))

  -- The row that the outcome of ClaimNextWorkerTask speaks of: the first one that is due, if any.
  pub claim_next_worker_task-Claimed :
      (role : String) (now : Time)
      → let at = time_or clock now in
        Holds
          (λ out. (k : String) × Claimed k (has_status status_queued) at db.tasks out)
          (claim_next_worker_task sys fails clock role now)
          db
  unfolding claim_next_worker_task claim_selected
  claim_next_worker_task-Claimed role now =
      let at : Time = time_or clock now in
      let p = has_status status_queued in
      Holds-check _ _ db (λ e. ("", inl (tt, refl)))
        (Holds-bind _ _ _ db (
          Holds-transact _ _ _ db ("", inl (tt, refl))
            (Holds-check _ _ db (λ e. ("", inl (tt, refl)))
              (Holds-bind _ _ _ db (elim (Option-cases (first_due sys role at db.tasks)) [
                | inl n ↦ record {
                  at = rw n (record { at = record { at = ("", inl (tt, refl)) } });
                }
                | inr (t, h) ↦ record {
                  at = rw h (
                      Holds-check _ _ db (λ e. ("", inl (tt, refl)))
                        (Holds-bind _ _ _ db
                          (elim (updated t.task_key p db.tasks (claim_row at)
                            (task_key-claim_row at) u) [
                              | inl (z, same) ↦ record {
                                at =
                                    Holds-check _ _ _ (λ e. ("", inl (tt, refl)))
                                      (Holds-choose _ _ _ _
                                        (λ e. record { at = record { at = ("", inl (tt, same)) } })
                                        (λ e. cc));
                              }
                              | inr (r, g, q, z, after) ↦ record {
                                at =
                                    Holds-check _ _ _ (λ e. ("", inl (tt, refl)))
                                      (Holds-choose _ _ _ _ (λ e. cc)
                                        (λ e.
                                          Holds-check _ _ _ (λ e. ("", inl (tt, refl)))
                                            (record {
                                              at =
                                                  Holds-check _ _ _
                                                    (λ e. (t.task_key, inr (r, g, q, refl, tt)))
                                                    (record {
                                                      at = (
                                                        t.task_key,
                                                        inr (
                                                          r,
                                                          g,
                                                          q,
                                                          refl,
                                                          Hands-view at _ r after,
                                                        ),
                                                      );
                                                    });
                                            })));
                              }
                            ])));
                }
              ])))))

  module _ (key : String) (now : Time) where
    pub complete_worker_task-Changed :
        (status : String)
        → Holds
            (λ out.
              Changed key
                (has_status status_claimed)
                (complete_row status (time_or clock now))
                db.tasks
                out.1.tasks)
            (complete_worker_task sys fails clock key status now)
            db
    unfolding complete_worker_task
    complete_worker_task-Changed status =
        let at : Time = time_or clock now in
        let p = has_status status_claimed in
        Holds-check _ _ db (λ e. inl refl)
          (Holds-check _ _ db (λ e. inl refl)
            (Holds-check _ _ db (λ e. inl refl)
              (Holds-bind _ _ _ db
                (elim (updated key p db.tasks (complete_row status at)
                  (task_key-complete_row status at) u) [
                    | inl (z, same) ↦ record {
                      at =
                          Holds-check _ _ _ (λ e. inl same)
                            (Holds-check _ _ _ (λ e. inl same) (record { at = inl same }));
                    }
                    | inr (t, h, q, z, after) ↦ record {
                      at =
                          Holds-check _ _ _ (λ e. inr (t, h, q, refl))
                            (Holds-check _ _ _ (λ e. inr (t, h, q, refl))
                              (record { at = inr (t, h, q, refl) }));
                    }
                  ]))))

    pub touch_claimed_worker_task-Changed :
        Holds
          (λ out.
            Changed key
              (has_status status_claimed)
              (touch_row (time_or clock now))
              db.tasks
              out.1.tasks)
          (touch_claimed_worker_task sys fails clock key now)
          db
    unfolding touch_claimed_worker_task
    touch_claimed_worker_task-Changed =
        let at : Time = time_or clock now in
        let p = has_status status_claimed in
        Holds-check _ _ db (λ e. inl refl)
          (Holds-check _ _ db (λ e. inl refl)
            (Holds-bind _ _ _ db
              (elim (updated key p db.tasks (touch_row at) (task_key-touch_row at) u) [
                | inl (z, same) ↦ record {
                  at =
                      Holds-check _ _ _ (λ e. inl same)
                        (Holds-check _ _ _ (λ e. inl same) (record { at = inl same }));
                }
                | inr (t, h, q, z, after) ↦ record {
                  at =
                      Holds-check _ _ _ (λ e. inr (t, h, q, refl))
                        (Holds-check _ _ _ (λ e. inr (t, h, q, refl))
                          (record { at = inr (t, h, q, refl) }));
                }
              ])))
