-- ===== src/Lanes/Turn/Supervised.antt =====
-- What the supervision of a turn's work keeps from its task.
use agent_machine.Common.{
  ℕ, ◌-◌, String, ◌≡◌, refl, sym, ◌∙◌, arith, Bool, true, false, Option, some, inl, inr, Bool-cases,
  ◌==◌,
}
use agent_machine.State.{
  Time, Platform, day_le, WorkerTask, Payload, Result, ok, err, Error, Db, Call, ◌>>=◌, time_or,
  status_claimed,
}
use agent_machine.State.Holds.{Holds, Holds-check, Holds-test, Holds-bind}
use agent_machine.State.Rows.{has_status, view, HasUniqueKeys, HasUniqueKeys-set_task, updated}
use agent_machine.State.Tasks.{touch_row, touch_claimed_worker_task}
use agent_machine.State.Tasks.Outcomes.{task_key-touch_row}
use agent_machine.State.Leases.{renew_lease}
use agent_machine.State.Recovery.{is_stale, mark_stale_claimed}
use agent_machine.State.Recovery.Loop.{RowOutcome, mark_stale_claimed-Kept}
use agent_machine.Lanes.Turn.{LaneTask, Phase}
use agent_machine.Lanes.Turn.Steps.{renew_supervision}
use agent_machine.State.Tasks.Completed.{not_refused}

-- The row of the key is claimed, and was written last at `at`.
abbrev pub IsFresh : Time → String → Db → Type 0
IsFresh at k db =
    HasUniqueKeys db.tasks
    × ((t : WorkerTask) × (view db.tasks k ≡ some t)
        × (t.status == status_claimed ≡ true)
        × (t.updated_at ≡ at))

abbrev pub Touched : Time → String → Result (Unit {0}) × Db → Type 0
Touched at k (err e, after) = Unit
Touched at k (ok u, after) = IsFresh at k after

touch_row-status : (at : Time) (t : WorkerTask) → (touch_row at t).status ≡ t.status
unfolding touch_row
touch_row-status at t = refl

touch_row-updated_at : (at : Time) (t : WorkerTask) → (touch_row at t).updated_at ≡ at
unfolding touch_row
touch_row-updated_at at t = refl

module _ (sys : Platform) (clock : Time) where
  touch-Touched :
      (touching : Call → Bool) (k : String) (now : Time) (db : Db)
      → HasUniqueKeys db.tasks
      → Holds
          (Touched (time_or clock now) k)
          (touch_claimed_worker_task sys touching clock k now)
          db
  unfolding touch_claimed_worker_task has_status
  touch-Touched touching k now db u =
      let at : Time = time_or clock now in
      let p = has_status status_claimed in
      Holds-check _ _ db (λ e. tt)
        (Holds-check _ _ db (λ e. tt)
          (Holds-bind _ _ _ db
            (elim (updated k p db.tasks (touch_row at) (task_key-touch_row at) u) [
              | inl (z, same) ↦ record {
                at =
                    Holds-check _ _ _ (λ e. tt)
                      (Holds-test _ _ _ (λ e. tt) (λ passed. not_refused _ z passed));
              }
              | inr (t, h, q, z, after) ↦ record {
                at =
                    Holds-check _ _ _ (λ e. tt)
                      (Holds-check _ _ _ (λ e. tt)
                        (record {
                          at = (
                            HasUniqueKeys-set_task k p db.tasks (touch_row at)
                                (task_key-touch_row at) u,
                            (
                              touch_row at t,
                              after,
                              rw (touch_row-status at t) q,
                              touch_row-updated_at at t,
                            ),
                          );
                        }));
              }
            ])))

  renew-Touched :
      (renewing touching : Call → Bool) (k lease : String) (now expires : Time) (at : Time)
      (db : Db)
      → HasUniqueKeys db.tasks
      → Holds
          (Touched (time_or clock at) k)
          (renew_lease sys renewing clock lease now expires
            >>= (λ (_ : Unit {0}). touch_claimed_worker_task sys touching clock k at))
          db
  unfolding renew_lease
  renew-Touched renewing touching k lease now expires at db u =
      Holds-bind (Touched (time_or clock at) k) _ _ db (
        Holds-check _ _ db (λ e. tt)
          (Holds-check _ _ db (λ e. tt)
            (Holds-bind _ _ _ db (record {
              at = Holds-check _ _ _ (λ e. tt) (record { at = touch-Touched touching k at _ u });
            }))))

-- a row written after the cutoff is not stale
late_row :
    (sys : Platform) (cutoff : Time) (t : WorkerTask)
    → day_le sys t.updated_at cutoff ≡ false
    → is_stale sys cutoff t ≡ false
unfolding is_stale
late_row sys cutoff t h = rw h (ground (arith))

module _ (sys : Platform) (before : Db) (k : String) (at : Time) (fresh : IsFresh at k before)
    (now : Time) (stale_after : ℕ) where
  fresh_row :
      day_le sys at (now - stale_after) ≡ false
      → (o : Option WorkerTask) → RowOutcome sys now stale_after before k o
      → o ≡ view before.tasks k
  fresh_row late o (inl same) = same
  fresh_row late o (inr (t, g, s, free, after)) =
      let (u, (r, h, c, w)) = fresh in
      let same : r ≡ t = let both = sym h ∙ g in cc in
      let bad = late_row sys (now - stale_after) t (rw (← same, w) late) in cc

module _ (sys : Platform) (fails : Phase → Call → Bool) (recovering : String → Call → Bool)
    (clock : Time) (encode : Payload → String) (describe : Error → String) (process : String)
    (now started finished : Time) (task : LaneTask) (renewing touching : Call → Bool)
    (t : WorkerTask) (lease : String) (at : Time) where
  abbrev renewal : Db → Result (Unit {0}) × Db
  renewal =
      renew_supervision sys fails recovering clock encode describe process now started finished task
        renewing touching t lease at

  renewal-Touched :
      (db : Db) → HasUniqueKeys db.tasks → Touched (time_or clock at) t.task_key (renewal db)
  unfolding renew_supervision ◌>>=◌ touch_claimed_worker_task
  renewal-Touched db u = elim (Bool-cases (lease == "")) [
    | inl e ↦ rw e (touch-Touched sys clock touching t.task_key at db u).at
    | inr e ↦ rw e (renew-Touched sys clock renewing touching t.task_key lease at _ at db u).at
  ]

  protected :
      (later : Time) (clock' : Time) (stale_after : ℕ) (r : Result (Unit {0})) (db : Db)
      → Touched (time_or clock at) t.task_key (r, db)
      → r ≡ ok tt
      → day_le sys (time_or clock at) (time_or clock' later - stale_after) ≡ false
      → view (mark_stale_claimed sys recovering clock' later stale_after db).1.tasks t.task_key
        ≡ view db.tasks t.task_key
  protected later clock' stale_after (err e) db h same late = cc
  protected later clock' stale_after (ok x) db h same late =
      let kept = mark_stale_claimed-Kept sys recovering clock' later stale_after db h.0 in
      fresh_row sys db t.task_key (time_or clock at) h (time_or clock' later) stale_after late _
        (kept.rows t.task_key)

  -- After the supervision of a turn renewed at `at`, a recovery of stale claims whose cutoff is before that
  -- leaves the task as the renewal left it, whatever fails. The tasks of the store have different keys.
  pub renew_supervision-protects :
      (db : Db) (later : Time) (clock' : Time) (stale_after : ℕ)
      → HasUniqueKeys db.tasks
      → (renewal db).0 ≡ ok tt
      → day_le sys (time_or clock at) (time_or clock' later - stale_after) ≡ false
      → view
          (mark_stale_claimed sys recovering clock' later stale_after (renewal db).1).1.tasks
          t.task_key
        ≡ view (renewal db).1.tasks t.task_key
  renew_supervision-protects db later clock' stale_after u works late =
      protected later clock' stale_after (renewal db).0 (renewal db).1 (renewal-Touched db u) works
        late
