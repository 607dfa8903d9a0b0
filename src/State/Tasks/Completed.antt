-- ===== src/State/Tasks/Completed.antt =====
-- What a completion that returns no error has done, and what the writes beside it leave.
use agent_machine.Common.{
  ℕ, String, ◌≡◌, refl, List, Bool, true, false, not, ◌&&◌, Option, none, some, inl, inr, eqb, ◌==◌,
  Bool-cases, if◌then◌else◌,
}
use agent_machine.Common.Table.{passes, applied, map_some}
use agent_machine.State.{
  Time, Platform, WorkerTask, ◌>>=◌, WorkerResult, Event, Result, ok, err, Db, Call, reject_if,
  lease_held, pass, fail, time_or, status_claimed,
}
use agent_machine.State.Holds.{Holds, Holds-check, Holds-test, Holds-bind}
use agent_machine.State.Rows.{
  has_status, view, set_task, HasUniqueKeys, updated, affected_lem, view-set_task,
}
use agent_machine.State.Tasks.{complete_row, complete_worker_task, append_event}
use agent_machine.State.Tasks.Outcomes.{Changed, task_key-complete_row}
use agent_machine.State.Results.{upsert_worker_result}

-- The row of the key was claimed and is now completed; or an error, after which it is so or unchanged.
abbrev pub Completed : String → String → Time → Db → Result (Unit {0}) × Db → Type 0
Completed k status at before (ok u, after) =
    (passes (has_status status_claimed) (view before.tasks k) ≡ true)
    × (after.tasks ≡ set_task k (has_status status_claimed) (complete_row status at) before.tasks)
    × (after.results ≡ before.results)
Completed k status at before (err e, after) =
    Changed k (has_status status_claimed) (complete_row status at) before.tasks after.tasks
    × (after.results ≡ before.results)

pub not_refused : {P : Type 0} (rows : ℕ) → rows ≡ 0 → reject_if (eqb rows 0) lease_held ≡ pass → P
not_refused rows z h = let bad : fail lease_held ≡ pass = rw z at h in cc

pub complete_worker_task-Completed :
    (sys : Platform) (fails : Call → Bool) (clock : Time) (k status : String) (now : Time) (db : Db)
    → HasUniqueKeys db.tasks
    → Holds
        (Completed k status (time_or clock now) db)
        (complete_worker_task sys fails clock k status now)
        db
unfolding complete_worker_task
complete_worker_task-Completed sys fails clock k status now db u =
    let at : Time = time_or clock now in
    let p = has_status status_claimed in
    Holds-check _ _ db (λ e. (inl refl, refl))
      (Holds-check _ _ db (λ e. (inl refl, refl))
        (Holds-check _ _ db (λ e. (inl refl, refl))
          (Holds-bind _ _ _ db
            (elim (updated k p db.tasks (complete_row status at) (task_key-complete_row status at)
              u) [
                | inl (z, same) ↦ record {
                  at =
                      Holds-check _ _ _ (λ e. (inl same, refl))
                        (Holds-test _ _ _ (λ e. (inl same, refl))
                          (λ passed. not_refused _ z passed));
                }
                | inr (t, h, q, z, after) ↦ record {
                  at =
                      Holds-check _ _ _ (λ e. (inr (t, h, q, refl), refl))
                        (Holds-check _ _ _ (λ e. (inr (t, h, q, refl), refl))
                          (record { at = (rw (h, q) refl, refl, refl) }));
                }
              ]))))

-- what a completion makes of a row: it writes the status and the time of one that is claimed
abbrev pub completion : String → Time → WorkerTask → WorkerTask
completion status at t =
    if t.status == "claimed" then record t { status = status; updated_at = at } else t

-- Whether a completion succeeds: its calls of the database do, and the row of its task is claimed.
abbrev pub is_completed : (Call → Bool) → Option WorkerTask → Bool
is_completed fails o =
    not (fails Call.update)
    && (not (fails Call.rows_affected) && passes (λ t. t.status == "claimed") o)

abbrev pub succeeds : {A : Type 0} → Result A → Bool
succeeds (ok a) = true
succeeds (err e) = false

applied_completion :
    (status : String) (at : Time) (o : Option WorkerTask)
    → applied (has_status status_claimed) (complete_row status at) o
      ≡ map_some (completion status at) o
unfolding has_status complete_row
applied_completion status at none = refl
applied_completion status at (some t) = elim (Bool-cases (t.status == "claimed")) [
  | inl e ↦ rw e refl
  | inr e ↦ rw e refl
]

pub view-completion :
    (k status : String) (at : Time) (tasks : List WorkerTask) (j : String)
    → view (set_task k (has_status status_claimed) (complete_row status at) tasks) j
      ≡ (if k == j then map_some (completion status at) (view tasks k) else view tasks j)
view-completion k status at tasks j =
    rw
      (
        view-set_task k (has_status status_claimed) tasks (complete_row status at)
            (task_key-complete_row status at) j,
        applied_completion status at (view tasks k),
      )
      refl

-- a test that does not hold beside another
no_rows : {A : Type 0} (x y : A) (b : Bool) → y ≡ (if b && false then x else y)
no_rows x y true = refl
no_rows x y false = refl

at_key : {A : Type 0} (x y : A) (b : Bool) → (if b then x else y) ≡ (if b && true then x else y)
at_key x y true = refl
at_key x y false = refl

-- Every row after a completion, and whether it returns no error.
pub complete_worker_task_lem :
    (sys : Platform) (fails : Call → Bool) (clock : Time) (k status : String) (now : Time) (db : Db)
    → HasUniqueKeys db.tasks
    → (k == "") ≡ false
    → (status == "") ≡ false
    → let out = complete_worker_task sys fails clock k status now db in
      (succeeds out.0 ≡ is_completed fails (view db.tasks k))
      × ((j : String)
          → view out.1.tasks j ≡ (
              if k == j && not (fails Call.update)
              then map_some (completion status (time_or clock now)) (view db.tasks k)
              else view db.tasks j))
unfolding complete_worker_task ◌>>=◌ has_status
complete_worker_task_lem sys fails clock k status now db u named set =
    let at : Time = time_or clock now in
    let p = has_status status_claimed in
    let rows =
      view-set_task k p db.tasks (complete_row status at) (task_key-complete_row status at) in
    let same = applied_completion status at (view db.tasks k) in
    elim (Bool-cases (fails Call.update)) [
      | inl f ↦ rw (named, set, f) (refl, λ j. no_rows _ _ (k == j))
      | inr f ↦ elim (Bool-cases (fails Call.rows_affected)) [
        | inl g ↦ rw (named, set, f, g) (refl, λ j. rw (rows j, same) (at_key _ _ (k == j)))
        | inr g ↦ elim (Bool-cases (passes p (view db.tasks k))) [
          | inl q ↦
              rw (named, set, f, g, affected_lem k p db.tasks u, q)
                (refl, λ j. rw (rows j, same) (at_key _ _ (k == j)))
          | inr q ↦
              rw (named, set, f, g, affected_lem k p db.tasks u, q)
                (refl, λ j. rw (rows j, same) (at_key _ _ (k == j)))
        ]
      ]
    ]

pub append_event-Kept :
    (sys : Platform) (fails : Call → Bool) (clock : Time) (ev : Event) (db : Db)
    → Holds
        (λ out. (out.1.tasks ≡ db.tasks) × (out.1.results ≡ db.results))
        (append_event sys fails clock ev)
        db
unfolding append_event
append_event-Kept sys fails clock ev db =
    Holds-check _ _ db (λ e. (refl, refl))
      (Holds-check _ _ db (λ e. (refl, refl))
        (Holds-check _ _ db (λ e. (refl, refl)) (record { at = (refl, refl) })))

pub upsert_worker_result-tasks :
    (sys : Platform) (fails : Call → Bool) (clock : Time) (r : WorkerResult) (db : Db)
    → Holds (λ out. out.1.tasks ≡ db.tasks) (upsert_worker_result sys fails clock r) db
unfolding upsert_worker_result
upsert_worker_result-tasks sys fails clock r db =
    Holds-check _ _ db (λ e. refl)
      (Holds-check _ _ db (λ e. refl)
        (Holds-check _ _ db (λ e. refl)
          (Holds-check _ _ db (λ e. refl) (Holds-check _ _ db (λ e. refl) (record { at = refl })))))
