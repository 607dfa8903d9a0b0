-- ===== src/Workers/Laws.antt =====
-- When a task may be attempted again.
use agent_machine.Common.{
  ℕ, ◌∙◌, false, ◌&&◌, ◌||◌, ◌+◌, ◌≤◌, String, ◌≡◌, refl, arith, Bool, Option, none, some, ◌==◌,
  inl, inr, ◌⊎◌, Bool-cases, ==→≡, ltb, if◌then◌else◌,
}
use agent_machine.Common.Table.{find, find-key, select_where, IsUnique}
use agent_machine.Common.Keyed.{kept, find-sort_by, find-select_where, IsUnique-select_where}
use agent_machine.State.{
  Time, is_zero, Platform, WorkerResult, Db, ok, err, Call, result_key, status_failed, Result,
}
use agent_machine.State.Results.{result_of}
use agent_machine.State.Holds.{Holds, Holds-check, Holds-choose, Holds-bind}
use agent_machine.Workers.{
  retry_backoff, newer, available_after, worker_results, results_of,
  available_at_after_latest_failure,
}

available_after-now :
    (role : String) (now : Time) (o : Option WorkerResult) → now ≤ available_after role now o
unfolding available_after
available_after-now role now none = omega arith
available_after-now role now (some r) = ground arith

backoff_bound :
    (role : String) → (60000000000 ≤ retry_backoff role) × (retry_backoff role ≤ 300000000000)
unfolding retry_backoff
backoff_bound role = ground arith

-- A delay to `t` comes from a result of the task that failed, and is the role's back-off after it.
abbrev pub IsDelayed : String → String → Time → Type 0
IsDelayed key role t =
    (r : WorkerResult) × (r.task_key ≡ key)
    × (r.status ≡ status_failed)
    × (t ≡ (if is_zero r.finished_at then r.updated_at else r.finished_at) + retry_backoff role)

abbrev pub IsAvailable : String → String → Time → Db → Result Time × Db → Type 0
IsAvailable key role now before (ok t, after) =
    (after ≡ before) × (now ≤ t) × ((t ≡ now) ⊎ IsDelayed key role t)
IsAvailable key role now before (err e, after) = after ≡ before

IsDelayed-or_now :
    (key role : String) (now : Time) (o : Option WorkerResult)
    → ((r : WorkerResult) → o ≡ some r → r.task_key ≡ key)
    → (available_after role now o ≡ now) ⊎ IsDelayed key role (available_after role now o)
unfolding available_after
IsDelayed-or_now key role now none named = inl refl
IsDelayed-or_now key role now (some r) named =
    let at = (if is_zero r.finished_at then r.updated_at else r.finished_at) + retry_backoff role in
    elim (Bool-cases (r.status == status_failed)) [
      | inl e ↦ elim (Bool-cases (ltb now at)) [
        | inl later ↦ inr (r, named r refl, ==→≡ r.status status_failed e, rw (e, later) refl)
        | inr due ↦ inl (rw (e, due) refl)
      ]
      | inr e ↦ inl (rw e refl)
    ]

pub available_at_after_latest_failure-IsAvailable :
    (sys : Platform) (fails : Call → Bool) (clock : Time) (key role : String) (now : Time) (db : Db)
    → Holds
        (IsAvailable key role now db)
        (available_at_after_latest_failure sys fails clock key role now)
        db
unfolding available_at_after_latest_failure worker_results
available_at_after_latest_failure-IsAvailable sys fails clock key role now db =
    Holds-choose _ _ _ db (λ e. record { at = (refl, omega arith, inl refl) })
      (λ e. Holds-bind _ _ _ db (
        Holds-check _ _ db (λ f. refl)
          (record {
            at = record {
              at =
                  let rows = results_of sys role db.results in
                  let first = find result_key key rows in
                  (
                    refl,
                    available_after-now role now first,
                    IsDelayed-or_now key role now first (λ r h. find-key result_key key rows r h),
                  );
            };
          })))

set_of : (a b : Bool) → (a || b) ≡ false → b ≡ false
set_of a b h = ground (arith, h)

-- the back-off of a role, in nanoseconds
abbrev pub wait_of : String → ℕ
wait_of role =
    if role == "implementation" || role == "work"
    then 300000000000
    else if role == "review" || role == "handoff" || role == "merge"
    then 120000000000
    else 60000000000

-- the time from which a task with this stored result is available, for a worker of the role
abbrev pub due_after : String → Time → Option WorkerResult → Time
due_after role now none = now
due_after role now (some r) =
    let at = (if is_zero r.finished_at then r.updated_at else r.finished_at) + wait_of role in
    if r.role == role && r.status == "failed" && ltb now at then at else now

abbrev pub IsDueAfter : String → String → Time → Db → Result Time × Db → Type 0
IsDueAfter key role now before (err e, after) = after ≡ before
IsDueAfter key role now before (ok t, after) =
    (after ≡ before)
    × (t ≡ (
        if key == "" || role == "" then now else due_after role now (result_of before.results key)))

due_after-kept :
    (role : String) (now : Time) (o : Option WorkerResult)
    → (role == "") ≡ false
    → available_after role now (kept (λ r. role == "" || r.role == role) o) ≡ due_after role now o
unfolding available_after retry_backoff
due_after-kept role now none set = refl
due_after-kept role now (some r) set = elim (Bool-cases (r.role == role)) [
  | inl e ↦ elim (Bool-cases (r.status == "failed")) [
    | inl f ↦ rw (set, e, f) refl
    | inr f ↦ rw (set, e, f) refl
  ]
  | inr e ↦ rw (set, e) refl
]

-- Whatever fails, a read without an error says that a task is available now, but for a task whose stored
-- result is of its role and failed less than the back-off of the role ago: that one is available at the end
-- of the back-off, which is five minutes for the roles implementation and work, two for review, handoff and
-- merge, and one for any other. The database stays as it is. The results of the store have different keys.
pub available_at_after_latest_failure_lem :
    (sys : Platform) (fails : Call → Bool) (clock : Time) (key role : String) (now : Time) (db : Db)
    → IsUnique result_key db.results
    → Holds
        (IsDueAfter key role now db)
        (available_at_after_latest_failure sys fails clock key role now)
        db
unfolding available_at_after_latest_failure worker_results results_of result_of
available_at_after_latest_failure_lem sys fails clock key role now db u =
    let of_role = λ (r : WorkerResult). role == "" || r.role == role in
    Holds-choose _ _ _ db (λ e. record { at = (refl, rw e refl) })
      (λ e. Holds-bind _ _ _ db (
        Holds-check _ _ db (λ f. refl)
          (record {
            at = record {
              at =
                  let found =
                    find-sort_by result_key (newer sys) key (select_where of_role db.results)
                      (IsUnique-select_where result_key of_role db.results u)
                    ∙ find-select_where result_key of_role key db.results u in
                  (
                    refl,
                    rw (found, e)
                        (due_after-kept role now (find result_key key db.results)
                          (set_of (key == "") (role == "") e)),
                  );
            };
          })))
