-- ===== src/State/Rows.antt =====
-- UPDATE worker_tasks SET … WHERE task_key = ? AND …, the one form in which the store changes a task.
use agent_machine.Common.{
  ℕ, String, ◌≡◌, refl, Bool, true, ◌&&◌, ◌⊎◌, inl, inr, Option, none, some, List, ◌==◌, Bool-cases,
  Option-cases, ==→≡, eq_refl, if◌then◌else◌,
}
use agent_machine.Common.Table.{
  find, passes, applied, update_where, count_where, IsUnique, find-update_keyed,
  IsUnique-update_where, count-keyed, update_where_none, find-key,
}
use agent_machine.State.{WorkerTask, ok, task_key, Exec}

unfoldable pub has_status : String → WorkerTask → Bool
has_status s t = t.status == s

-- SELECT … FROM worker_tasks WHERE task_key = ?
unfoldable pub view : List WorkerTask → String → Option WorkerTask
unfolding find
view tasks k = find task_key k tasks

-- the number of rows that the statement affects
unfoldable pub affected : String → (WorkerTask → Bool) → List WorkerTask → ℕ
unfolding count_where
affected k p tasks = count_where (λ t. task_key t == k && p t) tasks

unfoldable pub set_task :
    String → (WorkerTask → Bool) → (WorkerTask → WorkerTask) → List WorkerTask → List WorkerTask
unfolding update_where
set_task k p f tasks = update_where (λ t. task_key t == k && p t) f tasks

abbrev pub update_task : String → (WorkerTask → Bool) → (WorkerTask → WorkerTask) → Exec ℕ
update_task k p f db = (ok (affected k p db.tasks), record db { tasks = set_task k p f db.tasks })

abbrev pub HasUniqueKeys : List WorkerTask → Type 0
HasUniqueKeys tasks = IsUnique task_key tasks

-- The row of the key `j` before and after: the statement left it, or the row passed its test.
abbrev pub IsSetOrKept :
    (WorkerTask → Bool) → (WorkerTask → WorkerTask) → Option WorkerTask → Option WorkerTask → Type 0
IsSetOrKept p f old new =
    (new ≡ old) ⊎ ((t : WorkerTask) × (old ≡ some t) × (p t ≡ true) × (new ≡ some (f t)))

IsSetOrKept-applied :
    (p : WorkerTask → Bool) (f : WorkerTask → WorkerTask) (o : Option WorkerTask)
    → IsSetOrKept p f o (applied p f o)
IsSetOrKept-applied p f none = inl refl
IsSetOrKept-applied p f (some t) = elim (Bool-cases (p t)) [
  | inl e ↦ inr (t, refl, e, rw e)
  | inr e ↦ inl (rw e)
]

module _ (k : String) (p : WorkerTask → Bool) (tasks : List WorkerTask) where
  pub affected_lem :
      HasUniqueKeys tasks → affected k p tasks ≡ (if passes p (view tasks k) then 1 else 0)
  unfolding affected view
  affected_lem u = count-keyed task_key p k tasks u

  module _ (f : WorkerTask → WorkerTask)
      (same : (t : WorkerTask) → task_key (f t) ≡ task_key t) where
    pub view-set_task :
        (j : String)
        → view (set_task k p f tasks) j
          ≡ (if k == j then applied p f (view tasks k) else view tasks j)
    unfolding view set_task
    view-set_task j = find-update_keyed task_key p f same k j tasks

    pub set_task-IsSetOrKept :
        (j : String) → IsSetOrKept p f (view tasks j) (view (set_task k p f tasks) j)
    set_task-IsSetOrKept j = elim (Bool-cases (k == j)) [
      | inl e ↦ rw (view-set_task j, e) (rw (==→≡ k j e) (IsSetOrKept-applied p f (view tasks j)))
      | inr e ↦ inl (rw (view-set_task j, e))
    ]

    unchanged : affected k p tasks ≡ 0 → set_task k p f tasks ≡ tasks
    unfolding affected set_task
    unchanged h = update_where_none _ f tasks h

    pub HasUniqueKeys-set_task : HasUniqueKeys tasks → HasUniqueKeys (set_task k p f tasks)
    unfolding set_task
    HasUniqueKeys-set_task u = IsUnique-update_where task_key _ f same tasks u

    -- With a unique key the statement affects no row and changes nothing, or it affects the one row.
    pub updated :
        HasUniqueKeys tasks
        → ((affected k p tasks ≡ 0) × (set_task k p f tasks ≡ tasks))
          ⊎ ((t : WorkerTask) × (view tasks k ≡ some t)
              × (p t ≡ true)
              × (affected k p tasks ≡ 1)
              × (view (set_task k p f tasks) k ≡ some (f t)))
    updated u = elim (Option-cases (view tasks k)) [
      | inl n ↦
          let none_affected : affected k p tasks ≡ 0 = rw (affected_lem u, n) in
          inl (none_affected, unchanged none_affected)
      | inr (t, h) ↦ elim (Bool-cases (p t)) [
        | inl e ↦ inr (t, h, e, rw (affected_lem u, h, e), rw (view-set_task k, eq_refl k, h, e))
        | inr e ↦
            let none_affected : affected k p tasks ≡ 0 = rw (affected_lem u, h, e) in
            inl (none_affected, unchanged none_affected)
      ]
    ]

pub task_key_of_view :
    (k : String) (tasks : List WorkerTask) (t : WorkerTask) → view tasks k ≡ some t → t.task_key ≡ k
unfolding view
task_key_of_view k tasks t h = find-key task_key k tasks t h
