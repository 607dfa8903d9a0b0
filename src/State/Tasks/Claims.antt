-- ===== src/State/Tasks/Claims.antt =====
-- Claiming a task of the queue: by its key, and the first one that is due.
use agent_machine.Common.{
  String, ◌≡◌, refl, Bool, true, false, ◌&&◌, none, some, List, arith, ◌==◌, inl, inr, ◌⊎◌,
  Bool-cases, Option-cases, All, All-map, if◌then◌else◌, eq_refl,
}
use agent_machine.Common.Table.{passes, map_some, applied, select_where, All-found}
use agent_machine.Common.Sort.{
  sort_by, IsOrder, sort_by-All, sort_by-All_inv, head-sort_by, select_where-All,
  select_where-All_inv, select_where-passes, All-head, All-nothing,
}
use agent_machine.State.{
  Time, Platform, day_le, WorkerTask, Db, ok, task_key, Call, time_or, status_queued, ◌>>=◌,
}
use agent_machine.State.Rows.{
  has_status, view, set_task, HasUniqueKeys, affected_lem, view-set_task,
}
use agent_machine.State.Tasks.{
  is_claimable, is_due, claim_row, precedes, first_due, claim_worker_task, claim_next_worker_task,
  claim_selected,
}

abbrev pub never : Call → Bool
never c = false

-- The order of TEXT columns is a strict weak order.
abbrev pub TextOrder : Platform → Type 0
TextOrder sys = IsOrder sys.text_lt

pub precedes-IsOrder : (sys : Platform) → TextOrder sys → IsOrder (precedes sys)
unfolding precedes
precedes-IsOrder sys o = record {
  asym = λ s t.
      let a = sys.format_time s.available_at in
      let b = sys.format_time t.available_at in
      ground (arith, o.asym a b, o.asym b a, o.asym s.task_key t.task_key);
  neg_trans = λ s t u.
      let a = sys.format_time s.available_at in
      let b = sys.format_time t.available_at in
      let c = sys.format_time u.available_at in
      ground (
        arith,
        o.neg_trans a b c,
        o.neg_trans c b a,
        o.neg_trans b c a,
        o.neg_trans a c b,
        o.neg_trans b a c,
        o.neg_trans c a b,
        o.neg_trans s.task_key t.task_key u.task_key,
      );
}

module _ (sys : Platform) (clock : Time) (key : String) (now : Time) (db : Db) where
  -- With a working database a claim takes the task of its key exactly when that has the status queued and
  -- its time has come:
  -- it then returns the row, which has the status claimed and the time of the claim, and is else as it
  -- was, and no other row is changed.
  -- The key is not empty, and the tasks of the store have different keys.
  pub claim_worker_task_lem :
      (key == "") ≡ false
      → HasUniqueKeys db.tasks
      → let at = time_or clock now in
        let due = λ (t : WorkerTask). t.status == "queued" && day_le sys t.available_at at in
        let row = λ (t : WorkerTask). record t { status = "claimed"; updated_at = at } in
        let out = claim_worker_task sys never clock key now db in
        (out.0
          ≡ ok (if passes due (view db.tasks key) then map_some row (view db.tasks key) else none))
        × ((j : String)
            → view out.1.tasks j
              ≡ (if key == j then applied due row (view db.tasks key) else view db.tasks j))
  unfolding claim_worker_task ◌>>=◌ is_claimable claim_row
  claim_worker_task_lem e u =
      let at : Time = time_or clock now in
      let p = is_claimable sys at in
      let found = view-set_task key p db.tasks (claim_row at) (λ t. unfold claim_row in refl) in
      (
        rw (e, affected_lem key p db.tasks u) (ground (arith, found key, eq_refl key)),
        λ j. rw (e, affected_lem key p db.tasks u) (ground (arith, found j)),
      )

has_status_of_is_due :
    (sys : Platform) (role : String) (at : Time) (t : WorkerTask)
    → is_due sys role at t ≡ true
    → has_status status_queued t ≡ true
unfolding is_due is_claimable has_status
has_status_of_is_due sys role at t h = ground arith

module _ (sys : Platform) (role : String) (at : Time) (tasks : List WorkerTask) where
  -- what the selection of the next task promises
  pub record IsFirst (t : WorkerTask) : Type 0 where
    pub stored : view tasks t.task_key ≡ some t
    pub due : is_due sys role at t ≡ true
    pub first : All (λ s. (is_due sys role at s && precedes sys s t) ≡ false) tasks

  pub first_due-stored :
      HasUniqueKeys tasks
      → (t : WorkerTask) → first_due sys role at tasks ≡ some t
      → (view tasks t.task_key ≡ some t) × (has_status status_queued t ≡ true)
  unfolding first_due view
  first_due-stored u t e =
      let due = is_due sys role at in
      let below = precedes sys in
      let rows = select_where due tasks in
      let found =
        All-head _ t (sort_by below rows) e
          (sort_by-All below _ rows (select_where-All due _ tasks (All-found task_key tasks u))) in
      let passed =
        All-head _ t (sort_by below rows) e
          (sort_by-All below _ rows (select_where-passes due tasks)) in
      (found, has_status_of_is_due sys role at t passed)

  first_of :
      (s t : WorkerTask)
      → (is_due sys role at s ≡ true → precedes sys s t ≡ false)
      → (is_due sys role at s && precedes sys s t) ≡ false
  first_of s t h = elim (Bool-cases (is_due sys role at s)) [
    | inl y ↦ rw (y, h y) refl
    | inr n ↦ rw n refl
  ]

  pub first_due-IsFirst :
      TextOrder sys
      → HasUniqueKeys tasks
      → (t : WorkerTask) → first_due sys role at tasks ≡ some t
      → IsFirst t
  unfolding first_due view
  first_due-IsFirst o u t e =
      let due = is_due sys role at in
      let below = precedes sys in
      let rows = select_where due tasks in
      record {
        stored = (first_due-stored u t e).0;
        due =
            All-head _ t (sort_by below rows) e
              (sort_by-All below _ rows (select_where-passes due tasks));
        first =
            All-map (λ s. due s ≡ true → below s t ≡ false) _ (λ s h. first_of s t h) tasks
              (select_where-All_inv due _ tasks
                (head-sort_by below (precedes-IsOrder sys o) t rows e));
      }

  pub first_due-none :
      first_due sys role at tasks ≡ none → All (λ s. is_due sys role at s ≡ false) tasks
  unfolding first_due
  first_due-none e =
      let due = is_due sys role at in
      All-map (λ s. due s ≡ true → due s ≡ false) _
        (λ s h. elim (Bool-cases (due s)) [ inl y ↦ h y | inr n ↦ n ]) tasks
        (select_where-All_inv due _ tasks
          (sort_by-All_inv (precedes sys) _ (select_where due tasks) (All-nothing _ _ e)))

module _ (sys : Platform) (clock : Time) (role : String) (now : Time) (db : Db) where
  claim_selected-none : (at : Time) → claim_selected sys never clock at none db ≡ (ok none, db)
  unfolding claim_selected ◌>>=◌
  claim_selected-none at = refl

  claim_selected_lem :
      (at : Time) (t : WorkerTask)
      → HasUniqueKeys db.tasks
      → view db.tasks t.task_key ≡ some t
      → has_status status_queued t ≡ true
      → claim_selected sys never clock at (some t) db ≡ (
        ok (some t.task_key),
        record db {
          tasks = set_task t.task_key (has_status status_queued) (claim_row at) db.tasks;
        },
      )
  unfolding claim_selected ◌>>=◌
  claim_selected_lem at t u stored q =
      rw (affected_lem t.task_key (has_status status_queued) db.tasks u, stored, q)

  -- With a working database the next task is claimed that is queued for the role, due, and that no
  -- other such task precedes. It is returned as its row now stands, and no other row is changed.
  -- The role is not empty, the order of texts is a strict weak one, and the tasks have different keys.
  pub claim_next_worker_task_lem :
      (role == "") ≡ false
      → TextOrder sys
      → HasUniqueKeys db.tasks
      → let at = time_or clock now in
        let out = claim_next_worker_task sys never clock role now db in
        ((out.0 ≡ ok none) × (out.1 ≡ db) × All (λ s. is_due sys role at s ≡ false) db.tasks)
        ⊎ ((t : WorkerTask) × IsFirst sys role at db.tasks t
            × (out.0 ≡ ok (some (claim_row at t)))
            × ((j : String)
                → view out.1.tasks j
                  ≡ (if t.task_key == j then some (claim_row at t) else view db.tasks j)))
  unfolding claim_next_worker_task ◌>>=◌
  claim_next_worker_task_lem e o u =
      let at : Time = time_or clock now in
      elim (Option-cases (first_due sys role at db.tasks)) [
        | inl n ↦
            let out = claim_selected-none at in
            inl (rw (e, n, out), rw (e, n, out), first_due-none sys role at db.tasks n)
        | inr (t, h) ↦
            let f = first_due-IsFirst sys role at db.tasks o u t h in
            let q = has_status_of_is_due sys role at t f.due in
            let out = claim_selected_lem at t u f.stored q in
            let found =
              view-set_task t.task_key (has_status status_queued) db.tasks (claim_row at)
                (λ r. unfold claim_row in refl) in
            inr (
              t,
              f,
              rw (e, h, out) (ground (arith, found t.task_key, f.stored, q, eq_refl t.task_key)),
              λ j. rw (e, h, out) (ground (arith, found j, f.stored, q)),
            )
      ]
