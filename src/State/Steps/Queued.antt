-- ===== src/State/Steps/Queued.antt =====
-- How one operation changes whether a task is queued.
use mathlib.Core.Path.{subst}
use agent_machine.Common.{
  ◌∙◌, ℕ, ◌+◌, ◌≤◌, String, ◌≡◌, refl, arith, Bool, true, false, Option, none, some, List, inl, inr,
  ◌⊎◌, ◌==◌, ==→≡, if◌then◌else◌, Bool-cases, ◌&&◌,
}
use agent_machine.Common.Table.{upsert, find-upsert, passes}
use agent_machine.State.{
  Time, Platform, WorkerTask, Db, Result, ok, err, Call, task_key, status_queued, status_claimed,
}
use agent_machine.State.Holds.{Holds, Holds-check}
use agent_machine.State.Rows.{has_status, view, view-set_task, task_key_of_view}
use agent_machine.State.Tasks.{
  is_claimable, claim_row, complete_row, touch_row, task_conflict, defaulted, upsert_worker_task,
}
use agent_machine.State.Tasks.Outcomes.{Changed, Claimed, IsQuiet, Hands, task_key-claim_row}
use agent_machine.State.Recovery.{recover_row}
use agent_machine.State.Steps.{Op, upsert_task, complete, requeue, handed}

unfoldable pub queued_in : Option WorkerTask → ℕ
queued_in o = if passes (has_status status_queued) o then 1 else 0

unfoldable pub hands_out : String → Option WorkerTask → ℕ
hands_out k none = 0
hands_out k (some t) = if t.task_key == k then 1 else 0

-- the operations that may leave the task `k` queued anew
unfoldable pub enqueues : String → Op → ℕ
enqueues k (upsert_task t) = if t.task_key == k then 1 else 0
enqueues k (complete key status now) = if key == k && status == status_queued then 1 else 0
enqueues k (requeue key reason now) = if key == k then 1 else 0
enqueues k _ = 0

module _ (k : String) (before : List WorkerTask) where
  module _ (key : String) (p : WorkerTask → Bool) (f : WorkerTask → WorkerTask)
      (same : (t : WorkerTask) → task_key (f t) ≡ task_key t) (n : ℕ) where
    -- A row that the statement sets is queued only by one of `n`.
    pub queued-Changed :
        (after : List WorkerTask)
        → Changed key p f before after
        → ((t : WorkerTask) → p t ≡ true → (key == k) ≡ true → queued_in (some (f t)) ≤ n)
        → queued_in (view after k) ≤ queued_in (view before k) + n
    queued-Changed after (inl e) h = rw e (ground arith)
    queued-Changed after (inr (t, g, q, e)) h = elim (Bool-cases (key == k)) [
      | inl y ↦
          let same_row : view before k ≡ some t = rw (sym_key y) g in
          rw (e, view-set_task key p before f same k, y, same_row, g, q) (ground (arith, h t q y))
      | inr y ↦ rw (e, view-set_task key p before f same k, y) (ground arith)
    ]
      where
        sym_key : (key == k) ≡ true → k ≡ key
        sym_key y = let e = ==→≡ key k y in cc

pub queued_none : (t : WorkerTask) → has_status status_queued t ≡ false → queued_in (some t) ≡ 0
unfolding queued_in
queued_none t h = rw h

queued_one : (t : WorkerTask) → has_status status_queued t ≡ true → queued_in (some t) ≡ 1
unfolding queued_in
queued_one t h = rw h

module _ (k : String) (key : String) (p : WorkerTask → Bool) (at : Time)
    (before : List WorkerTask) where
  quiet_handed : (r : Result (Option WorkerTask)) → IsQuiet r → hands_out k (handed r) ≡ 0
  unfolding hands_out
  quiet_handed (ok none) h = refl
  quiet_handed (ok (some t)) h = absurd h
  quiet_handed (err e) h = refl

  handed_key :
      (r : Result (Option WorkerTask)) (t : WorkerTask)
      → Hands t r
      → hands_out k (handed r) ≤ (if t.task_key == k then 1 else 0)
  unfolding hands_out
  handed_key (ok none) t h = ground arith
  handed_key (ok (some r)) t h = rw h (ground arith)
  handed_key (err e) t h = ground arith

  claimed_not_queued : (t : WorkerTask) → has_status status_queued (claim_row at t) ≡ false
  unfolding claim_row has_status
  claimed_not_queued t = refl

  -- A claim hands a task out at most once for the queued row that it takes away.
  pub queued-Claimed :
      (out : Result (Option WorkerTask) × Db)
      → ((t : WorkerTask) → p t ≡ true → has_status status_queued t ≡ true)
      → Claimed key p at before out
      → hands_out k (handed out.0) + queued_in (view out.1.tasks k) ≤ queued_in (view before k)
  queued-Claimed out was (inl (quiet, e)) = rw (e, quiet_handed out.0 quiet) (ground arith)
  queued-Claimed out was (inr (t, g, q, e, hands)) = elim (Bool-cases (key == k)) [
    | inl y ↦
        let same_key = ==→≡ key k y in
        let same_row : view before k ≡ some t = cc in
        rw
          (
            e,
            view-set_task key p before (claim_row at) (task_key-claim_row at) k,
            y,
            same_row,
            g,
            q,
            queued_none (claim_row at t) (claimed_not_queued t),
            queued_one t (was t q),
          )
          (ground (arith, handed_key out.0 _ hands))
    | inr y ↦
        let named : (claim_row at t).task_key ≡ key =
          task_key-claim_row at t ∙ task_key_of_view key before t g in
        let none_of_k : hands_out k (handed out.0) ≡ 0 =
          fewer _ _ named y (handed_key out.0 _ hands) in
        rw (e, view-set_task key p before (claim_row at) (task_key-claim_row at) k, y, none_of_k)
          (ground arith)
  ]
    where
      fewer :
          (n : ℕ) (name : String)
          → name ≡ key
          → (key == k) ≡ false
          → n ≤ (if name == k then 1 else 0)
          → n ≡ 0
      fewer n name e y h =
          let h' : n ≤ (if key == k then 1 else 0) =
            subst (λ s. n ≤ (if s == k then 1 else 0)) e h in
          ground (arith, h')

pub queued_of_claimable :
    (sys : Platform) (at : Time) (t : WorkerTask)
    → is_claimable sys at t ≡ true
    → has_status status_queued t ≡ true
unfolding is_claimable has_status
queued_of_claimable sys at t h = ground arith

-- the status that a completion sets
pub complete_row_queued :
    (status : String) (at : Time) (t : WorkerTask)
    → queued_in (some (complete_row status at t)) ≡ (if status == status_queued then 1 else 0)
unfolding queued_in complete_row has_status
complete_row_queued status at t = refl

pub touched_not_queued :
    (at : Time) (t : WorkerTask)
    → has_status status_claimed t ≡ true
    → has_status status_queued (touch_row at t) ≡ false
unfolding touch_row has_status
touched_not_queued at t h = rw (==→≡ t.status status_claimed h) refl

pub recovered_not_queued :
    (at : Time) (t : WorkerTask) → has_status status_queued (recover_row at t) ≡ false
unfolding recover_row has_status
recovered_not_queued at t = refl

pub queued_at_most : (o : Option WorkerTask) → queued_in o ≤ 1
unfolding queued_in
queued_at_most o = ground arith

pub no_hand : (k : String) → hands_out k none ≡ 0
unfolding hands_out
no_hand k = refl

-- What UpsertWorkerTask leaves, whatever fails.
pub upsert_worker_task-Upserted :
    (sys : Platform) (fails : Call → Bool) (clock : Time) (task : WorkerTask) (db : Db)
    → Holds
        (λ out.
          (out.1.tasks ≡ db.tasks)
          ⊎ (out.1.tasks ≡ upsert task_key task_conflict (defaulted clock task) db.tasks))
        (upsert_worker_task sys fails clock task)
        db
unfolding upsert_worker_task
upsert_worker_task-Upserted sys fails clock task db =
    Holds-check _ _ db (λ e. inl refl)
      (Holds-check _ _ db (λ e. inl refl)
        (Holds-check _ _ db (λ e. inl refl)
          (Holds-check _ _ db (λ e. inl refl) (record { at = inr refl }))))

view-upsert_other :
    (k : String) (clock : Time) (task : WorkerTask) (before : List WorkerTask)
    → (task.task_key == k) ≡ false
    → view (upsert task_key task_conflict (defaulted clock task) before) k ≡ view before k
unfolding view
view-upsert_other k clock task before y =
    rw (find-upsert task_key task_conflict (defaulted clock task) (λ r. refl) k before, y)

pub queued-upsert :
    (k : String) (clock : Time) (task : WorkerTask) (before after : List WorkerTask)
    → (after ≡ before) ⊎ (after ≡ upsert task_key task_conflict (defaulted clock task) before)
    → queued_in (view after k) ≤ queued_in (view before k) + (if task.task_key == k then 1 else 0)
queued-upsert k clock task before after (inl e) = rw e (ground arith)
queued-upsert k clock task before after (inr e) = elim (Bool-cases (task.task_key == k)) [
  | inl y ↦ rw y (ground (arith, queued_at_most (view after k)))
  | inr y ↦ rw (e, view-upsert_other k clock task before y, y) (ground arith)
]
