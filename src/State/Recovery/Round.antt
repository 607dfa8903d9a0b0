-- ===== src/State/Recovery/Round.antt =====
-- One round of the recovery of stale claims, whatever call of the database fails.
use mathlib.Core.Path.{subst}
use agent_machine.Common.{
  ℕ, ◌-◌, String, ◌≡◌, refl, arith, Bool, true, false, Option, none, some, inl, inr, ◌⊎◌,
  Option-cases, trim_space, ◌==◌, ltb,
}
use agent_machine.Common.Table.{upsert}
use agent_machine.State.{
  Time, is_zero, Platform, WorkerTask, Lease, Db, Error, result_key, Result, ok, err, Call, Exec,
  pure, choose, status_claimed,
}
use agent_machine.State.Holds.{Holds, Holds-check, Holds-choose, Holds-transact, Holds-bind, Then}
use agent_machine.State.Rows.{has_status, view, set_task, HasUniqueKeys, updated, task_key_of_view}
use agent_machine.State.Tasks.{worker_task, append_event, insert_event, normalize_event}
use agent_machine.State.Leases.{held, read_lease}
use agent_machine.State.Recovery.{
  beats_after, recover_row, recovery_result, recovery_event, result_conflict, lease_allows,
  claimed_is_recoverable, mark_reconciliation_needed, recover_found, recover_key,
}

-- The task's lease is held: not released, and either not expired or its owner's heartbeat is fresh.
pub record IsProtected (sys : Platform) (now cutoff : Time) (db : Db) (t : WorkerTask)
    : Type 0 where
  pub lease : Lease
  pub named : (trim_space t.lease_name == "") ≡ false
  pub found : held db.leases (trim_space t.lease_name) ≡ some lease
  pub unreleased : is_zero lease.released_at ≡ true
  pub alive :
      (ltb now lease.expires_at ≡ true)
      ⊎ (((trim_space lease.owner == "") ≡ false)
          × (beats_after sys lease.owner cutoff db.heartbeats ≡ true))

-- the database after the recovery of the task `t`
abbrev pub recovered_db : Platform → Time → Time → ℕ → WorkerTask → Db → Db
recovered_db sys clock at stale_after t db = record db {
  tasks = set_task t.task_key (has_status status_claimed) (recover_row at) db.tasks;
  results = upsert result_key result_conflict (recovery_result t at stale_after) db.results;
  events = insert_event sys (normalize_event clock (recovery_event t at stale_after)) db.events;
}

-- The round recovered the task of its key, with its result and its event, or it changed nothing.
abbrev pub Recovered :
    Platform → Time → Time → ℕ → String → Db → Result (Option WorkerTask) × Db → Type 0
Recovered sys clock at stale_after key before out =
    (((t : WorkerTask) → out.0 ≡ ok (some t) → ⊥) × (out.1 ≡ before))
    ⊎ ((t : WorkerTask) × (view before.tasks key ≡ some t)
        × (has_status status_claimed t ≡ true)
        × (IsProtected sys at (at - stale_after) before t → ⊥)
        × (out.0 ≡ ok (some (recover_row at t)))
        × (out.1 ≡ recovered_db sys clock at stale_after t before))

pub task_key-recover_row : (at : Time) (t : WorkerTask) → (recover_row at t).task_key ≡ t.task_key
unfolding recover_row
task_key-recover_row at t = refl

module _ (sys : Platform) (fails : Call → Bool) (clock : Time) (db : Db)
    (u : HasUniqueKeys db.tasks) where
  module _ (at : Time) (stale_after : ℕ) (key : String) where
    none_quiet : (db' : Db) → db' ≡ db → Recovered sys clock at stale_after key db (ok none, db')
    none_quiet db' e = inl (λ t. λ h. cc, e)

    err_quiet : (e : Error) → Recovered sys clock at stale_after key db (err e, db)
    err_quiet e = inl (λ t. λ h. cc, refl)

    mark_reconciliation_needed-Recovered :
        (t : WorkerTask)
        → view db.tasks key ≡ some t
        → (IsProtected sys at (at - stale_after) db t → ⊥)
        → Holds
            (Recovered sys clock at stale_after key db)
            (mark_reconciliation_needed sys fails clock t at stale_after)
            db
    unfolding mark_reconciliation_needed append_event
    mark_reconciliation_needed-Recovered t h free =
        let p = has_status status_claimed in
        Holds-transact _ _ _ db (err_quiet _) (
          Holds-check _ _ db err_quiet (
            Holds-bind _ _ _ db
              (elim (updated t.task_key p db.tasks (recover_row at) (task_key-recover_row at) u) [
                | inl (z, same) ↦ record {
                  at = Holds-check _ _ _ err_quiet (
                      Holds-choose _ _ _ _ (λ e. record { at = none_quiet _ (rw same) }) (λ e. cc));
                }
                | inr (r, g, q, z, after) ↦ record {
                  at = Holds-check _ _ _ err_quiet (
                      Holds-choose _ _ _ _ (λ e. cc)
                        (λ e. Holds-check _ _ _ err_quiet (
                          Holds-bind _ _ _ _ (record {
                            at = Holds-bind _ _ _ _ (
                                Holds-check _ _ _ err_quiet (
                                  Holds-check _ _ _ err_quiet (
                                    Holds-check _ _ _ err_quiet (record {
                                      at = Holds-check _ _ _ err_quiet (record {
                                        at = inr (
                                          t,
                                          h,
                                          subst (λ x. p x ≡ true)
                                              (cc (task_key_of_view key db.tasks t h)) q,
                                          free,
                                          refl,
                                          refl,
                                        );
                                      });
                                    }))));
                          }))));
                }
              ])))

    skip : Holds (Recovered sys clock at stale_after key db) (pure none) db
    skip = record { at = none_quiet db refl }

    module _ (t : WorkerTask) (h : view db.tasks key ≡ some t) where
      -- what is left to do once it is known whether the claim is recoverable
      settle :
          (b : Bool)
          → (b ≡ true → IsProtected sys at (at - stale_after) db t → ⊥)
          → Holds
              (Recovered sys clock at stale_after key db)
              (choose b (mark_reconciliation_needed sys fails clock t at stale_after) (pure none))
              db
      settle b free =
          Holds-choose _ _ _ db (λ e. mark_reconciliation_needed-Recovered t h (free e)) (λ e. skip)

      Decides : Exec Bool → Type 0
      Decides m =
          Holds
            (Then (Recovered sys clock at stale_after key db) (λ b.
              choose b (mark_reconciliation_needed sys fails clock t at stale_after) (pure none)))
            m db

      lease_allows-Decides :
          (o : Option Lease)
          → held db.leases (trim_space t.lease_name) ≡ o
          → Decides (lease_allows sys fails clock at (at - stale_after) o)
      unfolding lease_allows Decides
      lease_allows-Decides none e = record { at = settle true (λ b k. ground (arith, k.found)) }
      lease_allows-Decides (some l) e =
          Holds-choose _ _ _ db
            (λ r. record { at = settle true (λ b k. ground (arith, k.found, k.unreleased)) })
            (λ r.
              Holds-choose _ _ _ db (λ x. record { at = settle false (λ b. cc) })
                (λ x.
                  Holds-choose _ _ _ db
                    (λ w. record { at = settle true (λ b k. ground (arith, k.found, k.alive)) })
                    (λ w.
                      Holds-check _ _ db err_quiet
                        (record { at = settle _ (λ b k. ground (arith, k.found, k.alive)) }))))

      claimed_is_recoverable-Decides :
          Decides (claimed_is_recoverable sys fails clock t at (at - stale_after))
      unfolding claimed_is_recoverable read_lease Decides
      claimed_is_recoverable-Decides =
          Holds-choose _ _ _ db (λ n. record { at = settle true (λ b k. ground (arith, k.named)) })
            (λ n. Holds-bind _ _ _ db (
              Holds-check _ _ db err_quiet
                (Holds-check _ _ db err_quiet (record { at = lease_allows-Decides _ refl }))))

    -- Whatever call of the database fails, a round of the loop either changes nothing, or it finds a
    -- claimed task whose lease is not held and turns it, its result and one event together into a
    -- recorded need of reconciliation.
    -- The tasks of the store have different keys.
    pub recover_key-Recovered :
        Holds
          (Recovered sys clock at stale_after key db)
          (recover_key sys fails clock at stale_after key)
          db
    unfolding recover_key recover_found worker_task Decides
    recover_key-Recovered = Holds-bind _ _ _ db (
        Holds-check _ _ db err_quiet (record {
          at = (elim (Option-cases (view db.tasks key)) [
            | inl n ↦ rw n skip
            | inr (t, h) ↦ rw h (
                Holds-choose _ _ _ db (λ e. skip)
                  (λ e. Holds-bind _ _ _ db (claimed_is_recoverable-Decides t h)))
          ]);
        }))
