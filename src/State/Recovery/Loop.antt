-- ===== src/State/Recovery/Loop.antt =====
-- The whole recovery of stale claims: what it may do to the row of any key.
use mathlib.Core.Path.{subst}
use agent_machine.Common.{
  ℕ, ◌-◌, String, ◌≡◌, refl, sym, ◌∙◌, arith, Bool, true, false, Option, some, List, [], ◌∷◌, inl,
  inr, ◌⊎◌, Bool-cases, ==→≡, All, All-map, All-both, All-of_map, ◌==◌, eqb,
}
use agent_machine.Common.Table.{select_where, All-found}
use agent_machine.Common.Sort.{sort_by-All, select_where-All, select_where-passes}
use agent_machine.State.{
  Time, Platform, WorkerTask, Db, Result-cases, Call, select, task_key, time_or, status_claimed,
}
use agent_machine.State.Rows.{
  has_status, view, set_task, HasUniqueKeys, HasUniqueKeys-set_task, view-set_task,
  task_key_of_view,
}
use agent_machine.State.Recovery.{
  is_stale, updated_before, stale_keys, recover_row, recover_key, recover_keys, mark_stale_claimed,
  push_some,
}
use agent_machine.State.Recovery.Round.{IsProtected, recover_key-Recovered, task_key-recover_row}

-- The row of a key after the operation: as before, or, if it was a stale claim whose lease is not
-- held, in need of reconciliation.
abbrev pub RowOutcome : Platform → Time → ℕ → Db → String → Option WorkerTask → Type 0
RowOutcome sys at stale_after before j new =
    (new ≡ view before.tasks j)
    ⊎ ((t : WorkerTask) × (view before.tasks j ≡ some t)
        × (is_stale sys (at - stale_after) t ≡ true)
        × (IsProtected sys at (at - stale_after) before t → ⊥)
        × (new ≡ some (recover_row at t)))

module _ (sys : Platform) (at : Time) (stale_after : ℕ) (before : Db) where
  -- what every round keeps
  pub record Kept (db : Db) : Type 0 where
    pub unique : HasUniqueKeys db.tasks
    pub leases : db.leases ≡ before.leases
    pub heartbeats : db.heartbeats ≡ before.heartbeats
    pub rows : (j : String) → RowOutcome sys at stale_after before j (view db.tasks j)

  abbrev StaleKey : String → Type 0
  StaleKey k =
      (t : WorkerTask) × (view before.tasks k ≡ some t) × (is_stale sys (at - stale_after) t ≡ true)

  IsProtected-before :
      (db : Db) (t : WorkerTask)
      → Kept db
      → IsProtected sys at (at - stale_after) before t
      → IsProtected sys at (at - stale_after) db t
  IsProtected-before db t k p = record {
    lease = p.lease;
    named = p.named;
    found = rw k.leases p.found;
    unreleased = p.unreleased;
    alive = rw k.heartbeats p.alive;
  }

  recovered_not_claimed : (t : WorkerTask) → has_status status_claimed (recover_row at t) ≡ false
  unfolding recover_row has_status
  recovered_not_claimed t = refl

  -- A claimed row of a stale key is still the row that the selection saw.
  still_before :
      (db : Db) (k : String) (t : WorkerTask)
      → Kept db
      → view db.tasks k ≡ some t
      → has_status status_claimed t ≡ true
      → view before.tasks k ≡ some t
  still_before db k t kept h q = elim (kept.rows k) [
    | inl e ↦ sym e ∙ h
    | inr (r, g, s, free, e) ↦ absurd (ground (arith, recovered_not_claimed r))
  ]

  recovered_rows :
      (k : String) (db : Db) (t : WorkerTask)
      → StaleKey k
      → Kept db
      → view db.tasks k ≡ some t
      → has_status status_claimed t ≡ true
      → (IsProtected sys at (at - stale_after) db t → ⊥)
      → (j : String)
      → RowOutcome sys at stale_after before j
          (view (set_task t.task_key (has_status status_claimed) (recover_row at) db.tasks) j)
  recovered_rows k db t (t0, g, s) kept h q free j =
      let p = has_status status_claimed in
      let key = task_key_of_view k db.tasks t h in
      let seen = still_before db k t kept h q in
      let found = view-set_task t.task_key p db.tasks (recover_row at) (task_key-recover_row at) in
      elim (Bool-cases (t.task_key == j)) [
        | inl e ↦
            let same : k ≡ j = sym key ∙ ==→≡ t.task_key j e in
            let old = subst (λ i. view db.tasks i ≡ some t) (sym key) h in
            inr (
              t,
              rw (← same) seen,
              subst (λ x. is_stale sys (at - stale_after) x ≡ true) (cc) s,
              λ b. free (IsProtected-before db t kept b),
              rw (found j, e, old, q),
            )
        | inr e ↦ rw (found j, e) (kept.rows j)
      ]

  round-Kept :
      (fails : Call → Bool) (clock : Time) (k : String) (db : Db)
      → StaleKey k
      → Kept db
      → Kept (recover_key sys fails clock at stale_after k db).1
  round-Kept fails clock k db stale kept =
      elim (recover_key-Recovered sys fails clock db kept.unique at stale_after k).at [
        | inl (quiet, same) ↦ rw same kept
        | inr (t, h, q, free, out, after) ↦
            let seen = still_before db k t kept h q in
            rw after (record {
              unique =
                  HasUniqueKeys-set_task t.task_key _ db.tasks (recover_row at)
                    (task_key-recover_row at) kept.unique;
              leases = kept.leases;
              heartbeats = kept.heartbeats;
              rows = λ j. recovered_rows k db t stale kept h q free j;
            })
      ]

  loop-Kept :
      (fails : String → Call → Bool) (clock : Time) (keys : List String) (done : List WorkerTask)
      (db : Db)
      → All StaleKey keys
      → Kept db
      → Kept (recover_keys sys fails clock at stale_after keys done db).1
  unfolding recover_keys
  loop-Kept fails clock [] done db stale kept = kept
  loop-Kept fails clock (k ∷ keys) done db (s, stale) kept =
      let kept' = round-Kept (fails k) clock k db s kept in
      elim (Result-cases (recover_key sys (fails k) clock at stale_after k db).0) [
        | inl (o, e) ↦
            rw (e, recover_keys) (loop-Kept fails clock keys (push_some done o) _ stale kept')
        | inr (x, e) ↦ rw (e, recover_keys) kept'
      ]

stale_keys-StaleKey :
    (sys : Platform) (at : Time) (stale_after : ℕ) (before : Db)
    → HasUniqueKeys before.tasks
    → All (StaleKey sys at stale_after before) (stale_keys sys (at - stale_after) before.tasks)
unfolding stale_keys view
stale_keys-StaleKey sys at stale_after before u =
    let stale = is_stale sys (at - stale_after) in
    let tasks = before.tasks in
    let rows = select_where stale tasks in
    All-of_map task_key (StaleKey sys at stale_after before) _ (
      sort_by-All (updated_before sys) _ rows (
        All-map _ _ (λ t b. (t, b.0, b.1)) rows
          (All-both _ _ rows (select_where-All stale _ tasks (All-found task_key tasks u))
            (select_where-passes stale tasks))))

-- Whatever calls of the database fail, the recovery of stale claims leaves the row of every key as it
-- was, unless that row was claimed, was last written no later than the cutoff, and its lease is not
-- held; such a row may become one in need of reconciliation. Leases and heartbeats stay.
-- The tasks of the store have different keys.
pub mark_stale_claimed-Kept :
    (sys : Platform) (fails : String → Call → Bool) (clock : Time) (now : Time) (stale_after : ℕ)
    (db : Db)
    → HasUniqueKeys db.tasks
    → Kept sys
        (time_or clock now)
        stale_after
        db
        (mark_stale_claimed sys fails clock now stale_after db).1
unfolding mark_stale_claimed
mark_stale_claimed-Kept sys fails clock now stale_after db u =
    let at : Time = time_or clock now in
    let start : Kept sys at stale_after db db = record {
      unique = u;
      leases = refl;
      heartbeats = refl;
      rows = λ j. inl refl;
    } in
    elim (Bool-cases (eqb stale_after 0)) [
      | inl e ↦ rw e start
      | inr e ↦ elim (Bool-cases (fails "" select)) [
        | inl f ↦ rw (e, f) start
        | inr f ↦
            rw (e, f)
              (loop-Kept sys at stale_after db fails clock _ [] db
                (stale_keys-StaleKey sys at stale_after db u) start)
      ]
    ]
