-- ===== src/State/Leases.antt =====
-- The leases and the heartbeats of internal/state/store.go.
pub mod Rows
pub mod Acquire
pub mod Exclusive
pub mod Working
use agent_machine.Common.{
  ℕ, String, Bool, true, false, not, ◌&&◌, ◌||◌, Option, none, some, List, [], ◌∷◌, ◌++◌, ◌==◌, ltb,
  eqb, if◌then◌else◌,
}
use agent_machine.Common.Table.{update_where, count_where, find, upsert}
use agent_machine.State.{
  Time, is_zero, Platform, day_le, Lease, DaemonHeartbeat, lease_key, ok, required, lease_held,
  Call, begin, insert, select, update, rows_affected, event, lease, commit, Exec, ◌>>=◌, ◌>>◌, pure,
  gets, reject_if, call, choose, transact, time_or, text_or,
}

-- the row of a lease's name
unfoldable pub held : List Lease → String → Option Lease
unfolding find
held leases name = find lease_key name leases

-- UPDATE leases SET … WHERE name = ? AND …
unfoldable pub leases_affected : String → (Lease → Bool) → List Lease → ℕ
unfolding count_where
leases_affected name p leases = count_where (λ l. lease_key l == name && p l) leases

unfoldable pub set_lease : String → (Lease → Bool) → (Lease → Lease) → List Lease → List Lease
unfolding update_where
set_lease name p f leases = update_where (λ l. lease_key l == name && p l) f leases

abbrev pub update_lease : String → (Lease → Bool) → (Lease → Lease) → Exec ℕ
update_lease name p f db =
    (ok (leases_affected name p db.leases), record db { leases = set_lease name p f db.leases })

-- normalizeLease, on a lease that passed its tests
abbrev pub normalize_lease : Time → Time → Lease → Lease
normalize_lease clock now l =
    let acquired = time_or (time_or clock now) l.acquired_at in
    let renewed = time_or acquired l.renewed_at in
    record l {
      acquired_at = acquired;
      renewed_at = renewed;
      expires_at = time_or renewed l.expires_at;
      released_at = 0;
      release_reason = "";
    }

-- The columns that a statement sets from the new lease; the name is the row's own.
pub take_lease : Lease → Lease → Lease
take_lease new old = record new { name = old.name }

-- released_at <> '' OR julianday(expires_at) <= julianday(?)
unfoldable pub is_lapsed : Platform → Time → Lease → Bool
is_lapsed sys at l = not (is_zero l.released_at) || day_le sys l.expires_at at

unfoldable pub is_unreleased : Lease → Bool
is_unreleased l = is_zero l.released_at

unfoldable pub is_owned_unreleased : String → Lease → Bool
is_owned_unreleased owner l = l.owner == owner && is_zero l.released_at

pub renew_row : Time → Time → Lease → Lease
renew_row renewed_at expires_at l = record l { expires_at = expires_at; renewed_at = renewed_at }

pub release_row : Time → String → Lease → Lease
release_row at reason l = record l { released_at = at; release_reason = reason }

-- The existing lease, before the update: still held at `at`.
unfoldable pub is_active : Time → Lease → Bool
is_active at l = is_zero l.released_at && ltb at l.expires_at

module _ (sys : Platform) (fails : Call → Bool) (clock : Time) where
  unfoldable pub upsert_lease : Lease → Exec (Unit {0})
  unfolding upsert
  upsert_lease l = do
    reject_if (l.name == "") (required "name")
    reject_if (l.scope == "") (required "scope")
    reject_if (l.owner == "") (required "owner")
    call (fails insert)
    λ db. (
      ok tt,
      record db {
        leases =
            upsert lease_key (λ old new. take_lease new old) (normalize_lease clock clock l)
              db.leases;
      },
    )

  abbrev pub record_lease_reclaim : String → String → String → String → Time → Exec (Unit {0})
  record_lease_reclaim name old_owner new_owner reason at = do
    call (fails event)
    λ db. (
      ok tt,
      record db {
        lease_reclaims =
            db.lease_reclaims
            ++ record {
              lease = name;
              old_owner = old_owner;
              new_owner = new_owner;
              reason = reason;
              captured_at = at;
            }
              ∷ [];
      },
    )

  -- The transaction of AcquireLease after INSERT OR IGNORE, which inserts only where there is no row.
  unfoldable pub acquire_found : Lease → Time → Option Lease → Exec Bool
  acquire_found new at none = do
    _ ← λ db. (ok tt, record db { leases = db.leases ++ new ∷ [] })
    call (fails commit)
    pure true
  acquire_found new at (some old) = do
    call (fails select)
    choose (is_active at old) (pure false) (do
      call (fails update)
      rows ← update_lease new.name (is_lapsed sys at) (take_lease new)
      choose (eqb rows 0) (pure false) (do
        _ ←
            record_lease_reclaim new.name old.owner new.owner
              (if is_zero old.released_at then "stale" else "released") at
        call (fails commit)
        pure true))

  unfoldable pub acquire_lease : Lease → Time → Exec Bool
  acquire_lease l now = do
    let at = time_or clock now
    reject_if (l.name == "") (required "name")
    reject_if (l.scope == "") (required "scope")
    reject_if (l.owner == "") (required "owner")
    transact (fails begin) (do
      call (fails insert)
      found ← gets (λ db. held db.leases l.name)
      acquire_found (normalize_lease clock at l) at found)

  unfoldable pub renew_lease : String → Time → Time → Exec (Unit {0})
  renew_lease name renewed_at expires_at = do
    reject_if (name == "") (required "name")
    let renewed = time_or clock renewed_at
    call (fails update)
    rows ← update_lease name is_unreleased (renew_row renewed (time_or renewed expires_at))
    reject_if (eqb rows 0 || fails rows_affected) lease_held
    pure tt

  unfoldable pub release_lease : String → Time → String → Exec (Unit {0})
  release_lease name released_at reason = do
    reject_if (name == "") (required "name")
    call (fails update)
    rows ← update_lease name (λ l. true) (release_row (time_or clock released_at) reason)
    reject_if (eqb rows 0 || fails rows_affected) lease_held
    pure tt

  unfoldable pub read_lease : String → Exec (Option Lease)
  read_lease name = do
    reject_if (name == "") (required "name")
    call (fails lease)
    gets (λ db. held db.leases name)

  unfoldable pub reclaim_found : Lease → Time → String → Option Lease → Exec Bool
  reclaim_found new at reason none = pure false
  reclaim_found new at reason (some old) =
      choose (is_unreleased old)
        (do
          call (fails update)
          rows ← update_lease new.name (is_owned_unreleased old.owner) (take_lease new)
          choose (eqb rows 0) (pure false) (do
            _ ← record_lease_reclaim new.name old.owner new.owner (text_or "reclaimed" reason) at
            call (fails commit)
            pure true))
        (pure false)

  unfoldable pub reclaim_lease : Lease → Time → String → Exec Bool
  reclaim_lease l now reason = do
    let at = time_or clock now
    reject_if (l.name == "") (required "name")
    reject_if (l.scope == "") (required "scope")
    reject_if (l.owner == "") (required "owner")
    transact (fails begin) (do
      call (fails select)
      found ← gets (λ db. held db.leases l.name)
      reclaim_found (normalize_lease clock at l) at reason found)

-- UPDATE daemon_heartbeats … WHERE process_id = ? AND lane_name = ?
abbrev pub same_lane : DaemonHeartbeat → DaemonHeartbeat → Bool
same_lane new old = old.process_id == new.process_id && old.lane_name == new.lane_name

-- COALESCE(NULLIF(?, ''), last_success_at)
abbrev pub beat_row : DaemonHeartbeat → DaemonHeartbeat → DaemonHeartbeat
beat_row new old = record new {
  process_id = old.process_id;
  lane_name = old.lane_name;
  last_success_at =
      if is_zero new.last_success_at then old.last_success_at else new.last_success_at;
}

module _ (fails : Call → Bool) (clock : Time) where
  unfoldable pub upsert_daemon_heartbeat : DaemonHeartbeat → Exec (Unit {0})
  unfolding update_where count_where
  upsert_daemon_heartbeat beat = do
    reject_if (beat.process_id == "") (required "process_id")
    reject_if (beat.lane_name == "") (required "lane_name")
    let new = record beat { updated_at = time_or clock beat.updated_at }
    call (fails update)
    rows ← λ db. (
      ok (count_where (same_lane new) db.heartbeats),
      record db { heartbeats = update_where (same_lane new) (beat_row new) db.heartbeats },
    )
    call (fails rows_affected)
    choose (not (eqb rows 0)) (pure tt) (do
      call (fails insert)
      λ db. (ok tt, record db { heartbeats = db.heartbeats ++ new ∷ [] }))
