-- ===== src/State/Leases/Working.antt =====
-- AcquireLease, RenewLease and ReleaseLease on a database whose calls succeed.
use agent_machine.Common.{
  ◌≤◌, String, ◌≡◌, refl, sym, arith, true, false, not, ◌&&◌, ltb, Option, none, some, inl, inr,
  ◌==◌, eq_refl, Bool-cases, Option-cases, if◌then◌else◌,
}
use agent_machine.Common.Table.{passes, applied}
use agent_machine.State.{
  Time, is_zero, Platform, Lease, Db, ok, err, lease_held, lease_key, time_or, ◌>>=◌,
}
use agent_machine.State.Tasks.Claims.{never}
use agent_machine.State.Leases.{
  held, normalize_lease, is_lapsed, is_active, is_unreleased, renew_row, release_row, acquire_found,
  acquire_lease, renew_lease, release_lease,
}
use agent_machine.State.Leases.Rows.{HasUniqueNames, leases_affected_lem, held-set_lease}

abbrev pub KeepsOrder : Platform → Type 0
KeepsOrder sys = (s t : Time) → s ≤ t → sys.julian s ≤ sys.julian t

lapsed_of_over :
    (sys : Platform) (at : Time) (l : Lease)
    → KeepsOrder sys
    → is_zero l.expires_at ≡ false
    → is_active at l ≡ false
    → is_lapsed sys at l ≡ true
unfolding is_active is_lapsed
lapsed_of_over sys at l keeps set over = ground (arith, keeps l.expires_at at)

renewed_name : (at expires : Time) (l : Lease) → lease_key (renew_row at expires l) ≡ lease_key l
unfolding renew_row
renewed_name at expires l = refl

released_name :
    (at : Time) (reason : String) (l : Lease) → lease_key (release_row at reason l) ≡ lease_key l
unfolding release_row
released_name at reason l = refl

over_released :
    (at stamp : Time) (reason : String) (o : Option Lease)
    → is_zero stamp ≡ false
    → passes (is_active at) (applied (λ l. true) (release_row stamp reason) o) ≡ false
unfolding is_active release_row
over_released at stamp reason none set = refl
over_released at stamp reason (some l) set = rw set refl

module _ (sys : Platform) (clock : Time) (db : Db) where
  free_of_all :
      (at : Time) (new : Lease) (db' : Db)
      → (acquire_found sys never clock new at none db').0 ≡ ok true
  unfolding acquire_found ◌>>=◌
  free_of_all at new db' = refl

  acquire_found_lem :
      (at : Time) (new old : Lease)
      → HasUniqueNames db.leases
      → KeepsOrder sys
      → held db.leases new.name ≡ some old
      → is_zero old.expires_at ≡ false
      → (acquire_found sys never clock new at (some old) db).0 ≡ ok (not (is_active at old))
  unfolding acquire_found ◌>>=◌
  acquire_found_lem at new old u keeps h set = elim (Bool-cases (is_active at old)) [
    | inl a ↦ rw a refl
    | inr a ↦
        rw
          (
            a,
            leases_affected_lem new.name (is_lapsed sys at) db.leases u,
            h,
            lapsed_of_over sys at old keeps set a,
          )
          refl
  ]

  -- With a working database AcquireLease of a named lease returns no error, and grants the lease exactly
  -- where the store has none of its name or one that is released or whose expiry is not after the time of the
  -- call, whatever the heartbeats of its owner. The days by which SQLite
  -- compares keep the order of the times, and a stored lease has an expiry.
  -- The leases of the store have different names.
  pub acquire_lease-grants :
      (l : Lease) (now : Time)
      → HasUniqueNames db.leases
      → KeepsOrder sys
      → (l.name == "") ≡ false
      → (l.scope == "") ≡ false
      → (l.owner == "") ≡ false
      → passes (λ old. is_zero old.expires_at) (held db.leases l.name) ≡ false
      → (acquire_lease sys never clock l now db).0
        ≡ ok (
            not (
              passes
                (λ old. is_zero old.released_at && ltb (time_or clock now) old.expires_at)
                (held db.leases l.name)))
  unfolding acquire_lease ◌>>=◌ is_active
  acquire_lease-grants l now u keeps named scoped owned set =
      let at : Time = time_or clock now in
      let new = normalize_lease clock at l in
      elim (Option-cases (held db.leases l.name)) [
        | inl n ↦ rw (named, scoped, owned, n, free_of_all at new db) refl
        | inr (old, h) ↦
            rw (named, scoped, owned, h, acquire_found_lem at new old u keeps h (unset old h set))
              refl
      ]
    where
      the_row :
          (old : Lease)
          → held db.leases l.name ≡ some old
          → passes (λ o. is_zero o.expires_at) (held db.leases l.name) ≡ is_zero old.expires_at
      the_row old h = rw h refl

      unset :
          (old : Lease)
          → held db.leases l.name ≡ some old
          → passes (λ o. is_zero o.expires_at) (held db.leases l.name) ≡ false
          → is_zero old.expires_at ≡ false
      unset old h set = rw (sym (the_row old h)) set

  -- With a working database RenewLease succeeds exactly on a lease that is not released, and sets its expiry
  -- and the time of its renewal to those that it is given, with their defaults; ReleaseLease succeeds on any
  -- lease of the store, and sets the time and the reason of its release, so that it is no longer active at
  -- any time. Neither changes anything else of the lease, nor another lease.
  -- The name and the time are set, and the leases of the store have different names.
  pub renew-release_lem :
      (name reason : String) (t expires : Time) (at : Time)
      → HasUniqueNames db.leases
      → (name == "") ≡ false
      → is_zero (time_or clock t) ≡ false
      → let renewed = renew_lease sys never clock name t expires db in
        let released = release_lease sys never clock name t reason db in
        let stamp = time_or clock t in
        let is_open = λ (l : Lease). is_zero l.released_at in
        let renewal =
          λ (l : Lease). record l { expires_at = time_or stamp expires; renewed_at = stamp } in
        let release = λ (l : Lease). record l { released_at = stamp; release_reason = reason } in
        (renewed.0 ≡ (if passes is_open (held db.leases name) then ok tt else err lease_held))
        × ((j : String)
            → held renewed.1.leases j ≡ (
                if name == j
                then applied is_open renewal (held db.leases name)
                else held db.leases j))
        × (released.0
            ≡ (if passes (λ l. true) (held db.leases name) then ok tt else err lease_held))
        × (passes (λ l. is_zero l.released_at && ltb at l.expires_at) (held released.1.leases name)
            ≡ false)
        × ((j : String)
            → held released.1.leases j ≡ (
                if name == j
                then applied (λ l. true) release (held db.leases name)
                else held db.leases j))
  unfolding renew_lease release_lease ◌>>=◌ is_unreleased is_active renew_row release_row
  renew-release_lem name reason t expires at u named set =
      let stamp = time_or clock t in
      let row = renew_row stamp (time_or stamp expires) in
      let renewed_rows =
        held-set_lease name is_unreleased db.leases row
          (renewed_name stamp (time_or stamp expires)) in
      let released_rows =
        held-set_lease name (λ l. true) db.leases (release_row stamp reason)
          (released_name stamp reason) in
      (
        rw (named, leases_affected_lem name is_unreleased db.leases u) (ground arith),
        λ j.
            rw (named, leases_affected_lem name is_unreleased db.leases u)
              (ground (arith, renewed_rows j)),
        rw (named, leases_affected_lem name (λ l. true) db.leases u) (ground arith),
        elim (Option-cases (held db.leases name)) [
          | inl n ↦
              rw
                (
                  named,
                  leases_affected_lem name (λ l. true) db.leases u,
                  n,
                  released_rows name,
                  eq_refl name,
                  n,
                )
                refl
          | inr (l, h) ↦
              rw
                (
                  named,
                  leases_affected_lem name (λ l. true) db.leases u,
                  h,
                  released_rows name,
                  eq_refl name,
                  h,
                )
                (over_released at stamp reason (some l) set)
        ],
        λ j.
            rw (named, leases_affected_lem name (λ l. true) db.leases u)
              (ground (arith, released_rows j)),
      )
