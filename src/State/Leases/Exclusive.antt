-- ===== src/State/Leases/Exclusive.antt =====
-- A lease is not granted to a second owner before it expires.
use agent_machine.Common.{◌<◌, ◌≡◌, refl, arith, Bool, true, false, some, inl, inr, eq_refl}
use agent_machine.State.{Time, Platform, Lease, Db, Call, time_or}
use agent_machine.State.Holds.{Holds, Holds-check, Holds-choose, Holds-transact, Holds-bind}
use agent_machine.State.Leases.{held, normalize_lease, is_active, acquire_found, acquire_lease}
use agent_machine.State.Leases.Rows.{HasUniqueNames}
use agent_machine.State.Leases.Acquire.{granted, acquire_lease-Granted}

module _ (sys : Platform) where
  -- Whatever call of the database fails, AcquireLease for a name whose lease is unreleased and not yet
  -- expired grants nothing and changes nothing.
  pub acquire_lease-refused :
      (fails : Call → Bool) (clock : Time) (l : Lease) (now : Time) (db : Db) (old : Lease)
      → held db.leases l.name ≡ some old
      → is_active (time_or clock now) old ≡ true
      → Holds
          (λ out. (granted out.0 ≡ false) × (out.1 ≡ db))
          (acquire_lease sys fails clock l now)
          db
  unfolding acquire_lease acquire_found
  acquire_lease-refused fails clock l now db old h a =
      Holds-check _ _ db (λ e. (refl, refl))
        (Holds-check _ _ db (λ e. (refl, refl))
          (Holds-check _ _ db (λ e. (refl, refl))
            (Holds-transact _ _ _ db (refl, refl)
              (Holds-check _ _ db (λ e. (refl, refl))
                (Holds-bind _ _ _ db (record {
                  at = rw h (
                      Holds-check _ _ db (λ e. (refl, refl))
                        (Holds-choose _ _ _ db (λ y. record { at = (refl, refl) }) (λ n. cc)));
                }))))))

  active_until :
      (clock at later : Time) (l : Lease)
      → later < (normalize_lease clock at l).expires_at
      → is_active later (normalize_lease clock at l) ≡ true
  unfolding is_active
  active_until clock at later l h = ground (arith, h)

  -- After a granted AcquireLease, another for the same name that comes before the granted lease expires
  -- is refused and changes nothing, whatever calls of the database fail in either.
  -- The leases of the store have different names.
  pub acquire_lease-exclusive :
      (fails fails' : Call → Bool) (clock clock' : Time) (l l' : Lease) (now now' : Time) (db : Db)
      → HasUniqueNames db.leases
      → l'.name ≡ l.name
      → granted (acquire_lease sys fails clock l now db).0 ≡ true
      → time_or clock' now' < (normalize_lease clock (time_or clock now) l).expires_at
      → let after = (acquire_lease sys fails clock l now db).1 in
        let second = acquire_lease sys fails' clock' l' now' after in
        (granted second.0 ≡ false) × (second.1 ≡ after)
  acquire_lease-exclusive fails fails' clock clock' l l' now now' db u same g before =
      let at : Time = time_or clock now in
      elim (acquire_lease-Granted sys fails clock db u l now).at [
        | inl (denied, kept) ↦ absurd (ground (arith, denied, g))
        | inr (given, free, row) ↦
            let found : held (acquire_lease sys fails clock l now db).1.leases l'.name
                ≡ some (normalize_lease clock at l) =
              rw (row l'.name, same, eq_refl l.name) refl in
            (acquire_lease-refused fails' clock' l' now' _ _ found
              (active_until clock at _ l before)).at
      ]
