-- ===== src/State/Leases/Acquire.antt =====
-- Who holds a lease after AcquireLease and ReclaimLease, whatever call of the database fails.
use agent_machine.Common.{
  String, ◌≡◌, refl, sym, Bool, true, false, Option, some, List, inl, inr, ◌⊎◌, ◌==◌, Option-cases,
  if◌then◌else◌,
}
use agent_machine.Common.Table.{passes}
use agent_machine.State.{Time, Platform, Lease, Db, Result, ok, err, Call, lease_key, time_or}
use agent_machine.State.Holds.{Holds, Holds-check, Holds-choose, Holds-transact, Holds-bind}
use agent_machine.State.Leases.{
  held, take_lease, normalize_lease, is_lapsed, is_unreleased, is_owned_unreleased, is_active,
  acquire_found, acquire_lease, reclaim_found, reclaim_lease,
}
use agent_machine.State.Leases.Rows.{HasUniqueNames, name_of_held, leases_updated, held-append}

abbrev pub granted : Result Bool → Bool
granted (ok b) = b
granted (err e) = false

-- The lease was granted and its row is now the new one, or it was not and no lease changed.
abbrev pub Granted : (Option Lease → Type 0) → Lease → List Lease → Result Bool × Db → Type 0
Granted Free new before out =
    ((granted out.0 ≡ false) × (out.1.leases ≡ before))
    ⊎ ((out.0 ≡ ok true)
        × Free (held before new.name)
        × ((j : String)
            → held out.1.leases j ≡ (if new.name == j then some new else held before j)))

-- no lease, or one that is over at `at`
abbrev pub IsFree : Time → Option Lease → Type 0
IsFree at o = passes (is_active at) o ≡ false

-- a lease that its owner has not released
abbrev pub IsHeldUnreleased : Option Lease → Type 0
IsHeldUnreleased o = passes is_unreleased o ≡ true

take_lease_same : (new old : Lease) → new.name ≡ old.name → take_lease new old ≡ new
unfolding take_lease
take_lease_same new old e = rw e refl

take_lease-name : (new old : Lease) → lease_key (take_lease new old) ≡ lease_key old
unfolding take_lease
take_lease-name new old = refl

module _ (sys : Platform) (fails : Call → Bool) (clock : Time) (db : Db)
    (u : HasUniqueNames db.leases) where
  -- Whatever call of the database fails, AcquireLease grants a lease only where the store has none of
  -- its name or one that is over, and the row of that name is then the new lease. Where it does not
  -- grant, no lease changes; in neither case does a lease of another name.
  -- The leases of the store have different names.
  pub acquire_lease-Granted :
      (l : Lease) (now : Time)
      → let at = time_or clock now in
        Holds
          (Granted (IsFree at) (normalize_lease clock at l) db.leases)
          (acquire_lease sys fails clock l now)
          db
  unfolding acquire_lease acquire_found
  acquire_lease-Granted l now =
      let at : Time = time_or clock now in
      let new : Lease = normalize_lease clock at l in
      Holds-check _ _ db (λ e. inl (refl, refl))
        (Holds-check _ _ db (λ e. inl (refl, refl))
          (Holds-check _ _ db (λ e. inl (refl, refl))
            (Holds-transact _ _ _ db (inl (refl, refl)) (
              Holds-check _ _ db (λ e. inl (refl, refl))
                (Holds-bind _ _ _ db (record {
                  at = elim (Option-cases (held db.leases l.name)) [
                    | inl n ↦ rw n (
                        Holds-bind _ _ _ db (record {
                          at =
                              Holds-check _ _ _ (λ e. inl (refl, refl))
                                (record {
                                  at = inr (refl, rw n refl, λ j. held-append db.leases new j n);
                                });
                        }))
                    | inr (old, h) ↦ rw h (
                        Holds-check _ _ db (λ e. inl (refl, refl))
                          (Holds-choose _ _ _ db (λ a. record { at = inl (refl, refl) })
                            (λ a.
                              Holds-check _ _ db (λ e. inl (refl, refl))
                                (Holds-bind _ _ _ db
                                  (elim (leases_updated l.name (is_lapsed sys at) db.leases
                                    (take_lease new) (take_lease-name new) u) [
                                      | inl (z, same) ↦ record {
                                        at =
                                            Holds-choose _ _ _ _
                                              (λ e. record { at = inl (refl, same) }) (λ e. cc);
                                      }
                                      | inr (r, g, q, z, after) ↦ record {
                                        at =
                                            Holds-choose _ _ _ _ (λ e. cc)
                                              (λ e. Holds-bind _ _ _ _ (
                                                Holds-check _ _ _ (λ e. inl (refl, refl))
                                                  (record {
                                                    at =
                                                        Holds-check _ _ _ (λ e. inl (refl, refl))
                                                          (record {
                                                            at = inr (
                                                            refl,
                                                            rw (h, a) refl,
                                                            λ j.
                                                            rw
                                                            (
                                                            after j,
                                                            take_lease_same new r (
                                                            sym
                                                            (name_of_held l.name db.leases r g)),
                                                            )
                                                            refl,
                                                            );
                                                          });
                                                  })));
                                      }
                                    ])))))
                  ];
                }))))))

  -- Whatever call of the database fails, ReclaimLease grants a lease only where the store has one of
  -- its name that is not released, and the row of that name is then the new lease. Where it does not
  -- grant, no lease changes; in neither case does a lease of another name.
  -- The leases of the store have different names.
  pub reclaim_lease-Granted :
      (l : Lease) (now : Time) (reason : String)
      → Holds
          (Granted IsHeldUnreleased (normalize_lease clock (time_or clock now) l) db.leases)
          (reclaim_lease sys fails clock l now reason)
          db
  unfolding reclaim_lease reclaim_found
  reclaim_lease-Granted l now reason =
      let at : Time = time_or clock now in
      let new : Lease = normalize_lease clock at l in
      Holds-check _ _ db (λ e. inl (refl, refl))
        (Holds-check _ _ db (λ e. inl (refl, refl))
          (Holds-check _ _ db (λ e. inl (refl, refl))
            (Holds-transact _ _ _ db (inl (refl, refl)) (
              Holds-check _ _ db (λ e. inl (refl, refl))
                (Holds-bind _ _ _ db (record {
                  at = elim (Option-cases (held db.leases l.name)) [
                    | inl n ↦ rw n (record { at = inl (refl, refl) })
                    | inr (old, h) ↦ rw h (
                        Holds-choose _ _ _ db
                          (λ a.
                            Holds-check _ _ db (λ e. inl (refl, refl))
                              (Holds-bind _ _ _ db
                                (elim (leases_updated l.name (is_owned_unreleased old.owner)
                                  db.leases (take_lease new) (take_lease-name new) u) [
                                    | inl (z, same) ↦ record {
                                      at =
                                          Holds-choose _ _ _ _
                                            (λ e. record { at = inl (refl, same) }) (λ e. cc);
                                    }
                                    | inr (r, g, q, z, after) ↦ record {
                                      at =
                                          Holds-choose _ _ _ _ (λ e. cc)
                                            (λ e. Holds-bind _ _ _ _ (
                                              Holds-check _ _ _ (λ e. inl (refl, refl))
                                                (record {
                                                  at =
                                                      Holds-check _ _ _ (λ e. inl (refl, refl))
                                                        (record {
                                                          at = inr (
                                                            refl,
                                                            rw (h, a) refl,
                                                            λ j.
                                                            rw
                                                            (
                                                            after j,
                                                            take_lease_same new r (
                                                            sym
                                                            (name_of_held l.name db.leases r g)),
                                                            )
                                                            refl,
                                                          );
                                                        });
                                                })));
                                    }
                                  ])))
                          (λ a. record { at = inl (refl, refl) }))
                  ];
                }))))))
