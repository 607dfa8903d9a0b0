-- ===== src/State/Leases/Rows.antt =====
-- The rows of the leases: UPDATE and INSERT by the name of a lease.
use agent_machine.Common.{
  String, ◌≡◌, refl, arith, Bool, true, none, some, List, [], ◌∷◌, ◌++◌, inl, inr, ◌⊎◌, ◌==◌,
  eq_iff, Bool-cases, Option-cases, if◌then◌else◌,
}
use agent_machine.Common.Table.{
  find, passes, applied, IsUnique, find-update_keyed, count-keyed, update_where_none, find-key,
}
use agent_machine.State.{Lease, lease_key}
use agent_machine.State.Leases.{held, leases_affected, set_lease}

abbrev pub HasUniqueNames : List Lease → Type 0
HasUniqueNames leases = IsUnique lease_key leases

pub name_of_held :
    (name : String) (leases : List Lease) (l : Lease) → held leases name ≡ some l → l.name ≡ name
unfolding held
name_of_held name leases l h = find-key lease_key name leases l h

module _ (name : String) (p : Lease → Bool) (leases : List Lease) where
  pub leases_affected_lem :
      HasUniqueNames leases
      → leases_affected name p leases ≡ (if passes p (held leases name) then 1 else 0)
  unfolding leases_affected held
  leases_affected_lem u = count-keyed lease_key p name leases u

  module _ (f : Lease → Lease) (same : (l : Lease) → lease_key (f l) ≡ lease_key l) where
    pub held-set_lease :
        (j : String)
        → held (set_lease name p f leases) j
          ≡ (if name == j then applied p f (held leases name) else held leases j)
    unfolding held set_lease
    held-set_lease j = find-update_keyed lease_key p f same name j leases

    unchanged : leases_affected name p leases ≡ 0 → set_lease name p f leases ≡ leases
    unfolding leases_affected set_lease
    unchanged h = update_where_none _ f leases h

    -- The statement affects no row and changes nothing, or it affects the one row of the name.
    pub leases_updated :
        HasUniqueNames leases
        → ((leases_affected name p leases ≡ 0) × (set_lease name p f leases ≡ leases))
          ⊎ ((l : Lease) × (held leases name ≡ some l)
              × (p l ≡ true)
              × (leases_affected name p leases ≡ 1)
              × ((j : String)
                  → held (set_lease name p f leases) j
                    ≡ (if name == j then some (f l) else held leases j)))
    leases_updated u = elim (Option-cases (held leases name)) [
      | inl n ↦
          let z : leases_affected name p leases ≡ 0 = rw (leases_affected_lem u, n) in
          inl (z, unchanged z)
      | inr (l, h) ↦ elim (Bool-cases (p l)) [
        | inl e ↦ inr (l, h, e, rw (leases_affected_lem u, h, e), λ j. rw (held-set_lease j, h, e))
        | inr e ↦
            let z : leases_affected name p leases ≡ 0 = rw (leases_affected_lem u, h, e) in
            inl (z, unchanged z)
      ]
    ]

pub held-append :
    (leases : List Lease) (new : Lease) (j : String)
    → held leases new.name ≡ none
    → held (leases ++ new ∷ []) j ≡ (if new.name == j then some new else held leases j)
unfolding held find
held-append [] new j h = refl
held-append (l ∷ leases) new j h =
    ground
      (arith, held-append leases new j, eq_iff l.name j, eq_iff new.name j, eq_iff l.name new.name)
