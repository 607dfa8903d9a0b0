-- ===== src/State/Holds.antt =====
-- Postconditions of actions: a rule for each way to put actions together, errors included.
use agent_machine.Common.{◌≡◌, refl, Bool, true, false}
use agent_machine.State.{
  Db, Error, db_error, Result, ok, err, Check, pass, fail, Exec, continue, ◌>>=◌, ◌>>◌, choose,
  roll_back, transact,
}

-- `P` holds of the result of `m` on `db` and of the database that it leaves.
pub record Holds {A : Type 0} (P : Result A × Db → Type 0) (m : Exec A) (db : Db) : Type 0 where
  pub at : P (m db)

pub Holds-map :
    {A : Type 0} {P Q : Result A × Db → Type 0} (m : Exec A) (db : Db)
    → ((out : Result A × Db) → P out → Q out)
    → Holds P m db
    → Holds Q m db
Holds-map m db f h = record { at = f (m db) h.at }

module _ {A : Type 0} {P : Result A × Db → Type 0} where
  pub Holds-check :
      (c : Check) (m : Exec A) (db : Db)
      → ((e : Error) → P (err e, db))
      → Holds P m db
      → Holds P (c >> m) db
  unfolding ◌>>◌
  Holds-check pass m db he h = record { at = h.at }
  Holds-check (fail e) m db he h = record { at = he e }

  -- where the rest needs the outcome of the test
  pub Holds-test :
      (c : Check) (m : Exec A) (db : Db)
      → ((e : Error) → P (err e, db))
      → (c ≡ pass → Holds P m db)
      → Holds P (c >> m) db
  unfolding ◌>>◌
  Holds-test pass m db he h = record { at = (h refl).at }
  Holds-test (fail e) m db he h = record { at = he e }

  pub Holds-choose :
      (b : Bool) (m n : Exec A) (db : Db)
      → (b ≡ true → Holds P m db)
      → (b ≡ false → Holds P n db)
      → Holds P (choose b m n) db
  unfolding choose
  Holds-choose true m n db hm hn = record { at = (hm refl).at }
  Holds-choose false m n db hm hn = record { at = (hn refl).at }

-- what the parts of a transaction and of a sequence must grant
abbrev pub Rolled : {A : Type 0} → (Result A × Db → Type 0) → Db → Result A × Db → Type 0
Rolled P before (ok a, db) = P (ok a, db)
Rolled P before (err e, db) = P (err e, before)

abbrev pub Then : {A B : Type 0} → (Result B × Db → Type 0) → (A → Exec B) → Result A × Db → Type 0
Then P f (ok a, db) = Holds P (f a) db
Then P f (err e, db) = P (err e, db)

module _ {A : Type 0} (P : Result A × Db → Type 0) where
  rolled_back :
      (before : Db) (r : Result A) (after : Db)
      → Rolled P before (r, after)
      → P (roll_back before (r, after))
  rolled_back before (ok a) after h = h
  rolled_back before (err e) after h = h

  pub Holds-transact :
      (b : Bool) (m : Exec A) (db : Db)
      → P (err db_error, db)
      → Holds (Rolled P db) m db
      → Holds P (transact b m) db
  unfolding transact
  Holds-transact true m db he h = record { at = he }
  Holds-transact false m db he h =
      let (r, after) = m db in record { at = rolled_back db r after h.at }

module _ {A B : Type 0} (P : Result B × Db → Type 0) where
  pub Then-cases :
      (f : A → Exec B) (r : Result A) (db : Db)
      → ((e : Error) → P (err e, db))
      → ((a : A) → Holds P (f a) db)
      → Then P f (r, db)
  Then-cases f (ok a) db he h = h a
  Then-cases f (err e) db he h = he e

  then-continue : (f : A → Exec B) (r : Result A) (db : Db) → Then P f (r, db) → P (continue db f r)
  then-continue f (ok a) db h = h.at
  then-continue f (err e) db h = h

  pub Holds-bind :
      (m : Exec A) (f : A → Exec B) (db : Db) → Holds (Then P f) m db → Holds P (m >>= f) db
  unfolding ◌>>=◌
  Holds-bind m f db h = let (r, db') = m db in record { at = then-continue f r db' h.at }
